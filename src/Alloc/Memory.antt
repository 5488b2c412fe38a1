-- ===== src/Alloc/Memory.antt =====
-- The blocks, the counters and the memory that the allocator works on.
use operation_systems.Common.{
  ℕ, ◌+◌, ◌-◌, Bool, false, ◌&&◌, ◌||◌, Option, none, some, List, [], ◌∷◌, ltb, leb, ◌==◌,
  if◌then◌else◌,
}
use operation_systems.Common.Int.{ℤ}

-- An `alloc_info_node_t` that is linked into the list. `start` is `allocation_start_ptr`, one header
-- behind the node's own address.
pub record Block : Type 0 where
  pub start : ℕ
  pub size : ℕ
  pub is_freed : Bool

-- The counters of `global_alloc_info_list`; a `size_t` holds such a number's remainder by 2 ^ 64.
pub record Stats : Type 0 where
  pub nodes : ℤ
  pub num_free_blocks : ℤ
  pub num_free_bytes : ℤ
  pub num_allocated_blocks : ℤ
  pub num_allocated_bytes : ℤ
  pub num_meta_data_bytes : ℤ
  pub num_meta_data_blocks : ℤ

-- The globals, the program break and the bytes of memory, headers included. `blocks` is the list from `head` on along
-- `next`; `prev` of its head is its last block.
pub record Heap : Type 0 where
  pub first_alloc : Bool
  pub blocks : List Block
  pub stats : Stats
  pub brk : ℕ
  pub mem : ℕ → ℕ

-- `*(int *)p == -1`
abbrev pub is_minus_one : (ℕ → ℕ) → ℕ → Bool
is_minus_one mem p =
    mem p == 255 && (mem (p + 1) == 255 && (mem (p + 2) == 255 && mem (p + 3) == 255))

abbrev pub memset_zero : ℕ → ℕ → (ℕ → ℕ) → ℕ → ℕ
memset_zero p n mem a = if leb p a && ltb a (p + n) then 0 else mem a

abbrev pub memcpy : ℕ → ℕ → ℕ → (ℕ → ℕ) → ℕ → ℕ
memcpy to from n mem a = if leb to a && ltb a (to + n) then mem (from + (a - to)) else mem a

-- The byte at `a` is in the header of a block, the `meta` bytes in front of it.
unfoldable pub in_header : ℕ → List Block → ℕ → Bool
in_header meta [] a = false
in_header meta (b ∷ bs) a = leb b.start (a + meta) && ltb a b.start || in_header meta bs a

-- The memory with the headers of the blocks stored in it. `image` says which bytes the structs of a list
-- are made of, which the compiler's layout and the pointers between them decide.
unfoldable pub store_headers : ℕ → (List Block → ℕ → ℕ) → List Block → (ℕ → ℕ) → ℕ → ℕ
unfolding in_header
store_headers meta image bs mem a = if in_header meta bs a then image bs a else mem a

-- The heap with new fields in its headers.
abbrev pub relink : ℕ → (List Block → ℕ → ℕ) → List Block → Heap → Heap
relink meta image bs h = record h { blocks = bs; mem = store_headers meta image bs h.mem }

-- `sbrk(n)`, where `grants` says whether the system moves the break. A failing call returns
-- (void *)-1, and the code then reads an int there: `none` is that fault.
abbrev pub sbrk : (ℕ → ℕ → Bool) → ℕ → Heap → Option (ℕ × Heap)
sbrk grants n h = if grants h.brk n then some (h.brk, record h { brk = h.brk + n }) else none
