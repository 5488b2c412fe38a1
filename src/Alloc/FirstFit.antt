-- ===== src/Alloc/FirstFit.antt =====
-- `malloc`, `free`, `calloc` and `realloc` of HW4/malloc_2.cpp. A pointer is `none` for NULL; a call is
-- `none` where the code reads through a pointer that is none of its own.
use operation_systems.Common.{
  ℕ, ◌+◌, ◌*◌, ◌%◌, ◌^◌, Bool, true, false, ◌&&◌, ◌||◌, not, Option, none, some, List, [], ◌∷◌,
  ◌++◌, ltb, leb, ◌==◌, if◌then◌else◌,
}
use operation_systems.Common.Int.{pos, ◌+ℤ◌, ◌-ℤ◌}
use operation_systems.Alloc.Memory.{
  Block, Stats, Heap, relink, is_minus_one, memset_zero, memcpy, sbrk,
}

abbrev pub max_size : ℕ
max_size = 100000000

abbrev pub Result : Type 0
Result = Option (Option ℕ × Heap)

abbrev pub keep_block : Block → Option (Block × List Block) → Option (Block × List Block)
keep_block b none = none
keep_block b (some (found, bs)) = some (found, b ∷ bs)

-- The loop of `find_free_allocation_address`: the block as it was found, and the list with it in use.
unfoldable pub find_free : ℕ → List Block → Option (Block × List Block)
find_free req [] = none
find_free req (b ∷ bs) =
    let rest = keep_block b (find_free req bs) in
    if leb req b.size && b.is_freed then some (b, record b { is_freed = false } ∷ bs) else rest

-- The block whose header stands in front of `p`.
unfoldable pub lookup : ℕ → List Block → Option Block
lookup p [] = none
lookup p (b ∷ bs) = let rest = lookup p bs in if b.start == p then some b else rest

unfoldable pub mark_freed : ℕ → List Block → List Block
mark_freed p [] = []
mark_freed p (b ∷ bs) =
    let rest = mark_freed p bs in
    if b.start == p then record b { is_freed = true } ∷ bs else b ∷ rest

abbrev pub count_freed : ℕ → Stats → Stats
count_freed size s = record s {
  num_free_blocks = s.num_free_blocks +ℤ pos 1;
  num_free_bytes = s.num_free_bytes +ℤ pos size;
}

abbrev pub count_used : ℕ → Stats → Stats
count_used size s = record s {
  num_free_blocks = s.num_free_blocks -ℤ pos 1;
  num_free_bytes = s.num_free_bytes -ℤ pos size;
}

-- `meta` is `sizeof(alloc_info_node_t)`, `image` the bytes of the headers of a list.
module _ (meta : ℕ) (image : List Block → ℕ → ℕ) (grants : ℕ → ℕ → Bool) where
  -- `is_freed` of the first node is not written: it is what the memory holds.
  abbrev pub begin_list : ℕ → ℕ → Heap → Result
  begin_list req p h =
      if is_minus_one h.mem p
      then some (none, record h { first_alloc = true })
      else some (
        some (p + meta),
        record (relink meta image
            (record { start = p + meta; size = req; is_freed = not (h.mem p == 0) } ∷ []) h) {
              first_alloc = false;
              stats = record h.stats {
                nodes = pos 1;
                num_allocated_blocks = pos 1;
                num_allocated_bytes = pos req;
                num_free_bytes = pos 0;
                num_meta_data_blocks = pos 1;
                num_meta_data_bytes = pos meta;
              };
            },
      )

  unfoldable pub first_allocation : ℕ → Heap → Result
  first_allocation req h = elim (sbrk grants (req + meta) h) [
    | none ↦ none
    | some (p, h') ↦ begin_list req p h'
  ]

  -- A new node behind the last one.
  abbrev pub append_node : ℕ → ℕ → Heap → Result
  append_node size p h =
      if is_minus_one h.mem p
      then some (none, h)
      else some (
        some (p + meta),
        record (relink meta image
            (h.blocks ++ record { start = p + meta; size = size; is_freed = false } ∷ []) h) {
              stats = record h.stats {
                nodes = h.stats.nodes +ℤ pos 1;
                num_allocated_blocks = h.stats.num_allocated_blocks +ℤ pos 1;
                num_allocated_bytes = h.stats.num_allocated_bytes +ℤ pos size;
                num_meta_data_blocks = h.stats.num_meta_data_blocks +ℤ pos 1;
                num_meta_data_bytes = h.stats.num_meta_data_bytes +ℤ pos meta;
              };
            },
      )

  unfoldable pub extend : ℕ → Heap → Result
  extend size h = elim (sbrk grants (size + meta) h) [
    | none ↦ none
    | some (p, h') ↦ append_node size p h'
  ]

  abbrev pub reuse_or_extend : ℕ → Heap → Option (Block × List Block) → Result
  reuse_or_extend size h none = extend size h
  reuse_or_extend size h (some (b, bs)) =
      some (some b.start, record (relink meta image bs h) { stats = count_used b.size h.stats })

  unfoldable pub malloc : ℕ → Heap → Result
  malloc size h =
      if ltb max_size size || size == 0
      then some (none, h)
      else if h.first_alloc
      then first_allocation size h
      else reuse_or_extend size h (find_free size h.blocks)

  abbrev pub clear_new : ℕ → Result → Result
  clear_new n none = none
  clear_new n (some (none, h)) = some (none, h)
  clear_new n (some (some p, h)) = some (some p, record h { mem = memset_zero p n h.mem })

  -- The product is a `size_t`.
  unfoldable pub calloc : ℕ → ℕ → Heap → Result
  calloc num size h = clear_new (num * size % 2 ^ 64) (malloc (num * size % 2 ^ 64) h)

  -- The end of `realloc`, with the old block and what `malloc` returned.
  abbrev pub move_block : Block → Result → Result
  move_block old none = none
  move_block old (some (none, h)) = some (none, h)
  move_block old (some (some q, h)) = some (
    some q,
    record (relink meta image (mark_freed old.start h.blocks)
        (record h { mem = memcpy q old.start old.size h.mem })) {
          stats = count_freed old.size h.stats;
        },
  )

  abbrev pub resize : ℕ → Heap → Option Block → Result
  resize size h none = none
  resize size h (some old) =
      if leb size old.size then some (some old.start, h) else move_block old (malloc size h)

  abbrev pub realloc_at : ℕ → Heap → Option ℕ → Result
  realloc_at size h none = malloc size h
  realloc_at size h (some p) =
      if size == 0 || ltb max_size size then some (none, h) else resize size h (lookup p h.blocks)

  unfoldable pub realloc : Option ℕ → ℕ → Heap → Result
  realloc p size h = realloc_at size h p

module _ (meta : ℕ) (image : List Block → ℕ → ℕ) where
  abbrev pub free_block : Heap → Option Block → Option Heap
  free_block h none = none
  free_block h (some b) =
      if b.is_freed
      then some h
      else some (record (relink meta image (mark_freed b.start h.blocks) h) {
        stats = count_freed b.size h.stats;
      })

  abbrev pub free_at : Heap → Option ℕ → Option Heap
  free_at h none = some h
  free_at h (some p) = free_block h (lookup p h.blocks)

  unfoldable pub free : Option ℕ → Heap → Option Heap
  free p h = free_at h p
