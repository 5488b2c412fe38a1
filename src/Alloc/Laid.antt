-- ===== src/Alloc/Laid.antt =====
-- The counters match the list of blocks, and the blocks do not overlap, after every call.
use operation_systems.Common.{
  ℕ, ◌+◌, ◌≤◌, ◌<◌, ◌≡◌, ◌≢◌, ◌∙◌, ap, sym, refl, Bool, true, false, ◌||◌, Option, none, some, List,
  [], ◌∷◌, ◌++◌, ltb, ◌==◌, if◌then◌else◌, arith,
}
use operation_systems.Common.Int.{plus_pos, minus_pos, pos}
use operation_systems.Alloc.Memory.{Block, Heap, is_minus_one, relink, in_header}
use operation_systems.Alloc.FirstFit.{
  Result, max_size, find_free, lookup, count_used, begin_list, first_allocation, append_node,
  extend, reuse_or_extend, malloc,
}
use operation_systems.Alloc.Headers.{store_headers-clean, store_headers-outside}
use operation_systems.Alloc.Blocks.{
  total_size, freed_count, freed_size, node_count, Laid, total_size-Replaces, node_count-Replaces,
  freed_count-Replaces, freed_size-Replaces, Laid-Replaces, Taken, find_free-Taken, lookup-Replaces,
  lookup-Replaced, end-lookup, lookup-append, lookup-append_new,
}

pub record IsHeap (meta : ℕ) (h : Heap) : Type 0 where
  pub none_yet : h.first_alloc ≡ true → h.blocks ≡ []
  pub free_blocks : h.stats.num_free_blocks ≡ pos (freed_count h.blocks)
  pub free_bytes : h.stats.num_free_bytes ≡ pos (freed_size h.blocks)
  pub allocated_blocks : h.stats.num_allocated_blocks ≡ pos (node_count h.blocks)
  pub allocated_bytes : h.stats.num_allocated_bytes ≡ pos (total_size h.blocks)
  pub meta_data_blocks : h.stats.num_meta_data_blocks ≡ pos (node_count h.blocks)
  pub laid : Laid meta 0 h.blocks h.brk
  pub clean : (a : ℕ) → h.brk ≤ a → h.mem a ≡ 0

true_not_false : true ≡ false → ⊥
true_not_false e = cc

module _ (bs : List Block) (b : Block) where
  total_size-append : total_size (bs ++ b ∷ []) ≡ total_size bs + b.size
  total_size-append = go bs
    where
      go : (xs : List Block) → total_size (xs ++ b ∷ []) ≡ total_size xs + b.size
      go [] = omega arith
      go (x ∷ xs) = omega (arith, go xs)

  node_count-append : node_count (bs ++ b ∷ []) ≡ node_count bs + 1
  node_count-append = go bs
    where
      go : (xs : List Block) → node_count (xs ++ b ∷ []) ≡ node_count xs + 1
      go [] = omega arith
      go (x ∷ xs) = omega (arith, go xs)

module _ (b : Block) (used : b.is_freed ≡ false) where
  freed_count-append : (bs : List Block) → freed_count (bs ++ b ∷ []) ≡ freed_count bs
  freed_count-append [] = ground arith
  freed_count-append (x ∷ bs) = omega (arith, freed_count-append bs)

  freed_size-append : (bs : List Block) → freed_size (bs ++ b ∷ []) ≡ freed_size bs
  freed_size-append [] = ground arith
  freed_size-append (x ∷ bs) = omega (arith, freed_size-append bs)

Laid-append :
    (meta low top top' : ℕ) (bs : List Block) (b : Block)
    → Laid meta low bs top
    → top + meta ≤ b.start
    → b.start + b.size ≤ top'
    → Laid meta low (bs ++ b ∷ []) top'
Laid-append meta low top top' [] b l p q = (omega arith, q)
Laid-append meta low top top' (x ∷ bs) b (l, m) p q =
    (l, Laid-append meta (x.start + x.size) top top' bs b m p q)

-- What `malloc` promises: NULL leaves the blocks as they were; a pointer is to a block of at least the
-- size asked for, in use, that was not in use before; and every block that was in use still is.
abbrev pub Keeps : Heap → ℕ → Heap → Type 0
Keeps h q h' =
    (r : ℕ) (c : Block)
    → lookup r h.blocks ≡ some c
    → c.is_freed ≡ false
    → (r ≢ q) × (lookup r h'.blocks ≡ some c)

abbrev pub Allocates : ℕ → Heap → Option ℕ → Heap → Type 0
Allocates size h none h' = h'.blocks ≡ h.blocks
Allocates size h (some q) h' =
    ((b : Block) × (lookup q h'.blocks ≡ some b) × (size ≤ b.size) × (b.is_freed ≡ false))
    × Keeps h q h'

-- NULL leaves the memory as it was; a pointer leaves every byte outside of the headers.
abbrev pub Stores : ℕ → Heap → Option ℕ → Heap → Type 0
Stores meta h none h' = h'.mem ≡ h.mem
Stores meta h (some q) h' = (a : ℕ) → in_header meta h'.blocks a ≡ false → h'.mem a ≡ h.mem a

-- The call returns, and what it leaves satisfies `P`.
abbrev pub Returns : (Option ℕ → Heap → Type 0) → Result → Type 0
Returns P none = ⊥
Returns P (some (p, h)) = P p h

pub branch-Returns :
    (P : Option ℕ → Heap → Type 0) (b : Bool) (x y : Result)
    → (b ≡ true → Returns P x)
    → (b ≡ false → Returns P y)
    → Returns P (if b then x else y)
branch-Returns P true x y f g = f refl
branch-Returns P false x y f g = g refl

module _ (meta : ℕ) (image : List Block → ℕ → ℕ) (grants : ℕ → ℕ → Bool) (header : 0 < meta)
    (size : ℕ) (h : Heap) (v : IsHeap meta h) where
  abbrev Good : Option ℕ → Heap → Type 0
  Good p h' = IsHeap meta h' × Allocates size h p h' × Stores meta h p h'

  no_block : (r : ℕ) (c : Block) → lookup r [] ≡ some c → ⊥
  unfolding lookup
  no_block r c e = cc

  abbrev fresh_block : Block
  fresh_block = record { start = h.brk + meta; size = size; is_freed = false }

  only_block : lookup (h.brk + meta) (fresh_block ∷ []) ≡ some fresh_block
  unfolding lookup
  only_block = ground arith

  begin_list-Good :
      h.first_alloc ≡ true
      → Returns Good
          (begin_list meta image grants size h.brk (record h { brk = h.brk + (size + meta) }))
  begin_list-Good first =
      let fresh : h.mem h.brk ≡ 0 = v.clean h.brk (omega arith) in
      let no_blocks : h.blocks ≡ [] = v.none_yet first in
      let not_minus_one : is_minus_one h.mem h.brk ≡ false = ground (arith, fresh) in
      rw (not_minus_one, fresh)
        (
          record {
            none_yet = λ e. cc;
            free_blocks = ground (arith, v.free_blocks, ap freed_count no_blocks);
            free_bytes = refl;
            allocated_blocks = refl;
            allocated_bytes = ap pos (omega arith);
            meta_data_blocks = refl;
            laid = (omega (arith), omega arith);
            clean =
                store_headers-clean meta 0 (h.brk + (size + meta)) image (fresh_block ∷ []) h.mem
                  (omega arith, omega arith) (λ a l. v.clean a (omega arith));
          },
          (
            (_, only_block, omega arith, refl),
            λ r c e used. absurd (no_block r c (ap (lookup r) (sym no_blocks) ∙ e)),
          ),
          λ a out. store_headers-outside meta image (fresh_block ∷ []) h.mem a out,
        )

  append_node-Good :
      h.first_alloc ≡ false
      → Returns Good
          (append_node meta image grants size h.brk (record h { brk = h.brk + (size + meta) }))
  append_node-Good first =
      let fresh : h.mem h.brk ≡ 0 = v.clean h.brk (omega arith) in
      let not_minus_one : is_minus_one h.mem h.brk ≡ false = ground (arith, fresh) in
      rw not_minus_one (
        record {
          none_yet = λ e. absurd (true_not_false (sym e ∙ first));
          free_blocks = v.free_blocks ∙ ap pos (sym (freed_count-append fresh_block refl h.blocks));
          free_bytes = v.free_bytes ∙ ap pos (sym (freed_size-append fresh_block refl h.blocks));
          allocated_blocks = plus_pos 1 v.allocated_blocks (node_count-append h.blocks fresh_block);
          allocated_bytes =
              plus_pos size v.allocated_bytes (total_size-append h.blocks fresh_block);
          meta_data_blocks = plus_pos 1 v.meta_data_blocks (node_count-append h.blocks fresh_block);
          laid = laid_new;
          clean =
              store_headers-clean meta 0 (h.brk + (size + meta)) image
                (h.blocks ++ fresh_block ∷ []) h.mem laid_new (λ a l. v.clean a (omega arith));
        },
        (
          (
            fresh_block,
            lookup-append_new meta 0 h.brk h.blocks fresh_block v.laid (omega arith),
            omega arith,
            refl,
          ),
          λ r c e used. (
            omega (arith, end-lookup meta 0 h.brk r h.blocks c v.laid e),
            lookup-append h.blocks fresh_block r c e,
          ),
        ),
        λ a out. store_headers-outside meta image (h.blocks ++ fresh_block ∷ []) h.mem a out,
      )
    where
      laid_new : Laid meta 0 (h.blocks ++ fresh_block ∷ []) (h.brk + (size + meta))
      laid_new =
          Laid-append meta 0 h.brk (h.brk + (size + meta)) h.blocks fresh_block v.laid (omega arith)
            (omega arith)

  reuse-Good :
      h.first_alloc ≡ false
      → (b : Block) (bs : List Block) → Taken size h.blocks (some (b, bs))
      → Good (some b.start) (record (relink meta image bs h) { stats = count_used b.size h.stats })
  reuse-Good first b bs (r, fits, was_free) = (
    record {
      none_yet = λ e. absurd (true_not_false (sym e ∙ first));
      free_blocks = minus_pos 1 v.free_blocks (ground (arith, freed_count-Replaces r));
      free_bytes = minus_pos b.size v.free_bytes (ground (arith, freed_size-Replaces r));
      allocated_blocks = v.allocated_blocks ∙ ap pos (sym (node_count-Replaces r));
      allocated_bytes = v.allocated_bytes ∙ ap pos (omega (arith, total_size-Replaces r));
      meta_data_blocks = v.meta_data_blocks ∙ ap pos (sym (node_count-Replaces r));
      laid = Laid-Replaces meta 0 h.brk r refl refl v.laid;
      clean =
          store_headers-clean meta 0 h.brk image bs h.mem
            (Laid-Replaces meta 0 h.brk r refl refl v.laid) v.clean;
    },
    (
      (
        used_block,
        ground (arith, lookup-Replaces meta 0 h.brk header r refl v.laid b.start),
        fits,
        refl,
      ),
      λ q c e used.
          let apart : q ≢ b.start = λ same. freed_one q c e used same in
          (apart, ground (arith, lookup-Replaces meta 0 h.brk header r refl v.laid q)),
    ),
    λ a out. store_headers-outside meta image bs h.mem a out,
  )
    where
      used_block : Block
      used_block = record b { is_freed = false }

      freed_one :
          (q : ℕ) (c : Block) → lookup q h.blocks ≡ some c → c.is_freed ≡ false → q ≡ b.start → ⊥
      freed_one q c e used same =
          ground
            (arith, lookup-Replaced meta 0 h.brk header r v.laid, ap (λ x. lookup x h.blocks) same)

  reuse_or_extend-Good :
      grants h.brk (size + meta) ≡ true
      → h.first_alloc ≡ false
      → (o : Option (Block × List Block)) → Taken size h.blocks o
      → Returns Good (reuse_or_extend meta image grants size h o)
  unfolding extend
  reuse_or_extend-Good granted later none t = rw (granted, extend) (append_node-Good later)
  reuse_or_extend-Good granted later (some (b, bs)) t = reuse-Good later b bs t

  first_allocation-Good :
      grants h.brk (size + meta) ≡ true
      → h.first_alloc ≡ true
      → Returns Good (first_allocation meta image grants size h)
  unfolding first_allocation
  first_allocation-Good granted first = rw (granted, first_allocation) (begin_list-Good first)

  -- If the system grants the memory, `malloc` on a valid heap returns a valid one, and keeps its promise.
  malloc-Good : grants h.brk (size + meta) ≡ true → Returns Good (malloc meta image grants size h)
  unfolding malloc
  malloc-Good granted =
      let by_search : Result = reuse_or_extend meta image grants size h (find_free size h.blocks) in
      let begun : Result = first_allocation meta image grants size h in
      branch-Returns Good (ltb max_size size || size == 0) (some (none, h))
        (if h.first_alloc then begun else by_search) (λ e. (v, refl, refl))
        (λ e.
          branch-Returns Good h.first_alloc begun by_search (first_allocation-Good granted)
            (λ later.
              reuse_or_extend-Good granted later (find_free size h.blocks)
                (find_free-Taken size h.blocks)))

-- On a valid heap, where the system grants the memory, `malloc` returns and leaves a valid heap. If it
-- returns NULL, the blocks and the memory are as before. A pointer is to a block of at least the size
-- asked for, in use, and no block that was in use before is there or has changed; no byte outside the
-- headers of the blocks has changed.
pub malloc-Allocates :
    (meta : ℕ) (image : List Block → ℕ → ℕ) (grants : ℕ → ℕ → Bool) (size : ℕ) (h : Heap)
    → 0 < meta
    → IsHeap meta h
    → grants h.brk (size + meta) ≡ true
    → (p : Option ℕ) × (h' : Heap) × (malloc meta image grants size h ≡ some (p, h'))
      × IsHeap meta h'
      × Allocates size h p h'
      × Stores meta h p h'
malloc-Allocates meta image grants size h header v granted =
    returned (malloc meta image grants size h)
      (malloc-Good meta image grants header size h v granted)
  where
    returned :
        (r : Result)
        → Returns (λ p h'. IsHeap meta h' × Allocates size h p h' × Stores meta h p h') r
        → (p : Option ℕ) × (h' : Heap) × (r ≡ some (p, h'))
          × IsHeap meta h'
          × Allocates size h p h'
          × Stores meta h p h'
    returned none e = absurd e
    returned (some (p, h')) (a, b, c) = (p, h', refl, a, b, c)
