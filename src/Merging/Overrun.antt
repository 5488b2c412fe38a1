-- ===== src/Merging/Overrun.antt =====
-- Where a block is larger than the request by less than a header, the code splits it all the same.
use operation_systems.Common.{
  ℕ, ◌+◌, ◌-◌, ◌^◌, ◌≤◌, ◌<◌, ◌≡◌, ◌∙◌, ap, sym, refl, if-all, Bool, true, false, ◌||◌, none, List,
  [], ◌∷◌, ltb, leb, ◌==◌, arith, some,
}
use operation_systems.Alloc.{Block, Stats, Heap}
use operation_systems.Merging.Nodes.{unwind}
use operation_systems.Merging.Calls.{
  max_size, remain, aligned, fits, left_over, reuse, find_free, malloc, shrink, realloc_node,
  realloc_from, realloc,
}
use operation_systems.Merging.Whole.{TiledDown, unwind-Tiled, IsHeap}
use operation_systems.Merging.Freed.{Tiled-here}
use operation_systems.Merging.Taken.{split-tight}

-- No node in front of a place fits.
abbrev pub NoneFits : ℕ → List Block → Type 0
NoneFits req [] = Unit {0}
NoneFits req (b ∷ before) = (fits req b ≡ false) × NoneFits req before

-- The unsigned difference is then near 2 ^ 64, and not below 128.
left_over-tight :
    (meta size req : ℕ)
    → req ≤ size
    → size < req + meta
    → meta ≤ 2 ^ 32
    → remain ≤ left_over meta size req
left_over-tight meta size req l t m = omega arith

module _ (meta req : ℕ) (image : List Block → ℕ → ℕ) (grants : ℕ → ℕ → Bool) (h : Heap) where
  find_free-unwind :
      (before bs : List Block)
      → NoneFits req before
      → find_free meta image grants req [] (unwind before bs) h
        ≡ find_free meta image grants req before bs h
  unfolding find_free
  find_free-unwind [] bs n = refl
  find_free-unwind (c ∷ before) bs (f, n) = find_free-unwind before (c ∷ bs) n ∙ rw (f, find_free)

module _ (meta req : ℕ) (before : List Block) (b : Block) (after : List Block) (fit : req ≤ b.size)
    (tight : b.size < req + meta) (header : meta ≤ 2 ^ 32) where
  no_room : ltb b.size (req + meta) ≡ true
  no_room = ground arith

  reuse-tight :
      (image : List Block → ℕ → ℕ) (h : Heap) → reuse meta image req before b after h ≡ none
  unfolding reuse
  reuse-tight image h =
      let splits : ltb (left_over meta b.size req) remain ≡ false =
        ground (arith, left_over-tight meta b.size req fit tight header) in
      rw (splits, split-tight before b after req meta h.stats no_room)

  shrink-tight : (s : Stats) → shrink meta req before b after s ≡ none
  unfolding shrink
  shrink-tight s =
      let splits : leb remain (left_over meta b.size req) ≡ true =
        ground (arith, left_over-tight meta b.size req fit tight header) in
      rw (splits, split-tight before b after req meta s no_room)

-- Where the first free block that fits a request in range is larger than it by less than a header, `malloc`
-- does not give it out as it is, but writes the header of a second node past its end.
pub malloc-tight :
    (meta size : ℕ) (image : List Block → ℕ → ℕ) (grants : ℕ → ℕ → Bool) (h : Heap)
    (before after : List Block) (b : Block)
    → meta ≤ 2 ^ 32
    → 0 < size
    → size ≤ max_size
    → h.first_alloc ≡ false
    → h.blocks ≡ unwind before (b ∷ after)
    → NoneFits (aligned size) before
    → b.is_freed ≡ true
    → aligned size ≤ b.size
    → b.size < aligned size + meta
    → malloc meta image grants size h ≡ none
unfolding malloc find_free
malloc-tight meta size image grants h before after b header positive small later at n freed fit
      tight =
    let in_range : ltb max_size size || size == 0 ≡ false = ground arith in
    let first_fit : fits (aligned size) b ≡ true = ground arith in
    rw in_range (
      if-all (λ r. r ≡ none) h.first_alloc _ _ (λ e. absurd (true≢false (sym e ∙ later)))
        (λ e.
          ap (λ bs. find_free meta image grants (aligned size) [] bs h) at
          ∙ find_free-unwind meta (aligned size) image grants h before (b ∷ after) n
          ∙ rw
              (first_fit, reuse-tight meta (aligned size) before b after fit tight header image h)))
  where
    true≢false : true ≡ false → ⊥
    true≢false e = cc

module _ (meta low p size : ℕ) (image : List Block → ℕ → ℕ) (grants : ℕ → ℕ → Bool) (h : Heap) where
  realloc_from-unwind :
      (mid : ℕ) (before bs : List Block)
      → TiledDown meta low before mid
      → mid < p
      → realloc_from meta image grants p size [] (unwind before bs) h
        ≡ realloc_from meta image grants p size before bs h
  unfolding realloc_from
  realloc_from-unwind mid [] bs d l = refl
  realloc_from-unwind mid (c ∷ before) bs (e, f, d) l =
      let other : (c.start == p) ≡ false = ground arith in
      realloc_from-unwind (c.start - meta) before (c ∷ bs) d (omega arith)
      ∙ rw (other, realloc_from)

realloc_node-tight :
    (meta req : ℕ) (image : List Block → ℕ → ℕ) (grants : ℕ → ℕ → Bool) (before : List Block)
    (b : Block) (after : List Block) (h : Heap)
    → req ≤ b.size
    → b.size < req + meta
    → meta ≤ 2 ^ 32
    → realloc_node meta image grants req before b after h ≡ none
unfolding realloc_node
realloc_node-tight meta req image grants before b [] h fit tight header =
    let larger : leb req b.size ≡ true = ground arith in
    rw (larger, shrink-tight meta req before b [] fit tight header h.stats)
realloc_node-tight meta req image grants before b (up ∷ after) h fit tight header =
    let larger : leb req b.size ≡ true = ground arith in
    rw (larger, shrink-tight meta req before b (up ∷ after) fit tight header h.stats)

-- On a whole heap `realloc` of a block to a size in range that it is larger than by less than a header, as
-- to its own size, writes the header of a second node past the block's end.
pub realloc-tight :
    (meta low size : ℕ) (image : List Block → ℕ → ℕ) (grants : ℕ → ℕ → Bool) (h : Heap)
    (before after : List Block) (b : Block)
    → 0 < meta
    → meta ≤ 2 ^ 32
    → IsHeap meta low h
    → 0 < size
    → size ≤ max_size
    → h.blocks ≡ unwind before (b ∷ after)
    → aligned size ≤ b.size
    → b.size < aligned size + meta
    → realloc meta image grants (some b.start) size h ≡ none
unfolding realloc realloc_from
realloc-tight meta low size image grants h before after b some_header header v positive small at fit
      tight =
    let in_range : size == 0 || ltb max_size size ≡ false = ground arith in
    let same : (b.start == b.start) ≡ true = ground arith in
    let (mid, d, (e, t)) =
      unwind-Tiled meta low h.brk before (b ∷ after) (Tiled-here meta low before after b h v at) in
    rw in_range (
      ap (λ bs. realloc_from meta image grants b.start (aligned size) [] bs h) at
      ∙ realloc_from-unwind meta low b.start (aligned size) image grants h mid before (b ∷ after) d
          (omega arith)
      ∙ rw (
        same,
        realloc_node-tight meta (aligned size) image grants before b after h fit tight header,
      ))
