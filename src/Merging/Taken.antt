-- ===== src/Merging/Taken.antt =====
-- A block is taken into use: whole, split, or grown at the end of the heap.
use operation_systems.Common.{
  ℕ, ◌+◌, ◌-◌, ◌≤◌, ◌<◌, ◌≡◌, ◌∙◌, ap, sym, refl, true, false, Option, none, some, List, [], ◌∷◌,
  ltb, inl, inr, Bool-cases, if-all, arith,
}
use mathlib.Core.Path.{subst}
use operation_systems.Common.Int.{pos, plus_pos, minus_pos}
use operation_systems.Alloc.{Block, Stats, Heap}
use operation_systems.Alloc.Headers.{store_headers-outside}
use operation_systems.Alloc.Blocks.{total_size, freed_count, freed_size, node_count}
use operation_systems.Merging.Nodes.{
  unwind, count_set_free, count_set_used, set_used, count_split, check_if_free_and_connect, split,
}
use operation_systems.Merging.Calls.{at_put, put_list, left_over, remain, reuse}
use operation_systems.Merging.Whole.{
  stored-clean, Outside, in_use, Counted, Apart, IsMerged, Meet, Tiled, total_size-unwind,
  node_count-unwind, freed_count-unwind, freed_size-unwind, Tiled-unwind, unwind-Tiled,
  unwind-IsMerged, IsMerged-unwind, IsWhole, IsHeap, IsWhole-now,
}
use operation_systems.Merging.Joined.{check_if_free_and_connect-IsWhole, in_use_around}
use operation_systems.Merging.Freed.{
  in_use-node, counted_here, Tiled-here, IsMerged-here, Tiled-exchanged,
}

pub Apart-in_use : (b : Block) (bs : List Block) → b.is_freed ≡ false → Apart b bs
Apart-in_use b [] f = tt
Apart-in_use b (c ∷ bs) f = ground arith

pub Meet-in_use : (before bs : List Block) (b : Block) → b.is_freed ≡ false → Meet before (b ∷ bs)
Meet-in_use [] bs b f = tt
Meet-in_use (c ∷ before) bs b f = ground arith

module _ (meta req : ℕ) (before : List Block) (b : Block) (after : List Block)
    (roomy : req + meta ≤ b.size) where
  abbrev front : Block
  front = record b { size = req; is_freed = false }

  abbrev rest : Block
  rest = record { start = b.start + req + meta; size = b.size - req - meta; is_freed = true }

  abbrev cut : List Block
  cut = unwind before (front ∷ rest ∷ after)

  cut_count : node_count cut ≡ node_count (unwind before (b ∷ after)) + 1
  cut_count =
      omega (
        arith,
        node_count-unwind before (b ∷ after),
        node_count-unwind before (front ∷ rest ∷ after),
      )

  cut_size : total_size (unwind before (b ∷ after)) ≡ total_size cut + meta
  cut_size =
      omega (
        arith,
        total_size-unwind before (b ∷ after),
        total_size-unwind before (front ∷ rest ∷ after),
      )

  cut-Counted :
      (s : Stats)
      → Counted (unwind before (b ∷ after)) s
      → Counted cut (count_set_free rest.size (count_split meta (set_used b s)))
  cut-Counted s c =
      if-all (λ x. Counted cut (count_set_free rest.size (count_split meta x))) b.is_freed _ _
        (λ f. record {
          free_blocks =
              plus_pos 1
                (minus_pos {b = freed_count before + freed_count after} 1 c.free_blocks
                  (ground (arith, freed_count-unwind before (b ∷ after))))
                (ground (arith, freed_count-unwind before (front ∷ rest ∷ after)));
          free_bytes =
              plus_pos rest.size
                (minus_pos {b = freed_size before + freed_size after} b.size c.free_bytes
                  (ground (arith, freed_size-unwind before (b ∷ after))))
                (ground (arith, freed_size-unwind before (front ∷ rest ∷ after)));
          allocated_blocks = plus_pos 1 c.allocated_blocks cut_count;
          allocated_bytes = minus_pos meta c.allocated_bytes cut_size;
          meta_data_blocks = plus_pos 1 c.meta_data_blocks cut_count;
        })
        (λ f. record {
          free_blocks = plus_pos 1 c.free_blocks (
              ground (
                arith,
                freed_count-unwind before (b ∷ after),
                freed_count-unwind before (front ∷ rest ∷ after),
              ));
          free_bytes = plus_pos rest.size c.free_bytes (
              ground (
                arith,
                freed_size-unwind before (b ∷ after),
                freed_size-unwind before (front ∷ rest ∷ after),
              ));
          allocated_blocks = plus_pos 1 c.allocated_blocks cut_count;
          allocated_bytes = minus_pos meta c.allocated_bytes cut_size;
          meta_data_blocks = plus_pos 1 c.meta_data_blocks cut_count;
        })

  cut-Tiled :
      (low top : ℕ) → Tiled meta low (unwind before (b ∷ after)) top → Tiled meta low cut top
  cut-Tiled low top t =
      let (mid, d, (e, u)) = unwind-Tiled meta low top before (b ∷ after) t in
      let same : rest.start + rest.size ≡ b.start + b.size = omega arith in
      Tiled-unwind meta low mid top before (front ∷ rest ∷ after) d (e, (refl, rw same u))

  -- `split` of a node with room for the new header leaves a whole list, with the front part in use.
  pub split-IsWhole :
      (low top : ℕ) (s : Stats)
      → Counted (unwind before (b ∷ after)) s
      → Tiled meta low (unwind before (b ∷ after)) top
      → IsMerged before
      → IsMerged after
      → (r : List Block × Stats) × (split meta req before b after s ≡ some r)
        × IsWhole meta low top (unwind (in_use before) (front ∷ in_use after)) r
  unfolding split
  split-IsWhole low top s c t m n =
      let fits_in : ltb b.size (req + meta) ≡ false = ground arith in
      (
        check_if_free_and_connect meta (front ∷ before) rest after
            (count_set_free rest.size (count_split meta (set_used b s))),
        rw fits_in,
        check_if_free_and_connect-IsWhole meta low top (front ∷ before) rest after _ refl
            (cut-Counted s c) (cut-Tiled low top t) (Apart-in_use front before refl, m) n,
      )

-- A node with no room for the new header is written past its end.
pub split-tight :
    (before : List Block) (b : Block) (after : List Block) (req meta : ℕ) (s : Stats)
    → ltb b.size (req + meta) ≡ true
    → split meta req before b after s ≡ none
unfolding split
split-tight before b after req meta s e = rw e

-- A free node is taken into use as it is: the counters.
set_used-Counted :
    (before after : List Block) (b : Block) (s : Stats)
    → b.is_freed ≡ true
    → Counted (unwind before (b ∷ after)) s
    → Counted (unwind before (record b { is_freed = false } ∷ after)) (count_set_used b.size s)
set_used-Counted before after b s f c =
    let taken : Block = record b { is_freed = false } in
    record {
      free_blocks = minus_pos 1 c.free_blocks (
          ground (
            arith,
            freed_count-unwind before (b ∷ after),
            freed_count-unwind before (taken ∷ after),
          ));
      free_bytes = minus_pos b.size c.free_bytes (
          ground (
            arith,
            freed_size-unwind before (b ∷ after),
            freed_size-unwind before (taken ∷ after),
          ));
      allocated_blocks =
          c.allocated_blocks
          ∙ ap pos (
              node_count-unwind before (b ∷ after)
              ∙ sym (node_count-unwind before (taken ∷ after)));
      allocated_bytes =
          c.allocated_bytes
          ∙ ap pos (
              total_size-unwind before (b ∷ after)
              ∙ sym (total_size-unwind before (taken ∷ after)));
      meta_data_blocks =
          c.meta_data_blocks
          ∙ ap pos (
              node_count-unwind before (b ∷ after)
              ∙ sym (node_count-unwind before (taken ∷ after)));
    }

-- The second list is the first with `b` put in at some place.
abbrev pub Inserts : Block → List Block → List Block → Type 0
Inserts b used used' =
    (xs : List Block) × (ys : List Block) × (used ≡ unwind xs ys) × (used' ≡ unwind xs (b ∷ ys))

-- Some free block fits, and is larger than the request by less than a header.
abbrev pub Tight : ℕ → ℕ → List Block → Type 0
Tight meta req bs =
    (before : List Block) × (b : Block) × (after : List Block) × (bs ≡ unwind before (b ∷ after))
    × (b.is_freed ≡ true)
    × (req ≤ b.size)
    × (b.size < req + meta)

-- A pointer was chosen: a whole heap with one more block in use, at that pointer and large enough.
abbrev pub Chosen : ℕ → ℕ → ℕ → Heap → Option (ℕ × Heap) → Type 0
Chosen meta low req h none = Tight meta req h.blocks
Chosen meta low req h (some (p, h')) =
    IsHeap meta low h'
    × Outside meta h h'
    × ((b : Block) × Inserts b (in_use h.blocks) (in_use h'.blocks)
        × (b.start ≡ p)
        × (req ≤ b.size))

module _ (meta low req : ℕ) (header : 0 < meta) (h : Heap) (v : IsHeap meta low h)
    (before after : List Block) (b : Block) (at : h.blocks ≡ unwind before (b ∷ after))
    (freed : b.is_freed ≡ true) where
  used_before : in_use h.blocks ≡ unwind (in_use before) (in_use after)
  used_before = ap in_use at ∙ in_use_around before after b freed

  taken-IsWhole :
      IsWhole meta low h.brk
        (unwind (in_use before) (record b { is_freed = false } ∷ in_use after))
        (unwind before (record b { is_freed = false } ∷ after), count_set_used b.size h.stats)
  taken-IsWhole =
      let (m, j, (a, n)) =
        unwind-IsMerged before (b ∷ after) (IsMerged-here meta low before after b h v at) in
      record {
        counted =
            set_used-Counted before after b h.stats freed
              (counted_here meta low before after b h v at);
        tiled =
            Tiled-exchanged meta low h.brk before after b (record b { is_freed = false }) refl refl
              (Tiled-here meta low before after b h v at);
        merged =
            IsMerged-unwind before (record b { is_freed = false } ∷ after) m
              (Meet-in_use before after (record b { is_freed = false }) refl)
              (Apart-in_use (record b { is_freed = false }) after refl, n);
        used_now = in_use-node before after (record b { is_freed = false }) refl;
      }

  Chosen-list :
      (image : List Block → ℕ → ℕ) (c : Block) (r : List Block × Stats)
      → IsWhole meta low h.brk (unwind (in_use before) (c ∷ in_use after)) r
      → req ≤ c.size
      → Chosen meta low req h (some (c.start, put_list meta image h r))
  Chosen-list image c r w large = (
    record {
      none_yet = v.none_yet;
      some_now = v.some_now;
      whole = IsWhole-now r w;
      clean = stored-clean meta low h.brk image r.0 h.mem w.tiled v.clean;
    },
    λ a out. store_headers-outside meta image r.0 h.mem a out,
    (c, (in_use before, in_use after, used_before, w.used_now), refl, large),
  )

  -- A free block that fits is used as it is or split, or else it is a tight one.
  pub reuse-Chosen :
      (image : List Block → ℕ → ℕ)
      → req ≤ b.size
      → Chosen meta low req h (reuse meta image req before b after h)
  unfolding reuse
  reuse-Chosen image fit =
      if-all (Chosen meta low req h) (ltb (left_over meta b.size req) remain) _ _
        (λ e. Chosen-list image (record b { is_freed = false }) _ taken-IsWhole fit)
        (λ e. elim (Bool-cases (ltb b.size (req + meta))) [
          | inl tight ↦
              subst (λ o. Chosen meta low req h (at_put meta image b.start h o))
                (sym (split-tight before b after req meta h.stats tight))
                (before, b, after, at, freed, fit, ground arith)
          | inr roomy ↦
              let (m, j, (a, n)) =
                unwind-IsMerged before (b ∷ after) (IsMerged-here meta low before after b h v at) in
              let (r, f, w) =
                split-IsWhole meta req before b after (ground arith) low h.brk h.stats
                  (counted_here meta low before after b h v at)
                  (Tiled-here meta low before after b h v at) m n in
              subst (λ o. Chosen meta low req h (at_put meta image b.start h o)) (sym f)
                (Chosen-list image (record b { size = req; is_freed = false }) r w (omega arith))
        ])
