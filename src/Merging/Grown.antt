-- ===== src/Merging/Grown.antt =====
-- Growing the last block: new memory, and `wilderness`.
use operation_systems.Common.{
  ℕ, ◌+◌, ◌-◌, ◌≤◌, ◌<◌, ◌≡◌, ◌∙◌, ap, sym, refl, Bool, true, false, some, List, [], ◌∷◌, ltb,
  arith,
}
use operation_systems.Common.Int.{pos, ◌+ℤ◌, plus_pos, minus_pos}
use operation_systems.Alloc.{Block, Stats, Heap, is_minus_one, sbrk}
use operation_systems.Alloc.Headers.{store_headers-outside}
use operation_systems.Merging.Nodes.{unwind, count_set_used}
use operation_systems.Merging.Calls.{wilderness}
use operation_systems.Merging.Whole.{
  stored-clean, in_use, total_size-unwind, node_count-unwind, freed_count-unwind, freed_size-unwind,
  Tiled-unwind, unwind-Tiled, unwind-IsMerged, IsMerged-unwind, IsWhole, IsHeap, IsWhole-now,
}
use operation_systems.Merging.Joined.{in_use_around}
use operation_systems.Merging.Freed.{in_use-node, counted_here, Tiled-here, IsMerged-here}
use operation_systems.Merging.Taken.{Meet-in_use, Chosen}

module _ (meta low req : ℕ) (image : List Block → ℕ → ℕ) (grants : ℕ → ℕ → Bool) (header : 0 < meta)
    (h : Heap) (v : IsHeap meta low h)
    (granted : (n : ℕ) → n ≤ req + meta → grants h.brk n ≡ true) where
  -- New memory does not begin with -1.
  pub fresh : is_minus_one h.mem h.brk ≡ false
  fresh =
      let zero_there : h.mem h.brk ≡ 0 = v.clean h.brk (omega arith) in ground (arith, zero_there)

  abbrev pub moved : ℕ → Heap
  moved n = record h { brk = h.brk + n }

  pub sbrk-granted : (n : ℕ) → n ≤ req + meta → sbrk grants n h ≡ some (h.brk, moved n)
  sbrk-granted n l = rw (granted n l)

  module _ (before : List Block) (w : Block) (at : h.blocks ≡ unwind before (w ∷ [])) where
    module _ (freed : w.is_freed ≡ true) (small : w.size < req) where
      abbrev offset : ℕ
      offset = req - w.size

      abbrev grown : Block
      grown = record w { size = w.size + offset; is_freed = false }

      abbrev grown_stats : Stats
      grown_stats = record (count_set_used w.size h.stats) {
        num_allocated_bytes = h.stats.num_allocated_bytes +ℤ pos offset;
      }

      grown-IsWhole :
          IsWhole meta low
            (h.brk + offset)
            (unwind (in_use before) (grown ∷ []))
            (unwind before (grown ∷ []), grown_stats)
      grown-IsWhole =
          let c = counted_here meta low before [] w h v at in
          let (mid, d, (e, t)) =
            unwind-Tiled meta low h.brk before (w ∷ []) (Tiled-here meta low before [] w h v at) in
          let (m, j, n) =
            unwind-IsMerged before (w ∷ []) (IsMerged-here meta low before [] w h v at) in
          record {
            counted = record {
              free_blocks = minus_pos 1 c.free_blocks (
                  ground (
                    arith,
                    freed,
                    freed_count-unwind before (w ∷ []),
                    freed_count-unwind before (grown ∷ []),
                  ));
              free_bytes = minus_pos w.size c.free_bytes (
                  ground (
                    arith,
                    freed,
                    freed_size-unwind before (w ∷ []),
                    freed_size-unwind before (grown ∷ []),
                  ));
              allocated_blocks =
                  c.allocated_blocks
                  ∙ ap pos (
                      node_count-unwind before (w ∷ [])
                      ∙ sym (node_count-unwind before (grown ∷ [])));
              allocated_bytes = plus_pos offset c.allocated_bytes (
                  omega (
                    arith,
                    total_size-unwind before (w ∷ []),
                    total_size-unwind before (grown ∷ []),
                  ));
              meta_data_blocks =
                  c.meta_data_blocks
                  ∙ ap pos (
                      node_count-unwind before (w ∷ [])
                      ∙ sym (node_count-unwind before (grown ∷ [])));
            };
            tiled =
                Tiled-unwind meta low mid (h.brk + offset) before (grown ∷ []) d (e, omega arith);
            merged =
                IsMerged-unwind before (grown ∷ []) m (Meet-in_use before [] grown refl) (tt, tt);
            used_now = in_use-node before [] grown refl;
          }

      -- The last node, free and too small, is grown to the size asked for.
      pub wilderness-Chosen :
          low < h.brk → Chosen meta low req h (wilderness meta image grants req before w h)
      unfolding wilderness
      wilderness-Chosen some_now =
          let not_larger : ltb req w.size ≡ false = ground arith in
          rw (not_larger, sbrk-granted offset (omega arith), fresh, freed)
            (
              record {
                none_yet = λ e. absurd (omega (arith, v.none_yet e));
                some_now = λ e. omega arith;
                whole = IsWhole-now (unwind before (grown ∷ []), grown_stats) grown-IsWhole;
                clean =
                    stored-clean meta low (h.brk + offset) image (unwind before (grown ∷ [])) h.mem
                      grown-IsWhole.tiled (λ a l. v.clean a (omega arith));
              },
              λ a out. store_headers-outside meta image (unwind before (grown ∷ [])) h.mem a out,
              (
                grown,
                (
                  in_use before,
                  [],
                  ap in_use at ∙ in_use_around before [] w freed,
                  grown-IsWhole.used_now,
                ),
                refl,
                omega arith,
              ),
            )
