-- ===== src/Merging/Freed.antt =====
-- `free` takes its block out of those in use, and leaves a whole heap.
use operation_systems.Common.{
  ℕ, ◌-◌, ◌<◌, ◌≡◌, ◌∙◌, ap, sym, refl, true, false, some, List, [], ◌∷◌, ◌==◌, arith,
}
use mathlib.Core.Path.{subst}
use operation_systems.Common.Int.{pos, plus_pos}
use operation_systems.Alloc.{Block, Stats, Heap, store_headers}
use operation_systems.Merging.Nodes.{unwind, count_set_free, check_if_free_and_connect}
use operation_systems.Merging.Calls.{free_node, free_from, free}
use operation_systems.Merging.Whole.{
  stored-clean, in_use, Counted, IsMerged, Tiled, TiledDown, in_use-unwind, total_size-unwind,
  node_count-unwind, freed_count-unwind, freed_size-unwind, Tiled-unwind, unwind-Tiled,
  unwind-IsMerged, IsWhole, IsHeap, IsWhole-now,
}
use operation_systems.Merging.Joined.{check_if_free_and_connect-IsWhole}

-- A node may be exchanged for one that stands at the same place.
pub Tiled-exchanged :
    (meta low top : ℕ) (before after : List Block) (b c : Block)
    → c.start ≡ b.start
    → c.size ≡ b.size
    → Tiled meta low (unwind before (b ∷ after)) top
    → Tiled meta low (unwind before (c ∷ after)) top
Tiled-exchanged meta low top before after b c e f t =
    let (mid, d, (g, u)) = unwind-Tiled meta low top before (b ∷ after) t in
    Tiled-unwind meta low mid top before (c ∷ after) d (e ∙ g, rw (e, f) u)

-- A used node becomes free: the counters.
pub set_free-Counted :
    (before after : List Block) (b : Block) (s : Stats)
    → b.is_freed ≡ false
    → Counted (unwind before (b ∷ after)) s
    → Counted (unwind before (record b { is_freed = true } ∷ after)) (count_set_free b.size s)
set_free-Counted before after b s f c =
    let freed : Block = record b { is_freed = true } in
    record {
      free_blocks = plus_pos 1 c.free_blocks (
          ground (
            arith,
            freed_count-unwind before (b ∷ after),
            freed_count-unwind before (freed ∷ after),
          ));
      free_bytes = plus_pos b.size c.free_bytes (
          ground (
            arith,
            freed_size-unwind before (b ∷ after),
            freed_size-unwind before (freed ∷ after),
          ));
      allocated_blocks =
          c.allocated_blocks
          ∙ ap pos (
              node_count-unwind before (b ∷ after)
              ∙ sym (node_count-unwind before (freed ∷ after)));
      allocated_bytes =
          c.allocated_bytes
          ∙ ap pos (
              total_size-unwind before (b ∷ after)
              ∙ sym (total_size-unwind before (freed ∷ after)));
      meta_data_blocks =
          c.meta_data_blocks
          ∙ ap pos (
              node_count-unwind before (b ∷ after)
              ∙ sym (node_count-unwind before (freed ∷ after)));
    }

pub in_use-node :
    (before after : List Block) (b : Block)
    → b.is_freed ≡ false
    → in_use (unwind before (b ∷ after)) ≡ unwind (in_use before) (b ∷ in_use after)
in_use-node before after b f = in_use-unwind before (b ∷ after) ∙ ap (unwind (in_use before)) used
  where
    used : in_use (b ∷ after) ≡ b ∷ in_use after
    used = rw f

module _ (meta low : ℕ) (before after : List Block) (b : Block) (h : Heap) (v : IsHeap meta low h)
    (at : h.blocks ≡ unwind before (b ∷ after)) where
  -- The list at the place of the node.
  pub counted_here : Counted (unwind before (b ∷ after)) h.stats
  counted_here = subst (λ bs. Counted bs h.stats) at v.whole.counted

  pub Tiled-here : Tiled meta low (unwind before (b ∷ after)) h.brk
  Tiled-here = subst (λ bs. Tiled meta low bs h.brk) at v.whole.tiled

  pub IsMerged-here : IsMerged (unwind before (b ∷ after))
  IsMerged-here = subst IsMerged at v.whole.merged

  module _ (used : b.is_freed ≡ false) where
    freed_list : List Block × Stats
    freed_list =
        check_if_free_and_connect meta before (record b { is_freed = true }) after
          (count_set_free b.size h.stats)

    freed_list-IsWhole : IsWhole meta low h.brk (unwind (in_use before) (in_use after)) freed_list
    unfolding freed_list
    freed_list-IsWhole =
        let (m, j, (a, n)) = unwind-IsMerged before (b ∷ after) IsMerged-here in
        check_if_free_and_connect-IsWhole meta low h.brk before (record b { is_freed = true }) after
          (count_set_free b.size h.stats) refl
          (set_free-Counted before after b h.stats used counted_here)
          (Tiled-exchanged meta low h.brk before after b (record b { is_freed = true }) refl refl
            Tiled-here)
          m n

    free_node-IsHeap :
        (image : List Block → ℕ → ℕ)
        → IsHeap meta low (free_node meta image before b after h)
          × (in_use (free_node meta image before b after h).blocks
              ≡ unwind (in_use before) (in_use after))
    unfolding free_node freed_list
    free_node-IsHeap image = rw used (
      record {
        none_yet = v.none_yet;
        some_now = v.some_now;
        whole = IsWhole-now freed_list freed_list-IsWhole;
        clean =
            stored-clean meta low h.brk image freed_list.0
              (store_headers meta image (unwind before (record b { is_freed = true } ∷ after))
                h.mem)
              freed_list-IsWhole.tiled
              (stored-clean meta low h.brk image
                (unwind before (record b { is_freed = true } ∷ after)) h.mem
                (Tiled-exchanged meta low h.brk before after b (record b { is_freed = true }) refl
                  refl Tiled-here)
                v.clean);
      },
      freed_list-IsWhole.used_now,
    )

module _ (meta low : ℕ) (image : List Block → ℕ → ℕ) (p : ℕ) (h : Heap) where
  -- The search passes the nodes in front of the block.
  free_from-unwind :
      (mid : ℕ) (before bs : List Block)
      → TiledDown meta low before mid
      → mid < p
      → free_from meta image p [] (unwind before bs) h ≡ free_from meta image p before bs h
  unfolding free_from
  free_from-unwind mid [] bs d l = refl
  free_from-unwind mid (c ∷ before) bs (e, f, d) l =
      let other : (c.start == p) ≡ false = ground arith in
      free_from-unwind (c.start - meta) before (c ∷ bs) d (omega arith) ∙ rw (other, free_from)

-- On a whole heap `free` of the pointer of a block in use returns, and leaves a whole heap: the counters
-- match, the nodes fill the memory up to the break, and no two free ones are neighbours. The blocks in
-- use are those from before without this one.
pub free-merges :
    (meta low : ℕ) (image : List Block → ℕ → ℕ) (h : Heap) (before after : List Block) (b : Block)
    → 0 < meta
    → IsHeap meta low h
    → h.blocks ≡ unwind before (b ∷ after)
    → b.is_freed ≡ false
    → (h' : Heap) × (free meta image (some b.start) h ≡ some h')
      × IsHeap meta low h'
      × (in_use h.blocks ≡ unwind (in_use before) (b ∷ in_use after))
      × (in_use h'.blocks ≡ unwind (in_use before) (in_use after))
unfolding free free_from
free-merges meta low image h before after b header v at used =
    let (mid, d, (e, t)) =
      unwind-Tiled meta low h.brk before (b ∷ after) (Tiled-here meta low before after b h v at) in
    let (w, n) = free_node-IsHeap meta low before after b h v at used image in
    (
      free_node meta image before b after h,
      ap (λ bs. free_from meta image b.start [] bs h) at
          ∙ free_from-unwind meta low image b.start h mid before (b ∷ after) d (omega arith)
          ∙ found,
      w,
      ap in_use at ∙ in_use-node before after b used,
      n,
    )
  where
    found :
        free_from meta image b.start before (b ∷ after) h
        ≡ some (free_node meta image before b after h)
    found = ground arith
