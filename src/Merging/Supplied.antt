-- ===== src/Merging/Supplied.antt =====
-- `malloc` on a whole heap: it takes a free block, grows the last one, or puts a new one behind it.
use operation_systems.Common.{
  ℕ, ◌+◌, ◌≤◌, ◌<◌, ◌≡◌, ◌∙◌, ap, sym, refl, Bool, true, false, ◌||◌, Option, none, some, List, [],
  ◌∷◌, ltb, ◌==◌, inr, ◌⊎◌, if-all, arith,
}
use mathlib.Core.Path.{subst}
use operation_systems.Common.Int.{pos, plus_pos}
use operation_systems.Alloc.{Block, Heap, Result, is_minus_one, sbrk}
use operation_systems.Alloc.Blocks.{freed_count}
use operation_systems.Alloc.Headers.{store_headers-outside}
use operation_systems.Merging.Nodes.{unwind}
use operation_systems.Merging.Calls.{
  max_size, aligned, fits, check_result, reuse, wilderness, first_allocation, append_node, past_end,
  find_free, malloc,
}
use operation_systems.Merging.Whole.{
  stored-clean, Outside, in_use, Counted, IsMerged, Tiled, in_use-unwind, total_size-unwind,
  node_count-unwind, freed_count-unwind, freed_size-unwind, Tiled-unwind, unwind-Tiled, Tiled-empty,
  unwind-IsMerged, IsMerged-unwind, IsHeap,
}
use operation_systems.Merging.Freed.{in_use-node}
use operation_systems.Merging.Taken.{Meet-in_use, Inserts, Tight, Chosen, reuse-Chosen}
use operation_systems.Merging.Grown.{fresh, moved, sbrk-granted, wilderness-Chosen}

-- What `malloc` of an aligned request leaves. A pointer is to a block of at least that size that was not
-- in use before, and all else that was in use still is. NULL leaves the same blocks in use, but for a
-- block that is lost where its memory then begins with -1. It faults only at a tight block.
abbrev pub Supplies : ℕ → ℕ → ℕ → Heap → Result → Type 0
Supplies meta low req h none = Tight meta req h.blocks
Supplies meta low req h (some (none, h')) =
    IsHeap meta low h'
    × Outside meta h h'
    × ((in_use h'.blocks ≡ in_use h.blocks)
        ⊎ ((b : Block) × Inserts b (in_use h.blocks) (in_use h'.blocks)
            × (is_minus_one h'.mem b.start ≡ true)))
Supplies meta low req h (some (some p, h')) =
    IsHeap meta low h'
    × Outside meta h h'
    × ((b : Block) × Inserts b (in_use h.blocks) (in_use h'.blocks)
        × (b.start ≡ p)
        × (req ≤ b.size))

true≢false : true ≡ false → ⊥
true≢false e = cc

check_result-Supplies :
    (meta low req : ℕ) (h : Heap) (r : Option (ℕ × Heap))
    → Chosen meta low req h r
    → Supplies meta low req h (check_result r)
check_result-Supplies meta low req h none c = c
check_result-Supplies meta low req h (some (p, h')) (w, m, (b, i, e, l)) =
    if-all (λ x. Supplies meta low req h (some x)) (is_minus_one h'.mem p) (none, h') (some p, h')
      (λ g. (w, m, inr (b, i, ap (is_minus_one h'.mem) e ∙ g))) (λ g. (w, m, (b, i, e, l)))

module _ (meta low req : ℕ) (image : List Block → ℕ → ℕ) (grants : ℕ → ℕ → Bool) (header : 0 < meta)
    (h : Heap) (v : IsHeap meta low h)
    (granted : (n : ℕ) → n ≤ req + meta → grants h.brk n ≡ true) where
  new_memory : is_minus_one h.mem h.brk ≡ false
  new_memory = fresh meta low req image grants header h v granted

  given :
      (n : ℕ)
      → n ≤ req + meta
      → sbrk grants n h ≡ some (h.brk, moved meta low req image grants header h v granted n)
  given = sbrk-granted meta low req image grants header h v granted

  abbrev new_node : Block
  new_node = record { start = h.brk + meta; size = req; is_freed = false }

  -- A new node behind the last one.
  append_node-Supplies :
      (nodes : List Block)
      → h.blocks ≡ unwind nodes []
      → low < h.brk
      → Supplies meta low req h
          (append_node meta image grants req nodes (sbrk grants (req + meta) h))
  append_node-Supplies nodes at some_now =
      let c = subst (λ bs. Counted bs h.stats) at v.whole.counted in
      let (mid, d, e) =
        unwind-Tiled meta low h.brk nodes []
          (subst (λ bs. Tiled meta low bs h.brk) at v.whole.tiled) in
      let (m, j, n) = unwind-IsMerged nodes [] (subst IsMerged at v.whole.merged) in
      let used = in_use-node nodes [] new_node refl in
      let longer : Tiled meta low (unwind nodes (new_node ∷ [])) (h.brk + (req + meta)) =
        Tiled-unwind meta low mid (h.brk + (req + meta)) nodes (new_node ∷ []) d
          (omega arith, omega arith) in
      rw (given (req + meta) (omega arith), new_memory)
        (
          record {
            none_yet = λ g. absurd (omega (arith, v.none_yet g));
            some_now = λ g. omega arith;
            whole = record {
              counted = record {
                free_blocks =
                    c.free_blocks
                    ∙ ap pos (
                        omega (
                          arith,
                          freed_count-unwind nodes [],
                          freed_count-unwind nodes (new_node ∷ []),
                        ));
                free_bytes =
                    c.free_bytes
                    ∙ ap pos (
                        omega (
                          arith,
                          freed_size-unwind nodes [],
                          freed_size-unwind nodes (new_node ∷ []),
                        ));
                allocated_blocks = plus_pos 1 c.allocated_blocks (
                    omega
                      (arith, node_count-unwind nodes [], node_count-unwind nodes (new_node ∷ [])));
                allocated_bytes = plus_pos req c.allocated_bytes (
                    omega
                      (arith, total_size-unwind nodes [], total_size-unwind nodes (new_node ∷ [])));
                meta_data_blocks = plus_pos 1 c.meta_data_blocks (
                    omega
                      (arith, node_count-unwind nodes [], node_count-unwind nodes (new_node ∷ [])));
              };
              tiled = longer;
              merged =
                  IsMerged-unwind nodes (new_node ∷ []) m (Meet-in_use nodes [] new_node refl)
                    (tt, tt);
              used_now = refl;
            };
            clean =
                stored-clean meta low (h.brk + (req + meta)) image (unwind nodes (new_node ∷ []))
                  h.mem longer (λ a l. v.clean a (omega arith));
          },
          λ a out. store_headers-outside meta image (unwind nodes (new_node ∷ [])) h.mem a out,
          (
            new_node,
            (in_use nodes, [], ap in_use at ∙ in_use-unwind nodes [], used),
            refl,
            omega arith,
          ),
        )

  -- The first node of all.
  first_allocation-Supplies :
      h.first_alloc ≡ true → Supplies meta low req h (first_allocation meta image grants req h)
  unfolding first_allocation
  first_allocation-Supplies first =
      let at_low : h.brk ≡ low = v.none_yet first in
      let no_blocks : h.blocks ≡ [] =
        Tiled-empty meta low h.brk h.blocks header at_low v.whole.tiled in
      let zero_there : h.mem h.brk ≡ 0 = v.clean h.brk (omega arith) in
      let no_free : h.stats.num_free_blocks ≡ pos 0 =
        v.whole.counted.free_blocks ∙ ap (λ bs. pos (freed_count bs)) no_blocks in
      rw (given (req + meta) (omega arith), new_memory, zero_there)
        (
          record {
            none_yet = λ g. absurd (true≢false (sym g));
            some_now = λ g. omega arith;
            whole = record {
              counted = record {
                free_blocks = no_free;
                free_bytes = refl;
                allocated_blocks = refl;
                allocated_bytes = ap pos (omega arith);
                meta_data_blocks = refl;
              };
              tiled = (omega arith, omega arith);
              merged = (tt, tt);
              used_now = refl;
            };
            clean =
                stored-clean meta low (h.brk + (req + meta)) image (new_node ∷ []) h.mem
                  (omega arith, omega arith) (λ a l. v.clean a (omega arith));
          },
          λ a out. store_headers-outside meta image (new_node ∷ []) h.mem a out,
          (new_node, ([], [], ap in_use no_blocks, refl), refl, omega arith),
        )

  -- The node that the loop has just passed does not fit.
  abbrev Passed : List Block → Type 0
  Passed [] = Unit {0}
  Passed (w ∷ before) = fits req w ≡ false

  past_end-Supplies :
      (before : List Block)
      → h.blocks ≡ unwind before []
      → Passed before
      → low < h.brk
      → Supplies meta low req h (past_end meta image grants req before h)
  unfolding past_end
  past_end-Supplies [] at p some_now =
      absurd (omega (arith, subst (λ bs. Tiled meta low bs h.brk) at v.whole.tiled))
  past_end-Supplies (w ∷ before) at p some_now =
      if-all (Supplies meta low req h) w.is_freed _ _
        (λ f. check_result-Supplies meta low req h (wilderness meta image grants req before w h) (
          wilderness-Chosen meta low req image grants header h v granted before w at f
            (ground arith) some_now))
        (λ f. append_node-Supplies (w ∷ before) at some_now)

  find_free-Supplies :
      (before bs : List Block)
      → h.blocks ≡ unwind before bs
      → Passed before
      → low < h.brk
      → Supplies meta low req h (find_free meta image grants req before bs h)
  unfolding find_free
  find_free-Supplies before [] at p some_now = past_end-Supplies before at p some_now
  find_free-Supplies before (b ∷ after) at p some_now =
      if-all (Supplies meta low req h) (fits req b) _ _
        (λ f. check_result-Supplies meta low req h (reuse meta image req before b after h) (
          reuse-Chosen meta low req header h v before after b at (ground arith) image
            (ground arith)))
        (λ f. find_free-Supplies (b ∷ before) after at f some_now)

-- On a whole heap, where the system grants the memory, `malloc` of a size in range leaves a whole
-- heap and every byte outside the headers of its nodes as it was. A pointer is to a block of at
-- least the size asked for, raised to a multiple of 4, which was put among the blocks in use; the
-- others in use stay as they are. NULL leaves the same blocks in use, or loses a free block whose
-- memory begins with the int -1 once the headers are stored: it is in use from then on. It faults
-- only where some free block fits and is larger than the request by less than a header.
pub malloc-Supplies :
    (meta low size : ℕ) (image : List Block → ℕ → ℕ) (grants : ℕ → ℕ → Bool) (h : Heap)
    → 0 < meta
    → IsHeap meta low h
    → 0 < size
    → size ≤ max_size
    → ((n : ℕ) → n ≤ aligned size + meta → grants h.brk n ≡ true)
    → (size ≤ aligned size) × Supplies meta low (aligned size) h (malloc meta image grants size h)
unfolding malloc
malloc-Supplies meta low size image grants h header v positive small granted =
    let in_range : ltb max_size size || size == 0 ≡ false = ground arith in
    (
      ground arith,
      rw in_range (
          if-all (Supplies meta low (aligned size) h) h.first_alloc _ _
            (λ f.
              first_allocation-Supplies meta low (aligned size) image grants header h v granted f)
            (λ f.
              find_free-Supplies meta low (aligned size) image grants header h v granted [] h.blocks
                refl tt (v.some_now f))),
    )
