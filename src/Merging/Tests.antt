-- ===== src/Merging/Tests.antt =====
-- Runs of HW4/malloc_3.cpp on a heap of three nodes, the middle one in use.
use operation_systems.Common.{
  ℕ, ◌≤◌, ◌≡◌, refl, Bool, true, false, none, some, List, [], ◌∷◌, arith,
}
use operation_systems.Common.Int.{pos}
use operation_systems.Alloc.{Block, Heap, store_headers}
use operation_systems.Merging.Nodes.{check_if_free_and_connect, split}
use operation_systems.Merging.Calls.{
  aligned, reuse, find_free, malloc, free_node, free_from, free, realloc,
}
use operation_systems.Merging.Whole.{in_use, IsHeap}
use operation_systems.Merging.Freed.{free-merges}
use operation_systems.Merging.Supplied.{Supplies, malloc-Supplies}
use operation_systems.Merging.Overrun.{malloc-tight, realloc-tight}

abbrev granted : ℕ → ℕ → Bool
granted break n = true

-- The bytes of the headers, all zero.
abbrev zeros : List Block → ℕ → ℕ
zeros bs a = 0

abbrev first_node : Block
first_node = record { start = 40; size = 200; is_freed = true }

abbrev middle_node : Block
middle_node = record { start = 280; size = 8; is_freed = false }

abbrev last_node : Block
last_node = record { start = 328; size = 20; is_freed = true }

abbrev three_nodes : Heap
three_nodes = record {
  first_alloc = false;
  blocks = first_node ∷ middle_node ∷ last_node ∷ [];
  stats = record {
    nodes = pos 3;
    num_free_blocks = pos 2;
    num_free_bytes = pos 220;
    num_allocated_blocks = pos 3;
    num_allocated_bytes = pos 228;
    num_meta_data_bytes = pos 40;
    num_meta_data_blocks = pos 3;
  };
  brk = 348;
  mem = λ a. 0;
}

three_nodes-IsHeap : IsHeap 40 0 three_nodes
three_nodes-IsHeap = record {
  none_yet = λ e. cc;
  some_now = λ e. omega arith;
  whole = record {
    counted = record {
      free_blocks = refl;
      free_bytes = refl;
      allocated_blocks = refl;
      allocated_bytes = refl;
      meta_data_blocks = refl;
    };
    tiled = (refl, (refl, (refl, refl)));
    merged = (refl, (refl, (tt, tt)));
    used_now = refl;
  };
  clean = λ a l. refl;
}

malloc-Supplies_example :
    (6 ≤ aligned 6) × Supplies 40 0 (aligned 6) three_nodes (malloc 40 zeros granted 6 three_nodes)
malloc-Supplies_example =
    malloc-Supplies 40 0 6 zeros granted three_nodes (omega arith) three_nodes-IsHeap (omega arith)
      (omega arith) (λ n l. refl)

free-merges_example :
    (h' : Heap) × (free 40 zeros (some 280) three_nodes ≡ some h')
    × IsHeap 40 0 h'
    × (in_use three_nodes.blocks ≡ middle_node ∷ [])
    × (in_use h'.blocks ≡ [])
free-merges_example =
    free-merges 40 0 zeros three_nodes (first_node ∷ []) (last_node ∷ []) middle_node (omega arith)
      three_nodes-IsHeap refl refl

malloc-tight_example : malloc 40 zeros granted 200 three_nodes ≡ none
malloc-tight_example =
    malloc-tight 40 200 zeros granted three_nodes [] (middle_node ∷ last_node ∷ []) first_node
      (omega arith) (omega arith) (omega arith) refl refl tt refl (omega arith) (omega arith)

realloc-tight_example : realloc 40 zeros granted (some 280) 8 three_nodes ≡ none
realloc-tight_example =
    realloc-tight 40 0 8 zeros granted three_nodes (first_node ∷ []) (last_node ∷ []) middle_node
      (omega arith) (omega arith) three_nodes-IsHeap (omega arith) (omega arith) refl (omega arith)
      (omega arith)

-- The three nodes become one.
merges_three :
    (h' : Heap) × (free 40 zeros (some 280) three_nodes ≡ some h')
    × (h'.blocks ≡ record { start = 40; size = 308; is_freed = true } ∷ [])
unfolding free free_from free_node check_if_free_and_connect
merges_three = (_, refl, refl)

-- The first free node is split.
splits_first :
    (h' : Heap) × (malloc 40 zeros granted 6 three_nodes ≡ some (some 40, h'))
    × (h'.blocks
        ≡ record { start = 40; size = 8; is_freed = false }
          ∷ record { start = 88; size = 152; is_freed = true }
          ∷ middle_node
          ∷ last_node
          ∷ [])
unfolding malloc find_free reuse split check_if_free_and_connect store_headers
splits_first = (_, refl, refl)
