-- ===== src/Alloc/Tests.antt =====
-- Runs of HW4/malloc_2.cpp on a heap of two blocks, the first of them free.
use operation_systems.Common.{ℕ, ◌≡◌, refl, Bool, true, false, Option, some, List, [], ◌∷◌, arith}
use operation_systems.Common.Int.{pos}
use operation_systems.Alloc.Memory.{Block, Heap}
use operation_systems.Alloc.FirstFit.{lookup, malloc, realloc}
use operation_systems.Alloc.Laid.{IsHeap, Allocates, Stores, malloc-Allocates}
use operation_systems.Alloc.Moved.{Moves, realloc-Moves}

abbrev header_bytes : ℕ
header_bytes = 48

abbrev granted : ℕ → ℕ → Bool
granted break n = true

-- The bytes of the headers, all zero.
abbrev zeros : List Block → ℕ → ℕ
zeros bs a = 0

abbrev small_block : Block
small_block = record { start = 48; size = 10; is_freed = true }

abbrev large_block : Block
large_block = record { start = 106; size = 20; is_freed = false }

abbrev two_blocks : Heap
two_blocks = record {
  first_alloc = false;
  blocks = small_block ∷ large_block ∷ [];
  stats = record {
    nodes = pos 2;
    num_free_blocks = pos 1;
    num_free_bytes = pos 10;
    num_allocated_blocks = pos 2;
    num_allocated_bytes = pos 30;
    num_meta_data_bytes = pos 96;
    num_meta_data_blocks = pos 2;
  };
  brk = 126;
  mem = λ a. 0;
}

two_blocks-IsHeap : IsHeap 48 two_blocks
two_blocks-IsHeap = record {
  none_yet = λ e. absurd cc;
  free_blocks = refl;
  free_bytes = refl;
  allocated_blocks = refl;
  allocated_bytes = refl;
  meta_data_blocks = refl;
  laid = (omega arith, (omega arith, omega arith));
  clean = λ a l. refl;
}

find_large : lookup 106 two_blocks.blocks ≡ some large_block
unfolding lookup
find_large = refl

malloc-Allocates_example :
    (p : Option ℕ) × (h' : Heap) × (malloc 48 zeros granted 8 two_blocks ≡ some (p, h'))
    × IsHeap 48 h'
    × Allocates 8 two_blocks p h'
    × Stores 48 two_blocks p h'
malloc-Allocates_example =
    malloc-Allocates 48 zeros granted 8 two_blocks (omega arith) two_blocks-IsHeap refl

realloc-Moves_example :
    (p : Option ℕ) × (h' : Heap) × (realloc 48 zeros granted (some 106) 64 two_blocks
      ≡ some (p, h'))
    × IsHeap 48 h'
    × Moves 64 large_block two_blocks p h'
realloc-Moves_example =
    realloc-Moves 48 zeros granted (omega arith) 64 two_blocks large_block find_large refl
      two_blocks-IsHeap refl
