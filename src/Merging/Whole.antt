-- ===== src/Merging/Whole.antt =====
-- What a whole heap is: the counters match the nodes, the nodes fill the memory from the first one up to
-- the break, and no two free ones are neighbours.
use operation_systems.Common.{
  false, ◌≤◌, ℕ, ◌+◌, ◌-◌, ◌≤◌, ◌<◌, ◌≡◌, refl, true, false, ◌&&◌, List, [], ◌∷◌, if◌then◌else◌,
  arith,
}
use operation_systems.Common.Int.{pos}
use operation_systems.Alloc.{Block, Stats, Heap, in_header, store_headers}
use operation_systems.Alloc.Headers.{store_headers-clean}
use operation_systems.Alloc.Blocks.{total_size, freed_count, freed_size, node_count, Laid}
use operation_systems.Merging.Nodes.{unwind}

-- The nodes in use, in their order.
abbrev pub in_use : List Block → List Block
in_use [] = []
in_use (b ∷ bs) = if b.is_freed then in_use bs else b ∷ in_use bs

-- The counters match the nodes.
pub record Counted (bs : List Block) (s : Stats) : Type 0 where
  pub free_blocks : s.num_free_blocks ≡ pos (freed_count bs)
  pub free_bytes : s.num_free_bytes ≡ pos (freed_size bs)
  pub allocated_blocks : s.num_allocated_blocks ≡ pos (node_count bs)
  pub allocated_bytes : s.num_allocated_bytes ≡ pos (total_size bs)
  pub meta_data_blocks : s.num_meta_data_blocks ≡ pos (node_count bs)

-- The node and the next one, if there is one, are not both free.
abbrev pub Apart : Block → List Block → Type 0
Apart b [] = Unit {0}
Apart b (c ∷ bs) = (b.is_freed && c.is_freed) ≡ false

abbrev pub IsMerged : List Block → Type 0
IsMerged [] = Unit {0}
IsMerged (b ∷ bs) = Apart b bs × IsMerged bs

-- The same at a place of the list.
abbrev pub Meet : List Block → List Block → Type 0
Meet [] bs = Unit {0}
Meet (b ∷ before) bs = Apart b bs

-- Each node stands right behind its header, and that right behind the node before.
abbrev pub Tiled : ℕ → ℕ → List Block → ℕ → Type 0
Tiled meta low [] top = top ≡ low
Tiled meta low (b ∷ bs) top = (b.start ≡ low + meta) × Tiled meta (b.start + b.size) bs top

-- The nodes in front of a place, from that place on down.
abbrev pub TiledDown : ℕ → ℕ → List Block → ℕ → Type 0
TiledDown meta low [] top = top ≡ low
TiledDown meta low (b ∷ before) top =
    (top ≡ b.start + b.size) × (meta ≤ b.start) × TiledDown meta low before (b.start - meta)

pub in_use-unwind :
    (before bs : List Block) → in_use (unwind before bs) ≡ unwind (in_use before) (in_use bs)
in_use-unwind [] bs = refl
in_use-unwind (b ∷ before) bs = ground (arith, in_use-unwind before (b ∷ bs))

-- The four sums over a list that is unwound.
pub total_size-unwind :
    (before bs : List Block) → total_size (unwind before bs) ≡ total_size before + total_size bs
total_size-unwind [] bs = omega arith
total_size-unwind (b ∷ before) bs = omega (arith, total_size-unwind before (b ∷ bs))

pub node_count-unwind :
    (before bs : List Block) → node_count (unwind before bs) ≡ node_count before + node_count bs
node_count-unwind [] bs = omega arith
node_count-unwind (b ∷ before) bs = omega (arith, node_count-unwind before (b ∷ bs))

pub freed_count-unwind :
    (before bs : List Block) → freed_count (unwind before bs) ≡ freed_count before + freed_count bs
freed_count-unwind [] bs = omega arith
freed_count-unwind (b ∷ before) bs = omega (arith, freed_count-unwind before (b ∷ bs))

pub freed_size-unwind :
    (before bs : List Block) → freed_size (unwind before bs) ≡ freed_size before + freed_size bs
freed_size-unwind [] bs = omega arith
freed_size-unwind (b ∷ before) bs = omega (arith, freed_size-unwind before (b ∷ bs))

pub Tiled-unwind :
    (meta low mid top : ℕ) (before bs : List Block)
    → TiledDown meta low before mid
    → Tiled meta mid bs top
    → Tiled meta low (unwind before bs) top
Tiled-unwind meta low mid top [] bs d t = rw (← d) t
Tiled-unwind meta low mid top (b ∷ before) bs (e, f, d) t =
    Tiled-unwind meta low (b.start - meta) top before (b ∷ bs) d (omega arith, rw (← e) t)

pub unwind-Tiled :
    (meta low top : ℕ) (before bs : List Block)
    → Tiled meta low (unwind before bs) top
    → (mid : ℕ) × TiledDown meta low before mid × Tiled meta mid bs top
unwind-Tiled meta low top [] bs t = (low, refl, t)
unwind-Tiled meta low top (b ∷ before) bs t =
    let (mid, d, (e, u)) = unwind-Tiled meta low top before (b ∷ bs) t in
    let back : b.start - meta ≡ mid = omega arith in
    (b.start + b.size, (refl, omega arith, rw back d), u)

Apart-sym : (b c : Block) → (b.is_freed && c.is_freed) ≡ false → (c.is_freed && b.is_freed) ≡ false
Apart-sym b c h = ground arith

Meet-sym : (before bs : List Block) (b : Block) → Apart b before → Meet before (b ∷ bs)
Meet-sym [] bs b h = tt
Meet-sym (c ∷ before) bs b h = Apart-sym b c h

Apart-Meet : (before bs : List Block) (b : Block) → Meet before (b ∷ bs) → Apart b before
Apart-Meet [] bs b h = tt
Apart-Meet (c ∷ before) bs b h = Apart-sym c b h

pub IsMerged-unwind :
    (before bs : List Block)
    → IsMerged before
    → Meet before bs
    → IsMerged bs
    → IsMerged (unwind before bs)
IsMerged-unwind [] bs m j n = n
IsMerged-unwind (b ∷ before) bs (a, m) j n =
    IsMerged-unwind before (b ∷ bs) m (Meet-sym before bs b a) (j, n)

pub unwind-IsMerged :
    (before bs : List Block)
    → IsMerged (unwind before bs)
    → IsMerged before × Meet before bs × IsMerged bs
unwind-IsMerged [] bs n = (tt, tt, n)
unwind-IsMerged (b ∷ before) bs n =
    let (m, j, (a, k)) = unwind-IsMerged before (b ∷ bs) n in ((Apart-Meet before bs b j, m), a, k)

-- Nodes and counters that are whole, from `low` up to `top`, with the given nodes in use.
pub record IsWhole (meta low top : ℕ) (used : List Block) (r : List Block × Stats) : Type 0 where
  pub counted : Counted r.0 r.1
  pub tiled : Tiled meta low r.0 top
  pub merged : IsMerged r.0
  pub used_now : in_use r.0 ≡ used

pub IsWhole-now :
    {meta low top : ℕ} {used : List Block} (r : List Block × Stats)
    → IsWhole meta low top used r
    → IsWhole meta low top (in_use r.0) r
IsWhole-now r w = record {
  counted = w.counted;
  tiled = w.tiled;
  merged = w.merged;
  used_now = refl;
}

pub record IsHeap (meta low : ℕ) (h : Heap) : Type 0 where
  pub none_yet : h.first_alloc ≡ true → h.brk ≡ low
  pub some_now : h.first_alloc ≡ false → low < h.brk
  pub whole : IsWhole meta low h.brk (in_use h.blocks) (h.blocks, h.stats)
  pub clean : (a : ℕ) → h.brk ≤ a → h.mem a ≡ 0

pub low-Tiled : (meta low top : ℕ) (bs : List Block) → Tiled meta low bs top → low ≤ top
low-Tiled meta low top [] t = omega arith
low-Tiled meta low top (b ∷ bs) (e, t) = omega (arith, low-Tiled meta (b.start + b.size) top bs t)

pub Tiled-empty :
    (meta low top : ℕ) (bs : List Block) → 0 < meta → top ≡ low → Tiled meta low bs top → bs ≡ []
Tiled-empty meta low top [] p e t = refl
Tiled-empty meta low top (b ∷ bs) p e (f, t) =
    absurd (omega (arith, low-Tiled meta (b.start + b.size) top bs t))

pub Tiled-Laid : (meta low top : ℕ) (bs : List Block) → Tiled meta low bs top → Laid meta low bs top
Tiled-Laid meta low top [] t = omega arith
Tiled-Laid meta low top (b ∷ bs) (e, t) = (omega arith, Tiled-Laid meta (b.start + b.size) top bs t)

-- The memory above the break stays clean when the headers of a whole list are stored.
pub stored-clean :
    (meta low top : ℕ) (image : List Block → ℕ → ℕ) (bs : List Block) (mem : ℕ → ℕ)
    → Tiled meta low bs top
    → ((a : ℕ) → top ≤ a → mem a ≡ 0)
    → (a : ℕ) → top ≤ a
    → store_headers meta image bs mem a ≡ 0
stored-clean meta low top image bs mem t clean =
    store_headers-clean meta low top image bs mem (Tiled-Laid meta low top bs t) clean

-- Two heaps differ, in memory, in the headers of the second one only.
abbrev pub Outside : ℕ → Heap → Heap → Type 0
Outside meta h h' = (a : ℕ) → in_header meta h'.blocks a ≡ false → h'.mem a ≡ h.mem a
