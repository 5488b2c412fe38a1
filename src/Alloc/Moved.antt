-- ===== src/Alloc/Moved.antt =====
-- `free`, `calloc` and `realloc` on a valid heap.
use operation_systems.Common.{
  ℕ, ◌+◌, ◌-◌, ◌≤◌, ◌<◌, ◌≡◌, ◌∙◌, ap, sym, refl, Bool, true, false, ◌&&◌, ◌||◌, Option, none, some,
  List, [], ◌∷◌, inl, inr, Bool-cases, ltb, leb, ◌==◌, if◌then◌else◌, arith,
}
use operation_systems.Common.Int.{plus_pos, pos}
use operation_systems.Alloc.Memory.{Block, Heap, relink, in_header, memcpy}
use operation_systems.Alloc.FirstFit.{
  max_size, lookup, mark_freed, count_freed, move_block, realloc, free,
}
use operation_systems.Alloc.Blocks.{
  Replaces, total_size-Replaces, node_count-Replaces, freed_count-Replaces, freed_size-Replaces,
  Laid-Replaces, mark_freed-Replaces, lookup-Replaces, end-lookup,
}
use operation_systems.Alloc.Headers.{
  store_headers-clean, store_headers-outside, within-block, in_header-Replaces,
}
use operation_systems.Alloc.Laid.{IsHeap, Allocates, Stores, malloc-Allocates}

no_lookup : (r : ℕ) (bs : List Block) (c : Block) → bs ≡ [] → lookup r bs ≡ some c → ⊥
unfolding lookup
no_lookup r [] c e f = cc
no_lookup r (x ∷ bs) c e f = cc

module _ (meta : ℕ) (image : List Block → ℕ → ℕ) (header : 0 < meta) (h : Heap) (v : IsHeap meta h)
    (b : Block) (at : lookup b.start h.blocks ≡ some b) (used : b.is_freed ≡ false) where
  abbrev freed_heap : Heap
  freed_heap = record (relink meta image (mark_freed b.start h.blocks) h) {
    stats = count_freed b.size h.stats;
  }

  replaced : Replaces b (record b { is_freed = true }) h.blocks (mark_freed b.start h.blocks)
  replaced = (mark_freed-Replaces b.start h.blocks at).0

  freed-IsHeap : IsHeap meta freed_heap
  freed-IsHeap = record {
    none_yet = λ e. absurd (no_lookup b.start h.blocks b (v.none_yet e) at);
    free_blocks = plus_pos 1 v.free_blocks (ground (arith, freed_count-Replaces replaced));
    free_bytes = plus_pos b.size v.free_bytes (ground (arith, freed_size-Replaces replaced));
    allocated_blocks = v.allocated_blocks ∙ ap pos (sym (node_count-Replaces replaced));
    allocated_bytes = v.allocated_bytes ∙ ap pos (omega (arith, total_size-Replaces replaced));
    meta_data_blocks = v.meta_data_blocks ∙ ap pos (sym (node_count-Replaces replaced));
    laid = Laid-Replaces meta 0 h.brk replaced refl refl v.laid;
    clean =
        store_headers-clean meta 0 h.brk image (mark_freed b.start h.blocks) h.mem
          (Laid-Replaces meta 0 h.brk replaced refl refl v.laid) v.clean;
  }

  lookup-freed :
      (r : ℕ)
      → lookup r (mark_freed b.start h.blocks)
        ≡ (if b.start == r then some (record b { is_freed = true }) else lookup r h.blocks)
  lookup-freed r = lookup-Replaces meta 0 h.brk header replaced refl v.laid r

freed_already :
    (h : Heap) (b : Block)
    → lookup b.start h.blocks ≡ some b
    → b.is_freed ≡ true
    → (r : ℕ)
    → lookup r h.blocks
      ≡ (if b.start == r then some (record b { is_freed = true }) else lookup r h.blocks)
freed_already h b at freed r = elim (Bool-cases (b.start == r)) [
  | inl same ↦
      let eq : b.start ≡ r = ground arith in
      let whole : b ≡ record b { is_freed = true } = ap (λ x. record b { is_freed = x }) freed in
      rw same (ap (λ x. lookup x h.blocks) (sym eq) ∙ at ∙ ap some whole)
  | inr other ↦ rw other refl
]

-- On a valid heap `free` of a pointer to a block leaves a valid heap in which that block is free and every
-- other one is as it was. A block that is free already stays as it is, with the counters.
pub free-IsHeap :
    (meta : ℕ) (image : List Block → ℕ → ℕ) (h : Heap) (b : Block)
    → 0 < meta
    → IsHeap meta h
    → lookup b.start h.blocks ≡ some b
    → (h' : Heap) × (free meta image (some b.start) h ≡ some h')
      × IsHeap meta h'
      × ((r : ℕ)
          → lookup r h'.blocks
            ≡ (if b.start == r then some (record b { is_freed = true }) else lookup r h.blocks))
      × (b.is_freed ≡ true → h' ≡ h)
unfolding free
free-IsHeap meta image h b header v at = elim (Bool-cases b.is_freed) [
  | inl freed ↦ (h, ground (arith, at), v, freed_already h b at freed, λ e. refl)
  | inr used ↦ (
    freed_heap meta image header h v b at used,
    ground (arith, at),
    freed-IsHeap meta image header h v b at used,
    lookup-freed meta image header h v b at used,
    λ e. absurd cc,
  )
]

-- The memory of a valid heap may change below the break.
mem-IsHeap :
    (meta : ℕ) (h : Heap) (mem : ℕ → ℕ)
    → IsHeap meta h
    → ((a : ℕ) → h.brk ≤ a → mem a ≡ h.mem a)
    → IsHeap meta (record h { mem = mem })
mem-IsHeap meta h mem v same = record {
  none_yet = v.none_yet;
  free_blocks = v.free_blocks;
  free_bytes = v.free_bytes;
  allocated_blocks = v.allocated_blocks;
  allocated_bytes = v.allocated_bytes;
  meta_data_blocks = v.meta_data_blocks;
  laid = v.laid;
  clean = λ a l. same a l ∙ v.clean a l;
}

memcpy-above :
    (p q n top : ℕ) (mem : ℕ → ℕ) (a : ℕ) → q + n ≤ top → top ≤ a → memcpy q p n mem a ≡ mem a
memcpy-above p q n top mem a l m = ground arith

memcpy-inside : (p q n i : ℕ) (mem : ℕ → ℕ) → i < n → memcpy q p n mem (q + i) ≡ mem (p + i)
memcpy-inside p q n i mem l =
    let into : leb q (q + i) && ltb (q + i) (q + n) ≡ true = ground arith in
    let from : p + (q + i - q) ≡ p + i = omega arith in rw into (ap mem from)

-- What `calloc` leaves behind the pointer it returns.
abbrev pub Zeroed : ℕ → Option ℕ → Heap → Type 0
Zeroed n none h' = Unit {0}
Zeroed n (some q) h' = (i : ℕ) → i < n → h'.mem (q + i) ≡ 0

-- What `realloc` of the block `b` leaves: NULL keeps the blocks and the memory; a pointer is to a block of
-- at least the size asked for, in use, that begins with what `b` held.
abbrev pub Moves : ℕ → Block → Heap → Option ℕ → Heap → Type 0
Moves size b h none h' = (h'.blocks ≡ h.blocks) × (h'.mem ≡ h.mem)
Moves size b h (some q) h' =
    ((c : Block) × (lookup q h'.blocks ≡ some c) × (size ≤ c.size) × (c.is_freed ≡ false))
    × ((i : ℕ) → i < b.size → h'.mem (q + i) ≡ h.mem (b.start + i))

module _ (meta : ℕ) (image : List Block → ℕ → ℕ) (grants : ℕ → ℕ → Bool) (header : 0 < meta)
    (size : ℕ) (h : Heap) (b : Block) (at : lookup b.start h.blocks ≡ some b)
    (used : b.is_freed ≡ false) where
  moved :
      (p : Option ℕ) (h1 : Heap)
      → b.size < size
      → IsHeap meta h1
      → Allocates size h p h1
      → Stores meta h p h1
      → (h2 : Heap) × (move_block meta image grants b (some (p, h1)) ≡ some (p, h2))
        × IsHeap meta h2
        × Moves size b h p h2
  moved none h1 grows v a same = (h1, refl, v, (a, same))
  moved (some q) h1 grows v ((c, found, fits, free_no_more), keeps) same =
      let (s, l, top) = end-lookup meta 0 h1.brk q h1.blocks c v.laid found in
      let (apart, kept) = keeps b.start b at used in
      let v2 =
        mem-IsHeap meta h1 (memcpy q b.start b.size h1.mem) v
          (λ a above. memcpy-above b.start q b.size h1.brk h1.mem a (omega arith) above) in
      let user_byte : (i : ℕ)
          → i < b.size
          → in_header meta (mark_freed b.start h1.blocks) (q + i) ≡ false =
        λ i below.
          in_header-Replaces meta (q + i) (mark_freed-Replaces b.start h1.blocks kept).0 refl
          ∙ within-block meta 0 h1.brk q (q + i) h1.blocks c v.laid found (omega arith)
              (omega (arith, fits, grows)) in
      let other : (b.start == q) ≡ false = ground arith in
      (
        freed_heap meta image header (record h1 { mem = memcpy q b.start b.size h1.mem }) v2 b kept
            used,
        refl,
        freed-IsHeap meta image header (record h1 { mem = memcpy q b.start b.size h1.mem }) v2 b
            kept used,
        (
          (
            c,
            ground (arith, lookup-freed meta image header h1 v b kept used q),
            fits,
            free_no_more,
          ),
          λ i below.
              store_headers-outside meta image (mark_freed b.start h1.blocks)
                (memcpy q b.start b.size h1.mem) (q + i) (user_byte i below)
              ∙ memcpy-inside b.start q b.size i h1.mem below
              ∙ same (b.start + i) (
                  within-block meta 0 h1.brk b.start (b.start + i) h1.blocks b v.laid kept
                    (omega arith) (omega arith)),
        ),
      )

  -- On a valid heap, where the system grants the memory, `realloc` of a pointer to a block in use
  -- returns. It leaves a valid heap. NULL keeps the blocks and the memory; a pointer is to a block of at
  -- least the size asked for, in use, whose first bytes are those of the old block.
  pub realloc-Moves :
      IsHeap meta h
      → grants h.brk (size + meta) ≡ true
      → (p : Option ℕ) × (h' : Heap) × (realloc meta image grants (some b.start) size h
          ≡ some (p, h'))
        × IsHeap meta h'
        × Moves size b h p h'
  unfolding realloc
  realloc-Moves v granted = elim (Bool-cases (size == 0 || ltb max_size size)) [
    | inl refused ↦ (none, h, rw refused refl, v, (refl, refl))
    | inr asked ↦ elim (Bool-cases (leb size b.size)) [
      | inl fits ↦ (
        some b.start,
        h,
        rw (asked, at, fits) refl,
        v,
        ((b, at, ground (arith, fits), used), λ i below. refl),
      )
      | inr grows ↦
          let (p, h1, e, v1, a, same) =
            malloc-Allocates meta image grants size h header v granted in
          let (h2, f, v2, m) = moved p h1 (ground (arith, grows)) v1 a same in
          (p, h2, rw (asked, at, grows, e) f, v2, m)
    ]
  ]
