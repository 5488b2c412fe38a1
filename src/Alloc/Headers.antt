-- ===== src/Alloc/Headers.antt =====
-- Where the headers of the blocks stand, and what storing them leaves alone.
use operation_systems.Common.{
  ℕ, ◌+◌, ◌≤◌, ◌<◌, ◌≡◌, ap, refl, false, some, List, [], ◌∷◌, ◌==◌, arith, inl, inr, Bool-cases,
}
use operation_systems.Alloc.Memory.{Block, in_header, store_headers}
use operation_systems.Alloc.FirstFit.{lookup}
use operation_systems.Alloc.Blocks.{Laid, top-Laid, end-lookup, Replaces, at, behind}

-- No header stands below the first block's, above the break, or within a block.
below-headers :
    (meta low top a : ℕ) (bs : List Block)
    → Laid meta low bs top
    → a < low
    → in_header meta bs a ≡ false
unfolding in_header
below-headers meta low top a [] l p = refl
below-headers meta low top a (x ∷ bs) (l, m) p =
    ground (arith, below-headers meta (x.start + x.size) top a bs m (omega arith))

above-headers :
    (meta low top a : ℕ) (bs : List Block)
    → Laid meta low bs top
    → top ≤ a
    → in_header meta bs a ≡ false
unfolding in_header
above-headers meta low top a [] l p = refl
above-headers meta low top a (x ∷ bs) (l, m) p =
    let t = top-Laid meta (x.start + x.size) top bs m in
    ground (arith, above-headers meta (x.start + x.size) top a bs m p)

pub within-block :
    (meta low top r a : ℕ) (bs : List Block) (c : Block)
    → Laid meta low bs top
    → lookup r bs ≡ some c
    → r ≤ a
    → a < r + c.size
    → in_header meta bs a ≡ false
unfolding lookup in_header
within-block meta low top r a [] c l e p q = absurd cc
within-block meta low top r a (x ∷ bs) c (l, m) e p q = elim (Bool-cases (x.start == r)) [
  | inl h ↦
      let same : x ≡ c = ground arith in
      let sizes : x.size ≡ c.size = ap (λ b. b.size) same in
      ground (arith, below-headers meta (x.start + x.size) top a bs m (ground (arith, sizes)))
  | inr h ↦
      let (i, j, k) = end-lookup meta (x.start + x.size) top r bs c m (ground arith) in
      ground (arith, within-block meta (x.start + x.size) top r a bs c m (ground arith) p q)
]

pub store_headers-clean :
    (meta low brk : ℕ) (image : List Block → ℕ → ℕ) (bs : List Block) (mem : ℕ → ℕ)
    → Laid meta low bs brk
    → ((a : ℕ) → brk ≤ a → mem a ≡ 0)
    → (a : ℕ) → brk ≤ a
    → store_headers meta image bs mem a ≡ 0
unfolding store_headers
store_headers-clean meta low brk image bs mem l clean a p =
    rw (above-headers meta low brk a bs l p) (clean a p)

-- Storing headers changes no byte outside of them.
pub store_headers-outside :
    (meta : ℕ) (image : List Block → ℕ → ℕ) (bs : List Block) (mem : ℕ → ℕ) (a : ℕ)
    → in_header meta bs a ≡ false
    → store_headers meta image bs mem a ≡ mem a
unfolding store_headers
store_headers-outside meta image bs mem a e = rw e refl

-- Headers stand where they did when fields of a block change.
pub in_header-Replaces :
    (meta a : ℕ) {b c : Block} {bs bs' : List Block}
    → Replaces b c bs bs'
    → c.start ≡ b.start
    → in_header meta bs' a ≡ in_header meta bs a
unfolding in_header
in_header-Replaces meta a (at bs) e = rw e refl
in_header-Replaces meta a (behind x r) e = rw (in_header-Replaces meta a r e) refl
