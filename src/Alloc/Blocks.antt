-- ===== src/Alloc/Blocks.antt =====
-- What the loops over the list of blocks find and change.
use operation_systems.Common.{
  ℕ, ◌+◌, ◌≤◌, ◌<◌, ◌≡◌, refl, true, false, ◌&&◌, Option, none, some, List, [], ◌∷◌, ◌++◌, inl, inr,
  Bool-cases, leb, ◌==◌, if◌then◌else◌, arith,
}
use mathlib.Core.Path.{subst}
use operation_systems.Alloc.Memory.{Block}
use operation_systems.Alloc.FirstFit.{find_free, keep_block, lookup, mark_freed}

abbrev pub total_size : List Block → ℕ
total_size [] = 0
total_size (b ∷ bs) = b.size + total_size bs

abbrev pub freed_count : List Block → ℕ
freed_count [] = 0
freed_count (b ∷ bs) = (if b.is_freed then 1 else 0) + freed_count bs

abbrev pub freed_size : List Block → ℕ
freed_size [] = 0
freed_size (b ∷ bs) = (if b.is_freed then b.size else 0) + freed_size bs

abbrev pub node_count : List Block → ℕ
node_count [] = 0
node_count (b ∷ bs) = 1 + node_count bs

-- The blocks stand one behind the other, each behind its header, from `low` up to `top`.
abbrev pub Laid : ℕ → ℕ → List Block → ℕ → Type 0
Laid meta low [] top = low ≤ top
Laid meta low (b ∷ bs) top = (low + meta ≤ b.start) × Laid meta (b.start + b.size) bs top

pub top-Laid : (meta low top : ℕ) (bs : List Block) → Laid meta low bs top → low ≤ top
top-Laid meta low top [] l = l
top-Laid meta low top (x ∷ bs) (l, m) = omega (arith, top-Laid meta (x.start + x.size) top bs m)

-- The second list is the first with one occurrence of `b` exchanged for `c`.
pub data Replaces (b c : Block) : List Block → List Block → Type 0 where
  at : (bs : List Block) → Replaces b c (b ∷ bs) (c ∷ bs)
  behind : (x : Block) {bs bs' : List Block} → Replaces b c bs bs' → Replaces b c (x ∷ bs) (x ∷ bs')

module _ {b c : Block} where
  pub total_size-Replaces :
      {bs bs' : List Block} → Replaces b c bs bs' → total_size bs' + b.size ≡ total_size bs + c.size
  total_size-Replaces (at bs) = omega arith
  total_size-Replaces (behind x r) = omega (arith, total_size-Replaces r)

  pub node_count-Replaces :
      {bs bs' : List Block} → Replaces b c bs bs' → node_count bs' ≡ node_count bs
  node_count-Replaces (at bs) = refl
  node_count-Replaces (behind x r) = omega (arith, node_count-Replaces r)

  pub freed_count-Replaces :
      {bs bs' : List Block}
      → Replaces b c bs bs'
      → freed_count bs' + (if b.is_freed then 1 else 0)
        ≡ freed_count bs + (if c.is_freed then 1 else 0)
  freed_count-Replaces (at bs) = ground arith
  freed_count-Replaces (behind x r) = ground (arith, freed_count-Replaces r)

  pub freed_size-Replaces :
      {bs bs' : List Block}
      → Replaces b c bs bs'
      → freed_size bs' + (if b.is_freed then b.size else 0)
        ≡ freed_size bs + (if c.is_freed then c.size else 0)
  freed_size-Replaces (at bs) = ground arith
  freed_size-Replaces (behind x r) = ground (arith, freed_size-Replaces r)

  pub Laid-Replaces :
      (meta low top : ℕ) {bs bs' : List Block}
      → Replaces b c bs bs'
      → c.start ≡ b.start
      → c.size ≡ b.size
      → Laid meta low bs top
      → Laid meta low bs' top
  Laid-Replaces meta low top (at bs) e f (l, m) = (omega arith, rw (e, f) m)
  Laid-Replaces meta low top (behind x r) e f (l, m) =
      (l, Laid-Replaces meta (x.start + x.size) top r e f m)

  pub start-Replaces :
      (meta low top : ℕ) {bs bs' : List Block}
      → Replaces b c bs bs'
      → Laid meta low bs top
      → low + meta ≤ b.start
  start-Replaces meta low top (at bs) (l, m) = l
  start-Replaces meta low top (behind x r) (l, m) =
      omega (arith, start-Replaces meta (x.start + x.size) top r m)

  -- Looked up, the new block stands where the old one did, and all else is as it was.
  pub lookup-Replaces :
      (meta low top : ℕ) {bs bs' : List Block}
      → 0 < meta
      → Replaces b c bs bs'
      → c.start ≡ b.start
      → Laid meta low bs top
      → (p : ℕ) → lookup p bs' ≡ (if b.start == p then some c else lookup p bs)
  unfolding lookup
  lookup-Replaces meta low top pos_meta (at bs) e l p = ground (arith, e)
  lookup-Replaces meta low top pos_meta (behind x r) e (l, m) p =
      let apart = start-Replaces meta (x.start + x.size) top r m in
      ground (arith, lookup-Replaces meta (x.start + x.size) top pos_meta r e m p)

  pub lookup-Replaced :
      (meta low top : ℕ) {bs bs' : List Block}
      → 0 < meta
      → Replaces b c bs bs'
      → Laid meta low bs top
      → lookup b.start bs ≡ some b
  unfolding lookup
  lookup-Replaced meta low top pos_meta (at bs) l = ground arith
  lookup-Replaced meta low top pos_meta (behind x r) (l, m) =
      let apart = start-Replaces meta (x.start + x.size) top r m in
      ground (arith, lookup-Replaced meta (x.start + x.size) top pos_meta r m)

-- What `find_free` delivers: a free block that fits, with the list in which it is in use.
abbrev pub Taken : ℕ → List Block → Option (Block × List Block) → Type 0
Taken req bs none = Unit {0}
Taken req bs (some (b, bs')) =
    Replaces b (record b { is_freed = false }) bs bs' × (req ≤ b.size) × (b.is_freed ≡ true)

keep_block-Taken :
    (req : ℕ) (x : Block) (bs : List Block) (o : Option (Block × List Block))
    → Taken req bs o
    → Taken req (x ∷ bs) (keep_block x o)
keep_block-Taken req x bs none t = tt
keep_block-Taken req x bs (some (b, bs')) (r, p, q) = (behind x r, p, q)

pub find_free-Taken : (req : ℕ) (bs : List Block) → Taken req bs (find_free req bs)
unfolding find_free
find_free-Taken req [] = tt
find_free-Taken req (x ∷ bs) = elim (Bool-cases (leb req x.size && x.is_freed)) [
  | inl fit ↦ rw (fit, find_free) (at bs, ground arith, ground arith)
  | inr no_fit ↦
      rw (no_fit, find_free) (keep_block-Taken req x bs (find_free req bs) (find_free-Taken req bs))
]

pub mark_freed-Replaces :
    (p : ℕ) (bs : List Block) {b : Block}
    → lookup p bs ≡ some b
    → Replaces b (record b { is_freed = true }) bs (mark_freed p bs) × (b.start ≡ p)
unfolding lookup mark_freed
mark_freed-Replaces p [] e = absurd cc
mark_freed-Replaces p (x ∷ bs) {b} e = elim (Bool-cases (x.start == p)) [
  | inl h ↦
      let same : x ≡ b = ground arith in
      rw (h, mark_freed)
        (
          subst
              (λ y.
                Replaces y (record y { is_freed = true }) (x ∷ bs)
                  (record x { is_freed = true } ∷ bs))
              same (at bs),
          ground arith,
        )
  | inr h ↦
      let (r, s) = mark_freed-Replaces p bs {b = b} (ground arith) in
      rw (h, mark_freed) (behind x r, s)
]

-- A block of the list ends below its top.
pub end-lookup :
    (meta low top r : ℕ) (bs : List Block) (c : Block)
    → Laid meta low bs top
    → lookup r bs ≡ some c
    → (c.start ≡ r) × (low + meta ≤ r) × (r + c.size ≤ top)
unfolding lookup
end-lookup meta low top r [] c l e = absurd cc
end-lookup meta low top r (x ∷ bs) c (l, m) e = elim (Bool-cases (x.start == r)) [
  | inl h ↦
      let same : x ≡ c = ground arith in
      ground (arith, same, top-Laid meta (x.start + x.size) top bs m)
  | inr h ↦
      let (i, j, k) = end-lookup meta (x.start + x.size) top r bs c m (ground arith) in
      (i, omega arith, k)
]

pub lookup-append :
    (bs : List Block) (b : Block) (r : ℕ) (c : Block)
    → lookup r bs ≡ some c
    → lookup r (bs ++ b ∷ []) ≡ some c
unfolding lookup
lookup-append [] b r c e = absurd cc
lookup-append (x ∷ bs) b r c e = elim (Bool-cases (x.start == r)) [
  | inl h ↦ ground arith
  | inr h ↦ ground (arith, lookup-append bs b r c (ground arith))
]

pub lookup-append_new :
    (meta low top : ℕ) (bs : List Block) (b : Block)
    → Laid meta low bs top
    → top < b.start
    → lookup b.start (bs ++ b ∷ []) ≡ some b
unfolding lookup
lookup-append_new meta low top [] b l p = ground arith
lookup-append_new meta low top (x ∷ bs) b (l, m) p =
    let t = top-Laid meta (x.start + x.size) top bs m in
    ground (arith, lookup-append_new meta (x.start + x.size) top bs b m p)
