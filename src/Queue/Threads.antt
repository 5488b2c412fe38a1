-- ===== src/Queue/Threads.antt =====
-- Which threads may hold the lock, and which are asleep, as they move.
use operation_systems.Common.{
  ℕ, ◌≡◌, ◌∙◌, ap, sym, refl, Bool, true, false, Option, none, some, ◌==◌, ◌⊎◌, inl, inr, ◌≢◌,
  Bool-cases, arith,
}
use mathlib.Core.Path.{subst}
use operation_systems.Queue.Monitor.{
  Place, away, write_test, write_asleep, write_woken, writing, written, read_test, read_asleep,
  read_woken, reading, took, put, wake, wake_reader, wake_writer, signal, broadcast,
}

module _ {ℓ} {A : Type ℓ} where
  -- A thread there holds the lock.
  abbrev pub holds : Place A → Bool
  holds away = false
  holds (write_test x) = true
  holds (write_asleep x) = false
  holds (write_woken x) = false
  holds (writing x) = true
  holds written = true
  holds read_test = true
  holds read_asleep = false
  holds read_woken = false
  holds reading = true
  holds (took x) = true

  -- A thread there has had to wait in `push`.
  abbrev pub held_up : Place A → Bool
  held_up (write_asleep x) = true
  held_up (write_woken x) = true
  held_up p = false

  abbrev pub asleep : Place A → Bool
  asleep read_asleep = true
  asleep p = false

  pub record Threads (holder : Option ℕ) (at : ℕ → Place A) : Type 0 where
    pub of_holder : (t : ℕ) → holder ≡ some t → holds (at t) ≡ true
    pub to_holder : (t : ℕ) → holds (at t) ≡ true → holder ≡ some t
    pub unheld : (t : ℕ) → held_up (at t) ≡ false

  pub put_self : (t : ℕ) (p : Place A) (at : ℕ → Place A) → put t p at t ≡ p
  unfolding put
  put_self t p at = ground arith

  -- A property of the places holds after a `put` that keeps it.
  pub put-all {k} :
      (P : ℕ → Place A → Type k) (t : ℕ) (p : Place A) (at : ℕ → Place A)
      → P t p
      → ((u : ℕ) → t ≢ u → P u (at u))
      → (u : ℕ) → P u (put t p at u)
  unfolding put
  put-all P t p at here there u = elim (Bool-cases (t == u)) [
    | inl same ↦ let eq : t ≡ u = ground arith in rw same (subst (λ v. P v p) eq here)
    | inr other ↦ rw other (there u (ground arith))
  ]

  -- The thread that holds the lock, or takes it, moves on and keeps it.
  pub keep-Threads :
      (t : ℕ) (p : Place A) (holder : Option ℕ) (at : ℕ → Place A)
      → Threads holder at
      → (holder ≡ none) ⊎ (holder ≡ some t)
      → holds p ≡ true
      → held_up p ≡ false
      → Threads (some t) (put t p at)
  keep-Threads t p holder at v mine locked calm = record {
    of_holder =
        put-all (λ u q. some t ≡ some u → holds q ≡ true) t p at (λ e. locked)
          (λ u other e. absurd (other (some-inj e)));
    to_holder =
        put-all (λ u q. holds q ≡ true → some t ≡ some u) t p at (λ e. refl)
          (λ u other e. absurd (other (owner u mine (v.to_holder u e))));
    unheld = put-all (λ u q. held_up q ≡ false) t p at calm (λ u other. v.unheld u);
  }
    where
      some-inj : {a b : ℕ} → some a ≡ some b → a ≡ b
      some-inj e = cc

      owner : (u : ℕ) → (holder ≡ none) ⊎ (holder ≡ some t) → holder ≡ some u → t ≡ u
      owner u (inl e) f = absurd cc
      owner u (inr e) f = cc

  -- The thread that holds the lock lets go of it.
  pub release-Threads :
      (t : ℕ) (p : Place A) (holder : Option ℕ) (at : ℕ → Place A)
      → Threads holder at
      → holder ≡ some t
      → holds p ≡ false
      → held_up p ≡ false
      → Threads none (put t p at)
  release-Threads t p holder at v mine out calm = record {
    of_holder = λ u e. absurd cc;
    to_holder =
        put-all (λ u q. holds q ≡ true → none ≡ some u) t p at (λ e. absurd cc)
          (λ u other e. absurd (other (owner u (v.to_holder u e))));
    unheld = put-all (λ u q. held_up q ≡ false) t p at calm (λ u other. v.unheld u);
  }
    where
      owner : (u : ℕ) → holder ≡ some u → t ≡ u
      owner u f = cc

  -- Places changed by a function that makes no thread hold the lock, or stop holding it.
  pub map-Threads :
      (f : ℕ → Place A) (holder : Option ℕ) (at : ℕ → Place A)
      → Threads holder at
      → ((u : ℕ) → (holds (f u) ≡ holds (at u)) × (held_up (f u) ≡ held_up (at u)))
      → Threads holder f
  map-Threads f holder at v same = record {
    of_holder = λ t e. (same t).0 ∙ v.of_holder t e;
    to_holder = λ t e. v.to_holder t (sym (same t).0 ∙ e);
    unheld = λ t. (same t).1 ∙ v.unheld t;
  }

  wake-same : (p : Place A) → (holds (wake p) ≡ holds p) × (held_up (wake p) ≡ held_up p)
  wake-same away = (refl, refl)
  wake-same (write_test x) = (refl, refl)
  wake-same (write_asleep x) = (refl, refl)
  wake-same (write_woken x) = (refl, refl)
  wake-same (writing x) = (refl, refl)
  wake-same written = (refl, refl)
  wake-same read_test = (refl, refl)
  wake-same read_asleep = (refl, refl)
  wake-same read_woken = (refl, refl)
  wake-same reading = (refl, refl)
  wake-same (took x) = (refl, refl)

  -- Waking moves no thread that holds the lock, and leaves none asleep.
  pub wake-steady : (p : Place A) → (holds p ≡ true → wake p ≡ p) × (asleep (wake p) ≡ false)
  wake-steady away = (λ e. refl, refl)
  wake-steady (write_test x) = (λ e. refl, refl)
  wake-steady (write_asleep x) = (λ e. absurd cc, refl)
  wake-steady (write_woken x) = (λ e. refl, refl)
  wake-steady (writing x) = (λ e. refl, refl)
  wake-steady written = (λ e. refl, refl)
  wake-steady read_test = (λ e. refl, refl)
  wake-steady read_asleep = (λ e. absurd cc, refl)
  wake-steady read_woken = (λ e. refl, refl)
  wake-steady reading = (λ e. refl, refl)
  wake-steady (took x) = (λ e. refl, refl)

  wake_reader-same :
      (p : Place A)
      → (holds (wake_reader p) ≡ holds p)
        × (held_up (wake_reader p) ≡ held_up p)
        × (asleep (wake_reader p) ≡ false)
  wake_reader-same away = (refl, refl, refl)
  wake_reader-same (write_test x) = (refl, refl, refl)
  wake_reader-same (write_asleep x) = (refl, refl, refl)
  wake_reader-same (write_woken x) = (refl, refl, refl)
  wake_reader-same (writing x) = (refl, refl, refl)
  wake_reader-same written = (refl, refl, refl)
  wake_reader-same read_test = (refl, refl, refl)
  wake_reader-same read_asleep = (refl, refl, refl)
  wake_reader-same read_woken = (refl, refl, refl)
  wake_reader-same reading = (refl, refl, refl)
  wake_reader-same (took x) = (refl, refl, refl)

  -- Where no thread is held up in `push`, the signal wakes none.
  pub wake_writer-same : (p : Place A) → held_up p ≡ false → wake_writer p ≡ p
  wake_writer-same away e = refl
  wake_writer-same (write_test x) e = refl
  wake_writer-same (write_asleep x) e = absurd cc
  wake_writer-same (write_woken x) e = refl
  wake_writer-same (writing x) e = refl
  wake_writer-same written e = refl
  wake_writer-same read_test e = refl
  wake_writer-same read_asleep e = refl
  wake_writer-same read_woken e = refl
  wake_writer-same reading e = refl
  wake_writer-same (took x) e = refl

  put-id : (t u : ℕ) (at : ℕ → Place A) → put t (at t) at u ≡ at u
  put-id t u at = put-all (λ v q. q ≡ at v) t (at t) at refl (λ v other. refl) u

  pub signal-same :
      (w : Option ℕ) (at : ℕ → Place A)
      → ((t : ℕ) → held_up (at t) ≡ false)
      → (u : ℕ) → signal w at u ≡ at u
  signal-same none at calm u = refl
  signal-same (some w) at calm u = rw (wake_writer-same (at w) (calm w)) (put-id w u at)

  pub signal-Threads :
      (w : Option ℕ) (holder : Option ℕ) (at : ℕ → Place A)
      → Threads holder at
      → Threads holder (signal w at)
  signal-Threads w holder at v =
      map-Threads (signal w at) holder at v
        (λ u. (ap holds (signal-same w at v.unheld u), ap held_up (signal-same w at v.unheld u)))

  pub broadcast-Threads :
      (holder : Option ℕ) (at : ℕ → Place A) → Threads holder at → Threads holder (broadcast at)
  broadcast-Threads holder at v =
      map-Threads (broadcast at) holder at v
        (λ u. ((wake_reader-same (at u)).0, (wake_reader-same (at u)).1))

  pub broadcast-awake : (at : ℕ → Place A) (u : ℕ) → asleep (broadcast at u) ≡ false
  broadcast-awake at u = (wake_reader-same (at u)).2

  pub woken-Threads :
      (t : ℕ) (holder : Option ℕ) (at : ℕ → Place A)
      → Threads holder at
      → Threads holder (put t (wake (at t)) at)
  woken-Threads t holder at v = map-Threads (put t (wake (at t)) at) holder at v (
      put-all (λ u q. (holds q ≡ holds (at u)) × (held_up q ≡ held_up (at u))) t (wake (at t)) at
        (wake-same (at t)) (λ u other. (refl, refl)))
