-- ===== src/Queue/Popped.antt =====
-- The invariant of the queue while a thread takes an item out, and while one wakes.
use operation_systems.Common.{
  if-all, ℕ, ◌≡◌, ◌∙◌, ap, sym, refl, Bool, true, not, ◌||◌, Option, none, some, List, [], ◌∷◌,
  ◌++◌, arith,
}
use mathlib.Core.Path.{subst}
use mathlib.Core.List.{append_assoc}
use operation_systems.Common.Int.{pos, ◌-ℤ◌, ◌==ℤ◌}
use operation_systems.Queue.Monitor.{
  Place, away, read_test, read_asleep, reading, took, System, empty, put, wake, signal, test_read,
  take_front, consumers_unlock,
}
use operation_systems.Queue.Threads.{
  asleep, Threads, put-all, release-Threads, wake-steady, signal-same, signal-Threads,
  woken-Threads,
}
use operation_systems.Queue.Kept.{
  plus_one, minus_one, Kept, IsKept, put-now, still_awake, stay-Threads,
}

module _ {ℓ} {A : Type ℓ} (s : System A) (t : ℕ) where
  pub consumers_unlock-Kept :
      (x : A) (w : Option ℕ)
      → Kept s (took x)
      → s.holder ≡ some t
      → Kept (consumers_unlock t w s) away
  consumers_unlock-Kept x w k mine =
      let same = signal-same w s.at k.threads.unheld in
      if-all
        (λ at'.
          Kept
            (record s {
              consumers_inside = s.consumers_inside -ℤ pos 1;
              holder = none;
              at = put t away at';
            })
            away)
        ((s.consumers_inside -ℤ pos 1) ==ℤ pos 0) _ _
        (λ e.
          away-Kept (signal w s.at) (signal-Threads w s.holder s.at k.threads)
            (λ v g. k.awake v (sym (ap asleep (same v)) ∙ g) refl))
        (λ e. away-Kept s.at k.threads (λ v g. k.awake v g refl))
    where
      away-Kept :
          (at' : ℕ → Place A)
          → Threads s.holder at'
          → ((v : ℕ) → asleep (at' v) ≡ true → s.items ≡ [])
          → Kept
              (record s {
                consumers_inside = s.consumers_inside -ℤ pos 1;
                holder = none;
                at = put t away at';
              })
              away
      away-Kept at' v up = record {
        threads = release-Threads t away s.holder at' v mine refl refl;
        now = λ u f. absurd cc;
        free = λ f. refl;
        writers_now = k.writers_now;
        readers_now = minus_one k.readers_now;
        queued_now = k.queued_now;
        awake = λ u f l. still_awake t away at' (s.items ≡ []) refl up u f;
        full = λ f. absurd cc;
        in_order = k.in_order;
      }

  pub test_read-Kept : Kept s read_test → s.holder ≡ some t → IsKept (test_read t s)
  test_read-Kept k mine =
      if-all IsKept
        (not (s.producers_inside ==ℤ pos 0)
          || (not (s.producers_waiting ==ℤ pos 0)
              || (empty s.items || not (s.consumers_inside ==ℤ pos 0))))
        _ _
        (λ e. (
          away,
          record {
            threads = release-Threads t read_asleep s.holder s.at k.threads mine refl refl;
            now = λ u f. absurd cc;
            free = λ f. refl;
            writers_now = k.writers_now;
            readers_now = k.readers_now;
            queued_now = k.queued_now;
            awake = λ u f l.
                put-all (λ v q. asleep q ≡ true → s.items ≡ []) t read_asleep s.at
                  (λ g. no_items s.items (found e)) (λ v other g. k.awake v g refl) u f;
            full = λ f. absurd cc;
            in_order = k.in_order;
          },
        ))
        (λ e. (
          reading,
          record {
            threads = stay-Threads s t reading k.threads mine refl refl;
            now = λ u f. put-now t reading s.at u (sym mine ∙ f);
            free = λ f. absurd cc;
            writers_now = k.writers_now;
            readers_now = plus_one k.readers_now;
            queued_now = k.queued_now;
            awake = λ u f l.
                still_awake t reading s.at (s.items ≡ []) refl (λ v g. k.awake v g refl) u f;
            full = λ f. found e;
            in_order = k.in_order;
          },
        ))
    where
      found :
          {b : Bool}
          → (not (s.producers_inside ==ℤ pos 0)
              || (not (s.producers_waiting ==ℤ pos 0)
                  || (empty s.items || not (s.consumers_inside ==ℤ pos 0))))
            ≡ b
          → empty s.items ≡ b
      found {b} e = rest (empty s.items) b (
          subst
            (λ z.
              (not (z ==ℤ pos 0)
                || (not (s.producers_waiting ==ℤ pos 0)
                    || (empty s.items || not (s.consumers_inside ==ℤ pos 0))))
              ≡ b)
            k.writers_now e)
        where
          rest :
              (i b : Bool)
              → (not (s.producers_waiting ==ℤ pos 0) || (i || not (s.consumers_inside ==ℤ pos 0)))
                ≡ b
              → i ≡ b
          rest i b f = ground (arith, k.readers_now, k.queued_now, f)

      no_items : (l : List A) → empty l ≡ true → l ≡ []
      no_items [] e = refl
      no_items (x ∷ l) e = absurd cc

  pub pop_item-Kept :
      Kept s reading
      → s.holder ≡ some t
      → (l : List A) → s.items ≡ l
      → {s' : System A} → take_front t s l ≡ some s'
      → IsKept s'
  pop_item-Kept k mine [] e f = absurd cc
  pop_item-Kept k mine (x ∷ l) e {s'} f = subst IsKept (some-inj f) (
    took x,
    record {
      threads = stay-Threads s t (took x) k.threads mine refl refl;
      now = λ u g. put-now t (took x) s.at u (sym mine ∙ g);
      free = λ g. absurd cc;
      writers_now = k.writers_now;
      readers_now = k.readers_now;
      queued_now = k.queued_now;
      awake = λ u g h.
          still_awake t (took x) s.at (l ≡ []) refl
            (λ v up. absurd (no_item (sym e ∙ k.awake v up refl))) u g;
      full = λ g. absurd cc;
      in_order = k.in_order ∙ ap (λ z. s.popped ++ z) e ∙ sym (append_assoc s.popped (x ∷ []) l);
    },
  )
    where
      some-inj : {a b : System A} → some a ≡ some b → a ≡ b
      some-inj g = cc

      no_item : x ∷ l ≡ [] → ⊥
      no_item g = cc

  pub woken-Kept : IsKept s → IsKept (record s { at = put t (wake (s.at t)) s.at })
  woken-Kept (p, k) = (
    p,
    record {
      threads = woken-Threads t s.holder s.at k.threads;
      now = λ u e.
          put-all (λ v q. s.holder ≡ some v → q ≡ p) t (wake (s.at t)) s.at
            (λ f. (wake-steady (s.at t)).0 (k.threads.of_holder t f) ∙ k.now t f)
            (λ v other f. k.now v f) u e;
      free = k.free;
      writers_now = k.writers_now;
      readers_now = k.readers_now;
      queued_now = k.queued_now;
      awake = λ u e l.
          still_awake t (wake (s.at t)) s.at (s.items ≡ []) ((wake-steady (s.at t)).1)
            (λ v f. k.awake v f l) u e;
      full = k.full;
      in_order = k.in_order;
    },
  )
