-- ===== src/Queue/Kept.antt =====
-- What holds of the queue and its threads in every state they reach.
use operation_systems.Common.{
  if-all, ℕ, ◌≡◌, ◌∙◌, ap, sym, refl, Bool, true, false, Option, none, some, [], ◌∷◌, ◌++◌, inl,
  inr,
}
use mathlib.Core.Path.{subst}
use mathlib.Core.List.{append_assoc}
use operation_systems.Common.Int.{ℤ, pos, ◌+ℤ◌, ◌-ℤ◌, ltb_ℤ, ◌==ℤ◌}
use operation_systems.Queue.Monitor.{
  Place, away, write_test, writing, written, reading, took, System, empty, put, signal, broadcast,
  enter_write, test_write, push_item, producers_unlock, take_lock,
}
use operation_systems.Queue.Threads.{
  holds, held_up, asleep, Threads, put_self, put-all, keep-Threads, release-Threads, signal-same,
  signal-Threads, broadcast-Threads, broadcast-awake,
}

pub plus_one : {x : ℤ} → x ≡ pos 0 → x +ℤ pos 1 ≡ pos 1
unfolding ◌+ℤ◌
plus_one e = rw e refl

pub minus_one : {x : ℤ} → x ≡ pos 1 → x -ℤ pos 1 ≡ pos 0
unfolding ◌-ℤ◌
minus_one e = rw e refl

none_inside : {x y : ℤ} → x ≡ pos 0 → y ≡ pos 0 → ltb_ℤ (pos 0) (x +ℤ y) ≡ false
unfolding ◌+ℤ◌
none_inside e f = rw (e, f) refl

module _ {ℓ} {A : Type ℓ} where
  abbrev pub writers : Place A → ℕ
  writers (writing x) = 1
  writers written = 1
  writers p = 0

  abbrev pub readers : Place A → ℕ
  readers reading = 1
  readers (took x) = 1
  readers p = 0

  abbrev pub queued : Place A → ℕ
  queued (write_test x) = 1
  queued p = 0

  abbrev pub leaving : Place A → Bool
  leaving written = true
  leaving p = false

  abbrev pub wants : Place A → Bool
  wants reading = true
  wants p = false

  -- The state while the thread that holds the lock stands at `p`, or at `away` where there is none.
  pub record Kept (s : System A) (p : Place A) : Type ℓ where
    pub threads : Threads s.holder s.at
    pub now : (t : ℕ) → s.holder ≡ some t → s.at t ≡ p
    pub free : s.holder ≡ none → p ≡ away
    pub writers_now : s.producers_inside ≡ pos (writers p)
    pub readers_now : s.consumers_inside ≡ pos (readers p)
    pub queued_now : s.producers_waiting ≡ pos (queued p)
    pub awake : (t : ℕ) → asleep (s.at t) ≡ true → leaving p ≡ false → s.items ≡ []
    pub full : wants p ≡ true → empty s.items ≡ false
    pub in_order : s.pushed ≡ s.popped ++ s.items

  abbrev pub IsKept : System A → Type ℓ
  IsKept s = (p : Place A) × Kept s p

  pub at_holder :
      {s : System A} {t : ℕ} {p : Place A} → IsKept s → s.at t ≡ p → s.holder ≡ some t → Kept s p
  at_holder {s} {t} {p} (q, k) e f = subst (Kept s) (sym (k.now t f) ∙ e) k

  pub at_none : {s : System A} → IsKept s → s.holder ≡ none → Kept s away
  at_none {s} (q, k) f = subst (Kept s) (k.free f) k

  pub put-now :
      (t : ℕ) (p : Place A) (at : ℕ → Place A) (u : ℕ) → some t ≡ some u → put t p at u ≡ p
  put-now t p at u e = ap (put t p at) (sym (some-inj e)) ∙ put_self t p at
    where
      some-inj : {a b : ℕ} → some a ≡ some b → a ≡ b
      some-inj g = cc

  -- No thread but those asleep before is asleep after thread `t` moves on.
  pub still_awake :
      (t : ℕ) (p : Place A) (at : ℕ → Place A) (Q : Type ℓ)
      → asleep p ≡ false
      → ((u : ℕ) → asleep (at u) ≡ true → Q)
      → (u : ℕ) → asleep (put t p at u) ≡ true
      → Q
  still_awake t p at Q up before =
      put-all (λ u q. asleep q ≡ true → Q) t p at (λ e. absurd cc) (λ u other. before u)

  module _ (s : System A) (t : ℕ) where
    pub enter_write-Kept :
        (x : A) → Kept s away → s.holder ≡ none → Kept (enter_write t x s) (write_test x)
    enter_write-Kept x k unlocked = record {
      threads = keep-Threads t (write_test x) s.holder s.at k.threads (inl unlocked) refl refl;
      now = put-now t (write_test x) s.at;
      free = λ e. absurd cc;
      writers_now = k.writers_now;
      readers_now = k.readers_now;
      queued_now = plus_one k.queued_now;
      awake = λ u e l.
          still_awake t (write_test x) s.at (s.items ≡ []) refl (λ v f. k.awake v f refl) u e;
      full = λ e. absurd cc;
      in_order = k.in_order;
    }

    pub take_lock-Kept :
        (p : Place A)
        → Kept s away
        → s.holder ≡ none
        → holds p ≡ true
        → held_up p ≡ false
        → asleep p ≡ false
        → writers p ≡ 0
        → readers p ≡ 0
        → queued p ≡ 0
        → wants p ≡ false
        → Kept (take_lock t p s) p
    take_lock-Kept p k unlocked locked calm up e f g h = record {
      threads = keep-Threads t p s.holder s.at k.threads (inl unlocked) locked calm;
      now = put-now t p s.at;
      free = λ e. absurd cc;
      writers_now = k.writers_now ∙ ap pos (sym e);
      readers_now = k.readers_now ∙ ap pos (sym f);
      queued_now = k.queued_now ∙ ap pos (sym g);
      awake = λ u e l. still_awake t p s.at (s.items ≡ []) up (λ v f. k.awake v f refl) u e;
      full = λ e. absurd cc;
      in_order = k.in_order;
    }

    pub stay-Threads :
        (p : Place A)
        → Threads s.holder s.at
        → s.holder ≡ some t
        → holds p ≡ true
        → held_up p ≡ false
        → Threads s.holder (put t p s.at)
    stay-Threads p v mine locked calm =
        rw mine (keep-Threads t p s.holder s.at v (inr mine) locked calm)

    pub test_write-Kept :
        (x : A) → Kept s (write_test x) → s.holder ≡ some t → Kept (test_write t x s) (writing x)
    test_write-Kept x k mine =
        let open_now = none_inside k.writers_now k.readers_now in
        if-all (λ s'. Kept s' (writing x))
          (ltb_ℤ (pos 0) (s.producers_inside +ℤ s.consumers_inside)) _ _ (λ e. absurd cc)
          (λ e. record {
            threads = stay-Threads (writing x) k.threads mine refl refl;
            now = λ u f. put-now t (writing x) s.at u (sym mine ∙ f);
            free = λ f. absurd cc;
            writers_now = plus_one k.writers_now;
            readers_now = k.readers_now;
            queued_now = minus_one k.queued_now;
            awake = λ u f l.
                still_awake t (writing x) s.at (s.items ≡ []) refl (λ v g. k.awake v g refl) u f;
            full = λ f. absurd cc;
            in_order = k.in_order;
          })

    pub push_item-Kept :
        (x : A) → Kept s (writing x) → s.holder ≡ some t → Kept (push_item t x s) written
    push_item-Kept x k mine = record {
      threads = stay-Threads written k.threads mine refl refl;
      now = λ u f. put-now t written s.at u (sym mine ∙ f);
      free = λ f. absurd cc;
      writers_now = k.writers_now;
      readers_now = k.readers_now;
      queued_now = k.queued_now;
      awake = λ u f l. absurd cc;
      full = λ f. absurd cc;
      in_order = ap (λ l. l ++ x ∷ []) k.in_order ∙ append_assoc s.popped s.items (x ∷ []);
    }

    pub producers_unlock-Kept :
        (w : Option ℕ) → Kept s written → s.holder ≡ some t → Kept (producers_unlock t w s) away
    producers_unlock-Kept w k mine =
        let inside = minus_one k.writers_now in
        let woken_up = broadcast-Threads s.holder s.at k.threads in
        let same = signal-same w (broadcast s.at) woken_up.unheld in
        if-all
          (λ at'.
            Kept
              (record s {
                producers_inside = s.producers_inside -ℤ pos 1;
                holder = none;
                at = put t away at';
              })
              away)
          ((s.producers_inside -ℤ pos 1) ==ℤ pos 0) _ _
          (λ e. record {
            threads =
                release-Threads t away s.holder (signal w (broadcast s.at))
                  (signal-Threads w s.holder (broadcast s.at) woken_up) mine refl refl;
            now = λ u f. absurd cc;
            free = λ f. refl;
            writers_now = inside;
            readers_now = k.readers_now;
            queued_now = k.queued_now;
            awake = λ u f l.
                still_awake t away (signal w (broadcast s.at)) (s.items ≡ []) refl
                  (λ v g. absurd (not_asleep (sym g ∙ ap asleep (same v) ∙ broadcast-awake s.at v)))
                  u f;
            full = λ f. absurd cc;
            in_order = k.in_order;
          })
          (λ e. absurd (not_asleep (sym (ap (λ z. z ==ℤ pos 0) inside) ∙ e)))
      where
        not_asleep : true ≡ false → ⊥
        not_asleep e = cc
