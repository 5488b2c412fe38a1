-- ===== src/Merging/Joined.antt =====
-- Merging a node that has just become free with its free neighbours leaves a whole list.
use operation_systems.Common.{
  ℕ, ◌+◌, ◌≡◌, ◌∙◌, ap, sym, refl, Bool, true, false, ◌&&◌, List, [], ◌∷◌, if-all, arith,
}
use mathlib.Core.Path.{subst}
use operation_systems.Common.Int.{pos, plus_pos, minus_pos}
use operation_systems.Alloc.{Block, Stats}
use operation_systems.Alloc.Blocks.{total_size, freed_size, node_count}
use operation_systems.Merging.Nodes.{
  unwind, connect, count_connect, connect_up, check_if_free_and_connect,
}
use operation_systems.Merging.Whole.{
  in_use, Counted, Apart, IsMerged, Meet, Tiled, in_use-unwind, total_size-unwind,
  node_count-unwind, freed_count-unwind, freed_size-unwind, Tiled-unwind, unwind-Tiled,
  IsMerged-unwind, IsWhole,
}

true≢false : true ≡ false → ⊥
true≢false e = cc

module _ (meta : ℕ) (before : List Block) (p1 p2 : Block) (after : List Block) where
  abbrev apart : List Block
  apart = unwind before (p1 ∷ p2 ∷ after)

  abbrev joined : List Block
  joined = unwind before (connect meta p1 p2 ∷ after)

  one_less : node_count apart ≡ node_count joined + 1
  one_less = omega (
    arith,
    node_count-unwind before (p1 ∷ p2 ∷ after),
    node_count-unwind before (connect meta p1 p2 ∷ after),
  )

  header_gained : total_size joined ≡ total_size apart + meta
  header_gained = omega (
    arith,
    total_size-unwind before (p1 ∷ p2 ∷ after),
    total_size-unwind before (connect meta p1 p2 ∷ after),
  )

  -- `connect` of a node with a free one keeps the counters right.
  pub connect-Counted :
      (s : Stats)
      → p2.is_freed ≡ true
      → Counted apart s
      → Counted joined (count_connect meta p1 p2 s)
  connect-Counted s g c =
      if-all (Counted joined) p2.is_freed _ _
        (λ h. record {
          free_blocks = minus_pos 1 c.free_blocks (
              ground (
                arith,
                freed_count-unwind before (p1 ∷ p2 ∷ after),
                freed_count-unwind before (connect meta p1 p2 ∷ after),
              ));
          free_bytes =
              if-all (λ x. x ≡ pos (freed_size joined)) p1.is_freed _ _
                (λ f. plus_pos meta c.free_bytes (
                  ground (
                    arith,
                    freed_size-unwind before (p1 ∷ p2 ∷ after),
                    freed_size-unwind before (connect meta p1 p2 ∷ after),
                  )))
                (λ f. minus_pos p2.size c.free_bytes (
                  ground (
                    arith,
                    freed_size-unwind before (p1 ∷ p2 ∷ after),
                    freed_size-unwind before (connect meta p1 p2 ∷ after),
                  )));
          allocated_blocks = minus_pos 1 c.allocated_blocks one_less;
          allocated_bytes = plus_pos meta c.allocated_bytes header_gained;
          meta_data_blocks = minus_pos 1 c.meta_data_blocks one_less;
        })
        (λ h. absurd (true≢false (sym g ∙ h)))

  pub connect-Tiled : (low top : ℕ) → Tiled meta low apart top → Tiled meta low joined top
  connect-Tiled low top t =
      let (mid, d, (e, (f, u))) = unwind-Tiled meta low top before (p1 ∷ p2 ∷ after) t in
      let same : p2.start + p2.size ≡ p1.start + (p1.size + (p2.size + meta)) = omega arith in
      Tiled-unwind meta low mid top before (connect meta p1 p2 ∷ after) d (e, rw (← same) u)

pub in_use-free : (b : Block) (bs : List Block) → b.is_freed ≡ true → in_use (b ∷ bs) ≡ in_use bs
in_use-free b bs f = rw f

pub in_use_around :
    (before after : List Block) (b : Block)
    → b.is_freed ≡ true
    → in_use (unwind before (b ∷ after)) ≡ unwind (in_use before) (in_use after)
in_use_around before after b f =
    in_use-unwind before (b ∷ after) ∙ ap (unwind (in_use before)) (in_use-free b after f)

Apart-used : (b c : Block) (bs : List Block) → c.is_freed ≡ false → Apart b (c ∷ bs)
Apart-used b c bs g = ground arith

-- A free node may stand for another one.
Apart-free :
    (b c : Block) (bs : List Block)
    → b.is_freed ≡ true
    → c.is_freed ≡ b.is_freed
    → Apart b bs
    → Apart c bs
Apart-free b c [] f g a = tt
Apart-free b c (x ∷ bs) f g a = ground arith

-- Only whether the node is free matters to the one in front of it.
Meet-same :
    (before bs cs : List Block) (b c : Block)
    → c.is_freed ≡ b.is_freed
    → Meet before (b ∷ bs)
    → Meet before (c ∷ cs)
Meet-same [] bs cs b c e j = tt
Meet-same (x ∷ before) bs cs b c e j = ground arith

Apart-Meet :
    (before bs : List Block) (b c : Block)
    → c.is_freed ≡ b.is_freed
    → Apart b before
    → Meet before (c ∷ bs)
Apart-Meet [] bs b c e a = tt
Apart-Meet (x ∷ before) bs b c e a = ground arith

module _ (meta low top : ℕ) where
  connect_up-IsWhole :
      (allowed : Bool) (before : List Block) (p1 : Block) (after : List Block) (s : Stats)
      → p1.is_freed ≡ true
      → allowed ≡ true
      → Counted (unwind before (p1 ∷ after)) s
      → Tiled meta low (unwind before (p1 ∷ after)) top
      → IsMerged before
      → Meet before (p1 ∷ after)
      → IsMerged after
      → IsWhole meta low top
          (unwind (in_use before) (in_use after))
          (connect_up meta allowed before p1 after s)
  connect_up-IsWhole allowed before p1 [] s f yes_now c t m j n = record {
    counted = c;
    tiled = t;
    merged = IsMerged-unwind before (p1 ∷ []) m j (tt, tt);
    used_now = in_use_around before [] p1 f;
  }
  connect_up-IsWhole allowed before p1 (up ∷ after) s f yes_now c t m j (a, n) =
      if-all (IsWhole meta low top (unwind (in_use before) (in_use (up ∷ after))))
        (up.is_freed && allowed) _ _
        (λ g.
          let h : up.is_freed ≡ true = ground arith in
          record {
            counted = connect-Counted meta before p1 up after s h c;
            tiled = connect-Tiled meta before p1 up after low top t;
            merged =
                IsMerged-unwind before (connect meta p1 up ∷ after) m
                  (Meet-same before (up ∷ after) after p1 (connect meta p1 up) refl j)
                  (Apart-free up (connect meta p1 up) after h (f ∙ sym h) a, n);
            used_now =
                in_use_around before after (connect meta p1 up) f
                ∙ ap (unwind (in_use before)) (sym (in_use-free up after h));
          })
        (λ g.
          let h : up.is_freed ≡ false = ground arith in
          record {
            counted = c;
            tiled = t;
            merged =
                IsMerged-unwind before (p1 ∷ up ∷ after) m j (Apart-used p1 up after h, (a, n));
            used_now = in_use_around before (up ∷ after) p1 f;
          })

  -- On a list that is whole but for the free node `p1`, which may have free neighbours,
  -- `checkIfFreeAndConnect` leaves a whole list with the same nodes in use.
  pub check_if_free_and_connect-IsWhole :
      (before : List Block) (p1 : Block) (after : List Block) (s : Stats)
      → p1.is_freed ≡ true
      → Counted (unwind before (p1 ∷ after)) s
      → Tiled meta low (unwind before (p1 ∷ after)) top
      → IsMerged before
      → IsMerged after
      → IsWhole meta low top
          (unwind (in_use before) (in_use after))
          (check_if_free_and_connect meta before p1 after s)
  unfolding check_if_free_and_connect
  check_if_free_and_connect-IsWhole [] p1 after s f c t m n =
      connect_up-IsWhole true [] p1 after s f refl c t m tt n
  check_if_free_and_connect-IsWhole (down ∷ before) p1 after s f c t (a, m) n =
      if-all (IsWhole meta low top (unwind (in_use (down ∷ before)) (in_use after)))
        (down.is_freed && p1.is_freed) _ _
        (λ g.
          let h : down.is_freed ≡ true = ground arith in
          subst
            (λ l. IsWhole meta low top (unwind l (in_use after)) (
              connect_up meta true before (connect meta down p1) after
                (count_connect meta down p1 s)))
            (sym (in_use-free down before h))
            (connect_up-IsWhole true before (connect meta down p1) after
              (count_connect meta down p1 s) h refl
              (connect-Counted meta before down p1 after s f c)
              (connect-Tiled meta before down p1 after low top t) m
              (Apart-Meet before after down (connect meta down p1) refl a) n))
        (λ g. connect_up-IsWhole p1.is_freed (down ∷ before) p1 after s f f c t (a, m) g n)
