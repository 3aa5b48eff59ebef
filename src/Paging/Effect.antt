-- ===== src/Paging/Effect.antt =====
-- What a walk to one page does to the entries of all pages.
use shmdos.Prelude.{
  ℕ, suc, ◌+◌, ◌*◌, ◌/◌, ◌%◌, ◌<◌, ◌≡◌, ◌≢◌, refl, sym, ap, ◌∙◌, inl, inr, ◌==◌, true, false, ◌||◌,
  Bool-cases, ==_iff, arith,
}
use shmdos.Paging.Walk.{Walk, frame_of, touch, is_present, span}
use shmdos.Paging.Owned.{Owner, Owned, Opened}
use shmdos.Paging.Stable.{Kept, Kept-touch}
use shmdos.Paging.Spans.{span-one}
use shmdos.Paging.Lookup.{
  lookup, On, On-child, lookup-none, lookup-some, lookup-blank, lookup-AgreeOn,
}

module _ {K : Type 0} where
  -- Opening a child changes no entry of a page.
  pub lookup-Opened :
      (o o' : Owner) (w u : Walk K) (d b i c q : ℕ)
      → b < 3
      → Owned o w
      → o.rank d ≡ suc (suc b)
      → On o d (suc b) q
      → Opened o o' w u d b i c
      → lookup (suc b) d q u ≡ lookup (suc b) d q w
  lookup-Opened o o' w u d b i c q lt h r on k =
      let at_q = q / span (suc b) % 512 in
      elim (Bool-cases (w.table d at_q == 0)) [
        | inr there ↦
            let ne : w.table d at_q ≢ 0 = λ z. ground (arith, there, z) in
            let same = entry_stays ne in
            lookup-some b d q u (λ z. ne (sym same ∙ z))
            ∙ ap (λ t. lookup b (frame_of t) q u) same
            ∙ lookup-AgreeOn b (frame_of (w.table d at_q)) q o u w (omega arith) h
                (h.child_rank d b at_q r (omega arith) ne)
                (On-child o d (frame_of (w.table d at_q)) b q lt on
                  (h.child_prefix d b at_q r (omega arith) ne))
                (λ e j a re le lj pe.
                  k.same e j (λ z. omega (arith, re, z))
                    (inl (λ ed. omega (arith, le, re, r, ap o.rank ed))))
            ∙ sym (lookup-some b d q w ne)
        | inl gone ↦
            let z = (==_iff (w.table d at_q) 0).0 gone in
            opened_blank z ∙ sym (lookup-none b d q w z)
      ]
    where
      known : o.rank d ≢ 0
      known z = omega (arith, r, z)

      entry_stays :
          w.table d (q / span (suc b) % 512) ≢ 0
          → u.table d (q / span (suc b) % 512) ≡ w.table d (q / span (suc b) % 512)
      entry_stays ne = elim (Bool-cases (q / span (suc b) % 512 == i)) [
        | inl same ↦
            let e = (==_iff (q / span (suc b) % 512) i).0 same in
            ap (u.table d) e ∙ k.stays (λ z. ne (ap (w.table d) e ∙ z)) ∙ ap (w.table d) (sym e)
        | inr other ↦ k.same d (q / span (suc b) % 512) known (inr (λ e. ground (arith, other, e)))
      ]

      opened_blank : w.table d (q / span (suc b) % 512) ≡ 0 → lookup (suc b) d q u ≡ 0
      opened_blank z = elim (Bool-cases (q / span (suc b) % 512 == i)) [
        | inl same ↦
            let e = (==_iff (q / span (suc b) % 512) i).0 same in
            lookup-some b d q u (λ y. k.entry_ne (ap (u.table d) (sym e) ∙ y))
            ∙ ap (λ t. lookup b t q u) (ap (λ x. frame_of (u.table d x)) e ∙ k.entry_c)
            ∙ lookup-blank b c q u (k.blank (ap (w.table d) (sym e) ∙ z)).1
        | inr other ↦
            lookup-none b d q u
              (k.same d (q / span (suc b) % 512) known (inr (λ e. ground (arith, other, e))) ∙ z)
      ]

module _ {K : Type 0} (callback : K → ℕ → K × ℕ) where
  -- The walk gives the entry of its page to the callback, and leaves every other entry.
  pub record Effect (o o' : Owner) (w v : Walk K) (d b p : ℕ) : Type 0 where
    pub stable : Kept o o' w v
    pub off :
        (e j a : ℕ)
        → o.rank e ≡ suc a
        → j < 512
        → o.prefix e * 512 + j ≢ p / span a
        → v.table e j ≡ w.table e j
    pub here : lookup b d p v ≡ (callback w.kept (lookup b d p w)).1
    pub captured : v.kept ≡ (callback w.kept (lookup b d p w)).0
    pub present : v.shootdown ≡ (w.shootdown || is_present (lookup b d p w))
    pub others : (q : ℕ) → q ≢ p → On o d b q → lookup b d q v ≡ lookup b d q w

  pub Effect-touch :
      (o : Owner) (w : Walk K) (d p : ℕ)
      → Owned o w
      → o.rank d ≡ 1
      → On o d 0 p
      → Effect o o w (touch callback d (p % 512) w) d 0 p
  unfolding touch lookup
  Effect-touch o w d p h r on = record {
    stable = Kept-touch callback o w d (p % 512) h r;
    off = off;
    here =
        let d_d : (d == d) ≡ true = ground arith in
        let p_p : (p % 512 == p % 512) ≡ true = ground arith in rw (d_d, p_p) refl;
    captured = refl;
    present = refl;
    others = λ q ne on_q.
        let d_d : (d == d) ≡ true = ground arith in
        let apart : (q % 512 == p % 512) ≡ false = ground (arith, other_index q ne on_q) in
        rw (d_d, apart) refl;
  }
    where
      other_index : (q : ℕ) → q ≢ p → On o d 0 q → q % 512 ≢ p % 512
      other_index q ne on_q e = ne (omega (arith, on, on_q, span-one q, span-one p, e))

      off :
          (e j a : ℕ)
          → o.rank e ≡ suc a
          → j < 512
          → o.prefix e * 512 + j ≢ p / span a
          → (touch callback d (p % 512) w).table e j ≡ w.table e j
      off e j a re lj ne = elim (Bool-cases (e == d)) [
        | inr other ↦ rw other refl
        | inl at_d ↦ elim (Bool-cases (j == p % 512)) [
          | inr other ↦ rw (at_d, other) (ap (λ x. w.table x j) (sym ((==_iff e d).0 at_d)))
          | inl same ↦ absurd (ne (on_path ((==_iff e d).0 at_d) ((==_iff j (p % 512)).0 same)))
        ]
      ]
        where
          on_path : e ≡ d → j ≡ p % 512 → o.prefix e * 512 + j ≡ p / span a
          on_path ed jp =
              let a_zero : a ≡ 0 = omega (arith, re, r, ap o.rank ed) in
              rw (a_zero, ed, jp) (omega (arith, on, span-one p))
