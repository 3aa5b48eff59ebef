-- ===== src/Paging/Mapping.antt =====
-- The tables as a map from pages to entries: a walk over a range runs the callback on the entries of its
-- pages, in their order.
use shmdos.Prelude.{
  ℕ, suc, ◌+◌, ◌*◌, ◌/◌, ◌%◌, ◌<◌, ◌≡◌, ◌≢◌, refl, sym, ap, ◌∙◌, ◌⊎◌, inl, inr, ◌==◌, true, false,
  ◌||◌, Bool-cases, ==_iff, arith,
}
use shmdos.Paging.Walk.{Walk, frame_of, is_present, span}
use shmdos.Paging.Owned.{Owner, Owned, Opened}
use shmdos.Paging.Stable.{Kept-Opened, Kept-trans}
use shmdos.Paging.Spans.{spans-above}
use shmdos.Paging.Lookup.{lookup, On, On-child, lookup-some, lookup-AgreeOn}
use shmdos.Paging.Effect.{lookup-Opened, Effect}

module _ {K : Type 0} (callback : K → ℕ → K × ℕ) where
  -- From a walk in a child to the walk in the table above.
  pub Effect-Opened :
      (o o' o'' : Owner) (w u v : Walk K) (d b c p : ℕ)
      → b < 3
      → Owned o w
      → o.rank d ≡ suc (suc b)
      → On o d (suc b) p
      → Opened o o' w u d b (p / span (suc b) % 512) c
      → Effect callback o' o'' u v c b p
      → Effect callback o o'' w v d (suc b) p
  Effect-Opened o o' o'' w u v d b c p lt h r on k f = record {
    stable = Kept-trans (Kept-Opened k) f.stable;
    off = off;
    here =
        into_child v entry_v p refl
        ∙ f.here
        ∙ ap (λ t. (callback t (lookup b c p u)).1) k.kept_same
        ∙ ap (λ t. (callback w.kept t).1) entry_p;
    captured =
        f.captured
        ∙ ap (λ t. (callback t (lookup b c p u)).0) k.kept_same
        ∙ ap (λ t. (callback w.kept t).0) entry_p;
    present =
        f.present
        ∙ ap (λ t. t || is_present (lookup b c p u)) k.shootdown_same
        ∙ ap (λ t. w.shootdown || is_present t) entry_p;
    others = others;
  }
    where
      o_d : o.rank d ≢ 0
      o_d z = omega (arith, r, z)

      rank_d : o'.rank d ≡ suc (suc b)
      rank_d = (k.grows d o_d).0 ∙ r

      On-d : (q : ℕ) → On o d (suc b) q → On o' d (suc b) q
      On-d q on_q = ap (λ t. t * 512 + q / span (suc b) % 512) (k.grows d o_d).1 ∙ on_q

      entry_v : v.table d (p / span (suc b) % 512) ≡ u.table d (p / span (suc b) % 512)
      entry_v = f.stable.inner d b (p / span (suc b) % 512) rank_d k.entry_ne

      into_child :
          (x : Walk K)
          → x.table d (p / span (suc b) % 512) ≡ u.table d (p / span (suc b) % 512)
          → (q : ℕ) → q / span (suc b) % 512 ≡ p / span (suc b) % 512
          → lookup (suc b) d q x ≡ lookup b c q x
      into_child x same q e =
          let at_q = ap (x.table d) e ∙ same in
          lookup-some b d q x (λ z. k.entry_ne (sym at_q ∙ z))
          ∙ ap (λ t. lookup b (frame_of t) q x) at_q
          ∙ ap (λ t. lookup b t q x) k.entry_c

      entry_p : lookup b c p u ≡ lookup (suc b) d p w
      entry_p =
          sym (into_child u refl p refl)
          ∙ lookup-Opened o o' w u d b (p / span (suc b) % 512) c p lt h r on k

      off :
          (e j a : ℕ)
          → o.rank e ≡ suc a
          → j < 512
          → o.prefix e * 512 + j ≢ p / span a
          → v.table e j ≡ w.table e j
      off e j a re lj ne =
          f.off e j a ((k.grows e known).0 ∙ re) lj
            (λ z. ne (ap (λ t. t * 512 + j) (sym (k.grows e known).1) ∙ z))
          ∙ k.same e j known elsewhere
        where
          known : o.rank e ≢ 0
          known z = omega (arith, re, z)

          elsewhere : (e ≢ d) ⊎ (j ≢ p / span (suc b) % 512)
          elsewhere = elim (Bool-cases (e == d)) [
            | inr other ↦ inl (λ z. ground (arith, other, z))
            | inl at_d ↦ inr (λ ji.
                let ed = (==_iff e d).0 at_d in
                let a_b : a ≡ suc b = omega (arith, re, r, ap o.rank ed) in
                ne (
                  ap (λ t. o.prefix t * 512 + j) ed
                  ∙ ap (λ t. o.prefix d * 512 + t) ji
                  ∙ on
                  ∙ ap (λ t. p / span t) (sym a_b)))
          ]

      others : (q : ℕ) → q ≢ p → On o d (suc b) q → lookup (suc b) d q v ≡ lookup (suc b) d q w
      others q ne on_q =
          walked (Bool-cases (q / span (suc b) % 512 == p / span (suc b) % 512))
          ∙ lookup-Opened o o' w u d b (p / span (suc b) % 512) c q lt h r on_q k
        where
          same_entry :
              q / span (suc b) % 512 ≡ p / span (suc b) % 512
              → lookup (suc b) d q v ≡ lookup (suc b) d q u
          same_entry e =
              into_child v entry_v q e
              ∙ f.others q ne (
                  On-child o' d c b q lt (On-d q on_q) (
                    k.prefix_c
                    ∙ ap (λ t. t * 512 + p / span (suc b) % 512) (sym (k.grows d o_d).1)
                    ∙ ap (λ t. o'.prefix d * 512 + t) (sym e)))
              ∙ sym (into_child u refl q e)

          other_entry :
              q / span (suc b) % 512 ≢ p / span (suc b) % 512
              → lookup (suc b) d q v ≡ lookup (suc b) d q u
          other_entry apart =
              lookup-AgreeOn (suc b) d q o' v u (omega arith) k.owned rank_d (On-d q on_q)
                (λ e j a re le lj pe. f.off e j a re lj (λ z.
                  apart
                    (ap (λ t. t % 512) (spans-above (suc b) a q p le (omega arith) (sym pe ∙ z)))))

          walked :
              ((q / span (suc b) % 512 == p / span (suc b) % 512) ≡ true)
                ⊎ ((q / span (suc b) % 512 == p / span (suc b) % 512) ≡ false)
              → lookup (suc b) d q v ≡ lookup (suc b) d q u
          walked (inl e) = same_entry ((==_iff _ _).0 e)
          walked (inr e) = other_entry (λ z. ground (arith, e, z))
