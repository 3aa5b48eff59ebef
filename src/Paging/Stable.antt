-- ===== src/Paging/Stable.antt =====
-- Walking to one page keeps the tables owned, and keeps every child that a table has.
use shmdos.Prelude.{
  ℕ, zero, suc, ◌/◌, ◌%◌, ◌<◌, ◌≡◌, ◌≢◌, refl, sym, ap, ◌∙◌, inl, inr, ◌==◌, false, Bool-cases,
  ==_iff, Option, none, some, arith,
}
use shmdos.Paging.Walk.{Walk, frame_of, touch, walk_page, span}
use shmdos.Paging.Owned.{Owner, Grows, Owned, Opened, ChildResult}
use shmdos.Paging.Opening.{access_to_child_dir-ChildResult}

pub Grows-trans : {o p q : Owner} → Grows o p → Grows p q → Grows o q
Grows-trans g h e known =
    let (gr, gp) = g e known in let (hr, hp) = h e (λ z. known (sym gr ∙ z)) in (hr ∙ gr, hp ∙ gp)

module _ {K : Type 0} where
  pub record Kept (o o' : Owner) (w u : Walk K) : Type 0 where
    pub owned : Owned o' u
    pub grows : Grows o o'
    pub inner : (e a j : ℕ) → o.rank e ≡ suc (suc a) → w.table e j ≢ 0 → u.table e j ≡ w.table e j

  pub Kept-refl : (o : Owner) (w : Walk K) → Owned o w → Kept o o w w
  Kept-refl o w h = record {
    owned = h;
    grows = λ e known. (refl, refl);
    inner = λ e a j r ne. refl;
  }

  pub Kept-trans : {o p q : Owner} {w u v : Walk K} → Kept o p w u → Kept p q u v → Kept o q w v
  Kept-trans {o} {p} {q} {w} {u} {v} g h = record {
    owned = h.owned;
    grows = Grows-trans g.grows h.grows;
    inner = λ e a j r ne.
        let first = g.inner e a j r ne in
        let rank = (g.grows e (λ z. omega (arith, r, z))).0 in
        h.inner e a j (rank ∙ r) (λ z. ne (sym first ∙ z)) ∙ first;
  }

  pub Kept-Opened :
      {o o' : Owner} {w u : Walk K} {d b i c : ℕ} → Opened o o' w u d b i c → Kept o o' w u
  Kept-Opened {o} {o'} {w} {u} {d} {b} {i} h = record {
    owned = h.owned;
    grows = h.grows;
    inner = inner;
  }
    where
      inner : (e a j : ℕ) → o.rank e ≡ suc (suc a) → w.table e j ≢ 0 → u.table e j ≡ w.table e j
      inner e a j r ne = elim (Bool-cases (e == d)) [
        | inr off ↦ h.same e j (λ z. omega (arith, r, z)) (inl (ground (arith, off)))
        | inl at_d ↦ elim (Bool-cases (j == i)) [
          | inr off ↦ h.same e j (λ z. omega (arith, r, z)) (inr (ground (arith, off)))
          | inl at_i ↦ here ((==_iff e d).0 at_d) ((==_iff j i).0 at_i) ne
        ]
      ]
        where
          here : e ≡ d → j ≡ i → w.table e j ≢ 0 → u.table e j ≡ w.table e j
          here ed ji ne =
              let w_at : w.table e j ≡ w.table d i = ap (λ x. w.table x j) ed ∙ ap (w.table d) ji in
              ap (λ x. u.table x j) ed ∙ ap (u.table d) ji ∙ h.stays (λ z. ne (w_at ∙ z)) ∙ sym w_at

  module _ (callback : K → ℕ → K × ℕ) where
    -- A page entry stands in a table of rank 1, so a callback leaves the inner tables alone.
    pub Kept-touch :
        (o : Owner) (w : Walk K) (d i : ℕ)
        → Owned o w
        → o.rank d ≡ 1
        → Kept o o w (touch callback d i w)
    unfolding touch
    Kept-touch o w d i h r = record {
      owned = record {
        child_rank = λ e a j re lt ne.
            let t = same e a j re in
            ap (λ x. o.rank (frame_of x)) t ∙ h.child_rank e a j re lt (λ z. ne (t ∙ z));
        child_prefix = λ e a j re lt ne.
            let t = same e a j re in
            ap (λ x. o.prefix (frame_of x)) t ∙ h.child_prefix e a j re lt (λ z. ne (t ∙ z));
        free = h.free;
      };
      grows = λ e known. (refl, refl);
      inner = λ e a j re ne. same e a j re;
    }
      where
        same : (e a j : ℕ) → o.rank e ≡ suc (suc a) → (touch callback d i w).table e j ≡ w.table e j
        same e a j re =
            let other : (e == d) ≡ false = ground (arith, ap o.rank, re, r) in rw other refl

    module _ (flags : ℕ) (small : flags < 4096) where
      pub data Walked (o : Owner) (w : Walk K) (result : Option (Walk K)) : Type 0 where
        panics : result ≡ none → Walked o w result
        ends : (u : Walk K) (o' : Owner) → result ≡ some u → Kept o o' w u → Walked o w result

      Walked-Opened :
          {o o' : Owner} {w u : Walk K} {d b i c : ℕ} {result : Option (Walk K)}
          → Opened o o' w u d b i c
          → Walked o' u result
          → Walked o w result
      Walked-Opened h (Walked.panics e) = Walked.panics e
      Walked-Opened h (Walked.ends v o'' e k) = Walked.ends v o'' e (Kept-trans (Kept-Opened h) k)

      pub walk_page-Walked :
          (b d page : ℕ) (o : Owner) (w : Walk K)
          → Owned o w
          → o.rank d ≡ suc b
          → Walked o w (walk_page callback flags b d page w)
      unfolding walk_page
      walk_page-Walked zero d page o w h r =
          Walked.ends (touch callback d (page % 512) w) o refl (Kept-touch o w d (page % 512) h r)
      walk_page-Walked (suc b) d page o w h r =
          elim (access_to_child_dir-ChildResult o w d b (page / span (suc b) % 512) flags h r
            (omega arith) small) [
              | ChildResult.panics e ↦ Walked.panics (rw e refl)
              | ChildResult.opens c u o' e k ↦
                  rw e (Walked-Opened k (walk_page-Walked b c page o' u k.owned k.rank_c))
            ]
