-- ===== src/Paging/Supply.antt =====
-- `onPageFault` of kernel/paging.cpp: a fault on an allocated page supplies it with a page of memory.
use shmdos.Prelude.{
  ℕ, suc, ◌+◌, ◌*◌, ◌/◌, ◌%◌, ◌^◌, ◌<◌, ◌≡◌, ◌≢◌, refl, sym, ap, ◌∙◌, ◌⊎◌, inl, inr, ◌==◌, true,
  false, Bool-cases, ==_iff, List, ◌∷◌, update, arith,
}
use shmdos.Paging.Walk.{Walk, frame_of, span}
use shmdos.Paging.Owned.{Owner, Free}
use shmdos.Paging.Spans.{span-root, span-one}
use shmdos.Paging.Lookup.{lookup, On, lookup-AgreeOn}
use shmdos.Paging.Refine.{Shows}
use shmdos.Paging.Calls.{Space, fault_entry, alloc_page, supplied}
use shmdos.Paging.Ranges.{page_map}
use shmdos.Paging.Fault.{walk_of, SameInner}

alloc_page-else : (s : Space) (f v e j : ℕ) → e ≢ f → alloc_page s f v e j ≡ s.table e j
unfolding alloc_page
alloc_page-else s f v e j ne = elim (Bool-cases (v / 1024 % 2 == 1)) [
  | inl clear ↦ let other : (e == f) ≡ false = ground (arith, ne) in rw (clear, other) refl
  | inr keep ↦ rw keep refl
]

module _ (root : ℕ) (o : Owner) (s : Space) (m : ℕ → ℕ)
    (h : Shows o root (walk_of s) (page_map m tt)) where
  -- Supplying the entry of page p in its table t.
  module _ (t p f : ℕ) (fs : List ℕ) (rt : o.rank t ≡ 1) (on : On o t 0 p) (lt : p < 2 ^ 36)
      (available : s.frames ≡ f ∷ fs) where
    unfoldable pub after : Space
    after = supplied s f fs t (p % 512)

    pub free_f : Free o (f ∷ fs)
    free_f = rw available at h.owned.free

    apart : (e : ℕ) → o.rank e ≢ 0 → e ≢ f
    apart e known same = known (ap o.rank same ∙ free_f.1)

    after-else : (e j : ℕ) → o.rank e ≢ 0 → (e ≢ t) ⊎ (j ≢ p % 512) → after.table e j ≡ s.table e j
    unfolding after supplied
    after-else e j known out = elim (Bool-cases (e == t)) [
      | inr other ↦ rw other (alloc_page-else s f (s.table t (p % 512)) e j (apart e known))
      | inl at_t ↦ elim (Bool-cases (j == p % 512)) [
        | inr other ↦
            let et = (==_iff e t).0 at_t in
            rw (at_t, other)
              (alloc_page-else s f (s.table t (p % 512)) t j (apart t (λ z. omega (arith, rt, z)))
                ∙ ap (λ x. s.table x j) (sym et))
        | inl same ↦ absurd (differ out ((==_iff e t).0 at_t) ((==_iff j (p % 512)).0 same))
      ]
    ]
      where
        differ : (e ≢ t) ⊎ (j ≢ p % 512) → e ≡ t → j ≡ p % 512 → ⊥
        differ (inl ne) et jp = ne et
        differ (inr ne) et jp = ne jp

    after-here : after.table t (p % 512) ≡ fault_entry (s.table t (p % 512)) f
    unfolding after supplied
    after-here =
        let t_t : (t == t) ≡ true = ground arith in
        let p_p : (p % 512 == p % 512) ≡ true = ground arith in rw (t_t, p_p) refl

    inner : SameInner o (walk_of after) s
    inner e j a r =
        after-else e j (λ z. omega (arith, r, z)) (inl (λ et. omega (arith, r, rt, ap o.rank et)))

    frames_left : Free o after.frames
    unfolding after supplied
    frames_left = free_f.3

    -- The map then has the new entry for the page.
    pub Shows-after :
        ((u : Walk (Unit {0})) → SameInner o u s → lookup 3 root p u ≡ u.table t (p % 512))
        → m p ≡ s.table t (p % 512)
        → Shows o root (walk_of after) (page_map (update m p (fault_entry (m p) f)) tt)
    Shows-after finds m_p = record {
      owned = record {
        child_rank = λ e a j re lj ne.
            let same = inner e j a re in
            ap (λ x. o.rank (frame_of x)) same
            ∙ h.owned.child_rank e a j re lj (λ z. ne (same ∙ z));
        child_prefix = λ e a j re lj ne.
            let same = inner e j a re in
            ap (λ x. o.prefix (frame_of x)) same
            ∙ h.owned.child_prefix e a j re lj (λ z. ne (same ∙ z));
        free = frames_left;
      };
      rank = h.rank;
      prefix = h.prefix;
      entries = entries;
      kept = refl;
      shootdown = refl;
    }
      where
        entries :
            (q : ℕ)
            → q < 2 ^ 36
            → lookup 3 root q (walk_of after) ≡ update m p (fault_entry (m p) f) q
        entries q lt_q = elim (Bool-cases (q == p)) [
          | inl same ↦
              let e = (==_iff q p).0 same in
              rw same (
                ap (λ x. lookup 3 root x (walk_of after)) e
                ∙ finds (walk_of after) inner
                ∙ after-here
                ∙ ap (λ x. fault_entry x f) (sym m_p))
          | inr other ↦ rw other (
              lookup-AgreeOn 3 root q o (walk_of after) (walk_of s) (omega arith) h.owned h.rank
                (ap (λ x. x * 512 + q / span 3 % 512) h.prefix ∙ span-root q lt_q)
                (λ e j a re le lj pe.
                  after-else e j (λ z. omega (arith, re, z))
                    (elsewhere e j a re pe (λ z. ground (arith, other, z))))
              ∙ h.entries q lt_q)
        ]
          where
            elsewhere :
                (e j a : ℕ)
                → o.rank e ≡ suc a
                → o.prefix e * 512 + j ≡ q / span a
                → q ≢ p
                → (e ≢ t) ⊎ (j ≢ p % 512)
            elsewhere e j a re pe ne = elim (Bool-cases (e == t)) [
              | inr other ↦ inl (λ z. ground (arith, other, z))
              | inl at_t ↦ inr (λ jp.
                  let et = (==_iff e t).0 at_t in
                  let a_zero : a ≡ 0 = omega (arith, re, rt, ap o.rank et) in
                  ne (
                    sym (span-one q)
                    ∙ ap (λ x. q / span x) (sym a_zero)
                    ∙ sym pe
                    ∙ ap (λ x. o.prefix x * 512 + j) et
                    ∙ ap (λ x. o.prefix t * 512 + x) jp
                    ∙ omega (arith, on, span-one p)))
            ]
