-- ===== src/Paging/Lookup.antt =====
-- The entry that the tables hold for a page, and that opening tables does not change it.
use shmdos.Prelude.{
  ℕ, zero, suc, ◌+◌, ◌*◌, ◌/◌, ◌%◌, ◌≤◌, ◌<◌, ◌≡◌, ◌≢◌, refl, sym, ap, ◌∙◌, inl, inr, ◌==◌,
  if◌then◌else◌, true, false, Bool-cases, ==_iff, arith,
}
use shmdos.Paging.Walk.{Walk, frame_of, span}
use shmdos.Paging.Owned.{Owner, Owned}
use shmdos.Paging.Spans.{span-under, span-one}

-- The page lies under this table, which has so many levels below it.
abbrev pub On : Owner → (d b page : ℕ) → Type 0
On o d b page = o.prefix d * 512 + page / span b % 512 ≡ page / span b

pub On-child :
    (o : Owner) (d c b page : ℕ)
    → b < 3
    → On o d (suc b) page
    → o.prefix c ≡ o.prefix d * 512 + page / span (suc b) % 512
    → On o c b page
On-child o d c b page lt on e =
    let under = span-under b page lt in ap (λ t. t * 512 + page / span b % 512) (e ∙ on) ∙ under

module _ {K : Type 0} where
  -- A missing table holds no entries.
  unfoldable pub lookup : (below dir page : ℕ) → Walk K → ℕ
  lookup zero dir page w = w.table dir (page % 512)
  lookup (suc below) dir page w =
      let entry = w.table dir (page / span (suc below) % 512) in
      let rest = lookup below (frame_of entry) page w in if entry == 0 then 0 else rest

  pub lookup-none :
      (b d p : ℕ) (w : Walk K) → w.table d (p / span (suc b) % 512) ≡ 0 → lookup (suc b) d p w ≡ 0
  unfolding lookup
  lookup-none b d p w e =
      let test : (w.table d (p / span (suc b) % 512) == 0) ≡ true = ground (arith, e) in
      rw test refl

  pub lookup-some :
      (b d p : ℕ) (w : Walk K)
      → w.table d (p / span (suc b) % 512) ≢ 0
      → lookup (suc b) d p w ≡ lookup b (frame_of (w.table d (p / span (suc b) % 512))) p w
  unfolding lookup
  lookup-some b d p w ne =
      let test : (w.table d (p / span (suc b) % 512) == 0) ≡ false = ground (arith, ne) in
      rw test refl

  pub lookup-blank : (b d p : ℕ) (w : Walk K) → ((j : ℕ) → w.table d j ≡ 0) → lookup b d p w ≡ 0
  unfolding lookup
  lookup-blank zero d p w blank = blank (p % 512)
  lookup-blank (suc b) d p w blank = lookup-none b d p w (blank (p / span (suc b) % 512))

  -- Two states that have the same entries on the way to a page have the same entry for the page.
  abbrev pub AgreeOn : Owner → (below page : ℕ) → Walk K → Walk K → Type 0
  AgreeOn o below p u w =
      (e j a : ℕ)
      → o.rank e ≡ suc a
      → a ≤ below
      → j < 512
      → o.prefix e * 512 + j ≡ p / span a
      → u.table e j ≡ w.table e j

  pub lookup-AgreeOn :
      (b c p : ℕ) (o : Owner) (u w : Walk K)
      → b < 4
      → Owned o w
      → o.rank c ≡ suc b
      → On o c b p
      → AgreeOn o b p u w
      → lookup b c p u ≡ lookup b c p w
  unfolding lookup
  lookup-AgreeOn zero c p o u w lt h r on agree =
      agree c (p % 512) 0 r (omega arith) (omega arith) (omega (arith, on, span-one p))
  lookup-AgreeOn (suc b) c p o u w lt h r on agree =
      let i = p / span (suc b) % 512 in
      let same = agree c i (suc b) r (omega arith) (omega arith) on in
      elim (Bool-cases (w.table c i == 0)) [
        | inl gone ↦
            let z = (==_iff (w.table c i) 0).0 gone in
            lookup-none b c p u (same ∙ z) ∙ sym (lookup-none b c p w z)
        | inr there ↦
            let ne : w.table c i ≢ 0 = λ z. ground (arith, there, z) in
            let ne' : u.table c i ≢ 0 = λ z. ne (sym same ∙ z) in
            lookup-some b c p u ne'
            ∙ ap (λ t. lookup b (frame_of t) p u) same
            ∙ lookup-AgreeOn b (frame_of (w.table c i)) p o u w (omega arith) h
                (h.child_rank c b i r (omega arith) ne)
                (On-child o c (frame_of (w.table c i)) b p (omega arith) on
                  (h.child_prefix c b i r (omega arith) ne))
                (λ e j a re le lj pe. agree e j a re (omega arith) lj pe)
            ∙ sym (lookup-some b c p w ne)
      ]
