-- ===== src/Ram/Changes.antt =====
-- The steps that change the list of free pages of kernel/phmem.cpp, or whose page it is.
use shmdos.Prelude.{
  ℕ, suc, ◌+◌, ◌%◌, ◌<◌, ◌≡◌, ◌≢◌, refl, sym, ap, subst, ◌∙◌, inl, inr, ◌==◌, Bool, true, false,
  ◌||◌, Bool-cases, ==_iff, none, some, List, ◌∷◌, update, arith,
}
use shmdos.Ram.{Ram, word_mod, compare_exchange, set_link}
use shmdos.Ram.Steps.{
  Thread, idle, alloc_head, alloc_count, alloc_link, free_page, free_head, free_count, free_link,
  State,
}
use shmdos.Ram.Invariant.{
  Chain, has, Distinct, page_of, Given, Fits, IsGood, compare_exchange-true, Chain-update,
  Chain-head, Fits-link,
}
use shmdos.Ram.Moves.{Fits-update, alone-update, Fits-at, page_of-Given, IsGood-link, page-Given}

pub clash : true ≡ false → ⊥
clash z = cc

pub no_page : {p : ℕ} → none ≡ some p → ⊥
no_page z = cc

or_true : (b : Bool) → (b || true) ≡ true
or_true true = refl
or_true false = refl

-- The header after a change.
abbrev changed : Ram → (head count : ℕ) → Ram
changed r head count = record r { head = head; count = count }

-- A page that is not the first of the list, seen from the rest.
Given-rest :
    (stop h q : ℕ) (user : ℕ → Bool) (rest : List ℕ)
    → Given stop user (h ∷ rest) q
    → Given stop (update user h true) rest q
Given-rest stop h q user rest g =
    let other : (q == h) ≡ false = ground (arith, g.1) in (rw other g.0, ground (arith, g.1), g.2)

Fits-take :
    (stop h n c : ℕ) (r : Ram) (user : ℕ → Bool) (rest : List ℕ) (th : Thread)
    → c ≡ suc r.count
    → Fits stop r user (h ∷ rest) th
    → Fits stop (changed r n c) (update user h true) rest th
Fits-take stop h n c r user rest idle e f = f
Fits-take stop h n c r user rest (alloc_head x) e f = f
Fits-take stop h n c r user rest (alloc_count x y) e f = omega (arith, e, f)
Fits-take stop h n c r user rest (alloc_link x y z) e f =
    (omega (arith, e, f.0), f.1, λ same. absurd (omega (arith, e, f.0, same)))
Fits-take stop h n c r user rest (free_page q) e f = Given-rest stop h q user rest f
Fits-take stop h n c r user rest (free_head q x) e f = Given-rest stop h q user rest f
Fits-take stop h n c r user rest (free_count q x y) e f = Given-rest stop h q user rest f
Fits-take stop h n c r user rest (free_link q x y) e f = (Given-rest stop h q user rest f.0, f.1)

Given-more :
    (stop p q : ℕ) (user : ℕ → Bool) (fs : List ℕ)
    → q ≢ p
    → Given stop user fs q
    → Given stop user (p ∷ fs) q
Given-more stop p q user fs ne g =
    let other : (q == p) ≡ false = ground (arith, ne) in (g.0, rw other g.1, g.2)

Fits-give :
    (stop p c : ℕ) (r : Ram) (user : ℕ → Bool) (fs : List ℕ) (th : Thread)
    → c ≡ suc r.count
    → page_of th ≢ some p
    → Fits stop r user fs th
    → Fits stop (changed r p c) user (p ∷ fs) th
Fits-give stop p c r user fs idle e own f = f
Fits-give stop p c r user fs (alloc_head x) e own f = f
Fits-give stop p c r user fs (alloc_count x y) e own f = omega (arith, e, f)
Fits-give stop p c r user fs (alloc_link x y z) e own f =
    (omega (arith, e, f.0), f.1, λ same. absurd (omega (arith, e, f.0, same)))
Fits-give stop p c r user fs (free_page q) e own f =
    Given-more stop p q user fs (λ z. own (ap some z)) f
Fits-give stop p c r user fs (free_head q x) e own f =
    Given-more stop p q user fs (λ z. own (ap some z)) f
Fits-give stop p c r user fs (free_count q x y) e own f =
    Given-more stop p q user fs (λ z. own (ap some z)) f
Fits-give stop p c r user fs (free_link q x y) e own f =
    (Given-more stop p q user fs (λ z. own (ap some z)) f.0, f.1)

lowered : (user : ℕ → Bool) (p q : ℕ) → user q ≡ false → update user p false q ≡ false
lowered user p q e = elim (Bool-cases (q == p)) [ inl same ↦ rw same refl | inr other ↦ rw other e ]

Fits-release :
    (stop p : ℕ) (r : Ram) (user : ℕ → Bool) (fs : List ℕ) (th : Thread)
    → Fits stop r user fs th
    → Fits stop r (update user p false) fs th
Fits-release stop p r user fs idle f = f
Fits-release stop p r user fs (alloc_head x) f = f
Fits-release stop p r user fs (alloc_count x y) f = f
Fits-release stop p r user fs (alloc_link x y z) f = f
Fits-release stop p r user fs (free_page q) f = (lowered user p q f.0, f.1, f.2)
Fits-release stop p r user fs (free_head q x) f = (lowered user p q f.0, f.1, f.2)
Fits-release stop p r user fs (free_count q x y) f = (lowered user p q f.0, f.1, f.2)
Fits-release stop p r user fs (free_link q x y) f = ((lowered user p q f.0.0, f.0.1, f.0.2), f.1)

module _ (stop : ℕ) (s : State) (fs : List ℕ) (g : IsGood stop s fs) where
  user-free : (p : ℕ) → s.user p ≡ true → has p fs ≡ false
  user-free p e = elim (Bool-cases (has p fs)) [
    | inr free ↦ free
    | inl there ↦ absurd (clash (sym e ∙ g.users p there))
  ]

  user-stop : (p : ℕ) → s.user p ≡ true → p ≢ stop
  user-stop p e z = clash (sym e ∙ ap s.user z ∙ g.stop_user)

  user-page : (p u : ℕ) → s.user p ≡ true → page_of (s.thread u) ≢ some p
  user-page p u e page = clash (sym e ∙ (page-Given stop s fs g u p page).0)

  pub IsGood-take :
      (t h c n : ℕ)
      → s.thread t ≡ alloc_link h c n
      → (compare_exchange s.ram h c n).0 ≡ true
      → c + 1 < word_mod
      → (rest : List ℕ) × IsGood stop
          (record s {
            ram = (compare_exchange s.ram h c n).1;
            thread = update s.thread t idle;
            user = update s.user h true;
          })
          rest
  IsGood-take t h c n e done small =
      let (head_h, count_c, result) = compare_exchange-true s.ram h c n done in
      let f = Fits-at stop s fs g t (alloc_link h c n) e in
      let (rest, fs_eq, below) =
        Chain-head s.ram.link stop s.ram.head fs g.chain (λ z. f.1 (sym head_h ∙ z)) in
      let link_n = f.2 (sym count_c) head_h in
      let fs_h : fs ≡ h ∷ rest = fs_eq ∙ ap (λ x. x ∷ rest) head_h in
      let count : (c + 1) % word_mod ≡ suc s.ram.count = omega (arith, count_c) in
      let distinct : Distinct (h ∷ rest) = subst Distinct fs_h g.distinct in
      (
        rest,
        rw result (record {
          chain = subst (λ x. Chain s.ram.link stop x rest) (ap s.ram.link head_h ∙ link_n) below;
          distinct = distinct.1;
          users = λ p there.
              let other : (p == h) ≡ false = not_head p rest distinct.0 there in
              rw other (g.users p (ap (has p) fs_h ∙ later p rest there));
          stop_user = let other : (stop == h) ≡ false = ground (arith, f.1) in rw other g.stop_user;
          fits =
              Fits-update
                (Fits stop (changed s.ram n ((c + 1) % word_mod)) (update s.user h true) rest)
                s.thread t idle
                (λ u ne.
                  Fits-take stop h n ((c + 1) % word_mod) s.ram s.user rest (s.thread u) count
                    (subst (λ x. Fits stop s.ram s.user x (s.thread u)) fs_h (g.fits u)))
                tt;
          alone = alone-update s.thread t idle g.alone (λ u p here there. absurd (no_page here));
        }),
      )
    where
      not_head : (p : ℕ) (rest : List ℕ) → has h rest ≡ false → has p rest ≡ true → (p == h) ≡ false
      not_head p rest out there = elim (Bool-cases (p == h)) [
        | inr other ↦ other
        | inl same ↦ absurd (clash (sym there ∙ ap (λ x. has x rest) ((==_iff p h).0 same) ∙ out))
      ]

      later : (p : ℕ) (rest : List ℕ) → has p rest ≡ true → has p (h ∷ rest) ≡ true
      later p rest there = rw there (or_true (p == h))

  pub IsGood-give :
      (t p h c : ℕ)
      → s.thread t ≡ free_link p h c
      → (compare_exchange s.ram h c p).0 ≡ true
      → c + 1 < word_mod
      → IsGood stop
          (record s { ram = (compare_exchange s.ram h c p).1; thread = update s.thread t idle })
          (p ∷ fs)
  IsGood-give t p h c e done small =
      let (head_h, count_c, result) = compare_exchange-true s.ram h c p done in
      let f = Fits-at stop s fs g t (free_link p h c) e in
      let count : (c + 1) % word_mod ≡ suc s.ram.count = omega (arith, count_c) in
      rw result (record {
        chain = (refl, f.0.2, subst (λ x. Chain s.ram.link stop x fs) (head_h ∙ sym f.1) g.chain);
        distinct = (f.0.1, g.distinct);
        users = users f.0.0;
        stop_user = g.stop_user;
        fits =
            Fits-update (Fits stop (changed s.ram p ((c + 1) % word_mod)) s.user (p ∷ fs)) s.thread
              t idle
              (λ u ne.
                Fits-give stop p ((c + 1) % word_mod) s.ram s.user fs (s.thread u) count
                  (λ page.
                    ne
                      (g.alone u t p page (page_of-Given stop s fs g t p (free_link p h c) e refl)))
                  (g.fits u))
              tt;
        alone = alone-update s.thread t idle g.alone (λ u q here there. absurd (no_page here));
      })
    where
      users : s.user p ≡ false → (q : ℕ) → has q (p ∷ fs) ≡ true → s.user q ≡ false
      users not_p q there = elim (Bool-cases (q == p)) [
        | inl same ↦ ap s.user ((==_iff q p).0 same) ∙ not_p
        | inr other ↦ g.users q (rw other at there)
      ]

  pub IsGood-release :
      (t p : ℕ)
      → s.thread t ≡ idle
      → s.user p ≡ true
      → IsGood stop
          (record s { thread = update s.thread t (free_page p); user = update s.user p false })
          fs
  IsGood-release t p e held = record {
    chain = g.chain;
    distinct = g.distinct;
    users = λ q there. lowered s.user p q (g.users q there);
    stop_user = lowered s.user p stop g.stop_user;
    fits =
        Fits-update (Fits stop s.ram (update s.user p false) fs) s.thread t (free_page p)
          (λ u ne. Fits-release stop p s.ram s.user fs (s.thread u) (g.fits u))
          (let here : (p == p) ≡ true = ground arith in
            (rw here refl, user-free p held, user-stop p held));
    alone =
        alone-update s.thread t (free_page p) g.alone
          (λ u q here there. absurd (user-page p u held (there ∙ sym here)));
  }

  pub IsGood-write :
      (p v : ℕ) → s.user p ≡ true → IsGood stop (record s { ram = set_link s.ram p v }) fs
  IsGood-write p v held = IsGood-link stop s fs g p v (user-free p held) (λ u. user-page p u held)

  -- The thread that gives a page back links it to the head that it has seen.
  pub IsGood-store :
      (t p h c : ℕ)
      → s.thread t ≡ free_count p h c
      → IsGood stop
          (record s { ram = set_link s.ram p h; thread = update s.thread t (free_link p h c) })
          fs
  IsGood-store t p h c e =
      let f = Fits-at stop s fs g t (free_count p h c) e in
      let mine = page_of-Given stop s fs g t p (free_count p h c) e refl in
      record {
        chain = Chain-update s.ram.link stop s.ram.head p h fs f.1 g.chain;
        distinct = g.distinct;
        users = g.users;
        stop_user = g.stop_user;
        fits =
            Fits-update (Fits stop (set_link s.ram p h) s.user fs) s.thread t (free_link p h c)
              (λ u ne.
                Fits-link stop p h s.ram s.user fs (s.thread u) g.chain f.1
                  (λ page. ne (g.alone u t p page mine)) (g.fits u))
              (let here : (p == p) ≡ true = ground arith in (f, rw here refl));
        alone =
            alone-update s.thread t (free_link p h c) g.alone
              (λ u q here there. g.alone u t p (there ∙ sym here) mine);
      }
