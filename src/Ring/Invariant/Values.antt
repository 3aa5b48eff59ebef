-- ===== src/Ring/Invariant/Values.antt =====
-- What the pushes store in the ring, the pops load from it.
use shmdos.Prelude.{
  ℕ, ◌%◌, ◌≤◌, ◌≡◌, refl, ap, sym, ◌∙◌, inl, inr, true, false, ◌==◌, Bool-cases, ==_iff, none, some,
  update,
}
use shmdos.Ring.{Ring, claim_push, claim_pop, store_value, load_value, finish_push, finish_pop}
use shmdos.Ring.Steps.{Phase, untouched, writing, filled, reading, emptied, to_reading, State}
use shmdos.Ring.Invariant.Defs.{is_untouched, is_emptied, is_taken, is_pushed, Inv}
use shmdos.Ring.Invariant.Push.{touched_below, elsewhere}
use shmdos.Ring.Invariant.Pop.{load_value-is}

-- A value that a push has stored and not yet announced is in its cell; a value that a pop has loaded is the
-- one of the push.
pub record Carries {A : Type 0} (size : ℕ) (s : State A) : Type 0 where
  pub not_early : (t : ℕ) → is_untouched (s.phase t) ≡ true → s.stored t ≡ false
  pub not_loaded : (t : ℕ) → is_taken (s.phase t) ≡ false → s.got t ≡ none
  pub wrote :
      (t : ℕ) (x : A) → s.phase t ≡ writing x → s.stored t ≡ true → s.ring.value (t % size) ≡ x
  pub loaded : (t : ℕ) (x y : A) → s.phase t ≡ reading x → s.got t ≡ some y → y ≡ x
  pub returned : (t : ℕ) (x : A) → s.phase t ≡ emptied x → s.got t ≡ some x

clash : {X : Type 0} → true ≡ false → X
clash e = absurd (cc e)

missing : {A : Type 0} {y : A} {X : Type 0} → none ≡ some y → X
missing e = absurd (cc e)

-- What a phase that number t comes to needs of what its threads have stored and loaded.
record Allows {A : Type 0} (size : ℕ) (s : State A) (t : ℕ) (q : Phase A) : Type 0 where
  touched : is_untouched q ≡ false
  unread : is_taken q ≡ false → s.got t ≡ none
  written : (x : A) → q ≡ writing x → s.stored t ≡ true → s.ring.value (t % size) ≡ x
  read : (x y : A) → q ≡ reading x → s.got t ≡ some y → y ≡ x
  done : (x : A) → q ≡ emptied x → s.got t ≡ some x

module _ {A : Type 0} (size : ℕ) (s : State A) (c : Carries size s) (t : ℕ) where
  -- A step that changes the phase of number t and no value.
  phase-Carries :
      (q : Phase A) (ring : Ring A)
      → ring.value ≡ s.ring.value
      → Allows size s t q
      → Carries size (record s { ring = ring; phase = update s.phase t q })
  phase-Carries q ring same a = record {
    not_early = λ u h. elim (Bool-cases (u == t)) [
      | inl self ↦ clash (sym (rw self at h) ∙ a.touched)
      | inr other ↦ c.not_early u (rw other at h)
    ];
    not_loaded = λ u h. elim (Bool-cases (u == t)) [
      | inl self ↦ rw ((==_iff u t).0 self) (a.unread (rw self at h))
      | inr other ↦ c.not_loaded u (rw other at h)
    ];
    wrote = λ u x now st. elim (Bool-cases (u == t)) [
      | inl self ↦
          let eq = (==_iff u t).0 self in
          ap (λ f. f (u % size)) same
          ∙ ap (λ n. s.ring.value (n % size)) eq
          ∙ a.written x (rw self at now) (ap s.stored (sym eq) ∙ st)
      | inr other ↦ ap (λ f. f (u % size)) same ∙ c.wrote u x (rw other at now) st
    ];
    loaded = λ u x y now got. elim (Bool-cases (u == t)) [
      | inl self ↦
          let eq = (==_iff u t).0 self in a.read x y (rw self at now) (ap s.got (sym eq) ∙ got)
      | inr other ↦ c.loaded u x y (rw other at now) got
    ];
    returned = λ u x now. elim (Bool-cases (u == t)) [
      | inl self ↦ let eq = (==_iff u t).0 self in ap s.got eq ∙ a.done x (rw self at now)
      | inr other ↦ c.returned u x (rw other at now)
    ];
  }

  -- A claimed number has stored nothing yet.
  pub claim_push-Carries :
      (x : A)
      → (s.ring.write ≡ t → is_untouched (s.phase t) ≡ true)
      → (claim_push s.ring t).0 ≡ true
      → Carries size
          (record s { ring = (claim_push s.ring t).1; phase = update s.phase t (writing x) })
  unfolding claim_push
  claim_push-Carries x future ok = elim (Bool-cases (s.ring.write == t)) [
    | inr other ↦ clash (sym (rw other at ok))
    | inl here ↦
        let fresh = future ((==_iff s.ring.write t).0 here) in
        rw here (
          phase-Carries (writing x) _ refl (record {
            touched = refl;
            unread = λ e. c.not_loaded t (untaken (s.phase t) fresh);
            written = λ y e st. clash (sym st ∙ c.not_early t fresh);
            read = λ y z e. absurd (cc e);
            done = λ y e. absurd (cc e);
          }))
  ]
    where
      untaken : (p : Phase A) → is_untouched p ≡ true → is_taken p ≡ false
      untaken untouched e = refl
      untaken (writing y) e = refl
      untaken (filled y) e = refl
      untaken (reading y) e = clash (sym e)
      untaken (emptied y) e = clash (sym e)

  pub finish_push-Carries :
      (x : A)
      → s.phase t ≡ writing x
      → Carries size (record s { ring = finish_push s.ring t; phase = update s.phase t (filled x) })
  unfolding finish_push
  finish_push-Carries x now = phase-Carries (filled x) (finish_push s.ring t) refl (record {
    touched = refl;
    unread = λ e. c.not_loaded t (ap is_taken now);
    written = λ y e. absurd (cc e);
    read = λ y z e. absurd (cc e);
    done = λ y e. absurd (cc e);
  })

  claimed_phase :
      (p : Phase A) → s.phase t ≡ p → is_pushed p ≡ true → Allows size s t (to_reading p)
  claimed_phase untouched at e = clash (sym e)
  claimed_phase (writing x) at e = clash (sym e)
  claimed_phase (filled x) at e = record {
    touched = refl;
    unread = λ f. clash f;
    written = λ y f. absurd (cc f);
    read = λ y z f got. missing (sym (c.not_loaded t (ap is_taken at)) ∙ got);
    done = λ y f. absurd (cc f);
  }
  claimed_phase (reading x) at e = record {
    touched = refl;
    unread = λ f. clash f;
    written = λ y f. absurd (cc f);
    read = λ y z f got. c.loaded t y z (at ∙ f) got;
    done = λ y f. absurd (cc f);
  }
  claimed_phase (emptied x) at e = record {
    touched = refl;
    unread = λ f. clash f;
    written = λ y f. absurd (cc f);
    read = λ y z f. absurd (cc f);
    done = λ y f. c.returned t y (at ∙ f);
  }

  pub claim_pop-Carries :
      is_pushed (s.phase t) ≡ true
      → Carries size (record s {
        ring = (claim_pop s.ring t).1;
        phase = update s.phase t (to_reading (s.phase t));
      })
  unfolding claim_pop
  claim_pop-Carries pushed =
      phase-Carries (to_reading (s.phase t)) (claim_pop s.ring t).1 same
        (claimed_phase (s.phase t) refl pushed)
    where
      same : (claim_pop s.ring t).1.value ≡ s.ring.value
      same = elim (Bool-cases (s.ring.read == t)) [
        | inl here ↦ rw here refl
        | inr other ↦ rw other refl
      ]

  pub finish_pop-Carries :
      (x y : A)
      → s.phase t ≡ reading x
      → s.got t ≡ some y
      → Carries size (record s { ring = finish_pop s.ring t; phase = update s.phase t (emptied x) })
  unfolding finish_pop
  finish_pop-Carries x y now got = phase-Carries (emptied x) (finish_pop s.ring t) refl (record {
    touched = refl;
    unread = λ f. clash f;
    written = λ z f. absurd (cc f);
    read = λ z w f. absurd (cc f);
    done = λ z f. got ∙ ap some (c.loaded t x y now got ∙ same_value f);
  })
    where
      same_value : {z : A} → emptied x ≡ emptied z → x ≡ z
      same_value f = cc f

module _ {A : Type 0} (size : ℕ) (s : State A) (inv : Inv size s) (two : 2 ≤ size)
    (c : Carries size s) (t : ℕ) (x : A) where
  -- No other number that stores a value stores it in this cell.
  pub store_value-Carries :
      s.phase t ≡ writing x
      → Carries size (record s { ring = store_value s.ring t x; stored = update s.stored t true })
  unfolding store_value
  store_value-Carries now = rw inv.size_is (record {
    not_early = λ u h. elim (Bool-cases (u == t)) [
      | inl self ↦ clash (sym (rw ((==_iff u t).0 self) at h) ∙ ap is_untouched now)
      | inr other ↦ rw other (c.not_early u h)
    ];
    not_loaded = c.not_loaded;
    wrote = λ u y at st. elim (Bool-cases (u == t)) [
      | inl self ↦
          let eq = (==_iff u t).0 self in
          let slot : (u % size == t % size) ≡ true =
            (==_iff (u % size) (t % size)).1 (ap (λ n. n % size) eq) in
          rw slot (same_value (sym now ∙ ap s.phase (sym eq) ∙ at))
      | inr other ↦
          let below = touched_below size s inv u (ap is_untouched at) in
          let apart =
            elsewhere size s inv two t x now u other (ap is_emptied at) (inv.lap u below) in
          rw apart (c.wrote u y at (rw other at st))
    ];
    loaded = c.loaded;
    returned = c.returned;
  })
    where
      same_value : {y : A} → writing x ≡ writing y → x ≡ y
      same_value f = cc f

  -- The value that a pop loads is the one that the push stored.
  pub load_value-Carries :
      s.phase t ≡ reading x
      → Carries size (record s { got = update s.got t (some (load_value s.ring t)) })
  load_value-Carries now = record {
    not_early = c.not_early;
    not_loaded = λ u h. elim (Bool-cases (u == t)) [
      | inl self ↦ clash (sym (ap is_taken now) ∙ (rw ((==_iff u t).0 self) at h))
      | inr other ↦ rw other (c.not_loaded u h)
    ];
    wrote = c.wrote;
    loaded = λ u y z at got. elim (Bool-cases (u == t)) [
      | inl self ↦
          let eq = (==_iff u t).0 self in
          sym (some_value (rw self at got))
          ∙ load_value-is size s inv two t x now
          ∙ same_value (sym now ∙ ap s.phase (sym eq) ∙ at)
      | inr other ↦ c.loaded u y z at (rw other at got)
    ];
    returned = λ u y at. elim (Bool-cases (u == t)) [
      | inl self ↦ differ (sym now ∙ ap s.phase (sym ((==_iff u t).0 self)) ∙ at)
      | inr other ↦ rw other (c.returned u y at)
    ];
  }
    where
      same_value : {y : A} → reading x ≡ reading y → x ≡ y
      same_value f = cc f

      some_value : {z : A} → some (load_value s.ring t) ≡ some z → load_value s.ring t ≡ z
      some_value f = cc f

      differ : {y : A} {X : Type 0} → reading x ≡ emptied y → X
      differ f = absurd (cc f)
