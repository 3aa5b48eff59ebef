-- ===== src/Ring/Invariant/Push.antt =====
-- The steps of a push keep the invariant of the ring.
use shmdos.Prelude.{
  ℕ, ◌+◌, ◌-◌, ◌%◌, ◌≤◌, ◌<◌, ◌≡◌, refl, ap, subst, ◌∙◌, sym, ◌⊎◌, inl, inr, Bool, true, false,
  arith, ltb, leb, ◌==◌, Bool-cases, ==_iff, if◌then◌else◌, update,
}
use native.Mathlib.Nat.{add-mod_right}
use shmdos.Ring.{
  Ring, index_mod, ready, refused, again, decide_attempt, push_attempt, claim_push, store_value,
  finish_push,
}
use shmdos.Ring.Steps.{Phase, untouched, writing, filled, reading, emptied, State}
use shmdos.Ring.Invariant.Defs.{
  is_untouched, is_emptied, is_pushed, phase_counter, Holds, is_free_for, Inv, one_owner,
}

pub ready_lem : (counter wanted : ℕ) → decide_attempt counter wanted ≡ ready → counter ≡ wanted
ready_lem counter wanted e = elim (Bool-cases (counter == wanted)) [
  | inl same ↦ (==_iff counter wanted).0 same
  | inr other ↦ elim (Bool-cases (ltb counter wanted)) [
    | inl less ↦ absurd (not_ready false (rw (other, less) at e))
    | inr more ↦ absurd (not_ready true (rw (other, more) at e))
  ]
]
  where
    not_ready : (b : Bool) → (if b then again else refused) ≡ ready → ⊥
    not_ready true e' = cc e'
    not_ready false e' = cc e'

-- The counter of a cell not yet emptied for t is t or t + 1.
pub counter-near :
    {A : Type 0} (p : Phase A) (t : ℕ)
    → (phase_counter p t ≡ t) ⊎ ((phase_counter p t ≡ t + 1) × (is_pushed p ≡ true))
counter-near untouched t = inl refl
counter-near (writing x) t = inl refl
counter-near (filled x) t = inr (refl, refl)
counter-near (reading x) t = inr (refl, refl)
counter-near (emptied x) t = inl refl

module _ {A : Type 0} (size : ℕ) (s : State A) (inv : Inv size s) (two : 2 ≤ size) where
  -- The cell of a number that is not free for it has a counter below the number.
  pub not_free-counter :
      (t : ℕ)
      → t ≤ s.ring.write
      → is_free_for s.phase size t ≡ false
      → s.ring.counter (t % size) < t
  not_free-counter t le busy =
      let first : ltb t size ≡ false = ground (arith, busy) in
      let e : is_emptied (s.phase (t - size)) ≡ false = rw first at busy in
      let at : t - size + size ≡ t = ground (arith, first) in
      let slot : (t - size) % size ≡ t % size =
        sym (add-mod_right (t - size) size) ∙ ap (λ n. n % size) at in
      let c = inv.count (t - size) e (inv.lap (t - size) (ground (arith, first, le, two))) in
      let c' : s.ring.counter (t % size) ≡ phase_counter (s.phase (t - size)) (t - size) =
        rw slot at c in
      elim (counter-near (s.phase (t - size)) (t - size)) [
        | inl low ↦ ground (arith, c', low, first, two)
        | inr high ↦ ground (arith, c', high, first, two)
      ]

  push_attempt-free :
      (t : ℕ) → t ≤ s.ring.write → push_attempt s.ring t ≡ ready → is_free_for s.phase size t ≡ true
  unfolding push_attempt
  push_attempt-free t le e =
      let found = ready_lem (s.ring.counter (t % s.ring.size)) t e in
      let found' : s.ring.counter (t % size) ≡ t = rw inv.size_is at found in
      elim (Bool-cases (is_free_for s.phase size t)) [
        | inl free ↦ free
        | inr busy ↦ absurd (omega (arith, not_free-counter t le busy, found'))
      ]

  pub see_push-Inv :
      (t : ℕ)
      → t ≤ s.ring.write
      → push_attempt s.ring t ≡ ready
      → Inv size (record s { may_push = update s.may_push t true })
  see_push-Inv t le e = record {
    size_is = inv.size_is;
    order = inv.order;
    bound = inv.bound;
    future = inv.future;
    past = inv.past;
    unread = inv.unread;
    lap = inv.lap;
    count = inv.count;
    holds = inv.holds;
    seen_push = λ u h. elim (Bool-cases (u == t)) [
      | inl self ↦ rw ((==_iff u t).0 self) (push_attempt-free t le e)
      | inr other ↦ inv.seen_push u (rw other at h)
    ];
    seen_pop = inv.seen_pop;
  }

-- Which cells are free depends on the emptied numbers only.
pub is_free_for-update :
    {A : Type 0} (phase : ℕ → Phase A) (size t u : ℕ) (p : Phase A)
    → is_emptied p ≡ is_emptied (phase t)
    → is_free_for (update phase t p) size u ≡ is_free_for phase size u
is_free_for-update phase size t u p same = elim (Bool-cases (u - size == t)) [
  | inl self ↦ let e = (==_iff (u - size) t).0 self in rw self (rw e (rw same refl))
  | inr other ↦ rw other refl
]

claim_push-parts :
    {A : Type 0} (r : Ring A) (t : ℕ)
    → (claim_push r t).0 ≡ true
    → t + 1 < index_mod
    → (r.write ≡ t) × ((claim_push r t).1 ≡ record r { write = t + 1 })
unfolding claim_push
claim_push-parts r t e small = elim (Bool-cases (r.write == t)) [
  | inl same ↦
      let plain : (t + 1) % index_mod ≡ t + 1 = omega arith in
      ((==_iff r.write t).0 same, rw (same, plain) refl)
  | inr other ↦ absurd (fails (rw other at e))
]
  where
    fails : false ≡ true → ⊥
    fails f = cc f

module _ {A : Type 0} (size : ℕ) (s : State A) (inv : Inv size s) (two : 2 ≤ size) (t : ℕ)
    (x : A) where
  pub claim_push-Inv :
      s.may_push t ≡ true
      → (claim_push s.ring t).0 ≡ true
      → t + s.ring.size + s.ring.size < index_mod
      → Inv size (record s { ring = (claim_push s.ring t).1; phase = update s.phase t (writing x) })
  claim_push-Inv may ok fits =
      let room : t + size + size < index_mod = rw inv.size_is at fits in
      let (here, after) = claim_push-parts s.ring t ok (omega (arith, room)) in
      let fresh = inv.future t (omega (arith, here)) in
      let live : is_emptied (writing x) ≡ is_emptied (s.phase t) = was_live (s.phase t) fresh in
      let same = λ (u : ℕ). is_free_for-update s.phase size t u (writing x) live in
      rw after (record {
        size_is = inv.size_is;
        order = omega (arith, inv.order, here);
        bound = omega (arith, room);
        future = λ u le.
            let other : (u == t) ≡ false = ground arith in
            rw other (inv.future u (omega (arith, here)));
        past = λ u lt. elim (Bool-cases (u == t)) [
          | inl self ↦ rw self refl
          | inr other ↦ rw other (inv.past u (ground (arith, here)))
        ];
        unread = λ u le. elim (Bool-cases (u == t)) [
          | inl self ↦ rw self refl
          | inr other ↦ rw other (inv.unread u le)
        ];
        lap = λ u lt. same u ∙ elim (Bool-cases (u == t)) [
          | inl self ↦ rw ((==_iff u t).0 self) (inv.seen_push t may)
          | inr other ↦ inv.lap u (ground (arith, here))
        ];
        count = λ u e f. elim (Bool-cases (u == t)) [
          | inl self ↦ rw self (
              rw ((==_iff u t).0 self)
                (inv.count t (sym live) (inv.seen_push t may) ∙ counts (s.phase t) fresh))
          | inr other ↦ rw other (inv.count u (rw other at e) (sym (same u) ∙ f))
        ];
        holds = λ u. elim (Bool-cases (u == t)) [
          | inl self ↦ rw self tt
          | inr other ↦ rw other (inv.holds u)
        ];
        seen_push = λ u h. same u ∙ inv.seen_push u h;
        seen_pop = λ u h. elim (Bool-cases (u == t)) [
          | inl self ↦
              let pushed = rw ((==_iff u t).0 self) at (inv.seen_pop u h) in
              absurd (not_yet (s.phase t) fresh pushed)
          | inr other ↦ rw other (inv.seen_pop u h)
        ];
      })
    where
      was_live : (p : Phase A) → is_untouched p ≡ true → false ≡ is_emptied p
      was_live untouched e = refl
      was_live (writing y) e = refl
      was_live (filled y) e = refl
      was_live (reading y) e = refl
      was_live (emptied y) e = absurd (ground (arith, e))

      counts : (p : Phase A) → is_untouched p ≡ true → phase_counter p t ≡ t
      counts untouched e = refl
      counts (writing y) e = refl
      counts (filled y) e = absurd (ground (arith, e))
      counts (reading y) e = absurd (ground (arith, e))
      counts (emptied y) e = refl

      not_yet : (p : Phase A) → is_untouched p ≡ true → is_pushed p ≡ true → ⊥
      not_yet untouched e f = cc f
      not_yet (writing y) e f = cc e
      not_yet (filled y) e f = cc e
      not_yet (reading y) e f = cc e
      not_yet (emptied y) e f = cc e

-- A number that has been touched is below the write index.
pub touched_below :
    {A : Type 0} (size : ℕ) (s : State A) (inv : Inv size s) (t : ℕ)
    → is_untouched (s.phase t) ≡ false
    → t < s.ring.write
touched_below size s inv t e = elim (Bool-cases (leb s.ring.write t)) [
  | inl out ↦ absurd (ground (arith, e, inv.future t (ground (arith, out))))
  | inr inside ↦ ground (arith, inside)
]

module _ {A : Type 0} (size : ℕ) (s : State A) (inv : Inv size s) (two : 2 ≤ size) (t : ℕ) (x : A)
    (now : s.phase t ≡ writing x) where
  below : t < s.ring.write
  below = touched_below size s inv t (rw now refl)

  stored_ring : store_value s.ring t x ≡ record s.ring { value = update s.ring.value (t % size) x }
  unfolding store_value
  stored_ring = rw (inv.size_is) refl

  pushed_ring :
      finish_push s.ring t ≡ record s.ring { counter = update s.ring.counter (t % size) (t + 1) }
  unfolding finish_push
  pushed_ring =
      let plain : (t + 1) % index_mod ≡ t + 1 = omega (arith, below, inv.bound, two) in
      rw (inv.size_is, plain) refl

  -- Another number with a claim on its cell has another cell.
  pub elsewhere :
      (u : ℕ)
      → (u == t) ≡ false
      → is_emptied (s.phase u) ≡ false
      → is_free_for s.phase size u ≡ true
      → (u % size == t % size) ≡ false
  elsewhere u other live free = elim (Bool-cases (u % size == t % size)) [
    | inr ne ↦ ne
    | inl eq ↦
        let e =
          one_owner size s inv u t (omega (arith, two)) live free (rw now refl) (inv.lap t below)
            ((==_iff (u % size) (t % size)).0 eq) in
        absurd (ground (arith, e, other))
  ]

  keeps_holding :
      (u : ℕ) → (u == t) ≡ false → Holds (s.phase u) (update s.ring.value (t % size) x (u % size))
  keeps_holding u other = elim (Bool-cases (u % size == t % size)) [
    | inr ne ↦ rw ne (inv.holds u)
    | inl eq ↦ elim (Bool-cases (is_emptied (s.phase u))) [
      | inl done ↦ holds_nothing (s.phase u) done
      | inr live ↦ elim (Bool-cases (is_untouched (s.phase u))) [
        | inl fresh ↦ holds_yet (s.phase u) fresh
        | inr old ↦
            let ne = elsewhere u other live (inv.lap u (touched_below size s inv u old)) in
            absurd (ground (arith, ne, eq))
      ]
    ]
  ]
    where
      holds_nothing :
          (p : Phase A)
          → is_emptied p ≡ true
          → Holds p (update s.ring.value (t % size) x (u % size))
      holds_nothing untouched e = tt
      holds_nothing (writing y) e = tt
      holds_nothing (filled y) e = absurd (ground (arith, e))
      holds_nothing (reading y) e = absurd (ground (arith, e))
      holds_nothing (emptied y) e = tt

      holds_yet :
          (p : Phase A)
          → is_untouched p ≡ true
          → Holds p (update s.ring.value (t % size) x (u % size))
      holds_yet untouched e = tt
      holds_yet (writing y) e = tt
      holds_yet (filled y) e = absurd (ground (arith, e))
      holds_yet (reading y) e = absurd (ground (arith, e))
      holds_yet (emptied y) e = tt

  pub store_value-Inv :
      Inv size (record s { ring = store_value s.ring t x; stored = update s.stored t true })
  store_value-Inv = rw stored_ring (record {
    size_is = inv.size_is;
    order = inv.order;
    bound = inv.bound;
    future = inv.future;
    past = inv.past;
    unread = inv.unread;
    lap = inv.lap;
    count = inv.count;
    holds = λ u. elim (Bool-cases (u == t)) [
      | inl self ↦
          rw ((==_iff u t).0 self)
            (subst (λ p. Holds p (update s.ring.value (t % size) x (t % size))) (sym now) tt)
      | inr other ↦ keeps_holding u other
    ];
    seen_push = inv.seen_push;
    seen_pop = inv.seen_pop;
  })

  pub finish_push-Inv :
      s.ring.value (t % size) ≡ x
      → Inv size (record s { ring = finish_push s.ring t; phase = update s.phase t (filled x) })
  finish_push-Inv there =
      let live : is_emptied (filled x) ≡ is_emptied (s.phase t) = rw now refl in
      let same = λ (u : ℕ). is_free_for-update s.phase size t u (filled x) live in
      rw pushed_ring (record {
        size_is = inv.size_is;
        order = inv.order;
        bound = inv.bound;
        future = λ u le.
            let other : (u == t) ≡ false = ground (arith, below, le) in rw other (inv.future u le);
        past = λ u lt. elim (Bool-cases (u == t)) [
          | inl self ↦ rw self refl
          | inr other ↦ rw other (inv.past u lt)
        ];
        unread = λ u le. elim (Bool-cases (u == t)) [
          | inl self ↦ rw self refl
          | inr other ↦ rw other (inv.unread u le)
        ];
        lap = λ u lt. same u ∙ inv.lap u lt;
        count = λ u e f. elim (Bool-cases (u == t)) [
          | inl self ↦
              let eq = (==_iff u t).0 self in
              let slot : (t % size == t % size) ≡ true = ground arith in rw (self, eq, slot) refl
          | inr other ↦
              let live_u = rw other at e in
              let free_u = sym (same u) ∙ f in
              rw (other, elsewhere u other live_u free_u) (inv.count u live_u free_u)
        ];
        holds = λ u. elim (Bool-cases (u == t)) [
          | inl self ↦ let eq = (==_iff u t).0 self in rw (self, eq) there
          | inr other ↦ rw other (inv.holds u)
        ];
        seen_push = λ u h. same u ∙ inv.seen_push u h;
        seen_pop = λ u h. elim (Bool-cases (u == t)) [
          | inl self ↦ rw self refl
          | inr other ↦ rw other (inv.seen_pop u h)
        ];
      })
