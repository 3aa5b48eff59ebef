-- ===== src/Ring/Invariant/Pop.antt =====
-- The steps of a pop keep the invariant of the ring.
use shmdos.Prelude.{
  ℕ, ◌+◌, ◌-◌, ◌%◌, ◌≤◌, ◌<◌, ◌≡◌, refl, ap, ◌∙◌, sym, ◌⊎◌, inl, inr, true, false, arith, ltb, ◌==◌,
  Bool-cases, ==_iff, update,
}
use native.Mathlib.Nat.{add-mod_right}
use shmdos.Ring.{Ring, index_mod, ready, pop_attempt, claim_pop, load_value, finish_pop}
use shmdos.Ring.Steps.{Phase, untouched, writing, filled, reading, emptied, to_reading, State}
use shmdos.Ring.Invariant.Defs.{
  is_untouched, is_emptied, is_taken, is_pushed, phase_counter, Holds, is_free_for, Inv, one_owner,
}
use shmdos.Ring.Invariant.Push.{
  ready_lem, counter-near, not_free-counter, is_free_for-update, touched_below,
}

module _ {A : Type 0} (size : ℕ) (s : State A) (inv : Inv size s) (two : 2 ≤ size) where
  pop_attempt-pushed :
      (t : ℕ) → t ≤ s.ring.read → pop_attempt s.ring t ≡ ready → is_pushed (s.phase t) ≡ true
  unfolding pop_attempt
  pop_attempt-pushed t le e =
      let found = ready_lem (s.ring.counter (t % s.ring.size)) ((t + 1) % index_mod) e in
      let plain : (t + 1) % index_mod ≡ t + 1 = omega (arith, le, inv.order, inv.bound, two) in
      let found' : s.ring.counter (t % size) ≡ t + 1 = rw (inv.size_is, plain) at found in
      elim (Bool-cases (is_free_for s.phase size t)) [
        | inr busy ↦ absurd (
            omega (
              arith,
              not_free-counter size s inv two t (omega (arith, le, inv.order)) busy,
              found',
            ))
        | inl free ↦ elim (Bool-cases (is_emptied (s.phase t))) [
          | inl done ↦ emptied_pushed (s.phase t) done
          | inr live ↦ elim (counter-near (s.phase t) t) [
            | inl low ↦ absurd (omega (arith, low, found', inv.count t live free))
            | inr high ↦ high.1
          ]
        ]
      ]
    where
      emptied_pushed : (p : Phase A) → is_emptied p ≡ true → is_pushed p ≡ true
      emptied_pushed untouched d = absurd (ground (arith, d))
      emptied_pushed (writing y) d = absurd (ground (arith, d))
      emptied_pushed (filled y) d = refl
      emptied_pushed (reading y) d = refl
      emptied_pushed (emptied y) d = refl

  pub see_pop-Inv :
      (t : ℕ)
      → t ≤ s.ring.read
      → pop_attempt s.ring t ≡ ready
      → Inv size (record s { may_pop = update s.may_pop t true })
  see_pop-Inv t le e = record {
    size_is = inv.size_is;
    order = inv.order;
    bound = inv.bound;
    future = inv.future;
    past = inv.past;
    unread = inv.unread;
    lap = inv.lap;
    count = inv.count;
    holds = inv.holds;
    seen_push = inv.seen_push;
    seen_pop = λ u h. elim (Bool-cases (u == t)) [
      | inl self ↦ rw ((==_iff u t).0 self) (pop_attempt-pushed t le e)
      | inr other ↦ inv.seen_pop u (rw other at h)
    ];
  }

pub claim_pop-parts :
    {A : Type 0} (r : Ring A) (t : ℕ)
    → (claim_pop r t).0 ≡ true
    → (r.read ≡ t) × (t + 1 < index_mod → (claim_pop r t).1 ≡ record r { read = t + 1 })
unfolding claim_pop
claim_pop-parts r t e = elim (Bool-cases (r.read == t)) [
  | inl same ↦ (
    (==_iff r.read t).0 same,
    λ small. let plain : (t + 1) % index_mod ≡ t + 1 = omega arith in rw (same, plain) refl,
  )
  | inr other ↦ absurd (fails (rw other at e))
]
  where
    fails : false ≡ true → ⊥
    fails f = cc f

-- What `to_reading` leaves as it is.
abbrev Claimed : {A : Type 0} → ℕ → Phase A → Type 0
Claimed {A = A} t p =
    (is_untouched (to_reading p) ≡ false)
    × (is_emptied (to_reading p) ≡ is_emptied p)
    × (phase_counter (to_reading p) t ≡ phase_counter p t)
    × (is_pushed (to_reading p) ≡ true)
    × (is_taken (to_reading p) ≡ true)
    × ((y : A) → Holds p y → Holds (to_reading p) y)

claimed : {A : Type 0} (t : ℕ) (p : Phase A) → is_pushed p ≡ true → Claimed t p
claimed t untouched e = absurd (ground (arith, e))
claimed t (writing x) e = absurd (ground (arith, e))
claimed t (filled x) e = (refl, refl, refl, refl, refl, λ y h. h)
claimed t (reading x) e = (refl, refl, refl, refl, refl, λ y h. h)
claimed t (emptied x) e = (refl, refl, refl, refl, refl, λ y h. h)

module _ {A : Type 0} (size : ℕ) (s : State A) (inv : Inv size s) (two : 2 ≤ size) (t : ℕ) where
  pub claim_pop-Inv :
      s.may_pop t ≡ true
      → (claim_pop s.ring t).0 ≡ true
      → Inv size (record s {
        ring = (claim_pop s.ring t).1;
        phase = update s.phase t (to_reading (s.phase t));
      })
  claim_pop-Inv may ok =
      let c = claimed t (s.phase t) (inv.seen_pop t may) in
      let (here, after) = claim_pop-parts s.ring t ok in
      let old : is_untouched (s.phase t) ≡ false =
        pushed_touched (s.phase t) (inv.seen_pop t may) in
      let lt = touched_below size s inv t old in
      let same = λ (u : ℕ). is_free_for-update s.phase size t u (to_reading (s.phase t)) c.1 in
      rw (after (omega (arith, lt, inv.bound, two))) (record {
        size_is = inv.size_is;
        order = omega (arith, lt);
        bound = inv.bound;
        future = λ u le.
            let other : (u == t) ≡ false = ground (arith, lt, le) in rw other (inv.future u le);
        past = λ u below. elim (Bool-cases (u == t)) [
          | inl self ↦ rw self c.0
          | inr other ↦ rw other (inv.past u below)
        ];
        unread = λ u le.
            let other : (u == t) ≡ false = ground (arith, le) in
            rw other (inv.unread u (omega (arith, here, le)));
        lap = λ u below. same u ∙ inv.lap u below;
        count = λ u e f. elim (Bool-cases (u == t)) [
          | inl self ↦
              let eq = (==_iff u t).0 self in
              let live : is_emptied (s.phase t) ≡ false = sym c.1 ∙ (rw self at e) in
              rw (self, eq) (inv.count t live (rw eq at (sym (same u) ∙ f)) ∙ sym c.2)
          | inr other ↦ rw other (inv.count u (rw other at e) (sym (same u) ∙ f))
        ];
        holds = λ u. elim (Bool-cases (u == t)) [
          | inl self ↦ let eq = (==_iff u t).0 self in rw (self, eq) (c.5 _ (inv.holds t))
          | inr other ↦ rw other (inv.holds u)
        ];
        seen_push = λ u h. same u ∙ inv.seen_push u h;
        seen_pop = λ u h. elim (Bool-cases (u == t)) [
          | inl self ↦ rw self c.3
          | inr other ↦ rw other (inv.seen_pop u h)
        ];
      })
    where
      pushed_touched : (p : Phase A) → is_pushed p ≡ true → is_untouched p ≡ false
      pushed_touched untouched d = absurd (ground (arith, d))
      pushed_touched (writing y) d = refl
      pushed_touched (filled y) d = refl
      pushed_touched (reading y) d = refl
      pushed_touched (emptied y) d = refl

module _ {A : Type 0} (size : ℕ) (s : State A) (inv : Inv size s) (two : 2 ≤ size) (t : ℕ) (x : A)
    (now : s.phase t ≡ reading x) where
  below : t < s.ring.write
  below = touched_below size s inv t (rw now refl)

  popped_ring :
      finish_pop s.ring t ≡ record s.ring { counter = update s.ring.counter (t % size) (t + size) }
  unfolding finish_pop
  popped_ring =
      let plain : (t + size) % index_mod ≡ t + size = omega (arith, below, inv.bound, two) in
      rw (inv.size_is, plain) refl

  -- The value that the pop of number t takes is the one that the push of number t brought.
  pub load_value-is : load_value s.ring t ≡ x
  unfolding load_value
  load_value-is = rw inv.size_is (rw now at (inv.holds t))

  abbrev phase' : ℕ → Phase A
  phase' = update s.phase t (emptied x)

  -- The only cell that becomes free is that of the number one size further, and no push has it.
  freed :
      (u : ℕ)
      → is_free_for phase' size u ≡ true
      → (is_free_for s.phase size u ≡ true) ⊎ (u ≡ t + size)
  freed u f = elim (Bool-cases (ltb u size)) [
    | inl first ↦ inl (rw first refl)
    | inr later ↦ elim (Bool-cases (u - size == t)) [
      | inl self ↦ inr (ground (arith, self, later))
      | inr other ↦ inl (rw later (rw (later, other) at f))
    ]
  ]

  still_free : (u : ℕ) → is_free_for s.phase size u ≡ true → is_free_for phase' size u ≡ true
  still_free u f = elim (Bool-cases (ltb u size)) [
    | inl first ↦ rw first refl
    | inr later ↦ elim (Bool-cases (u - size == t)) [
      | inl self ↦ rw (later, self) refl
      | inr other ↦ rw (later, other) (rw later at f)
    ]
  ]

  next_untouched : is_untouched (s.phase (t + size)) ≡ true
  next_untouched = elim (Bool-cases (ltb (t + size) s.ring.write)) [
    | inr out ↦ inv.future (t + size) (ground (arith, out))
    | inl inside ↦
        let free = inv.lap (t + size) (ground (arith, inside)) in
        let later : ltb (t + size) size ≡ false = ground arith in
        let at : t + size - size ≡ t = omega arith in
        let e : is_emptied (s.phase t) ≡ true = rw at at (rw later at free) in
        absurd (never (rw now at e))
  ]
    where
      never : false ≡ true → ⊥
      never f = cc f

  elsewhere :
      (u : ℕ)
      → (u == t) ≡ false
      → is_emptied (s.phase u) ≡ false
      → is_free_for s.phase size u ≡ true
      → (u % size == t % size) ≡ false
  elsewhere u other live free = elim (Bool-cases (u % size == t % size)) [
    | inr ne ↦ ne
    | inl eq ↦
        let e =
          one_owner size s inv u t (omega (arith, two)) live free (rw now refl) (inv.lap t below)
            ((==_iff (u % size) (t % size)).0 eq) in
        absurd (ground (arith, e, other))
  ]

  counts :
      (u : ℕ)
      → is_emptied (phase' u) ≡ false
      → is_free_for phase' size u ≡ true
      → update s.ring.counter (t % size) (t + size) (u % size) ≡ phase_counter (phase' u) u
  counts u e f = elim (Bool-cases (u == t)) [
    | inl self ↦ absurd (never (rw self at e))
    | inr other ↦ elim (freed u f) [
      | inl free ↦
          let live = rw other at e in
          rw (other, elsewhere u other live free) (inv.count u live free)
      | inr next ↦
          let slot : (u % size == t % size) ≡ true =
            (==_iff (u % size) (t % size)).1 (ap (λ n. n % size) next ∙ add-mod_right t size) in
          rw (other, slot) (sym next ∙ sym (at_start u (rw next next_untouched)))
    ]
  ]
    where
      never : true ≡ false → ⊥
      never d = cc d

      at_start : (u : ℕ) → is_untouched (s.phase u) ≡ true → phase_counter (s.phase u) u ≡ u
      at_start u fresh = start_of (s.phase u) fresh
        where
          start_of : (p : Phase A) → is_untouched p ≡ true → phase_counter p u ≡ u
          start_of untouched d = refl
          start_of (writing y) d = refl
          start_of (filled y) d = absurd (ground (arith, d))
          start_of (reading y) d = absurd (ground (arith, d))
          start_of (emptied y) d = refl

  pub finish_pop-Inv :
      Inv size (record s { ring = finish_pop s.ring t; phase = update s.phase t (emptied x) })
  finish_pop-Inv = rw popped_ring (record {
    size_is = inv.size_is;
    order = inv.order;
    bound = inv.bound;
    future = λ u le.
        let other : (u == t) ≡ false = ground (arith, below, le) in rw other (inv.future u le);
    past = λ u lt. elim (Bool-cases (u == t)) [
      | inl self ↦ rw self refl
      | inr other ↦ rw other (inv.past u lt)
    ];
    unread = λ u le. elim (Bool-cases (u == t)) [
      | inl self ↦
          let taken = inv.unread u le in absurd (was_taken (rw ((==_iff u t).0 self, now) at taken))
      | inr other ↦ rw other (inv.unread u le)
    ];
    lap = λ u lt. still_free u (inv.lap u lt);
    count = counts;
    holds = λ u. elim (Bool-cases (u == t)) [
      | inl self ↦ rw self tt
      | inr other ↦ rw other (inv.holds u)
    ];
    seen_push = λ u h. still_free u (inv.seen_push u h);
    seen_pop = λ u h. elim (Bool-cases (u == t)) [
      | inl self ↦ rw self refl
      | inr other ↦ rw other (inv.seen_pop u h)
    ];
  })
    where
      was_taken : true ≡ false → ⊥
      was_taken d = cc d
