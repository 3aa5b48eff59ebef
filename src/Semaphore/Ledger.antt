-- ===== src/Semaphore/Ledger.antt =====
-- What the threads of a semaphore take and what is put in, over any sequence of their steps.
use shmdos.Prelude.{
  ◌||◌, not, ==_iff, ℕ, ◌+◌, ◌-◌, ◌≤◌, ◌≡◌, refl, ◌∙◌, subst, inl, inr, Bool, true, false, Option,
  none, some, arith, ltb, ◌==◌, Bool-cases, update,
}
use shmdos.Semaphore.{Semaphore, wait_update, wait, on_wait_begin, signal, on_wake}
use shmdos.Semaphore.Steps.{
  Thread, idle, begun, asleep, done, done_early, State, took, after_wait, after_begin, Step,
  call_wait, begin_wait, wake, call_signal, set_event, find_set, return_early, return_done,
  Reachable, start, after,
}

-- What a thread has is what it asked for, less what it still wants.
abbrev pub Balanced : Thread → ℕ → Type 0
Balanced idle got = Unit {0}
Balanced (begun count rest) got = got + rest ≡ count
Balanced (asleep count rest) got = got + rest ≡ count
Balanced (done count) got = got ≡ count
Balanced (done_early count rest) got = got + rest ≡ count

record Inv (max : ℕ) (s : State) : Type 0 where
  max_is : s.sem.max ≡ max
  few : s.sem.value ≤ max
  books : s.sem.value + s.out ≤ s.put_in
  balanced : (t : ℕ) → Balanced (s.thread t) (s.got t)

-- What a change of the semaphore by thread t has to satisfy.
took-Inv :
    (max : ℕ) (s : State) (t before : ℕ) (u : Semaphore) (next : Thread)
    → Inv max s
    → u.max ≡ s.sem.max
    → u.value ≤ s.sem.value
    → Balanced next (before + (s.sem.value - u.value))
    → Inv max (took s t before u next)
took-Inv max s t before u next inv same less ok = record {
  max_is = same ∙ inv.max_is;
  few = omega (arith, less, inv.few);
  books = omega (arith, less, inv.books);
  balanced = λ i. elim (Bool-cases (i == t)) [
    | inl self ↦ rw self ok
    | inr other ↦ rw other (inv.balanced i)
  ];
}

-- A thread that asks for n units gets all of them or leaves none.
abbrev Took : Semaphore → ℕ → ℕ → Semaphore → Type 0
Took s n rest u = (u.max ≡ s.max) × (u.value ≤ s.value) × ((s.value - u.value) + rest ≡ n)

wait_update-Took :
    (s : Semaphore) (inc : Bool) (n : ℕ) → Took s n (wait_update s inc n).0 (wait_update s inc n).1
unfolding wait_update
wait_update-Took s inc n = elim (Bool-cases (ltb s.value n)) [
  | inl short_of ↦ rw short_of (refl, omega arith, ground (arith, short_of))
  | inr enough ↦ rw enough (refl, omega arith, ground (arith, enough))
]

abbrev WakeTook : Semaphore → ℕ → Option (ℕ × Semaphore) → Type 0
WakeTook s n none = Unit {0}
WakeTook s n (some (left, u)) = Took s n left u

on_wake-Took : (s : Semaphore) (n : ℕ) → WakeTook s n (on_wake s n)
unfolding on_wake
on_wake-Took s n = elim (Bool-cases (s.value == 0)) [
  | inl empty ↦ rw empty tt
  | inr some_units ↦ elim (Bool-cases (ltb s.value n)) [
    | inl short_of ↦ rw (some_units, short_of) (refl, omega arith, ground (arith, short_of))
    | inr enough ↦ rw (some_units, enough) (refl, omega arith, ground (arith, enough))
  ]
]

or-left : (a b : Bool) → (a || b) ≡ false → a ≡ false
or-left true b e = e
or-left false b e = refl

wait-Took :
    (swaps : Bool) (s : Semaphore) (count timeout : ℕ)
    → ((wait swaps s count timeout).1.max ≡ s.max)
      × ((wait swaps s count timeout).1.value ≤ s.value)
      × Balanced
          (after_wait count (wait swaps s count timeout).0)
          (0 + (s.value - (wait swaps s count timeout).1.value))
unfolding wait
wait-Took swaps s count timeout = elim (Bool-cases (count == 0)) [
  | inl nothing ↦ rw nothing (refl, omega arith, ground (arith, nothing))
  | inr more ↦ elim (Bool-cases (ltb s.max count)) [
    | inl above ↦ rw (more, above) (refl, omega arith, tt)
    | inr possible ↦ elim (Bool-cases (timeout == 0)) [
      | inl at_once ↦ elim (Bool-cases (ltb s.value count || not swaps)) [
        | inl short_of ↦ rw (more, possible, at_once, short_of) (refl, omega arith, tt)
        | inr enough ↦
            rw (more, possible, at_once, enough)
              (refl, omega arith, ground (arith, or-left (ltb s.value count) (not swaps) enough))
      ]
      | inr patient ↦
          let (same, less, sum) = wait_update-Took s false count in
          elim (Bool-cases ((wait_update s false count).0 == 0)) [
            | inl all ↦ rw (more, possible, patient, all) (same, less, ground (arith, sum, all))
            | inr rest ↦ rw (more, possible, patient, rest) (same, less, omega (arith, sum))
          ]
    ]
  ]
]

after_begin-Balanced :
    (count rest got : ℕ) → got + rest ≡ count → Balanced (after_begin count rest) got
after_begin-Balanced count rest got sum = elim (Bool-cases (rest == 0)) [
  | inl all ↦ rw all (ground (arith, all))
  | inr more ↦ rw more sum
]

reset-Inv :
    (max : ℕ) (s : State) (t : ℕ)
    → Inv max s
    → Inv max (record s { thread = update s.thread t idle; got = update s.got t 0 })
reset-Inv max s t inv = record {
  max_is = inv.max_is;
  few = inv.few;
  books = inv.books;
  balanced = λ i. elim (Bool-cases (i == t)) [
    | inl self ↦ rw self tt
    | inr other ↦ rw other (inv.balanced i)
  ];
}

signal-Inv :
    (max : ℕ) (s : State) (count : ℕ)
    → Inv max s
    → Inv max (record s { sem = signal s.sem count; put_in = s.put_in + count })
unfolding signal
signal-Inv max s count inv = elim (Bool-cases (count == 0)) [
  | inl nothing ↦ rw nothing (record {
    max_is = inv.max_is;
    few = inv.few;
    books = omega (arith, inv.books);
    balanced = inv.balanced;
  })
  | inr more ↦ rw more (record {
    max_is = inv.max_is;
    few = omega (arith, inv.max_is);
    books = omega (arith, inv.books);
    balanced = inv.balanced;
  })
]

Step-Inv : (max : ℕ) {s u : State} → Inv max s → Step s u → Inv max u
unfolding on_wait_begin wait_update
Step-Inv max inv (call_wait {s} t count timeout swaps now) =
    let (same, less, ok) = wait-Took swaps s.sem count timeout in
    took-Inv max s t 0 (wait swaps s.sem count timeout).1
      (after_wait count (wait swaps s.sem count timeout).0) inv same less ok
Step-Inv max inv (begin_wait {s} t count rest now unset) =
    let (same, less, sum) = wait_update-Took s.sem true rest in
    let had : s.got t + rest ≡ count = subst (λ p. Balanced p (s.got t)) now (inv.balanced t) in
    took-Inv max s t (s.got t) (wait_update s.sem true rest).1
      (after_begin count (wait_update s.sem true rest).0) inv same less
      (after_begin-Balanced count (wait_update s.sem true rest).0
        (s.got t + (s.sem.value - (wait_update s.sem true rest).1.value)) (omega (arith, sum, had)))
Step-Inv max inv (wake {s} t count rest left u now e) =
    let (same, less, sum) = subst (WakeTook s.sem rest) e (on_wake-Took s.sem rest) in
    let had : s.got t + rest ≡ count = subst (λ p. Balanced p (s.got t)) now (inv.balanced t) in
    took-Inv max s t (s.got t) u (after_begin count left) inv same less (
      after_begin-Balanced count left (s.got t + (s.sem.value - u.value)) (omega (arith, sum, had)))
Step-Inv max inv (call_signal {s} count) = signal-Inv max s count inv
Step-Inv max inv (set_event {s} nobody) = record {
  max_is = inv.max_is;
  few = inv.few;
  books = inv.books;
  balanced = inv.balanced;
}
Step-Inv max inv (find_set {s} t count rest now set) = record {
  max_is = inv.max_is;
  few = inv.few;
  books = inv.books;
  balanced = λ i. elim (Bool-cases (i == t)) [
    | inl self ↦
        let had : s.got t + rest ≡ count = subst (λ p. Balanced p (s.got t)) now (inv.balanced t) in
        rw (self, (==_iff i t).0 self) had
    | inr other ↦ rw other (inv.balanced i)
  ];
}
Step-Inv max inv (return_early {s} t count rest now) = reset-Inv max s t inv
Step-Inv max inv (return_done {s} t count now) = reset-Inv max s t inv

module _ (value max : ℕ) (low : value ≤ max) where
  Reachable-Inv : {s : State} → Reachable value max s → Inv max s
  Reachable-Inv start = record { max_is = refl; few = low; books = omega arith; balanced = λ t. tt }
  Reachable-Inv (after r step) = Step-Inv max (Reachable-Inv r) step

  -- In every state that threads reach, without a time-out, from a semaphore whose first value is at
  -- most its maximum: the value is at most the maximum, and the units that are there and those that
  -- threads have taken are together at most the ones that were there at first or signalled.
  pub Reachable-value :
      (s : State) → Reachable value max s → (s.sem.value ≤ max) × (s.sem.value + s.out ≤ s.put_in)
  Reachable-value s r = let inv = Reachable-Inv r in (inv.few, inv.books)

  -- In every state that threads reach, without a time-out, from a semaphore whose first value is at
  -- most its maximum: a thread whose call of `wait` is about to return true has taken exactly the units
  -- that it asked for, in one piece or in several, unless it has found the event left set; then it has
  -- taken fewer, by the rest that it still wanted.
  pub Reachable-done :
      (s : State) (t count rest : ℕ)
      → Reachable value max s
      → (s.thread t ≡ done count → s.got t ≡ count)
        × (s.thread t ≡ done_early count rest → s.got t + rest ≡ count)
  Reachable-done s t count rest r =
      let balanced = (Reachable-Inv r).balanced t in
      (
        λ now. subst (λ p. Balanced p (s.got t)) now balanced,
        λ now. subst (λ p. Balanced p (s.got t)) now balanced,
      )
