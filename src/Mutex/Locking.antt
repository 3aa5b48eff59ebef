-- ===== src/Mutex/Locking.antt =====
-- The invariant of a mutex, and that the steps of `lock` up to sleeping keep it.
use shmdos.Prelude.{
  ℕ, ◌+◌, ◌%◌, ◌^◌, ◌≤◌, ◌<◌, ◌≡◌, ◌≢◌, refl, ◌∙◌, sym, ap, inl, inr, Bool, true, false, [], ◌∷◌,
  ◌++◌, arith, ltb, ◌==◌, Bool-cases, ==_iff, if◌then◌else◌, update, length, length-append,
}
use shmdos.Mutex.{free_spin, wait_count_start, try_lock, on_wait_begin}
use shmdos.Mutex.Steps.{Thread, outside, asleep, woken, acquired, owner, State, initial}

-- The thread is inside, or the mutex has been handed to it or taken by it.
abbrev pub holds : Thread → Bool
holds outside = false
holds asleep = false
holds woken = true
holds acquired = true
holds owner = true

abbrev pub is_woken : Thread → Bool
is_woken woken = true
is_woken _ = false

abbrev pub is_acquired : Thread → Bool
is_acquired acquired = true
is_acquired _ = false

-- The word never counts more than the sleepers and the thread that is waking up; it may count fewer.
pub record Inv (cpu : ℕ → ℕ) (s : State) : Type 0 where
  pub bounded : s.word ≤ free_spin
  pub counted :
      wait_count_start ≤ s.word
      → s.word < free_spin
      → s.word + 1 ≤ wait_count_start + (length s.sleepers + (if s.waking then 1 else 0))
  pub free_word : s.word ≡ free_spin → (t : ℕ) → holds (s.thread t) ≡ false
  pub free_waking : s.word ≡ free_spin → s.waking ≡ false
  pub only_one : (t u : ℕ) → holds (s.thread t) ≡ true → holds (s.thread u) ≡ true → t ≡ u
  pub woken_waking : (t : ℕ) → is_woken (s.thread t) ≡ true → s.waking ≡ true
  pub woken_word : (t : ℕ) → is_woken (s.thread t) ≡ true → wait_count_start ≤ s.word
  pub not_waking :
      (t : ℕ) → holds (s.thread t) ≡ true → is_woken (s.thread t) ≡ false → s.waking ≡ false
  pub acquired_word :
      (t : ℕ) → is_acquired (s.thread t) ≡ true → s.word < wait_count_start → s.word ≡ cpu t

pub woken_holds : (p : Thread) → is_woken p ≡ true → holds p ≡ true
woken_holds outside e = e
woken_holds asleep e = e
woken_holds woken e = refl
woken_holds acquired e = refl
woken_holds owner e = refl

pub acquired_holds : (p : Thread) → is_acquired p ≡ true → holds p ≡ true
acquired_holds outside e = e
acquired_holds asleep e = e
acquired_holds woken e = refl
acquired_holds acquired e = refl
acquired_holds owner e = refl

pub never : {X : Type 0} → false ≡ true → X
never h = absurd (cc h)

pub initial-Inv : (cpu : ℕ → ℕ) → Inv cpu initial
initial-Inv cpu = record {
  bounded = omega arith;
  counted = λ ge lt. absurd (omega (arith, lt));
  free_word = λ e t. refl;
  free_waking = λ e. refl;
  only_one = λ t u h k. never h;
  woken_waking = λ t h. never h;
  woken_word = λ t h. never h;
  not_waking = λ t h k. refl;
  acquired_word = λ t h lt. never h;
}

-- A thread that holds the mutex in a state where no other does.
pub alone-Inv :
    (cpu : ℕ → ℕ) (s : State) (t w : ℕ) (next : Thread)
    → ((i : ℕ) → holds (update s.thread t next i) ≡ true → i ≡ t)
    → is_woken next ≡ false
    → (is_acquired next ≡ true → w ≡ cpu t)
    → w < free_spin
    → (wait_count_start ≤ w → w + 1 ≤ wait_count_start + length s.sleepers)
    → Inv cpu (record s { word = w; thread = update s.thread t next; waking = false })
alone-Inv cpu s t w next self awake at lt few = record {
  bounded = omega (arith, lt);
  counted = λ ge small. omega (arith, few ge);
  free_word = λ e. absurd (omega (arith, lt, e));
  free_waking = λ e. refl;
  only_one = λ i j h k. self i h ∙ sym (self j k);
  woken_waking = λ i h. absurd (not_woken i h);
  woken_word = λ i h. absurd (not_woken i h);
  not_waking = λ i h k. refl;
  acquired_word = λ i h small. here i h (self i (acquired_holds (update s.thread t next i) h));
}
  where
    not_woken : (i : ℕ) → is_woken (update s.thread t next i) ≡ true → ⊥
    not_woken i h =
        let same = self i (woken_holds (update s.thread t next i) h) in
        let eq : (i == t) ≡ true = (==_iff i t).1 same in never (sym awake ∙ (rw eq at h))

    here : (i : ℕ) → is_acquired (update s.thread t next i) ≡ true → i ≡ t → w ≡ cpu i
    here i h same =
        let eq : (i == t) ≡ true = (==_iff i t).1 same in at (rw eq at h) ∙ ap cpu (sym same)

-- With a free word, or with thread t as the holder before, no other comes to hold the mutex.
pub self-free :
    {cpu : ℕ → ℕ} (s : State) (t i : ℕ) (next : Thread)
    → Inv cpu s
    → s.word ≡ free_spin
    → holds (update s.thread t next i) ≡ true
    → i ≡ t
self-free s t i next inv free h = elim (Bool-cases (i == t)) [
  | inl same ↦ (==_iff i t).0 same
  | inr other ↦ never (sym (inv.free_word free i) ∙ (rw other at h))
]

pub self-held :
    {cpu : ℕ → ℕ} (s : State) (t i : ℕ) (next : Thread)
    → Inv cpu s
    → holds (s.thread t) ≡ true
    → holds (update s.thread t next i) ≡ true
    → i ≡ t
self-held s t i next inv h k = elim (Bool-cases (i == t)) [
  | inl same ↦ (==_iff i t).0 same
  | inr other ↦ inv.only_one i t (rw other at k) h
]

-- A thread outside takes a free mutex.
taken-Inv :
    (cpu : ℕ → ℕ) (s : State) (t : ℕ) (next : Thread)
    → Inv cpu s
    → s.word ≡ free_spin
    → cpu t < wait_count_start
    → is_woken next ≡ false
    → Inv cpu (record s { word = cpu t; thread = update s.thread t next })
taken-Inv cpu s t next inv free low awake =
    let i =
      alone-Inv cpu s t (cpu t) next (λ i h. self-free s t i next inv free h) awake (λ e. refl)
        (omega (arith, low)) (λ ge. absurd (omega (arith, ge, low))) in
    rw (inv.free_waking free) i

module _ (cpu : ℕ → ℕ) (low : (t : ℕ) → cpu t < wait_count_start) where
  pub lock_free-Inv :
      (s : State) (t : ℕ)
      → Inv cpu s
      → (try_lock s.word (cpu t)).0 ≡ true
      → Inv cpu (record s { word = (try_lock s.word (cpu t)).1; thread = update s.thread t owner })
  unfolding try_lock
  lock_free-Inv s t inv ok = elim (Bool-cases (s.word == free_spin)) [
    | inl free ↦
        rw free (taken-Inv cpu s t owner inv ((==_iff s.word free_spin).0 free) (low t) refl)
    | inr held ↦ never (rw held at ok)
  ]

  pub lock_begin-Inv :
      (s : State) (t : ℕ)
      → Inv cpu s
      → (on_wait_begin s.word (cpu t)).0 ≡ false
      → Inv cpu (record s {
        word = (on_wait_begin s.word (cpu t)).1;
        thread = update s.thread t acquired;
      })
  unfolding on_wait_begin
  lock_begin-Inv s t inv ok = elim (Bool-cases (s.word == free_spin)) [
    | inl free ↦
        rw free (taken-Inv cpu s t acquired inv ((==_iff s.word free_spin).0 free) (low t) refl)
    | inr held ↦ never (sym (rw held at ok))
  ]

  -- The word after one more thread has gone to sleep.
  sleep_word :
      (s : State) (t : ℕ)
      → Inv cpu s
      → (on_wait_begin s.word (cpu t)).0 ≡ true
      → s.word + 1 ≢ free_spin
      → (wait_count_start ≤ (on_wait_begin s.word (cpu t)).1)
        × ((on_wait_begin s.word (cpu t)).1 < free_spin)
        × ((on_wait_begin s.word (cpu t)).1 + 1
            ≤ wait_count_start + (length (s.sleepers ++ (t ∷ [])) + (if s.waking then 1 else 0)))
  unfolding on_wait_begin
  sleep_word s t inv ok room = elim (Bool-cases (s.word == free_spin)) [
    | inl free ↦ never (rw free at ok)
    | inr held ↦
        let longer = length-append s.sleepers (t ∷ []) in
        let b = inv.bounded in
        elim (Bool-cases (ltb s.word wait_count_start)) [
          | inl one ↦ rw (held, one) (omega arith, omega arith, omega (arith, longer))
          | inr many ↦
              let ge : wait_count_start ≤ s.word = ground (arith, many) in
              let lt : s.word < free_spin = ground (arith, held, b) in
              let few = inv.counted ge lt in
              let plain : (s.word + 1) % 2 ^ 32 ≡ s.word + 1 = omega (arith, lt) in
              rw (held, many, plain)
                (omega (arith, ge), omega (arith, lt, room), omega (arith, longer, few))
        ]
  ]

  pub lock_sleep-Inv :
      (s : State) (t : ℕ)
      → Inv cpu s
      → (on_wait_begin s.word (cpu t)).0 ≡ true
      → s.word + 1 ≢ free_spin
      → Inv cpu (record s {
        word = (on_wait_begin s.word (cpu t)).1;
        thread = update s.thread t asleep;
        sleepers = s.sleepers ++ (t ∷ []);
      })
  lock_sleep-Inv s t inv ok room =
      let w = sleep_word s t inv ok room in
      record {
        bounded = omega (arith, w.1);
        counted = λ ge lt. w.2;
        free_word = λ e. absurd (omega (arith, w, e));
        free_waking = λ e. absurd (omega (arith, w, e));
        only_one = λ i j h k. inv.only_one i j (was holds refl i h) (was holds refl j k);
        woken_waking = λ i h. inv.woken_waking i (was is_woken refl i h);
        woken_word = λ i h. w.0;
        not_waking = λ i h k. inv.not_waking i (was holds refl i h) (was_not i h k);
        acquired_word = λ i h lt. absurd (omega (arith, w.0, lt));
      }
    where
      was :
          (f : Thread → Bool)
          → f asleep ≡ false
          → (i : ℕ) → f (update s.thread t asleep i) ≡ true
          → f (s.thread i) ≡ true
      was f sleeps i h = elim (Bool-cases (i == t)) [
        | inl same ↦ never (sym sleeps ∙ (rw same at h))
        | inr other ↦ rw other at h
      ]

      was_not :
          (i : ℕ)
          → holds (update s.thread t asleep i) ≡ true
          → is_woken (update s.thread t asleep i) ≡ false
          → is_woken (s.thread i) ≡ false
      was_not i h k = elim (Bool-cases (i == t)) [
        | inl same ↦ never (rw same at h)
        | inr other ↦ rw other at k
      ]
