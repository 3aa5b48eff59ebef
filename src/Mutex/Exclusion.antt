-- ===== src/Mutex/Exclusion.antt =====
-- Two threads are never inside a mutex on processors above 0; a waiter can be forgotten.
use shmdos.Prelude.{
  ℕ, ◌+◌, ◌-◌, ◌%◌, ◌^◌, ◌≤◌, ◌<◌, ◌≡◌, refl, ap, ◌∙◌, sym, ◌⊎◌, inl, inr, true, false, Bool, List,
  [], ◌∷◌, ◌++◌, arith, ltb, ◌==◌, Bool-cases, ==_iff, update, length, if◌then◌else◌,
}
use shmdos.Mutex.{
  free_spin, wait_count_start, on_wait_begin, on_wake, lock_woken, lock_timed_out, freed, hand_over,
  unlock,
}
use shmdos.Mutex.Steps.{
  outside, asleep, woken, acquired, owner, State, Step, lock_free, lock_begin, lock_begin_end,
  lock_sleep, lock_end, unlock_free, unlock_wake, Reachable, start, after,
}
use shmdos.Mutex.Locking.{
  holds, is_woken, is_acquired, Inv, initial-Inv, alone-Inv, self-held, woken_holds, never,
  lock_free-Inv, lock_begin-Inv, lock_sleep-Inv,
}

-- A thread that holds the mutex finds the word taken.
held_word :
    {cpu : ℕ → ℕ} (s : State) (t : ℕ) → Inv cpu s → holds (s.thread t) ≡ true → s.word < free_spin
held_word s t inv h = elim (Bool-cases (s.word == free_spin)) [
  | inl free ↦ never (sym (inv.free_word ((==_iff s.word free_spin).0 free) t) ∙ h)
  | inr held ↦ let b = inv.bounded in ground (arith, held, b)
]

-- The end of `lock`, for a word that counts no more than the sleepers and one thread.
woken_end :
    (cpu : ℕ → ℕ) (s : State) (t : ℕ)
    → Inv cpu s
    → holds (s.thread t) ≡ true
    → cpu t < wait_count_start
    → wait_count_start ≤ s.word
    → Inv cpu (record s {
      word = (lock_woken s.word (cpu t)).1;
      thread = update s.thread t owner;
      waking = false;
    })
unfolding lock_woken on_wake
woken_end cpu s t inv h low ge =
    let lt = held_word s t inv h in
    let few : s.word ≤ wait_count_start + length s.sleepers =
      at_most s.waking (inv.counted ge lt) in
    elim (Bool-cases (s.word == wait_count_start)) [
      | inl last ↦ rw last (
          alone-Inv cpu s t (cpu t) owner (λ i h'. self-held s t i owner inv h h') refl never
            (omega (arith, low)) (λ up. absurd (omega (arith, up, low))))
      | inr more ↦
          let plain : (s.word + 2 ^ 32 - 1) % 2 ^ 32 ≡ s.word - 1 = omega (arith, ge, lt) in
          rw (more, plain)
            (alone-Inv cpu s t (s.word - 1) owner (λ i h'. self-held s t i owner inv h h') refl
              never (omega (arith, lt)) (λ up. omega (arith, few, ge)))
    ]
  where
    at_most :
        (b : Bool)
        → s.word + 1 ≤ wait_count_start + (length s.sleepers + (if b then 1 else 0))
        → s.word ≤ wait_count_start + length s.sleepers
    at_most true c = omega (arith, c)
    at_most false c = omega (arith, c)

lock_end-Inv :
    (cpu : ℕ → ℕ) (s : State) (t : ℕ)
    → Inv cpu s
    → cpu t < wait_count_start
    → s.thread t ≡ woken
    → Inv cpu (record s {
      word = (lock_woken s.word (cpu t)).1;
      thread = update s.thread t owner;
      waking = false;
    })
lock_end-Inv cpu s t inv low now =
    woken_end cpu s t inv (ap holds now) low (inv.woken_word t (ap is_woken now))

-- After `onWaitBegin` has taken the mutex, the word goes down by one, which is free for processor 0.
lock_begin_end-Inv :
    (cpu : ℕ → ℕ) (s : State) (t : ℕ)
    → Inv cpu s
    → cpu t < wait_count_start
    → 0 < cpu t
    → s.thread t ≡ acquired
    → Inv cpu (record s { word = (lock_woken s.word (cpu t)).1; thread = update s.thread t owner })
unfolding lock_woken on_wake
lock_begin_end-Inv cpu s t inv low some now =
    let h = ap holds now in
    let quiet = inv.not_waking t h (ap is_woken now) in
    elim (Bool-cases (ltb s.word wait_count_start)) [
      | inr many ↦ rw quiet (woken_end cpu s t inv h low (ground (arith, many)))
      | inl below ↦
          let lt : s.word < wait_count_start = ground (arith, below) in
          let at = inv.acquired_word t (ap is_acquired now) lt in
          let other : (s.word == wait_count_start) ≡ false = ground (arith, below) in
          let plain : (s.word + 2 ^ 32 - 1) % 2 ^ 32 ≡ s.word - 1 = omega (arith, lt, at, some) in
          let i =
            alone-Inv cpu s t (s.word - 1) owner (λ i h'. self-held s t i owner inv h h') refl never
              (omega (arith, lt)) (λ up. absurd (omega (arith, up, lt))) in
          rw (other, plain) (rw quiet i)
    ]

unlock-cases :
    (word : ℕ)
    → ((word < wait_count_start) × (unlock word ≡ freed free_spin))
      ⊎ ((wait_count_start ≤ word) × (unlock word ≡ hand_over))
unfolding unlock
unlock-cases word = elim (Bool-cases (ltb word wait_count_start)) [
  | inl few ↦ inl (ground (arith, few), rw few refl)
  | inr waiters ↦ inr (ground (arith, waiters), rw waiters refl)
]

none_after :
    {cpu : ℕ → ℕ} (s : State) (t : ℕ)
    → Inv cpu s
    → s.thread t ≡ owner
    → (i : ℕ) → holds (update s.thread t outside i) ≡ false
none_after s t inv now i = elim (Bool-cases (i == t)) [
  | inl same ↦ rw same refl
  | inr other ↦ elim (Bool-cases (holds (s.thread i))) [
    | inl held ↦ absurd (ground (arith, inv.only_one i t held (ap holds now), other))
    | inr out ↦ rw other out
  ]
]

unlock_free-Inv :
    (cpu : ℕ → ℕ) (s : State) (t word : ℕ)
    → Inv cpu s
    → s.thread t ≡ owner
    → unlock s.word ≡ freed word
    → Inv cpu (record s { word = word; thread = update s.thread t outside })
unlock_free-Inv cpu s t word inv now e = elim (unlock-cases s.word) [
  | inr (ge, h) ↦ absurd (differ (sym h ∙ e))
  | inl (lt, f) ↦
      let free : word ≡ free_spin = sym (word_of (sym f ∙ e)) in
      let out = none_after s t inv now in
      record {
        bounded = omega (arith, free);
        counted = λ ge small. absurd (omega (arith, free, small));
        free_word = λ w i. out i;
        free_waking = λ w. inv.not_waking t (ap holds now) (ap is_woken now);
        only_one = λ i j h k. never (sym (out i) ∙ h);
        woken_waking = λ i h. never (sym (out i) ∙ woken_holds (update s.thread t outside i) h);
        woken_word = λ i h. never (sym (out i) ∙ woken_holds (update s.thread t outside i) h);
        not_waking = λ i h k. never (sym (out i) ∙ h);
        acquired_word = λ i h small. absurd (omega (arith, free, small));
      }
]
  where
    differ : hand_over ≡ freed word → ⊥
    differ d = cc d

    word_of : freed free_spin ≡ freed word → free_spin ≡ word
    word_of d = cc d

-- With an owner inside and a word that counts waiters, there are sleepers.
owned_count :
    {cpu : ℕ → ℕ} (s : State) (t : ℕ)
    → Inv cpu s
    → s.thread t ≡ owner
    → wait_count_start ≤ s.word
    → s.word + 1 ≤ wait_count_start + length s.sleepers
owned_count s t inv now ge =
    let c = inv.counted ge (held_word s t inv (ap holds now)) in
    let quiet = inv.not_waking t (ap holds now) (ap is_woken now) in omega (arith, rw quiet at c)

unlock_wake-Inv :
    (cpu : ℕ → ℕ) (s : State) (t u : ℕ) (rest : List ℕ)
    → Inv cpu s
    → s.thread t ≡ owner
    → unlock s.word ≡ hand_over
    → s.sleepers ≡ u ∷ rest
    → Inv cpu (record s {
      thread = update (update s.thread t outside) u woken;
      sleepers = rest;
      waking = true;
    })
unlock_wake-Inv cpu s t u rest inv now e list = elim (unlock-cases s.word) [
  | inl (lt, f) ↦ absurd (differ (sym f ∙ e))
  | inr (ge, h) ↦
      let c = owned_count s t inv now ge in
      let lt = held_word s t inv (ap holds now) in
      record {
        bounded = inv.bounded;
        counted = λ _ _. omega (arith, c, ap length list);
        free_word = λ w. absurd (omega (arith, w, lt));
        free_waking = λ w. absurd (omega (arith, w, lt));
        only_one = λ i j h k. only_u i h ∙ sym (only_u j k);
        woken_waking = λ i h. refl;
        woken_word = λ i h. ge;
        not_waking = λ i h k. never (sym k ∙ awake i (only_u i h));
        acquired_word = λ i h small. absurd (omega (arith, ge, small));
      }
]
  where
    differ : freed free_spin ≡ hand_over → ⊥
    differ d = cc d

    only_u : (i : ℕ) → holds (update (update s.thread t outside) u woken i) ≡ true → i ≡ u
    only_u i h = elim (Bool-cases (i == u)) [
      | inl same ↦ (==_iff i u).0 same
      | inr other ↦ never (sym (none_after s t inv now i) ∙ (rw other at h))
    ]

    awake : (i : ℕ) → i ≡ u → is_woken (update (update s.thread t outside) u woken i) ≡ true
    awake i same = let eq : (i == u) ≡ true = (==_iff i u).1 same in rw eq refl

-- The first thread that goes to sleep.
begin_first :
    (word c : ℕ)
    → word < wait_count_start
    → ((on_wait_begin word c).0 ≡ true) × ((on_wait_begin word c).1 ≡ wait_count_start)
unfolding on_wait_begin
begin_first word c below =
    let a : (word == free_spin) ≡ false = ground (arith, below) in
    let b : ltb word wait_count_start ≡ true = ground (arith, below) in rw (a, b) (refl, refl)

-- One `onWake` takes back the count of one waiter.
end_frees :
    (word c : ℕ)
    → word ≡ wait_count_start
    → c < wait_count_start
    → unlock (lock_woken word c).1 ≡ freed free_spin
unfolding lock_woken on_wake unlock
end_frees word c at below =
    let same : (word == wait_count_start) ≡ true = (==_iff word wait_count_start).1 at in
    let small : ltb c wait_count_start ≡ true = ground (arith, below) in rw same (rw small refl)

-- The processors of the threads are above 0 and below MAX_CPU.
module _ (cpu : ℕ → ℕ) (low : (t : ℕ) → cpu t < wait_count_start) (some : (t : ℕ) → 0 < cpu t) where
  Step-Inv : {s u : State} → Inv cpu s → Step cpu s u → Inv cpu u
  Step-Inv inv (lock_free {s} t now ok) = lock_free-Inv cpu low s t inv ok
  Step-Inv inv (lock_begin {s} t now ok) = lock_begin-Inv cpu low s t inv ok
  Step-Inv inv (lock_begin_end {s} t now) = lock_begin_end-Inv cpu s t inv (low t) (some t) now
  Step-Inv inv (lock_sleep {s} t now ok room) = lock_sleep-Inv cpu low s t inv ok room
  Step-Inv inv (lock_end {s} t now) = lock_end-Inv cpu s t inv (low t) now
  Step-Inv inv (unlock_free {s} t word now e) = unlock_free-Inv cpu s t word inv now e
  Step-Inv inv (unlock_wake {s} t u rest now e list) = unlock_wake-Inv cpu s t u rest inv now e list

  Reachable-Inv : {s : State} → Reachable cpu s → Inv cpu s
  Reachable-Inv start = initial-Inv cpu
  Reachable-Inv (after r step) = Step-Inv (Reachable-Inv r) step

  -- In every state that threads reach, without a time-out, by any order of their steps, on processors
  -- numbered above 0 and below MAX_CPU: two threads that are inside the mutex are the same.
  pub Reachable-owner :
      (s : State) (t u : ℕ) → Reachable cpu s → s.thread t ≡ owner → s.thread u ≡ owner → t ≡ u
  Reachable-owner s t u r a b = (Reachable-Inv r).only_one t u (ap holds a) (ap holds b)

  -- In every state that threads on processors numbered above 0 and below MAX_CPU reach without a
  -- time-out: if an `unlock` by the thread inside does not free the word, it finds a sleeper to wake.
  pub unlock-sleepers :
      (s : State) (t : ℕ)
      → Reachable cpu s
      → s.thread t ≡ owner
      → (unlock s.word ≡ freed free_spin) ⊎ ((unlock s.word ≡ hand_over) × (0 < length s.sleepers))
  unlock-sleepers s t r now = elim (unlock-cases s.word) [
    | inl (lt, f) ↦ inl f
    | inr (ge, h) ↦
        let c = owned_count s t (Reachable-Inv r) now ge in inr (h, omega (arith, c, ge))
  ]

  -- In every state that threads on processors numbered above 0 and below MAX_CPU reach without a
  -- time-out: if a thread has taken the mutex in `onWaitBegin` and nobody waits yet, another thread goes
  -- to sleep and then the first ends its `lock`, the word no longer counts the sleeper, so the `unlock` of
  -- the first frees the word and wakes nobody.
  pub lock_woken-forgets :
      (s : State) (t u : ℕ)
      → Reachable cpu s
      → s.thread t ≡ acquired
      → s.word < wait_count_start
      → s.thread u ≡ outside
      → (v : State) × Reachable cpu v
        × (v.thread u ≡ asleep)
        × (v.sleepers ≡ s.sleepers ++ (u ∷ []))
        × (v.thread t ≡ owner)
        × (unlock v.word ≡ freed free_spin)
  lock_woken-forgets s t u r now below out = (
    v,
    after (after r (lock_sleep u out begin.0 (λ z. omega (arith, below, z))))
        (lock_begin_end t still),
    sleeps,
    refl,
    inside,
    frees,
  )
    where
      begin :
          ((on_wait_begin s.word (cpu u)).0 ≡ true)
          × ((on_wait_begin s.word (cpu u)).1 ≡ wait_count_start)
      begin = begin_first s.word (cpu u) below

      v : State
      v = record s {
        word = (lock_woken (on_wait_begin s.word (cpu u)).1 (cpu t)).1;
        thread = update (update s.thread u asleep) t owner;
        sleepers = s.sleepers ++ (u ∷ []);
      }

      apart : (t == u) ≡ false
      apart = elim (Bool-cases (t == u)) [
        | inr other ↦ other
        | inl same ↦ absurd (differ (sym now ∙ ap s.thread ((==_iff t u).0 same) ∙ out))
      ]
        where
          differ : acquired ≡ outside → ⊥
          differ z = cc z

      still : update s.thread u asleep t ≡ acquired
      still = rw apart now

      sleeps : update (update s.thread u asleep) t owner u ≡ asleep
      sleeps =
          let other : (u == t) ≡ false = ground (arith, apart) in
          let here : (u == u) ≡ true = ground arith in rw (other, here) refl

      inside : update (update s.thread u asleep) t owner t ≡ owner
      inside = let here : (t == t) ≡ true = ground arith in rw here refl

      frees : unlock (lock_woken (on_wait_begin s.word (cpu u)).1 (cpu t)).1 ≡ freed free_spin
      frees = end_frees (on_wait_begin s.word (cpu u)).1 (cpu t) begin.1 (low t)

  -- In every state that threads on processors numbered above 0 and below MAX_CPU reach without a
  -- time-out, with a thread inside, one sleeper and a word that counts a waiter: should the wait of that
  -- sleeper on processor `c` time out then, its `lock` returns true and the word names that processor, with
  -- the other thread still inside.
  pub lock_timed_out-held :
      (s : State) (t c : ℕ)
      → Reachable cpu s
      → s.thread t ≡ owner
      → length s.sleepers ≡ 1
      → wait_count_start ≤ s.word
      → lock_timed_out s.word c ≡ (true, c)
  unfolding lock_timed_out on_wake
  lock_timed_out-held s t c r now one ge =
      let few = owned_count s t (Reachable-Inv r) now ge in
      let same : (s.word == wait_count_start) ≡ true = ground (arith, few, one, ge) in rw same refl
