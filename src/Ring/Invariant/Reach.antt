-- ===== src/Ring/Invariant/Reach.antt =====
-- What holds of the ring in every state that its threads can reach.
use shmdos.Prelude.{
  Option, some, Bool, update, ℕ, ◌+◌, ◌-◌, ◌%◌, ◌≤◌, ◌<◌, ◌≡◌, refl, ◌∙◌, subst, ◌||◌, inl, inr,
  true, false, arith, ltb, ◌==◌, Bool-cases,
}
use native.Mathlib.Nat.{mod-eq_of_lt}
use shmdos.Ring.{
  index_mod, new_ring, ready, refused, decide_attempt, push_attempt, pop_attempt, claim_pop,
  load_value,
}
use shmdos.Ring.Steps.{
  Phase, untouched, writing, filled, reading, emptied, State, initial, Step, see_push,
  do_claim_push, do_store_value, do_finish_push, see_pop, do_claim_pop, do_load_value,
  do_finish_pop, Reachable, start, after,
}
use shmdos.Ring.Invariant.Defs.{
  is_untouched, is_emptied, is_taken, is_pushed, phase_counter, Holds, is_free_for, Inv,
  phase-taken,
}
use shmdos.Ring.Invariant.Push.{
  touched_below, see_push-Inv, claim_push-Inv, store_value-Inv, finish_push-Inv,
}
use shmdos.Ring.Invariant.Values.{
  Carries, claim_push-Carries, store_value-Carries, finish_push-Carries, claim_pop-Carries,
  load_value-Carries, finish_pop-Carries,
}
use shmdos.Ring.Invariant.Pop.{
  see_pop-Inv, claim_pop-Inv, claim_pop-parts, finish_pop-Inv, load_value-is,
}

module _ {A : Type 0} (size : ℕ) (contents : ℕ → A) (two : 2 ≤ size)
    (fits : size + size ≤ index_mod) where
  initial-Inv : Inv size (initial size contents)
  unfolding new_ring
  initial-Inv = record {
    size_is = refl;
    order = omega arith;
    bound = omega (arith, fits);
    future = λ t le. refl;
    past = λ t lt. absurd (omega arith);
    unread = λ t le. refl;
    lap = λ t lt. absurd (omega arith);
    count = λ t e f. first t f;
    holds = λ t. tt;
    seen_push = λ t h. absurd (never h);
    seen_pop = λ t h. absurd (never h);
  }
    where
      never : false ≡ true → ⊥
      never h = cc h

      first : (t : ℕ) → (ltb t size || false) ≡ true → t % size ≡ t
      first t f = mod_small t size (ground (arith, f))
        where
          mod_small : (a b : ℕ) → a < b → a % b ≡ a
          mod_small a b lt = mod-eq_of_lt lt

  -- A step that leaves the ring and the phases as they are.
  loaded-Inv : (s : State A) (got : ℕ → Option A) → Inv size s → Inv size (record s { got = got })
  loaded-Inv s got inv = record {
    size_is = inv.size_is;
    order = inv.order;
    bound = inv.bound;
    future = inv.future;
    past = inv.past;
    unread = inv.unread;
    lap = inv.lap;
    count = inv.count;
    holds = inv.holds;
    seen_push = inv.seen_push;
    seen_pop = inv.seen_pop;
  }

  seen-Carries :
      (s : State A) (may_push may_pop : ℕ → Bool)
      → Carries size s
      → Carries size (record s { may_push = may_push; may_pop = may_pop })
  seen-Carries s may_push may_pop c = record {
    not_early = c.not_early;
    not_loaded = c.not_loaded;
    wrote = c.wrote;
    loaded = c.loaded;
    returned = c.returned;
  }

  Good : State A → Type 0
  Good s = Inv size s × Carries size s

  Step-Good : {s u : State A} → Good s → Step s u → Good u
  unfolding Good
  Step-Good (inv, c) (see_push {s} t le e) =
      (see_push-Inv size s inv two t le e, seen-Carries s (update s.may_push t true) s.may_pop c)
  Step-Good (inv, c) (do_claim_push {s} t x may ok room) = (
    claim_push-Inv size s inv two t x may ok room,
    claim_push-Carries size s c t x (λ here. inv.future t (omega (arith, here))) ok,
  )
  Step-Good (inv, c) (do_store_value {s} t x now) =
      (store_value-Inv size s inv two t x now, store_value-Carries size s inv two c t x now)
  Step-Good (inv, c) (do_finish_push {s} t x now st) = (
    finish_push-Inv size s inv two t x now (c.wrote t x now st),
    finish_push-Carries size s c t x now,
  )
  Step-Good (inv, c) (see_pop {s} t le e) =
      (see_pop-Inv size s inv two t le e, seen-Carries s s.may_push (update s.may_pop t true) c)
  Step-Good (inv, c) (do_claim_pop {s} t may ok) =
      (claim_pop-Inv size s inv two t may ok, claim_pop-Carries size s c t (inv.seen_pop t may))
  Step-Good (inv, c) (do_load_value {s} t x now) =
      (loaded-Inv s _ inv, load_value-Carries size s inv two c t x now)
  Step-Good (inv, c) (do_finish_pop {s} t x y now got) =
      (finish_pop-Inv size s inv two t x now, finish_pop-Carries size s c t x y now got)

  initial-Carries : Carries size (initial size contents)
  initial-Carries = record {
    not_early = λ t e. refl;
    not_loaded = λ t e. refl;
    wrote = λ t x e. absurd (cc e);
    loaded = λ t x y e. absurd (cc e);
    returned = λ t x e. absurd (cc e);
  }

  Reachable-Good : {s : State A} → Reachable size contents s → Good s
  unfolding Good
  Reachable-Good start = (initial-Inv, initial-Carries)
  Reachable-Good (after r step) = Step-Good (Reachable-Good r) step

  pub Reachable-Inv : {s : State A} → Reachable size contents s → Inv size s
  unfolding Good
  Reachable-Inv r = (Reachable-Good r).0

  -- In every state that threads reach from a ring of two cells or more, whatever the order of their
  -- accesses to it: a pop of number t that has stored its counter has loaded the value that the push of
  -- number t brought, and one that has not would load it now.
  pub finish_pop-reachable :
      (s : State A) (t : ℕ) (x : A)
      → Reachable size contents s
      → (s.phase t ≡ emptied x → s.got t ≡ some x)
        × (s.phase t ≡ reading x → load_value s.ring t ≡ x)
  unfolding Good
  finish_pop-reachable s t x r =
      let (inv, c) = Reachable-Good r in
      (c.returned t x, λ now. load_value-is size s inv two t x now)

  -- In every state that threads reach from a ring of two or more cells, in which nothing has been
  -- pushed: a pop that claims number t, having found the cell ready for t at some time, gets a number
  -- whose push has ended and that no pop has claimed, with its value in the cell; and the pushes are
  -- never more than the size of the ring ahead of the pops.
  pub claim_pop-reachable :
      (s : State A) (t : ℕ)
      → Reachable size contents s
      → s.may_pop t ≡ true
      → (claim_pop s.ring t).0 ≡ true
      → ((x : A) × (s.phase t ≡ filled x) × (s.ring.value (t % size) ≡ x))
        × (s.ring.read ≤ s.ring.write)
        × (s.ring.write ≤ s.ring.read + size)
  claim_pop-reachable s t r may ok =
      let inv = Reachable-Inv r in
      let (here, _) = claim_pop-parts s.ring t ok in
      (
        is_filled (s.phase t) refl (inv.seen_pop t may) (inv.unread t (omega (arith, here))),
        inv.order,
        capacity inv,
      )
    where
      is_filled :
          (p : Phase A)
          → s.phase t ≡ p
          → is_pushed p ≡ true
          → is_taken p ≡ false
          → (x : A) × (p ≡ filled x) × (s.ring.value (t % size) ≡ x)
      is_filled untouched at e f = absurd (ground (arith, e))
      is_filled (writing y) at e f = absurd (ground (arith, e))
      is_filled (filled y) at e f =
          (y, refl, subst (λ p. Holds p (s.ring.value (t % size))) at ((Reachable-Inv r).holds t))
      is_filled (reading y) at e f = absurd (ground (arith, f))
      is_filled (emptied y) at e f = absurd (ground (arith, f))

      capacity : Inv size s → s.ring.write ≤ s.ring.read + size
      capacity inv = elim (Bool-cases (ltb (s.ring.read + size) s.ring.write)) [
        | inr near ↦ ground (arith, near)
        | inl far ↦
            let free = inv.lap (s.ring.read + size) (ground (arith, far)) in
            let later : ltb (s.ring.read + size) size ≡ false = ground arith in
            let at : s.ring.read + size - size ≡ s.ring.read = omega arith in
            let e : is_emptied (s.phase s.ring.read) ≡ true = rw at at (rw later at free) in
            let taken = phase-taken (s.phase s.ring.read) e in
            absurd (ground (arith, taken, inv.unread s.ring.read (omega arith)))
      ]

  same_refused : (n : ℕ) → decide_attempt n n ≡ refused → ⊥
  same_refused n e = let same : (n == n) ≡ true = ground arith in not_ready (rw same at e)
    where
      not_ready : ready ≡ refused → ⊥
      not_ready d = cc d

  live_fresh :
      (p : Phase A)
      → is_untouched p ≡ true
      → (is_emptied p ≡ false) × ((t : ℕ) → phase_counter p t ≡ t)
  live_fresh untouched e = (refl, λ t. refl)
  live_fresh (writing y) e = (refl, λ t. refl)
  live_fresh (filled y) e = absurd (ground (arith, e))
  live_fresh (reading y) e = absurd (ground (arith, e))
  live_fresh (emptied y) e = absurd (ground (arith, e))

  -- In every state that threads reach from a new ring of two or more cells, a push is refused at the
  -- present index only if that is at least the size of the ring and the pop one size before has not ended.
  pub push_attempt-refused :
      (s : State A)
      → Reachable size contents s
      → push_attempt s.ring s.ring.write ≡ refused
      → (size ≤ s.ring.write) × (is_emptied (s.phase (s.ring.write - size)) ≡ false)
  unfolding push_attempt
  push_attempt-refused s r e =
      let inv = Reachable-Inv r in
      let (live, at) = live_fresh (s.phase s.ring.write) (inv.future s.ring.write (omega arith)) in
      elim (Bool-cases (is_free_for s.phase size s.ring.write)) [
        | inr busy ↦ (ground (arith, busy), ground (arith, busy))
        | inl free ↦
            let count = inv.count s.ring.write live free ∙ at s.ring.write in
            let e' = rw inv.size_is at e in absurd (same_refused s.ring.write (rw count at e'))
      ]

  -- In every state that threads reach from a new ring of two or more cells, a pop is refused at the
  -- present index only if the push of that number has not ended.
  pub pop_attempt-refused :
      (s : State A)
      → Reachable size contents s
      → pop_attempt s.ring s.ring.read ≡ refused
      → is_pushed (s.phase s.ring.read) ≡ false
  unfolding pop_attempt
  pop_attempt-refused s r e = elim (Bool-cases (is_pushed (s.phase s.ring.read))) [
    | inr open_push ↦ open_push
    | inl ended ↦
        let inv = Reachable-Inv r in
        let (live, old, at) =
          pushed_count (s.phase s.ring.read) ended (inv.unread s.ring.read (omega arith)) in
        let below = touched_below size s inv s.ring.read old in
        let count = inv.count s.ring.read live (inv.lap s.ring.read below) ∙ at s.ring.read in
        let plain : (s.ring.read + 1) % index_mod ≡ s.ring.read + 1 =
          omega (arith, below, inv.bound, two) in
        let e' = rw (inv.size_is, plain) at e in
        absurd (same_refused (s.ring.read + 1) (rw count at e'))
  ]
    where
      pushed_count :
          (p : Phase A)
          → is_pushed p ≡ true
          → is_taken p ≡ false
          → (is_emptied p ≡ false)
            × (is_untouched p ≡ false)
            × ((t : ℕ) → phase_counter p t ≡ t + 1)
      pushed_count untouched d f = absurd (ground (arith, d))
      pushed_count (writing y) d f = absurd (ground (arith, d))
      pushed_count (filled y) d f = (refl, refl, λ t. refl)
      pushed_count (reading y) d f = absurd (ground (arith, f))
      pushed_count (emptied y) d f = absurd (ground (arith, f))
