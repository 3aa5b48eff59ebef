-- ===== src/Ring/Tests.antt =====
-- Two threads at a ring of two cells.
use shmdos.Prelude.{false, ◌-◌, some, ℕ, ◌+◌, ◌%◌, ◌≤◌, ◌≡◌, refl, true, arith, update}
use shmdos.Ring.{
  refused, new_ring, push_attempt, pop_attempt, claim_push, claim_pop, store_value, load_value,
  finish_push, finish_pop,
}
use shmdos.Ring.Steps.{
  writing, filled, reading, emptied, to_reading, State, initial, see_push, do_claim_push,
  do_store_value, do_finish_push, see_pop, do_claim_pop, do_load_value, do_finish_pop, Reachable,
  start, after,
}
use shmdos.Ring.Invariant.{
  finish_pop-reachable, claim_pop-reachable, push_attempt-refused, is_emptied,
}

abbrev nothing : ℕ → ℕ
nothing i = 0

abbrev empty : State ℕ
empty = initial 2 nothing

abbrev see : State ℕ → ℕ → State ℕ
see s t = record s { may_push = update s.may_push t true }

abbrev claim : State ℕ → ℕ → ℕ → State ℕ
claim s t x = record s { ring = (claim_push s.ring t).1; phase = update s.phase t (writing x) }

abbrev store : State ℕ → ℕ → ℕ → State ℕ
store s t x = record s { ring = store_value s.ring t x; stored = update s.stored t true }

abbrev finish : State ℕ → ℕ → ℕ → State ℕ
finish s t x = record s { ring = finish_push s.ring t; phase = update s.phase t (filled x) }

abbrev pushed : State ℕ → ℕ → ℕ → State ℕ
pushed s t x = finish (store (claim (see s t) t x) t x) t x

abbrev see_full : State ℕ → ℕ → State ℕ
see_full s t = record s { may_pop = update s.may_pop t true }

abbrev claim_full : State ℕ → ℕ → State ℕ
claim_full s t = record s {
  ring = (claim_pop s.ring t).1;
  phase = update s.phase t (to_reading (s.phase t));
}

one_push : Reachable 2 nothing (pushed empty 0 7)
unfolding new_ring push_attempt claim_push
one_push =
    after
      (after
        (after (after start (see_push 0 (omega arith) refl))
          (do_claim_push 0 7 refl refl (omega arith)))
        (do_store_value 0 7 refl))
      (do_finish_push 0 7 refl refl)

ready_to_pop : Reachable 2 nothing (see_full (pushed empty 0 7) 0)
unfolding new_ring claim_push store_value finish_push pop_attempt
ready_to_pop = after one_push (see_pop 0 (omega arith) refl)

reads : (claim_pop (see_full (pushed empty 0 7) 0).ring 0).0 ≡ true
unfolding new_ring claim_push store_value finish_push claim_pop
reads = refl

popping : Reachable 2 nothing (claim_full (see_full (pushed empty 0 7) 0) 0)
popping = after ready_to_pop (do_claim_pop 0 refl reads)

-- The pop has loaded the value and stored the counter.
abbrev loaded_one : State ℕ
loaded_one =
    let s = claim_full (see_full (pushed empty 0 7) 0) 0 in
    record s { got = update s.got 0 (some (load_value s.ring 0)) }

abbrev popped : State ℕ
popped = record loaded_one {
  ring = finish_pop loaded_one.ring 0;
  phase = update loaded_one.phase 0 (emptied 7);
}

popped_run : Reachable 2 nothing popped
popped_run =
    after (after popping (do_load_value 0 7 refl)) (
      do_finish_pop 0 7 (load_value (claim_full (see_full (pushed empty 0 7) 0) 0).ring 0) refl
        refl)

finish_pop-reachable_example :
    (popped.phase 0 ≡ emptied 7 → popped.got 0 ≡ some 7)
    × (popped.phase 0 ≡ reading 7 → load_value popped.ring 0 ≡ 7)
finish_pop-reachable_example =
    finish_pop-reachable 2 nothing (omega arith) (omega arith) popped 0 7 popped_run

claim_pop-reachable_example :
    ((x : ℕ) × ((see_full (pushed empty 0 7) 0).phase 0 ≡ filled x)
      × ((see_full (pushed empty 0 7) 0).ring.value (0 % 2) ≡ x))
    × ((see_full (pushed empty 0 7) 0).ring.read ≤ (see_full (pushed empty 0 7) 0).ring.write)
    × ((see_full (pushed empty 0 7) 0).ring.write ≤ (see_full (pushed empty 0 7) 0).ring.read + 2)
claim_pop-reachable_example =
    claim_pop-reachable 2 nothing (omega arith) (omega arith) (see_full (pushed empty 0 7) 0) 0
      ready_to_pop refl reads

two_pushes : Reachable 2 nothing (pushed (pushed empty 0 7) 1 8)
unfolding new_ring push_attempt claim_push store_value finish_push
two_pushes =
    after
      (after
        (after (after one_push (see_push 1 (omega arith) refl))
          (do_claim_push 1 8 refl refl (omega arith)))
        (do_store_value 1 8 refl))
      (do_finish_push 1 8 refl refl)

full :
    push_attempt (pushed (pushed empty 0 7) 1 8).ring (pushed (pushed empty 0 7) 1 8).ring.write
    ≡ refused
unfolding new_ring claim_push store_value finish_push push_attempt
full = refl

push_attempt-refused_example :
    (2 ≤ (pushed (pushed empty 0 7) 1 8).ring.write)
    × (is_emptied
          ((pushed (pushed empty 0 7) 1 8).phase ((pushed (pushed empty 0 7) 1 8).ring.write - 2))
        ≡ false)
push_attempt-refused_example =
    push_attempt-refused 2 nothing (omega arith) (omega arith) (pushed (pushed empty 0 7) 1 8)
      two_pushes full
