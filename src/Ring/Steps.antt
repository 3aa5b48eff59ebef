-- ===== src/Ring/Steps.antt =====
-- The atomic steps of the threads that push into and pop from the ring.
use shmdos.Prelude.{Option, none, some, ℕ, ◌+◌, ◌≤◌, ◌<◌, ◌≡◌, Bool, true, false, update}
use shmdos.Ring.{
  Ring, index_mod, new_ring, ready, push_attempt, pop_attempt, claim_push, claim_pop, store_value,
  load_value, finish_push, finish_pop,
}

-- How far the push and the pop of one number have come. The value is the one that the push brings.
pub data Phase (A : Type 0) : Type 0 where
  untouched : Phase A
  writing : A → Phase A
  filled : A → Phase A
  reading : A → Phase A
  emptied : A → Phase A

abbrev pub to_reading : {A : Type 0} → Phase A → Phase A
to_reading (filled x) = reading x
to_reading p = p

-- The ring, the progress of each number, whether its push has stored the value, what its pop has loaded, and for which numbers some thread has found the cell ready
-- and may still try to claim them.
pub record State (A : Type 0) : Type 0 where
  pub ring : Ring A
  pub phase : ℕ → Phase A
  pub stored : ℕ → Bool
  pub got : ℕ → Option A
  pub may_push : ℕ → Bool
  pub may_pop : ℕ → Bool

abbrev pub initial : {A : Type 0} → ℕ → (ℕ → A) → State A
initial size contents = record {
  ring = new_ring size contents;
  phase = λ t. untouched;
  stored = λ t. false;
  got = λ t. none;
  may_push = λ t. false;
  may_pop = λ t. false;
}

-- A thread compares the counter of the cell of an index that it has loaded, which is not above the
-- present one; it swaps the index, if that is still the one it compared for; it ends its operation by an
-- access to the value and then one to the counter.
-- The numbers stay so small that no index wraps around.
pub data Step {A : Type 0} : State A → State A → Type 0 where
  see_push :
      {s : State A} (t : ℕ)
      → t ≤ s.ring.write
      → push_attempt s.ring t ≡ ready
      → Step s (record s { may_push = update s.may_push t true })
  do_claim_push :
      {s : State A} (t : ℕ) (x : A)
      → s.may_push t ≡ true
      → (claim_push s.ring t).0 ≡ true
      → t + s.ring.size + s.ring.size < index_mod
      → Step s (record s { ring = (claim_push s.ring t).1; phase = update s.phase t (writing x) })
  do_store_value :
      {s : State A} (t : ℕ) (x : A)
      → s.phase t ≡ writing x
      → Step s (record s { ring = store_value s.ring t x; stored = update s.stored t true })
  do_finish_push :
      {s : State A} (t : ℕ) (x : A)
      → s.phase t ≡ writing x
      → s.stored t ≡ true
      → Step s (record s { ring = finish_push s.ring t; phase = update s.phase t (filled x) })
  see_pop :
      {s : State A} (t : ℕ)
      → t ≤ s.ring.read
      → pop_attempt s.ring t ≡ ready
      → Step s (record s { may_pop = update s.may_pop t true })
  do_claim_pop :
      {s : State A} (t : ℕ)
      → s.may_pop t ≡ true
      → (claim_pop s.ring t).0 ≡ true
      → Step s (record s {
        ring = (claim_pop s.ring t).1;
        phase = update s.phase t (to_reading (s.phase t));
      })
  do_load_value :
      {s : State A} (t : ℕ) (x : A)
      → s.phase t ≡ reading x
      → Step s (record s { got = update s.got t (some (load_value s.ring t)) })
  do_finish_pop :
      {s : State A} (t : ℕ) (x y : A)
      → s.phase t ≡ reading x
      → s.got t ≡ some y
      → Step s (record s { ring = finish_pop s.ring t; phase = update s.phase t (emptied x) })

pub data Reachable {A : Type 0} (size : ℕ) (contents : ℕ → A) : State A → Type 0 where
  start : Reachable size contents (initial size contents)
  after : {s u : State A} → Reachable size contents s → Step s u → Reachable size contents u
