-- ===== src/Ring.antt =====
-- include/LockFreeRingBuffer.h: a bounded queue that many threads share, by atomic steps. Every cell
-- has a counter that says for which operation it is ready.
use shmdos.Prelude.{
  ℕ, zero, suc, ◌+◌, ◌*◌, ◌%◌, ◌/◌, ◌^◌, ◌≤◌, ◌<◌, ◌≡◌, Bool, true, false, ltb, ◌==◌, if◌then◌else◌,
  update,
}
pub mod Slots
pub mod Steps
pub mod Invariant
mod Tests

abbrev pub index_mod : ℕ
index_mod = 2 ^ 64

pub record Ring (A : Type 0) : Type 0 where
  pub size : ℕ
  pub counter : ℕ → ℕ
  pub value : ℕ → A
  pub write : ℕ
  pub read : ℕ

-- The constructor: cell i is ready for the push number i. The cells hold nothing of use yet.
unfoldable pub new_ring : {A : Type 0} → ℕ → (ℕ → A) → Ring A
new_ring size contents = record {
  size = size;
  counter = λ i. i;
  value = contents;
  write = 0;
  read = 0;
}

-- What a round of the loop decides once it has read the counter of the cell.
pub data Attempt : Type 0 where
  ready : Attempt
  refused : Attempt
  again : Attempt

abbrev pub decide_attempt : (counter wanted : ℕ) → Attempt
decide_attempt counter wanted =
    if counter == wanted then ready else (if ltb counter wanted then refused else again)

module _ {A : Type 0} (r : Ring A) where
  unfoldable pub push_attempt : ℕ → Attempt
  push_attempt index = decide_attempt (r.counter (index % r.size)) index

  unfoldable pub pop_attempt : ℕ → Attempt
  pop_attempt index = decide_attempt (r.counter (index % r.size)) ((index + 1) % index_mod)

  -- The compare-and-swap of the index: with another index in it, it changes nothing and fails.
  unfoldable pub claim_push : ℕ → Bool × Ring A
  claim_push index =
      if r.write == index then (true, record r { write = (index + 1) % index_mod }) else (false, r)

  unfoldable pub claim_pop : ℕ → Bool × Ring A
  claim_pop index =
      if r.read == index then (true, record r { read = (index + 1) % index_mod }) else (false, r)

  -- The two stores that end a push: of the value, and then of the counter.
  unfoldable pub store_value : ℕ → A → Ring A
  store_value index x = record r { value = update r.value (index % r.size) x }

  unfoldable pub finish_push : ℕ → Ring A
  finish_push index = record r {
    counter = update r.counter (index % r.size) ((index + 1) % index_mod);
  }

  -- The load of the value and the store of the counter that end a pop.
  unfoldable pub load_value : ℕ → A
  load_value index = r.value (index % r.size)

  unfoldable pub finish_pop : ℕ → Ring A
  finish_pop index = record r {
    counter = update r.counter (index % r.size) ((index + r.size) % index_mod);
  }
