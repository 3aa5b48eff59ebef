-- ===== src/SpinLock.antt =====
-- The queued spin lock of kernel/SpinLock.cpp, for one thread at a time.
pub mod Entries
mod Alone
mod Tests
use shmdos.Prelude.{
  ℕ, zero, suc, ◌+◌, ◌%◌, ◌^◌, ◌==◌, if◌then◌else◌, Bool, true, false, ◌||◌, Option, none, some,
  update,
}

-- `LocalCpuSpinsData`: which entries have `m_use` set.
pub record Spins : Type 0 where
  pub count : ℕ
  pub used : ℕ → Bool

-- The highest power of two in ((4096 - 8) / 16) - 1.
abbrev pub limit_align : ℕ
limit_align = 128

abbrev pub word_mod : ℕ
word_mod = 2 ^ 64

abbrev pub count_on : Spins → Spins
count_on s = record s { count = (s.count + 1) % word_mod }

abbrev pub use_entry : Spins → ℕ → Spins
use_entry s e = record s { used = update s.used e true }

-- The loop of `allocSpinEntry` with this many rounds left. `weak` says in which of them the
-- compare-and-swap fails for no reason. At its end there is a panic.
unfoldable pub alloc_rounds : (rounds : ℕ) → (weak : ℕ → Bool) → Spins → Option (ℕ × Spins)
alloc_rounds zero weak s = none
alloc_rounds (suc n) weak s =
    let rest = alloc_rounds n weak (count_on s) in
    let e = (count_on s).count % limit_align in
    if s.used e || weak n then rest else some (e, use_entry (count_on s) e)

abbrev pub alloc_spin_entry : (weak : ℕ → Bool) → Spins → Option (ℕ × Spins)
alloc_spin_entry weak s = alloc_rounds limit_align weak s

abbrev pub free_spin_entry : Spins → ℕ → Spins
free_spin_entry s e = record s { used = update s.used e false }

-- The lock, and the entries. A null pointer is `none`.
pub record Lock : Type 0 where
  pub tail : Option ℕ
  pub last_entry : Option ℕ
  pub next : ℕ → Option ℕ
  pub waits : ℕ → Bool
  pub spins : Spins

-- What comes before the exchange of the tail.
abbrev pub prepared : Lock → (e : ℕ) → Spins → Lock
prepared l e s = record l { next = update l.next e none; waits = update l.waits e true; spins = s }

-- How a call ends: with a result, in a panic or at a null pointer, or in a loop that only another
-- thread ends.
pub data Ends (A : Type 0) : Type 0 where
  returns : A → Ends A
  fails : Ends A
  spins_on : Lock → Ends A

unfoldable pub lock_with : Lock → Option (ℕ × Spins) → Ends Lock
lock_with l none = fails
lock_with l (some (e, s)) = elim l.tail [
  | none ↦ returns (record (prepared l e s) { tail = some e; last_entry = some e })
  | some q ↦
      spins_on
        (record (prepared l e s) { tail = some e; next = update (prepared l e s).next q (some e) })
]

abbrev pub lock : (weak : ℕ → Bool) → Lock → Ends Lock
lock weak l = lock_with l (alloc_spin_entry weak l.spins)

unfoldable pub try_lock_with : Lock → Option (ℕ × Spins) → Ends (Bool × Lock)
try_lock_with l none = fails
try_lock_with l (some (e, s)) = elim l.tail [
  | none ↦ returns (true, record (prepared l e s) { tail = some e })
  | some q ↦ returns (false, prepared l e (free_spin_entry s e))
]

abbrev pub try_lock : (weak : ℕ → Bool) → Lock → Ends (Bool × Lock)
try_lock weak l = try_lock_with l (alloc_spin_entry weak l.spins)

abbrev pub is_entry : ℕ → Option ℕ → Bool
is_entry e none = false
is_entry e (some q) = q == e

-- The loop of `unlock` with what it loads as `m_next`.
unfoldable pub wake_next : Lock → (e : ℕ) → Option ℕ → Ends Lock
wake_next l e none = spins_on l
wake_next l e (some p) =
    returns (record l { waits = update l.waits p false; spins = free_spin_entry l.spins e })

unfoldable pub unlock_with : Lock → Option ℕ → Ends Lock
unlock_with l none = fails
unlock_with l (some e) =
    if is_entry e l.tail
    then returns (record l { tail = none; spins = free_spin_entry l.spins e })
    else wake_next l e (l.next e)

abbrev pub unlock : Lock → Ends Lock
unlock l = unlock_with l l.last_entry
