-- ===== src/SpinLock/Alone.antt =====
-- Taking and giving back the lock of kernel/SpinLock.cpp without another thread at it.
use shmdos.Prelude.{
  ℕ, ◌≡◌, ◌≢◌, refl, sym, ap, ◌∙◌, ◌⊎◌, inl, inr, ◌==◌, Bool, true, false, Bool-cases, ==_iff,
  Option, none, some,
}
use shmdos.SpinLock.{
  Spins, alloc_spin_entry, free_spin_entry, Lock, prepared, Ends, returns, fails, spins_on,
  lock_with, lock, try_lock_with, try_lock, is_entry, wake_next, unlock_with, unlock,
}

-- The state after `lock` and `unlock` of a free lock.
abbrev released : Lock → (e : ℕ) → Spins → Lock
released l e s = record (prepared l e (free_spin_entry s e)) { tail = none; last_entry = some e }

lock-free :
    (weak : ℕ → Bool) (l : Lock) (e : ℕ) (s : Spins)
    → l.tail ≡ none
    → alloc_spin_entry weak l.spins ≡ some (e, s)
    → lock weak l ≡ returns (record (prepared l e s) { tail = some e; last_entry = some e })
unfolding lock_with
lock-free weak l e s free found = ap (lock_with l) found ∙ rw free refl

try_lock-free :
    (weak : ℕ → Bool) (l : Lock) (e : ℕ) (s : Spins)
    → l.tail ≡ none
    → alloc_spin_entry weak l.spins ≡ some (e, s)
    → try_lock weak l ≡ returns (true, record (prepared l e s) { tail = some e })
unfolding try_lock_with
try_lock-free weak l e s free found = ap (try_lock_with l) found ∙ rw free refl

unlock-held :
    (l : Lock) (e : ℕ)
    → l.tail ≡ some e
    → l.last_entry ≡ some e
    → unlock l ≡ returns (record l { tail = none; spins = free_spin_entry l.spins e })
unfolding unlock_with
unlock-held l e held last =
    let here : is_entry e l.tail ≡ true = ap (is_entry e) held ∙ (==_iff e e).1 refl in
    ap (unlock_with l) last ∙ rw here refl

-- A free lock is taken by `lock` at once, and `unlock` then frees it and the entry.
unlock-lock :
    (weak : ℕ → Bool) (l : Lock) (e : ℕ) (s : Spins)
    → l.tail ≡ none
    → alloc_spin_entry weak l.spins ≡ some (e, s)
    → (m : Lock) × (lock weak l ≡ returns m)
      × (m.tail ≡ some e)
      × (unlock m ≡ returns (released l e s))
unlock-lock weak l e s free found =
    (_, lock-free weak l e s free found, refl, unlock-held _ e refl refl)

-- What `unlock` returns, if another entry than the tail is the last one.
returns-held :
    (l v : Lock) (e : ℕ) (last : Option ℕ)
    → l.tail ≡ some e
    → last ≢ some e
    → unlock_with l last ≡ returns v
    → v.tail ≡ some e
unfolding unlock_with wake_next
returns-held l v e none held other done = absurd (cc done)
returns-held l v e (some q) held other done =
    let apart : is_entry q l.tail ≡ false = ap (is_entry q) held ∙ not_same (Bool-cases (e == q)) in
    wakes (l.next q) (rw apart at done)
  where
    not_same : ((e == q) ≡ true) ⊎ ((e == q) ≡ false) → (e == q) ≡ false
    not_same (inl same) = absurd (other (ap some (sym ((==_iff e q).0 same))))
    not_same (inr apart) = apart

    tail_of : Ends Lock → Option ℕ
    tail_of (returns u) = u.tail
    tail_of fails = some e
    tail_of (spins_on u) = some e

    wakes : (next : Option ℕ) → wake_next l q next ≡ returns v → v.tail ≡ some e
    wakes none done = sym (ap tail_of done)
    wakes (some p) done = sym (ap tail_of done) ∙ held

-- A free lock is taken by `try_lock`, which leaves `m_lastLockEntry` as it was. Unless that is by chance
-- the entry that it took, no `unlock` that returns frees the lock.
pub unlock-try_lock :
    (weak : ℕ → Bool) (l : Lock) (e : ℕ) (s : Spins)
    → l.tail ≡ none
    → alloc_spin_entry weak l.spins ≡ some (e, s)
    → l.last_entry ≢ some e
    → (m : Lock) × (try_lock weak l ≡ returns (true, m))
      × ((v : Lock) → unlock m ≡ returns v → v.tail ≡ some e)
unlock-try_lock weak l e s free found other = (
  _,
  try_lock-free weak l e s free found,
  λ v done. returns-held _ v e l.last_entry refl other done,
)
