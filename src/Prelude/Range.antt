-- ===== src/Prelude/Range.antt =====
-- Claims about all numbers of a range, checked by evaluation.
use Prim.Native.Nat.{ℕ, zero, suc, ◌+◌, ◌<◌, ◌≤◌}
use mathlib.Core.Path.{◌≡◌}
use mathlib.Core.Bool.{Bool, true, ◌&&◌}
use native.Mathlib.Omega.{arith}
use mathlib.Core.Logic.{inl, inr}
use shmdos.Prelude.Tests.{◌==◌, Bool-cases, ==_iff}

-- The test holds at `low` and at the next values, `count` in all.
unfoldable pub every_from : (ℕ → Bool) → (low count : ℕ) → Bool
every_from test low zero = true
every_from test low (suc count) = every_from test (low + 1) count && test low

-- The test holds at all values below a bound.
abbrev pub every_below : ℕ → (ℕ → Bool) → Bool
every_below count test = every_from test 0 count

every_from-inside :
    (test : ℕ → Bool) (low count c : ℕ)
    → every_from test low count ≡ true
    → low ≤ c
    → c < low + count
    → test c ≡ true
unfolding every_from
every_from-inside test low zero c all above below = absurd (omega arith)
every_from-inside test low (suc count) c all above below = elim (Bool-cases (c == low)) [
  | inl first ↦ rw ((==_iff c low).0 first) (ground (arith, all))
  | inr later ↦
      every_from-inside test (low + 1) count c (ground (arith, all)) (ground (arith, later))
        (omega arith)
]

pub below-every_from :
    (count : ℕ) (test : ℕ → Bool) (c : ℕ)
    → every_from test 0 count ≡ true
    → c < count
    → test c ≡ true
below-every_from count test c all below =
    every_from-inside test 0 count c all (omega arith) (omega arith)
