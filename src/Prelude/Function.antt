-- ===== src/Prelude/Function.antt =====
-- Memory as a function of its index, and the position of the highest bit.
use Prim.Native.Nat.{ℕ, zero, suc, ◌/◌}
use shmdos.Prelude.Tests.{◌==◌, ltb, if◌then◌else◌}

-- A write at one index.
module _ {ℓ} {A : Type ℓ} where
  abbrev pub update : (memory : ℕ → A) (place : ℕ) (value : A) → ℕ → A
  update memory place value other = if other == place then value else memory other

-- `bsr`: the index of the highest one bit, for a value below 2^fuel. The instruction leaves the
-- result of 0 undefined; here it is 0.
unfoldable pub last_one_bit : ℕ → ℕ → ℕ
last_one_bit zero n = 0
last_one_bit (suc f) n = let rest = last_one_bit f (n / 2) in if ltb n 2 then 0 else suc rest
