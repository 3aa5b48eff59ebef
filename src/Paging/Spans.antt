-- ===== src/Paging/Spans.antt =====
-- Numbers of pages, split at the entries of a table. There are at most four levels, so each fact is one
-- of arithmetic with numerals.
use shmdos.Prelude.{
  ℕ, zero, suc, ◌+◌, ◌-◌, ◌*◌, ◌/◌, ◌%◌, ◌^◌, ◌≤◌, ◌<◌, ◌≡◌, ◌≢◌, ◌==◌, inl, inr, Bool-cases,
  ==_iff, arith,
}
use shmdos.Paging.Walk.{span, first_limit}

pub span-index :
    (b i x : ℕ)
    → b < 3
    → i < 512
    → x < span (suc b)
    → (i * span (suc b) + x) / span (suc b) % 512 ≡ i
unfolding span
span-index zero i x lt li lx = omega arith
span-index (suc zero) i x lt li lx = omega arith
span-index (suc (suc zero)) i x lt li lx = omega arith
span-index (suc (suc (suc b))) i x lt li lx = absurd (omega arith)

-- Whole tables in front of a page do not show in its index.
pub span-whole :
    (b k x : ℕ) → b < 3 → (k * span (suc (suc b)) + x) / span (suc b) % 512 ≡ x / span (suc b) % 512
unfolding span
span-whole zero k x lt = omega arith
span-whole (suc zero) k x lt = omega arith
span-whole (suc (suc zero)) k x lt = omega arith
span-whole (suc (suc (suc b))) k x lt = absurd (omega arith)

pub span-own : (b : ℕ) → b < 3 → 0 < span (suc b)
unfolding span
span-own zero lt = omega arith
span-own (suc zero) lt = omega arith
span-own (suc (suc zero)) lt = omega arith
span-own (suc (suc (suc b))) lt = absurd (omega arith)

pub span-table : (s e : ℕ) → s ≤ e → e < span 1 → s + (e + 1 - s) ≤ 512
unfolding span
span-table s e le le' = omega arith

pub span-top : (e : ℕ) → e < 2 ^ 36 → e < span 4
unfolding span
span-top e lt = omega arith

-- The entry of a page in a table is found in two steps.
pub span-under : (b q : ℕ) → b < 3 → q / span (suc b) * 512 + q / span b % 512 ≡ q / span b
unfolding span
span-under zero q lt = omega arith
span-under (suc zero) q lt = omega arith
span-under (suc (suc zero)) q lt = omega arith
span-under (suc (suc (suc b))) q lt = absurd (omega arith)

-- Pages that share an entry share those above it.
pub span-above : (b q p : ℕ) → b < 3 → q / span b ≡ p / span b → q / span (suc b) ≡ p / span (suc b)
unfolding span
span-above zero q p lt e = omega (arith, e)
span-above (suc zero) q p lt e = omega (arith, e)
span-above (suc (suc zero)) q p lt e = omega (arith, e)
span-above (suc (suc (suc b))) q p lt e = absurd (omega arith)

pub spans-above : (c a q p : ℕ) → a ≤ c → c < 4 → q / span a ≡ p / span a → q / span c ≡ p / span c
spans-above zero a q p le lt e = let z : a ≡ 0 = omega arith in rw z at e
spans-above (suc c) a q p le lt e = elim (Bool-cases (a == suc c)) [
  | inl same ↦ let z = (==_iff a (suc c)).0 same in rw z at e
  | inr lower ↦
      span-above c q p (omega arith) (spans-above c a q p (ground (arith, lower)) (omega arith) e)
]

pub span-one : (q : ℕ) → q / span 0 ≡ q
unfolding span
span-one q = omega arith

pub span-root : (q : ℕ) → q < 2 ^ 36 → 0 * 512 + q / span 3 % 512 ≡ q / span 3
unfolding span
span-root q lt = omega arith

pub span-low : (p : ℕ) → p / 2 ^ 36 * span 4 + p % 2 ^ 36 ≡ p
unfolding span
span-low p = omega arith

pub span-page : (k x : ℕ) → (k * span 1 + x) % 512 ≡ x % 512
unfolding span
span-page k x = omega arith

pub span-next : (b k : ℕ) → b < 3 → k * span (suc (suc b)) ≡ k * 512 * span (suc b)
unfolding span
span-next zero k lt = omega arith
span-next (suc zero) k lt = omega arith
span-next (suc (suc zero)) k lt = omega arith
span-next (suc (suc (suc b))) k lt = absurd (omega arith)

-- The pages from s to e, in a table whose entries hold S pages each, where they lie under one entry.
pub record Within (S s e : ℕ) : Type 0 where
  pub index : s / S < 512
  pub ordered : s % S ≤ e % S
  pub inside : e % S < S
  pub count : e % S + 1 - s % S ≡ e + 1 - s
  pub from_start : s / S * S + s % S ≡ s

pub span-Within :
    (b s e : ℕ)
    → b < 3
    → s ≤ e
    → e < span (suc (suc b))
    → e < first_limit (span (suc b)) s
    → Within (span (suc b)) s e
unfolding span
span-Within zero s e lt le small one = record {
  index = omega arith;
  ordered = omega arith;
  inside = omega arith;
  count = omega arith;
  from_start = omega arith;
}
span-Within (suc zero) s e lt le small one = record {
  index = omega arith;
  ordered = omega arith;
  inside = omega arith;
  count = omega arith;
  from_start = omega arith;
}
span-Within (suc (suc zero)) s e lt le small one = record {
  index = omega arith;
  ordered = omega arith;
  inside = omega arith;
  count = omega arith;
  from_start = omega arith;
}
span-Within (suc (suc (suc b))) s e lt le small one = absurd (omega arith)

-- Where they lie under several: the rest of the first entry, whole entries, and a part of the last.
pub record Across (S s e : ℕ) : Type 0 where
  pub index : s / S < 512
  pub head_ordered : s % S ≤ S - 1
  pub head_inside : S - 1 < S
  pub from_start : s / S * S + s % S ≡ s
  pub head_end : s + (S - 1 + 1 - s % S) ≡ first_limit S s / S * S
  pub whole : first_limit S s / S + ((e + 1) / S - first_limit S s / S) ≤ 512
  pub whole_end :
      first_limit S s / S * S + ((e + 1) / S - first_limit S s / S) * S ≡ (e + 1) / S * S
  pub rest : (e + 1) % S ≢ 0 → ((e + 1) / S < 512) × (e % S + 1 ≡ (e + 1) % S) × (e % S < S)
  pub total :
      (S - 1 + 1 - s % S) + (((e + 1) / S - first_limit S s / S) * S + (e + 1) % S) ≡ e + 1 - s

pub span-Across :
    (b s e : ℕ)
    → b < 3
    → s ≤ e
    → e < span (suc (suc b))
    → first_limit (span (suc b)) s ≤ e
    → Across (span (suc b)) s e
unfolding span
span-Across zero s e lt le small more = record {
  index = omega arith;
  head_ordered = omega arith;
  head_inside = omega arith;
  from_start = omega arith;
  head_end = omega arith;
  whole = omega arith;
  whole_end = omega arith;
  rest = λ ne. (omega arith, omega arith, omega arith);
  total = omega arith;
}
span-Across (suc zero) s e lt le small more = record {
  index = omega arith;
  head_ordered = omega arith;
  head_inside = omega arith;
  from_start = omega arith;
  head_end = omega arith;
  whole = omega arith;
  whole_end = omega arith;
  rest = λ ne. (omega arith, omega arith, omega arith);
  total = omega arith;
}
span-Across (suc (suc zero)) s e lt le small more = record {
  index = omega arith;
  head_ordered = omega arith;
  head_inside = omega arith;
  from_start = omega arith;
  head_end = omega arith;
  whole = omega arith;
  whole_end = omega arith;
  rest = λ ne. (omega arith, omega arith, omega arith);
  total = omega arith;
}
span-Across (suc (suc (suc b))) s e lt le small more = absurd (omega arith)
