-- ===== src/Vmm/Lists/Defs.antt =====
-- When the lists of free regions and the pool of items are well formed.
use shmdos.Prelude.{ℕ, ◌%◌, ◌<◌, ◌≡◌, ◌≢◌, true, false, List, [], ◌∷◌, arith, length}
use shmdos.Vmm.Pages.{Item, Pages}
use shmdos.Vmm.Chain.{has, Distinct, Chain}

-- The released items, linked by `m_next` alone.
abbrev pub Pool : (ℕ → Item) → ℕ → List ℕ → Type 0
Pool f p [] = p ≡ 0
Pool f p (x ∷ xs) = (p ≡ x) × (x ≢ 0) × Pool f (f x).next xs

-- A pointer into the part of the item array that is in use, aligned and not null.
abbrev pub IsItem : ℕ → ℕ → Type 0
IsItem start p = (p ≢ 0) × (p % 4 ≡ 0) × (p < start)

-- The lists hold the items of `lists`, each with its counter; the pool those of `pool`; no item is
-- in two places.
pub record ListInv (v : Pages) (lists : ℕ → List ℕ) (pool : List ℕ) : Type 0 where
  pub chains : (c : ℕ) → Chain v.items (v.table c) (lists c)
  pub counts : (c : ℕ) → v.counters c ≡ length (lists c)
  pub distinct : (c : ℕ) → Distinct (lists c)
  pub apart : (c d p : ℕ) → has p (lists c) ≡ true → has p (lists d) ≡ true → c ≡ d
  pub known : (c p : ℕ) → has p (lists c) ≡ true → IsItem v.items_start p
  pub pool_chain : Pool v.items v.free_items pool
  pub pool_distinct : Distinct pool
  pub pool_known : (p : ℕ) → has p pool ≡ true → IsItem v.items_start p
  pub pool_apart : (c p : ℕ) → has p pool ≡ true → has p (lists c) ≡ false
  pub start : (v.items_start % 4 ≡ 0) × (v.items_start ≢ 0)

-- The links of the items of the pool are as before.
pub Pool-frame :
    (f g : ℕ → Item) (p : ℕ) (xs : List ℕ)
    → ((y : ℕ) → has y xs ≡ true → (g y).next ≡ (f y).next)
    → Pool f p xs
    → Pool g p xs
Pool-frame f g p [] same l = l
Pool-frame f g p (x ∷ xs) same (e, ne, rest) = (
  e,
  ne,
  rw (same x (ground arith)) (Pool-frame f g (f x).next xs (λ y i. same y (ground arith)) rest),
)

-- The lists do not depend on the words of the pages.
pub ListInv-regions :
    (v : Pages) (r : ℕ → ℕ) (lists : ℕ → List ℕ) (pool : List ℕ)
    → ListInv v lists pool
    → ListInv (record v { regions = r }) lists pool
ListInv-regions v r lists pool inv = record {
  chains = inv.chains;
  counts = inv.counts;
  distinct = inv.distinct;
  apart = inv.apart;
  known = inv.known;
  pool_chain = inv.pool_chain;
  pool_distinct = inv.pool_distinct;
  pool_known = inv.pool_known;
  pool_apart = inv.pool_apart;
  start = inv.start;
}
