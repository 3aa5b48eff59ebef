-- ===== src/Vmm/Lists/Add.antt =====
-- `addFreeRegion` takes an item from the pool, or a new one, and puts it at the head of a list.
use shmdos.Prelude.{
  ℕ, ◌≡◌, refl, inl, inr, true, false, List, [], ◌∷◌, arith, ◌==◌, Bool-cases, update,
}
use shmdos.Vmm.Pages.{Pages, take_item}
use shmdos.Vmm.Chain.{has}
use shmdos.Vmm.Lists.Defs.{ListInv, IsItem}

abbrev pub rest_of : List ℕ → List ℕ
rest_of [] = []
rest_of (x ∷ xs) = xs

-- Neither a list nor the pool has the item.
pub record Fresh (v : Pages) (lists : ℕ → List ℕ) (pool : List ℕ) (item : ℕ) : Type 0 where
  pub unlisted : (c : ℕ) → has item (lists c) ≡ false
  pub unpooled : has item pool ≡ false
  pub valid : IsItem v.items_start item

-- What `take_item` gives: the rest of the pool, an item of no list, and all else as before.
pub record Taken (v : Pages) (lists : ℕ → List ℕ) (pool : List ℕ) (item : ℕ) (v' : Pages)
    : Type 0 where
  pub inv : ListInv v' lists (rest_of pool)
  pub fresh : Fresh v' lists (rest_of pool) item
  pub same_items : v'.items ≡ v.items
  pub same_regions : v'.regions ≡ v.regions

pub take-Taken :
    (v : Pages) (lists : ℕ → List ℕ) (pool : List ℕ)
    → ListInv v lists pool
    → Taken v lists pool (take_item v).0 (take_item v).1
unfolding take_item
take-Taken v lists [] inv =
    let empty : (v.free_items == 0) ≡ true = ground (arith, inv.pool_chain) in
    rw empty (record {
      inv = record {
        chains = inv.chains;
        counts = inv.counts;
        distinct = inv.distinct;
        apart = inv.apart;
        known = λ c p i. omega (arith, inv.known c p i);
        pool_chain = inv.pool_chain;
        pool_distinct = tt;
        pool_known = λ p i. absurd (ground arith);
        pool_apart = λ c p i. absurd (ground arith);
        start = omega (arith, inv.start);
      };
      fresh = record {
        unlisted = λ c. unlisted c;
        unpooled = refl;
        valid = omega (arith, inv.start);
      };
      same_items = refl;
      same_regions = refl;
    })
  where
    unlisted : (c : ℕ) → has v.items_start (lists c) ≡ false
    unlisted c = elim (Bool-cases (has v.items_start (lists c))) [
      | inl h ↦ absurd (omega (arith, inv.known c v.items_start h))
      | inr h ↦ h
    ]
take-Taken v lists (x ∷ xs) inv =
    let (e, nz, rest) = inv.pool_chain in
    let filled : (v.free_items == 0) ≡ false = ground arith in
    rw filled (record {
      inv = record {
        chains = inv.chains;
        counts = inv.counts;
        distinct = inv.distinct;
        apart = inv.apart;
        known = inv.known;
        pool_chain = rw e rest;
        pool_distinct = inv.pool_distinct.1;
        pool_known = λ p i. inv.pool_known p (ground arith);
        pool_apart = λ c p i. inv.pool_apart c p (ground arith);
        start = inv.start;
      };
      fresh = record {
        unlisted = λ c. rw e (inv.pool_apart c x (ground arith));
        unpooled = rw e inv.pool_distinct.0;
        valid = rw e (inv.pool_known x (ground arith));
      };
      same_items = refl;
      same_regions = refl;
    })

-- The list that gains the item.
abbrev pub with_item : (ℕ → List ℕ) → ℕ → ℕ → ℕ → List ℕ
with_item lists c p = update lists c (p ∷ lists c)
