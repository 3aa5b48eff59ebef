-- ===== src/Vmm/Alloc/Locate.antt =====
-- The block to which the item of a list belongs.
use shmdos.Prelude.{
  ℕ, ◌<◌, ◌≡◌, refl, ap, inl, inr, true, List, [], ◌∷◌, ◌++◌, arith, ◌==◌, Bool-cases, ==_iff,
}
use shmdos.Vmm.Pages.{Pages, size_class}
use shmdos.Vmm.Chain.{has}
use shmdos.Vmm.Blocks.{Block, free, busy, limbo}
use shmdos.Vmm.Invariant.{items_of, max_pages, append-Owned, Inv}

-- The free block of an item among these blocks.
pub record FreeBlock (bs : List Block) (p : ℕ) : Type 0 where
  pub before : List Block
  pub after : List Block
  pub size : ℕ
  pub split : bs ≡ before ++ ((free p size ∷ []) ++ after)

later : {bs : List Block} {p : ℕ} (b : Block) → FreeBlock bs p → FreeBlock (b ∷ bs) p
later b r = record {
  before = b ∷ r.before;
  after = r.after;
  size = r.size;
  split = ap (λ l. b ∷ l) r.split;
}

free_block : (bs : List Block) (p : ℕ) → has p (items_of bs) ≡ true → FreeBlock bs p
free_block [] p h = absurd (ground arith)
free_block (free q n ∷ bs) p h = elim (Bool-cases (p == q)) [
  | inl self ↦ rw ((==_iff p q).0 self) (record { before = []; after = bs; size = n; split = refl })
  | inr other ↦ later (free q n) (free_block bs p (ground arith))
]
free_block (busy a n ∷ bs) p h = later (busy a n) (free_block bs p h)
free_block (limbo w z n ∷ bs) p h = later (limbo w z n) (free_block bs p h)

-- It also has the size that the item names, and that size the class of the list.
pub record Located (v : Pages) (bs : List Block) (c p : ℕ) : Type 0 where
  pub block : FreeBlock bs p
  pub size_is : (v.items p).num_pages ≡ block.size
  pub class_is : c ≡ size_class block.size
  pub positive : 0 < block.size
  pub small : block.size < max_pages

-- What the invariant says of a free block.
pub free_facts :
    (v : Pages) (bs : List Block) (inv : Inv v bs) (xs ys : List Block) (p n : ℕ)
    → bs ≡ xs ++ ((free p n ∷ []) ++ ys)
    → ((0 < n) × (n < max_pages))
      × (has p (inv.lists (size_class n)) ≡ true)
      × ((v.items p).num_pages ≡ n)
free_facts v bs inv xs ys p n e =
    let (ox, o) =
      append-Owned v.items inv.lists 0 xs (free p n ∷ ys) (rw e at inv.block_inv.owned) in
    ((o.0.0, o.0.1), o.1, o.2)

pub locate :
    (v : Pages) (bs : List Block) (inv : Inv v bs) (c p : ℕ)
    → has p (inv.lists c) ≡ true
    → Located v bs c p
locate v bs inv c p h =
    let b = free_block bs p (inv.block_inv.listed c p h) in
    let facts = free_facts v bs inv b.before b.after p b.size b.split in
    record {
      block = b;
      size_is = facts.2;
      class_is = inv.list_inv.apart c (size_class b.size) p h facts.1;
      positive = facts.0.0;
      small = facts.0.1;
    }
