-- ===== src/Vmm/Invariant/Defs.antt =====
-- When a state of the page allocator stands for a list of blocks.
use shmdos.Prelude.{
  ℕ, ◌+◌, ◌^◌, ◌≤◌, ◌<◌, ◌≡◌, ◌≢◌, refl, ap, ◌∙◌, ◌||◌, inl, inr, true, false, List, [], ◌∷◌, ◌++◌,
  arith, ◌==◌, Bool-cases, ==_iff,
}
use shmdos.Vmm.Pages.{Item, Pages, size_class}
use shmdos.Vmm.Chain.{has, Distinct}
use shmdos.Vmm.Lists.{ListInv}
use shmdos.Vmm.Blocks.{Block, free, busy, limbo, word_at, total}

-- The items of the free blocks, in order.
abbrev pub items_of : List Block → List ℕ
items_of [] = []
items_of (free p n ∷ bs) = p ∷ items_of bs
items_of (busy a n ∷ bs) = items_of bs
items_of (limbo w z n ∷ bs) = items_of bs

-- The largest number of pages for which a busy word has room.
abbrev pub max_pages : ℕ
max_pages = 2 ^ 40

-- From the page `base` on: each free block is in the list of its class with its size and place in
-- its item, and no block is empty or too large.
abbrev pub Owned : (ℕ → Item) → (ℕ → List ℕ) → ℕ → List Block → Type 0
Owned f lists base [] = Unit {0}
Owned f lists base (free p n ∷ bs) =
    ((0 < n) × (n < max_pages) × (p ≢ 0))
    × (has p (lists (size_class n)) ≡ true)
    × ((f p).num_pages ≡ n)
    × ((f p).page_base ≡ base)
    × Owned f lists (base + n) bs
Owned f lists base (busy a n ∷ bs) =
    ((0 < n) × (n < max_pages) × (a ≤ 1)) × Owned f lists (base + n) bs
Owned f lists base (limbo w z n ∷ bs) = (0 < n) × Owned f lists (base + n) bs

pub record BlockInv (v : Pages) (lists : ℕ → List ℕ) (blocks : List Block) : Type 0 where
  pub words : (i : ℕ) → v.regions i ≡ word_at blocks i
  pub owned : Owned v.items lists 0 blocks
  pub listed : (c p : ℕ) → has p (lists c) ≡ true → has p (items_of blocks) ≡ true
  pub once : Distinct (items_of blocks)
  pub small : total blocks < max_pages

-- The state stands for these blocks.
pub record Inv (v : Pages) (blocks : List Block) : Type 0 where
  pub lists : ℕ → List ℕ
  pub pool : List ℕ
  pub list_inv : ListInv v lists pool
  pub block_inv : BlockInv v lists blocks

pub has-append : (p : ℕ) (xs ys : List ℕ) → has p (xs ++ ys) ≡ (has p xs || has p ys)
has-append p [] ys = refl
has-append p (x ∷ xs) ys = ground (arith, has-append p xs ys)

pub items_of-append : (xs ys : List Block) → items_of (xs ++ ys) ≡ items_of xs ++ items_of ys
items_of-append [] ys = refl
items_of-append (free p n ∷ xs) ys = ap (λ l. p ∷ l) (items_of-append xs ys)
items_of-append (busy a n ∷ xs) ys = items_of-append xs ys
items_of-append (limbo w z n ∷ xs) ys = items_of-append xs ys

-- No item is in both lists.
abbrev pub Apart : List ℕ → List ℕ → Type 0
Apart xs ys = (p : ℕ) → has p xs ≡ true → has p ys ≡ false

pub Distinct-append :
    (xs ys : List ℕ) → Distinct xs → Distinct ys → Apart xs ys → Distinct (xs ++ ys)
Distinct-append [] ys d e a = e
Distinct-append (x ∷ xs) ys d e a = (
  ground (arith, has-append x xs ys, a x),
  Distinct-append xs ys d.1 e (λ p i. a p (ground arith)),
)

pub append-Distinct :
    (xs ys : List ℕ) → Distinct (xs ++ ys) → Distinct xs × Distinct ys × Apart xs ys
append-Distinct [] ys d = (tt, d, λ p i. absurd (ground arith))
append-Distinct (x ∷ xs) ys d =
    let (dx, dy, a) = append-Distinct xs ys d.1 in
    ((ground (arith, has-append x xs ys, d.0), dx), dy, λ p i. apart p i a)
  where
    apart : (p : ℕ) → has p (x ∷ xs) ≡ true → Apart xs ys → has p ys ≡ false
    apart p i a = ground (arith, has-append x xs ys, d.0, a p)

module _ (f : ℕ → Item) (lists : ℕ → List ℕ) where
  pub Owned-append :
      (base : ℕ) (xs ys : List Block)
      → Owned f lists base xs
      → Owned f lists (base + total xs) ys
      → Owned f lists base (xs ++ ys)
  Owned-append base [] ys o k = let e : base + 0 ≡ base = omega arith in rw e at k
  Owned-append base (free p n ∷ xs) ys (a, b, c, d, o) k =
      let e : base + (n + total xs) ≡ base + n + total xs = omega arith in
      (a, b, c, d, Owned-append (base + n) xs ys o (rw e at k))
  Owned-append base (busy a n ∷ xs) ys (b, o) k =
      let e : base + (n + total xs) ≡ base + n + total xs = omega arith in
      (b, Owned-append (base + n) xs ys o (rw e at k))
  Owned-append base (limbo w z n ∷ xs) ys (b, o) k =
      let e : base + (n + total xs) ≡ base + n + total xs = omega arith in
      (b, Owned-append (base + n) xs ys o (rw e at k))

  pub append-Owned :
      (base : ℕ) (xs ys : List Block)
      → Owned f lists base (xs ++ ys)
      → Owned f lists base xs × Owned f lists (base + total xs) ys
  append-Owned base [] ys o = let e : base + 0 ≡ base = omega arith in (tt, rw e o)
  append-Owned base (free p n ∷ xs) ys (a, b, c, d, o) =
      let e : base + (n + total xs) ≡ base + n + total xs = omega arith in
      let (l, r) = append-Owned (base + n) xs ys o in ((a, b, c, d, l), rw e r)
  append-Owned base (busy a n ∷ xs) ys (b, o) =
      let e : base + (n + total xs) ≡ base + n + total xs = omega arith in
      let (l, r) = append-Owned (base + n) xs ys o in ((b, l), rw e r)
  append-Owned base (limbo w z n ∷ xs) ys (b, o) =
      let e : base + (n + total xs) ≡ base + n + total xs = omega arith in
      let (l, r) = append-Owned (base + n) xs ys o in ((b, l), rw e r)

  -- An item of a block is in a list.
  pub Owned-has :
      (base p : ℕ) (bs : List Block)
      → Owned f lists base bs
      → has p (items_of bs) ≡ true
      → (c : ℕ) × (has p (lists c) ≡ true)
  Owned-has base p [] o h = absurd (ground arith)
  Owned-has base p (free q n ∷ bs) (a, b, c, d, o) h = elim (Bool-cases (p == q)) [
    | inl self ↦ (size_class n, rw ((==_iff p q).0 self) b)
    | inr other ↦ Owned-has (base + n) p bs o (ground arith)
  ]
  Owned-has base p (busy a n ∷ bs) (b, o) h = Owned-has (base + n) p bs o h
  Owned-has base p (limbo w z n ∷ bs) (b, o) h = Owned-has (base + n) p bs o h

  -- Blocks whose items keep their size, place and lists are owned as before.
  pub Owned-frame :
      (g : ℕ → Item) (lists' : ℕ → List ℕ) (base : ℕ) (bs : List Block)
      → ((p : ℕ)
          → has p (items_of bs) ≡ true
          → ((g p).num_pages ≡ (f p).num_pages)
            × ((g p).page_base ≡ (f p).page_base)
            × ((c : ℕ) → has p (lists c) ≡ true → has p (lists' c) ≡ true))
      → Owned f lists base bs
      → Owned g lists' base bs
  Owned-frame g lists' base [] same o = tt
  Owned-frame g lists' base (free p n ∷ bs) same (a, b, c, d, o) =
      let (sn, sb, sl) = same p (ground arith) in
      (
        a,
        sl (size_class n) b,
        sn ∙ c,
        sb ∙ d,
        Owned-frame g lists' (base + n) bs (λ q i. same q (ground arith)) o,
      )
  Owned-frame g lists' base (busy a n ∷ bs) same (b, o) =
      (b, Owned-frame g lists' (base + n) bs same o)
  Owned-frame g lists' base (limbo w z n ∷ bs) same (b, o) =
      (b, Owned-frame g lists' (base + n) bs same o)
