-- ===== src/Vmm/Free/Spec.antt =====
-- What `freePages` promises of the blocks: the free neighbours of the freed block join it.
use shmdos.Prelude.{ℕ, ◌+◌, ◌≡◌, refl, ap, List, [], ◌∷◌, ◌++◌}
use shmdos.Vmm.Blocks.{Block, free, busy, limbo}

-- Every block is free or busy.
abbrev pub Settled : List Block → Type 0
Settled [] = Unit {0}
Settled (free p n ∷ bs) = Settled bs
Settled (busy a n ∷ bs) = Settled bs
Settled (limbo w z n ∷ bs) = ⊥

-- The size of a free block, 0 for another.
abbrev pub free_size : Block → ℕ
free_size (free p n) = n
free_size (busy a n) = 0
free_size (limbo w z n) = 0

-- The blocks without a free one at the end, and the pages of that.
unfoldable pub strip_last : List Block → List Block × ℕ
strip_last [] = ([], 0)
strip_last (free p n ∷ []) = ([], n)
strip_last (busy a n ∷ []) = (busy a n ∷ [], 0)
strip_last (limbo w z n ∷ []) = (limbo w z n ∷ [], 0)
strip_last (b ∷ c ∷ bs) = let (r, k) = strip_last (c ∷ bs) in (b ∷ r, k)

-- The blocks without a free one at the start, and the pages of that.
unfoldable pub strip_first : List Block → List Block × ℕ
strip_first [] = ([], 0)
strip_first (free p n ∷ bs) = (bs, n)
strip_first (busy a n ∷ bs) = (busy a n ∷ bs, 0)
strip_first (limbo w z n ∷ bs) = (limbo w z n ∷ bs, 0)

-- The blocks after the block of `m` pages between `xs` and `ys` has been freed.
abbrev pub freed : List Block → ℕ → List Block → ℕ → List Block
freed xs m ys item =
    (strip_last xs).0
    ++ ((free item (m + (strip_last xs).1 + (strip_first ys).1) ∷ []) ++ (strip_first ys).0)

-- How a settled list of blocks ends.
pub data LastOf (xs : List Block) : Type 0 where
  none_left : xs ≡ [] → strip_last xs ≡ (xs, 0) → LastOf xs
  free_left :
      (ys : List Block) (p n : ℕ) → xs ≡ ys ++ (free p n ∷ []) → strip_last xs ≡ (ys, n) → LastOf xs
  busy_left :
      (ys : List Block) (a n : ℕ) → xs ≡ ys ++ (busy a n ∷ []) → strip_last xs ≡ (xs, 0) → LastOf xs

cons-LastOf : (b c : Block) (cs : List Block) → LastOf (c ∷ cs) → LastOf (b ∷ c ∷ cs)
unfolding strip_last
cons-LastOf b c cs (none_left e s) = absurd (cc e)
cons-LastOf b c cs (free_left ys p n e s) =
    free_left (b ∷ ys) p n (ap (λ l. b ∷ l) e) (ap (λ r. (b ∷ r.0, r.1)) s)
cons-LastOf b c cs (busy_left ys a n e s) =
    busy_left (b ∷ ys) a n (ap (λ l. b ∷ l) e) (ap (λ r. (b ∷ r.0, r.1)) s)

pub last_of : (xs : List Block) → Settled xs → LastOf xs
unfolding strip_last
last_of [] ok = none_left refl refl
last_of (free p n ∷ []) ok = free_left [] p n refl refl
last_of (busy a n ∷ []) ok = busy_left [] a n refl refl
last_of (limbo w z n ∷ cs) ok = absurd ok
last_of (free p n ∷ c ∷ cs) ok = cons-LastOf (free p n) c cs (last_of (c ∷ cs) ok)
last_of (busy a n ∷ c ∷ cs) ok = cons-LastOf (busy a n) c cs (last_of (c ∷ cs) ok)
