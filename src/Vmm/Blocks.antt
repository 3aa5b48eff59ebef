-- ===== src/Vmm/Blocks.antt =====
-- The abstract view of the region map: the pages, from the first on, as a list of blocks, and the
-- word that each page then has in `m_memoryRegions`.
use shmdos.Prelude.{
  ℕ, suc, ◌+◌, ◌-◌, ◌*◌, ◌≤◌, ◌<◌, ◌≡◌, refl, ◌||◌, true, false, inl, inr, List, [], ◌∷◌, ◌++◌,
  arith, ltb, ◌==◌, Bool-cases, if◌then◌else◌,
}
use shmdos.Vmm.Pages.{busy_flag}

-- A block of pages: free, with its item; busy, with its allocation flag; or, while `freePages` is at
-- work, of no kind, with any words at its first and last page.
pub data Block : Type 0 where
  free : (item size : ℕ) → Block
  busy : (flag size : ℕ) → Block
  limbo : (first last size : ℕ) → Block

abbrev pub block_size : Block → ℕ
block_size (free item n) = n
block_size (busy flag n) = n
block_size (limbo w z n) = n

-- The word of the i-th page of a block: a free one has its item at both ends, a busy one its size
-- and flags at the first page and the busy flag at the last.
abbrev pub block_word : Block → ℕ → ℕ
block_word (free item n) i = if i == 0 || suc i == n then item else 0
block_word (busy flag n) i =
    if i == 0 then n * 4096 + busy_flag + flag else (if suc i == n then busy_flag else 0)
block_word (limbo w z n) i = if i == 0 then w else (if suc i == n then z else 0)

-- The word of a page under these blocks; past the last block it is 0.
abbrev pub word_at : List Block → ℕ → ℕ
word_at [] i = 0
word_at (b ∷ bs) i = if ltb i (block_size b) then block_word b i else word_at bs (i - block_size b)

abbrev pub total : List Block → ℕ
total [] = 0
total (b ∷ bs) = block_size b + total bs

pub word_at-append :
    (xs ys : List Block) (i : ℕ)
    → word_at (xs ++ ys) i ≡ (if ltb i (total xs) then word_at xs i else word_at ys (i - total xs))
word_at-append [] ys i = ground arith
word_at-append (b ∷ bs) ys i = ground (arith, word_at-append bs ys (i - block_size b))

pub total-append : (xs ys : List Block) → total (xs ++ ys) ≡ total xs + total ys
total-append [] ys = omega arith
total-append (b ∷ bs) ys = omega (arith, total-append bs ys)

-- The words `f` of a map in which the blocks `old` have been exchanged for `new`: inside they are
-- those of `new`, outside those of the map `r` before.
pub word_at-replace :
    (xs old new ys : List Block) (f r : ℕ → ℕ)
    → total old ≡ total new
    → ((i : ℕ) → r i ≡ word_at (xs ++ (old ++ ys)) i)
    → ((i : ℕ) → i < total xs → f i ≡ r i)
    → ((j : ℕ) → j < total new → f (total xs + j) ≡ word_at new j)
    → ((i : ℕ) → total xs + total new ≤ i → f i ≡ r i)
    → (i : ℕ) → f i ≡ word_at (xs ++ (new ++ ys)) i
word_at-replace xs old new ys f r same h below inside above i =
    elim (Bool-cases (ltb i (total xs))) [
      | inl lo ↦
          let before = word_at-append xs (old ++ ys) i in
          let after = word_at-append xs (new ++ ys) i in
          rw (below i (ground arith), h i, before, after, lo) refl
      | inr hi ↦ elim (Bool-cases (ltb (i - total xs) (total new))) [
        | inl mid ↦
            let at : total xs + (i - total xs) ≡ i = ground arith in
            let found = inside (i - total xs) (ground arith) in
            let after = word_at-append xs (new ++ ys) i in
            let inner = word_at-append new ys (i - total xs) in
            rw (after, hi, inner, mid) (rw at at found)
        | inr out ↦
            let before = word_at-append xs (old ++ ys) i in
            let after = word_at-append xs (new ++ ys) i in
            let out' : ltb (i - total xs) (total old) ≡ false = rw same out in
            rw
              (
                above i (ground arith),
                h i,
                before,
                after,
                hi,
                word_at-append old ys (i - total xs),
                word_at-append new ys (i - total xs),
                out,
                out',
                same,
              )
              refl
      ]
    ]

-- The word of a page of the middle blocks.
pub word_at-middle :
    (xs mid ys : List Block) (j : ℕ)
    → j < total mid
    → word_at (xs ++ (mid ++ ys)) (total xs + j) ≡ word_at mid j
word_at-middle xs mid ys j lt =
    let e : total xs + j - total xs ≡ j = omega arith in
    let hi : ltb (total xs + j) (total xs) ≡ false = ground arith in
    let lo : ltb j (total mid) ≡ true = ground arith in
    rw (word_at-append xs (mid ++ ys) (total xs + j), hi, e, word_at-append mid ys j, lo) refl
