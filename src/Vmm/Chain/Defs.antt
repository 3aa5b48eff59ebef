-- ===== src/Vmm/Chain/Defs.antt =====
-- Lists of item pointers, and the lists that the items' links form.
use shmdos.Prelude.{ℕ, ◌≡◌, ◌≢◌, Bool, true, false, ◌||◌, List, [], ◌∷◌, arith, ◌==◌, if◌then◌else◌}
use shmdos.Vmm.Pages.{Item}

abbrev pub has : ℕ → List ℕ → Bool
has p [] = false
has p (x ∷ xs) = (p == x) || has p xs

abbrev pub Distinct : List ℕ → Type 0
Distinct [] = Unit {0}
Distinct (x ∷ xs) = (has x xs ≡ false) × Distinct xs

-- The list without the pointer `p`.
abbrev pub erase : ℕ → List ℕ → List ℕ
erase p [] = []
erase p (x ∷ xs) = if x == p then xs else x ∷ erase p xs

-- From `p` on the items `xs` follow one another, the first points back to `a`, the last ends.
abbrev pub Linked : (ℕ → Item) → ℕ → ℕ → List ℕ → Type 0
Linked items a p [] = p ≡ 0
Linked items a p (x ∷ xs) =
    (p ≡ x) × (x ≢ 0) × ((items x).prev ≡ a) × Linked items x (items x).next xs

-- The same for a whole list, whose head points back to anything.
abbrev pub Chain : (ℕ → Item) → ℕ → List ℕ → Type 0
Chain items p [] = p ≡ 0
Chain items p (x ∷ xs) = (p ≡ x) × (x ≢ 0) × Linked items x (items x).next xs

-- The links of the items of a list are as before.
abbrev pub SameLinks : (ℕ → Item) → (ℕ → Item) → List ℕ → Type 0
SameLinks f g xs = (y : ℕ) → has y xs ≡ true → ((g y).prev ≡ (f y).prev) × ((g y).next ≡ (f y).next)

module _ (f g : ℕ → Item) where
  pub SameLinks-tail : (x : ℕ) (xs : List ℕ) → SameLinks f g (x ∷ xs) → SameLinks f g xs
  SameLinks-tail x xs same y i = same y (ground arith)

  pub Linked-frame : (a p : ℕ) (xs : List ℕ) → SameLinks f g xs → Linked f a p xs → Linked g a p xs
  Linked-frame a p [] same l = l
  Linked-frame a p (x ∷ xs) same (e, ne, back, rest) =
      let (sp, sn) = same x (ground arith) in
      (e, ne, ground arith, rw sn (Linked-frame x (f x).next xs (SameLinks-tail x xs same) rest))

  pub Chain-frame : (p : ℕ) (xs : List ℕ) → SameLinks f g xs → Chain f p xs → Chain g p xs
  Chain-frame p [] same l = l
  Chain-frame p (x ∷ xs) same (e, ne, rest) =
      let (sp, sn) = same x (ground arith) in
      (e, ne, rw sn (Linked-frame x (f x).next xs (SameLinks-tail x xs same) rest))
