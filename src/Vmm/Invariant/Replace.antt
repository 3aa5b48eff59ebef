-- ===== src/Vmm/Invariant/Replace.antt =====
-- The one way in which an operation changes the blocks: some in a row are exchanged for others.
use shmdos.Prelude.{
  ℕ, ◌+◌, ◌≤◌, ◌<◌, ◌≡◌, refl, ◌||◌, ◌⊎◌, inl, inr, true, false, List, ◌++◌, arith, Bool-cases,
}
use shmdos.Vmm.Pages.{Pages}
use shmdos.Vmm.Chain.{has, Distinct}
use shmdos.Vmm.Blocks.{Block, word_at, total, total-append, word_at-replace}
use shmdos.Vmm.Invariant.Defs.{
  items_of, max_pages, Owned, BlockInv, has-append, items_of-append, Apart, Distinct-append,
  append-Distinct, Owned-append, append-Owned, Owned-frame,
}

-- What an operation that exchanges `old` for `new` between `xs` and `ys` has to do.
pub record Exchange (v : Pages) (lists : ℕ → List ℕ) (v' : Pages) (lists' : ℕ → List ℕ)
    (xs old new ys : List Block) : Type 0 where
  pub same_total : total old ≡ total new
  pub below : (i : ℕ) → i < total xs → v'.regions i ≡ v.regions i
  pub inside : (j : ℕ) → j < total new → v'.regions (total xs + j) ≡ word_at new j
  pub above : (i : ℕ) → total xs + total new ≤ i → v'.regions i ≡ v.regions i
  pub kept :
      (p : ℕ)
      → (has p (items_of xs) || has p (items_of ys)) ≡ true
      → has p (items_of old) ≡ false
      → ((v'.items p).num_pages ≡ (v.items p).num_pages)
        × ((v'.items p).page_base ≡ (v.items p).page_base)
        × ((c : ℕ) → has p (lists c) ≡ true → has p (lists' c) ≡ true)
  pub new_owned : Owned v'.items lists' (total xs) new
  pub new_listed :
      (c p : ℕ)
      → has p (lists' c) ≡ true
      → (has p (items_of new) ≡ true) ⊎ ((has p (lists c) ≡ true) × (has p (items_of old) ≡ false))
  pub new_once : Distinct (items_of new)
  pub new_apart :
      (p : ℕ) → has p (items_of new) ≡ true → (has p (items_of xs) || has p (items_of ys)) ≡ false

module _ {v : Pages} {lists : ℕ → List ℕ} {v' : Pages} {lists' : ℕ → List ℕ}
    {xs old new ys : List Block} (inv : BlockInv v lists (xs ++ (old ++ ys)))
    (ex : Exchange v lists v' lists' xs old new ys) where
  split_items :
      (mid : List Block)
      → items_of (xs ++ (mid ++ ys)) ≡ items_of xs ++ (items_of mid ++ items_of ys)
  split_items mid = rw (items_of-append xs (mid ++ ys), items_of-append mid ys) refl

  parts : Distinct (items_of xs ++ (items_of old ++ items_of ys))
  parts = rw (split_items old) at inv.once

  Apart-xs : Apart (items_of xs) (items_of old ++ items_of ys)
  Apart-xs = (append-Distinct (items_of xs) (items_of old ++ items_of ys) parts).2

  parts_ys : Distinct (items_of old) × Distinct (items_of ys) × Apart (items_of old) (items_of ys)
  parts_ys =
      append-Distinct (items_of old) (items_of ys)
        (append-Distinct (items_of xs) (items_of old ++ items_of ys) parts).1

  not_old_xs : (p : ℕ) → has p (items_of xs) ≡ true → has p (items_of old) ≡ false
  not_old_xs p i = ground (arith, Apart-xs p i, has-append p (items_of old) (items_of ys))

  not_old_ys : (p : ℕ) → has p (items_of ys) ≡ true → has p (items_of old) ≡ false
  not_old_ys p i = elim (Bool-cases (has p (items_of old))) [
    | inl o ↦ ground (arith, parts_ys.2 p o)
    | inr o ↦ o
  ]

  owned' : Owned v'.items lists' 0 (xs ++ (new ++ ys))
  owned' =
      let (ox, o) = append-Owned v.items lists 0 xs (old ++ ys) inv.owned in
      let (oo, oy) = append-Owned v.items lists (0 + total xs) old ys o in
      let ox' =
        Owned-frame v.items lists v'.items lists' 0 xs
          (λ p i. ex.kept p (ground arith) (not_old_xs p i)) ox in
      let at : 0 + total xs + total old ≡ 0 + total xs + total new = rw ex.same_total in
      let oy' =
        Owned-frame v.items lists v'.items lists' (0 + total xs + total new) ys
          (λ p i. ex.kept p (ground arith) (not_old_ys p i)) (rw at at oy) in
      let zero_left : 0 + total xs ≡ total xs = omega arith in
      Owned-append v'.items lists' 0 xs (new ++ ys) ox'
        (Owned-append v'.items lists' (0 + total xs) new ys (rw zero_left ex.new_owned) oy')

  once' : Distinct (items_of (xs ++ (new ++ ys)))
  once' =
      let dx = (append-Distinct (items_of xs) (items_of old ++ items_of ys) parts).0 in
      rw (split_items new) (
        Distinct-append (items_of xs) (items_of new ++ items_of ys) dx
          (Distinct-append (items_of new) (items_of ys) ex.new_once parts_ys.1 new_ys) xs_new)
    where
      new_ys : Apart (items_of new) (items_of ys)
      new_ys p i = ground (arith, ex.new_apart p i)

      xs_new : Apart (items_of xs) (items_of new ++ items_of ys)
      xs_new p i = ground (
        arith,
        ex.new_apart p,
        Apart-xs p i,
        has-append p (items_of old) (items_of ys),
        has-append p (items_of new) (items_of ys),
      )

  listed' : (c p : ℕ) → has p (lists' c) ≡ true → has p (items_of (xs ++ (new ++ ys))) ≡ true
  listed' c p i = rw (split_items new) (elim (ex.new_listed c p i) [
    | inl in_new ↦ ground (
      arith,
      has-append p (items_of xs) (items_of new ++ items_of ys),
      has-append p (items_of new) (items_of ys),
    )
    | inr (in_list, not_old) ↦
        let was = rw (split_items old) at (inv.listed c p in_list) in
        ground (
          arith,
          was,
          has-append p (items_of xs) (items_of old ++ items_of ys),
          has-append p (items_of old) (items_of ys),
          has-append p (items_of xs) (items_of new ++ items_of ys),
          has-append p (items_of new) (items_of ys),
        )
  ])

  small' : total (xs ++ (new ++ ys)) < max_pages
  small' = omega (
    arith,
    inv.small,
    ex.same_total,
    total-append xs (old ++ ys),
    total-append old ys,
    total-append xs (new ++ ys),
    total-append new ys,
  )

  pub BlockInv-exchange : BlockInv v' lists' (xs ++ (new ++ ys))
  BlockInv-exchange = record {
    words =
        word_at-replace xs old new ys v'.regions v.regions ex.same_total inv.words ex.below
          ex.inside ex.above;
    owned = owned';
    listed = listed';
    once = once';
    small = small';
  }
