-- ===== src/Vmm/Free/Steps.antt =====
-- The two joins of `freePages`, whatever stands beside the freed pages.
use shmdos.Prelude.{
  ℕ, ◌+◌, ◌-◌, ◌*◌, ◌≡◌, refl, ap, ◌∙◌, sym, subst, inl, inr, false, none, List, [], ◌∷◌, ◌++◌,
  arith, ltb, ◌==◌, Bool-cases, if◌then◌else◌,
}
use mathlib.Core.List.{append_assoc}
use native.Mathlib.Nat.{add_comm}
use shmdos.Vmm.Pages.{Pages, Merge, busy_flag, free_neighbour, merge_before, merge_after}
use shmdos.Vmm.Blocks.{
  Block, free, busy, limbo, total, total-append, word_at, word_at-middle, word_at-append,
}
use shmdos.Vmm.Invariant.{append-Owned, Inv}
use shmdos.Vmm.Free.Spec.{
  Settled, strip_last, strip_first, LastOf, none_left, free_left, busy_left, last_of,
}
use shmdos.Vmm.Free.Before
use shmdos.Vmm.Free.After

-- A join gives a merge of this base and size, in a state of these blocks.
pub record Joined (m : Merge) (xs ys : List Block) (size : ℕ) : Type 0 where
  pub base_is : m.base ≡ total xs
  pub size_is : m.size ≡ size
  pub first : ℕ
  pub last : ℕ
  pub inv : Inv m.pages (xs ++ ((limbo first last size ∷ []) ++ ys))

-- The last word of a busy block leads to no item.
busy_word :
    (v : Pages) (xs zs : List Block) (a n : ℕ)
    → Inv v (xs ++ (busy a n ∷ zs))
    → free_neighbour (v.regions (total xs + n - 1)) ≡ none
busy_word v xs zs a n inv =
    let (ox, o) = append-Owned v.items inv.lists 0 xs (busy a n ∷ zs) inv.block_inv.owned in
    let last : total xs + n - 1 ≡ total xs + (n - 1) = omega (arith, o.0) in
    let mid = word_at-middle xs (busy a n ∷ []) zs (n - 1) (omega (arith, o.0)) in
    let word = inv.block_inv.words (total xs + (n - 1)) ∙ mid in
    rw (last, word) (ground (arith, o.0))

module _ (v : Pages) (ys : List Block) (w z m : ℕ) where
  before-none :
      (xs : List Block) (inv : Inv v (xs ++ ((limbo w z m ∷ []) ++ ys)))
      → merge_before v (total xs) m ≡ record { pages = v; base = total xs; size = m }
      → Joined (merge_before v (total xs) m) xs ys (m + 0)
  before-none xs inv e =
      let zero_right : m + 0 ≡ m = omega arith in
      rw (e, zero_right) (record { base_is = refl; size_is = refl; first = w; last = z; inv = inv })

  no_merge :
      (xs : List Block)
      → free_neighbour (v.regions (total xs - 1)) ≡ none
      → merge_before v (total xs) m ≡ record { pages = v; base = total xs; size = m }
  unfolding merge_before
  no_merge xs e = elim (Bool-cases (total xs == 0)) [
    | inl start ↦ rw start refl
    | inr later ↦ rw (later, e) refl
  ]

  before-cases :
      (xs : List Block)
      → LastOf xs
      → Inv v (xs ++ ((limbo w z m ∷ []) ++ ys))
      → Joined (merge_before v (total xs) m) (strip_last xs).0 ys (m + (strip_last xs).1)
  before-cases xs (none_left e s) inv =
      rw s (before-none xs inv (rw e (unfold merge_before in refl)))
  before-cases xs (free_left us p k e s) inv =
      let at : total xs ≡ total us + k =
        ap total e ∙ total-append us (free p k ∷ []) ∙ omega arith in
      let inv' : Inv v (us ++ ((free p k ∷ limbo w z m ∷ []) ++ ys)) =
        rw append_assoc at (rw e at inv) in
      rw (s, at, Before.merge_before-joined v us ys p k w z m inv')
        (record {
          base_is = refl;
          size_is = refl;
          first = p;
          last = if m == 1 then 0 else z;
          inv = rw (add_comm m k) (Before.joined-Inv v us ys p k w z m inv');
        })
  before-cases xs (busy_left us a k e s) inv =
      let at : total xs ≡ total us + k =
        ap total e ∙ total-append us (busy a k ∷ []) ∙ omega arith in
      let inv' : Inv v (us ++ (busy a k ∷ ((limbo w z m ∷ []) ++ ys))) =
        rw append_assoc at (rw e at inv) in
      rw s (
        before-none xs inv
          (no_merge xs (rw at (busy_word v us ((limbo w z m ∷ []) ++ ys) a k inv'))))

total-strip_last :
    (xs : List Block) → LastOf xs → total (strip_last xs).0 + (strip_last xs).1 ≡ total xs
total-strip_last xs (none_left e s) = rw s (omega arith)
total-strip_last xs (free_left us p k e s) =
    rw s (omega (arith, ap total e, total-append us (free p k ∷ [])))
total-strip_last xs (busy_left us a k e s) = rw s (omega arith)

-- No free region begins at the page `end`.
module _ (v : Pages) (xs ys : List Block) (w z s : ℕ)
    (inv : Inv v (xs ++ ((limbo w z s ∷ []) ++ ys))) where
  after-none :
      free_neighbour (v.regions (total xs + s)) ≡ none
      → Joined
          (merge_after (record { pages = v; base = total xs; size = s }) (total xs + s))
          xs
          ys
          (s + 0)
  unfolding merge_after
  after-none e =
      let zero_right : s + 0 ≡ s = omega arith in
      let kept : merge_after (record { pages = v; base = total xs; size = s }) (total xs + s)
          ≡ record { pages = v; base = total xs; size = s } =
        rw (e, merge_after) refl in
      rw (kept, zero_right)
        (record { base_is = refl; size_is = refl; first = w; last = z; inv = inv })

  word_after : (n : ℕ) → n ≡ word_at ys 0 → v.regions (total xs + s) ≡ n
  word_after n e =
      let here : word_at (limbo w z s ∷ ys) s ≡ word_at ys 0 = past in
      let far : total xs + s - total xs ≡ s = omega arith in
      let out : ltb (total xs + s) (total xs) ≡ false = ground arith in
      inv.block_inv.words (total xs + s)
      ∙ word_at-append xs (limbo w z s ∷ ys) (total xs + s)
      ∙ rw (out, far) (here ∙ sym e)
    where
      past : word_at (limbo w z s ∷ ys) s ≡ word_at ys 0
      past =
          let le : ltb s s ≡ false = ground arith in
          let zero_left : s - s ≡ 0 = omega arith in rw (le, zero_left) refl

after_step :
    (v : Pages) (xs ys : List Block) (w z s : ℕ)
    → Settled ys
    → Inv v (xs ++ ((limbo w z s ∷ []) ++ ys))
    → Joined
        (merge_after (record { pages = v; base = total xs; size = s }) (total xs + s))
        xs
        (strip_first ys).0
        (s + (strip_first ys).1)
unfolding strip_first
after_step v xs [] w z s ok inv =
    let word = word_after v xs [] w z s inv 0 refl in
    after-none v xs [] w z s inv (rw word (ground arith))
after_step v xs (free q k ∷ ys) w z s ok inv =
    rw (After.merge_after-joined v xs ys w z s q k inv) (record {
      base_is = refl;
      size_is = refl;
      first = if s == 1 then 0 else w;
      last = if k == 1 then 0 else q;
      inv = After.joined-Inv v xs ys w z s q k inv;
    })
after_step v xs (busy a n ∷ ys) w z s ok inv =
    let (ox, o) =
      append-Owned v.items inv.lists 0 xs (limbo w z s ∷ busy a n ∷ ys) inv.block_inv.owned in
    let first : n * 4096 + busy_flag + a ≡ word_at (busy a n ∷ ys) 0 = ground (arith, o.1.0) in
    let word = word_after v xs (busy a n ∷ ys) w z s inv (n * 4096 + busy_flag + a) first in
    after-none v xs (busy a n ∷ ys) w z s inv
      (rw word (Before.free_neighbour-busy n a (omega (arith, o.1.0))))
after_step v xs (limbo x y n ∷ ys) w z s ok inv = absurd ok

-- The two joins of `freePages` in a row.
module _ (v : Pages) (xs ys : List Block) (w z n : ℕ) (left : Settled xs) (right : Settled ys)
    (inv : Inv v (xs ++ ((limbo w z n ∷ []) ++ ys))) where
  grown : ℕ
  grown = n + (strip_last xs).1

  before : Joined (merge_before v (total xs) n) (strip_last xs).0 ys grown
  unfolding grown
  before = before-cases v ys w z n xs (last_of xs left) inv

  pub both_steps :
      Joined
        (merge_after (merge_before v (total xs) n) (total xs + n))
        (strip_last xs).0
        (strip_first ys).0
        (n + (strip_last xs).1 + (strip_first ys).1)
  unfolding grown
  both_steps =
      let j = before in
      let end : total xs + n ≡ total (strip_last xs).0 + grown =
        omega (arith, total-strip_last xs (last_of xs left)) in
      let shape : merge_before v (total xs) n ≡ record {
        pages = (merge_before v (total xs) n).pages;
        base = total (strip_last xs).0;
        size = grown;
      } =
        λ i. record {
          pages = (merge_before v (total xs) n).pages;
          base = j.base_is i;
          size = j.size_is i;
        } in
      let step =
        after_step (merge_before v (total xs) n).pages (strip_last xs).0 ys j.first j.last grown
          right j.inv in
      subst
        (λ m.
          Joined (merge_after m (total xs + n)) (strip_last xs).0 (strip_first ys).0
            (grown + (strip_first ys).1))
        (sym shape) (rw end step)
