-- ===== src/Vmm/Tidy.antt =====
-- Lists of blocks in which no two free blocks are neighbours, as `freePages` leaves them.
use shmdos.Prelude.{
  ℕ, ◌+◌, ◌-◌, ◌≤◌, ◌≡◌, refl, ap, ◌∙◌, ◌&&◌, inl, inr, Bool, true, false, List, [], ◌∷◌, ◌++◌,
  arith, ◌==◌, Bool-cases, ==_iff, if◌then◌else◌,
}
use shmdos.Vmm.Blocks.{Block, free, busy, limbo, total, total-append}
use shmdos.Vmm.Free.Spec.{
  Settled, strip_last, strip_first, freed, LastOf, none_left, free_left, busy_left, last_of,
}
use shmdos.Vmm.Alloc.Correct.{leftover}

abbrev pub is_free : Block → Bool
is_free (free p n) = true
is_free (busy a n) = false
is_free (limbo w z n) = false

abbrev pub starts_free : List Block → Bool
starts_free [] = false
starts_free (b ∷ bs) = is_free b

abbrev pub ends_free : List Block → Bool
ends_free [] = false
ends_free (b ∷ []) = is_free b
ends_free (b ∷ c ∷ bs) = ends_free (c ∷ bs)

-- Every block is free or busy, and a free block is as large as it can be.
abbrev pub IsTidy : List Block → Type 0
IsTidy [] = Unit {0}
IsTidy (free p n ∷ bs) = (starts_free bs ≡ false) × IsTidy bs
IsTidy (busy a n ∷ bs) = IsTidy bs
IsTidy (limbo w z n ∷ bs) = ⊥

pub IsTidy-Settled : (bs : List Block) → IsTidy bs → Settled bs
IsTidy-Settled [] t = tt
IsTidy-Settled (free p n ∷ bs) t = IsTidy-Settled bs t.1
IsTidy-Settled (busy a n ∷ bs) t = IsTidy-Settled bs t
IsTidy-Settled (limbo w z n ∷ bs) t = absurd t

-- Two tidy lists are tidy together if they do not meet at two free blocks.
pub append-IsTidy :
    (xs ys : List Block)
    → IsTidy xs
    → IsTidy ys
    → (ends_free xs && starts_free ys) ≡ false
    → IsTidy (xs ++ ys)
append-IsTidy [] ys t u apart = u
append-IsTidy (free p n ∷ []) ys t u apart = (apart, u)
append-IsTidy (busy a n ∷ []) ys t u apart = u
append-IsTidy (limbo w z n ∷ []) ys t u apart = absurd t
append-IsTidy (free p n ∷ c ∷ xs) ys t u apart = (t.0, append-IsTidy (c ∷ xs) ys t.1 u apart)
append-IsTidy (busy a n ∷ c ∷ xs) ys t u apart = append-IsTidy (c ∷ xs) ys t u apart
append-IsTidy (limbo w z n ∷ c ∷ xs) ys t u apart = absurd t

pub IsTidy-append :
    (xs ys : List Block)
    → IsTidy (xs ++ ys)
    → IsTidy xs × IsTidy ys × ((ends_free xs && starts_free ys) ≡ false)
IsTidy-append [] ys t = (tt, t, refl)
IsTidy-append (free p n ∷ []) ys t = ((refl, tt), t.1, t.0)
IsTidy-append (busy a n ∷ []) ys t = (tt, t, refl)
IsTidy-append (limbo w z n ∷ []) ys t = absurd t
IsTidy-append (free p n ∷ c ∷ xs) ys t =
    let (l, r, apart) = IsTidy-append (c ∷ xs) ys t.1 in ((t.0, l), r, apart)
IsTidy-append (busy a n ∷ c ∷ xs) ys t = IsTidy-append (c ∷ xs) ys t
IsTidy-append (limbo w z n ∷ c ∷ xs) ys t = absurd t

-- What is left without the free block at an end, and that it was there or not.
pub record Stripped (old new : List Block) (k : ℕ) (last : Bool) : Type 0 where
  pub tidy : IsTidy new
  pub end_busy : (if last then ends_free new else starts_free new) ≡ false
  pub same_total : total new + k ≡ total old

pub strip_first-IsTidy :
    (ys : List Block) → IsTidy ys → Stripped ys (strip_first ys).0 (strip_first ys).1 false
unfolding strip_first
strip_first-IsTidy [] t = record { tidy = tt; end_busy = refl; same_total = refl }
strip_first-IsTidy (free p n ∷ ys) t = record {
  tidy = t.1;
  end_busy = t.0;
  same_total = omega arith;
}
strip_first-IsTidy (busy a n ∷ ys) t = record {
  tidy = t;
  end_busy = refl;
  same_total = omega arith;
}
strip_first-IsTidy (limbo w z n ∷ ys) t = absurd t

pub ends_free-last : (xs : List Block) (b : Block) → ends_free (xs ++ (b ∷ [])) ≡ is_free b
ends_free-last [] b = refl
ends_free-last (x ∷ []) b = refl
ends_free-last (x ∷ y ∷ xs) b = ends_free-last (y ∷ xs) b

pub strip_last-IsTidy :
    (xs : List Block) → IsTidy xs → Stripped xs (strip_last xs).0 (strip_last xs).1 true
strip_last-IsTidy xs t = by_last (last_of xs (IsTidy-Settled xs t))
  where
    by_last : LastOf xs → Stripped xs (strip_last xs).0 (strip_last xs).1 true
    by_last (none_left e s) =
        rw s (record { tidy = t; end_busy = rw e refl; same_total = omega arith })
    by_last (free_left us p n e s) =
        let (tu, tl, apart) = IsTidy-append us (free p n ∷ []) (rw e at t) in
        rw s (record {
          tidy = tu;
          end_busy = ground (arith, apart);
          same_total = omega (arith, ap total e, total-append us (free p n ∷ []));
        })
    by_last (busy_left us a n e s) = rw s (record {
      tidy = t;
      end_busy = ap ends_free e ∙ ends_free-last us (busy a n);
      same_total = omega arith;
    })

-- Freeing keeps the blocks tidy and their number of pages.
pub freed-IsTidy :
    (xs ys : List Block) (m item : ℕ)
    → IsTidy xs
    → IsTidy ys
    → IsTidy (freed xs m ys item) × (total (freed xs m ys item) ≡ total xs + m + total ys)
freed-IsTidy xs ys m item tx ty =
    let l = strip_last-IsTidy xs tx in
    let r = strip_first-IsTidy ys ty in
    let size = m + (strip_last xs).1 + (strip_first ys).1 in
    let sides = total-append (strip_last xs).0 (free item size ∷ (strip_first ys).0) in
    (
      append-IsTidy (strip_last xs).0 (free item size ∷ (strip_first ys).0) l.tidy
          (r.end_busy, r.tidy) (rw l.end_busy refl),
      omega (arith, l.same_total, r.same_total, sides),
    )

-- So does taking pages of a free block.
pub taken-IsTidy :
    (xs ys : List Block) (p k n item : ℕ)
    → n ≤ k
    → IsTidy (xs ++ ((free p k ∷ []) ++ ys))
    → IsTidy (xs ++ ((busy 0 n ∷ leftover item k n) ++ ys))
      × (total (xs ++ ((busy 0 n ∷ leftover item k n) ++ ys))
          ≡ total (xs ++ ((free p k ∷ []) ++ ys)))
taken-IsTidy xs ys p k n item le t =
    let (tx, ty, apart) = IsTidy-append xs (free p k ∷ ys) t in
    let before = total-append xs (free p k ∷ ys) in
    elim (Bool-cases (k == n)) [
      | inl all ↦ rw all (
        append-IsTidy xs (busy 0 n ∷ ys) tx ty.1 (ground arith),
        omega (arith, before, total-append xs (busy 0 n ∷ ys), (==_iff k n).0 all),
      )
      | inr part ↦ rw part (
        append-IsTidy xs (busy 0 n ∷ free item (k - n) ∷ ys) tx ty (ground arith),
        omega (arith, before, total-append xs (busy 0 n ∷ free item (k - n) ∷ ys)),
      )
    ]
