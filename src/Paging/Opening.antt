-- ===== src/Paging/Opening.antt =====
-- Opening the child of a table: `accessToChildDir` of kernel/paging.cpp, on every branch.
use shmdos.Prelude.{
  ℕ, suc, ◌+◌, ◌*◌, ◌<◌, ◌≡◌, ◌≢◌, refl, sym, ap, ◌∙◌, ◌⊎◌, inl, inr, ◌==◌, true, false, Bool-cases,
  ==_iff, some, List, [], ◌∷◌, arith,
}
use shmdos.Paging.Walk.{Walk, frame_of, put, clear, new_child, access_to_child_dir}
use shmdos.Paging.Owned.{
  Owner, Free, claim, Grows, Owned, Opened, ChildResult, frame_of-flags, Free-claim, Grows-claim,
}

not_equal : (a b : ℕ) → a ≢ b → (a == b) ≡ false
not_equal a b h = ground (arith, h)

unequal : (a b : ℕ) → (a == b) ≡ false → a ≢ b
unequal a b e = ground arith

equal : (a : ℕ) → (a == a) ≡ true
equal a = ground arith

module _ {K : Type 0} (o : Owner) (w : Walk K) (d b i flags : ℕ) where
  -- The child is there.
  Opened-old :
      Owned o w
      → o.rank d ≡ suc (suc b)
      → i < 512
      → w.table d i ≢ 0
      → Opened o o w w d b i (frame_of (w.table d i))
  Opened-old h r lt ne = record {
    owned = h;
    rank_c = h.child_rank d b i r lt ne;
    prefix_c = h.child_prefix d b i r lt ne;
    entry_ne = ne;
    entry_c = refl;
    grows = λ e known. (refl, refl);
    same = λ e j known other. refl;
    stays = λ present. refl;
    kept_same = refl;
    shootdown_same = refl;
    blank = λ none_there. absurd (ne none_there);
  }

  module _ (f : ℕ) (fs : List ℕ) where
    entry : ℕ
    entry = f * 4096 + flags

    new_owner : Owner
    new_owner = claim o f (suc b) (o.prefix d * 512 + i)

    new_walk : Walk K
    new_walk = put (clear (record w { frames = fs }) f) d i entry

    module _ (h : Owned o w) (r : o.rank d ≡ suc (suc b)) (lt : i < 512) (small : flags < 4096)
        (some_flag : flags ≢ 0) (empty : w.table d i ≡ 0) (available : w.frames ≡ f ∷ fs) where
      free_f : Free o (f ∷ fs)
      free_f = rw available at h.free

      apart : (e : ℕ) → o.rank e ≢ 0 → e ≢ f
      apart e known same = known (rw same free_f.1)

      new_here : new_walk.table d i ≡ entry
      unfolding new_walk
      new_here = rw (equal d, equal i) refl

      apart_d : d ≢ f
      apart_d = apart d (λ e. omega (arith, e, r))

      new_there : (e j : ℕ) → o.rank e ≢ 0 → (e ≢ d) ⊎ (j ≢ i) → new_walk.table e j ≡ w.table e j
      unfolding new_walk
      new_there e j known other = elim (Bool-cases (e == d)) [
        | inl same ↦ elim other [
          | inl ne ↦ absurd (ne ((==_iff e d).0 same))
          | inr ne ↦
              rw (same, not_equal j i ne, not_equal d f apart_d)
                (ap (λ x. w.table x j) (sym ((==_iff e d).0 same)))
        ]
        | inr else_where ↦ rw (else_where, not_equal e f (apart e known)) refl
      ]

      new_blank : (j : ℕ) → new_walk.table f j ≡ 0
      unfolding new_walk
      new_blank j = rw (not_equal f d (λ e. apart_d (sym e)), equal f) refl

      frame_of-entry : frame_of entry ≡ f
      unfolding entry
      frame_of-entry = frame_of-flags f flags free_f.0 small

      claimed : (new_owner.rank f ≡ suc b) × (new_owner.prefix f ≡ o.prefix d * 512 + i)
      unfolding new_owner
      claimed = (rw (equal f) refl, rw (equal f) refl)

      grown : Grows o new_owner
      unfolding new_owner
      grown = Grows-claim o f (suc b) (o.prefix d * 512 + i) free_f.1

      -- An entry of an inner table is the new one, or an old one, or 0.
      new_entry :
          (e a j : ℕ)
          → new_owner.rank e ≡ suc (suc a)
          → new_walk.table e j ≢ 0
          → ((e ≡ d) × (j ≡ i)) ⊎ ((o.rank e ≡ suc (suc a)) × (new_walk.table e j ≡ w.table e j))
      unfolding new_owner
      new_entry e a j re ne = elim (Bool-cases (e == f)) [
        | inl same ↦ absurd (ne (ap (λ x. new_walk.table x j) ((==_iff e f).0 same) ∙ new_blank j))
        | inr other ↦ elim (Bool-cases (e == d)) [
          | inl at_d ↦ elim (Bool-cases (j == i)) [
            | inl at_i ↦ inl ((==_iff e d).0 at_d, (==_iff j i).0 at_i)
            | inr off ↦
                inr (old_rank other, new_there e j (old_known other) (inr (unequal j i off)))
          ]
          | inr off ↦ inr (old_rank other, new_there e j (old_known other) (inl (unequal e d off)))
        ]
      ]
        where
          old_rank : (e == f) ≡ false → o.rank e ≡ suc (suc a)
          old_rank other = rw other at re

          old_known : (e == f) ≡ false → o.rank e ≢ 0
          old_known other z = omega (arith, old_rank other, z)

      frame_here : (e j : ℕ) → e ≡ d → j ≡ i → frame_of (new_walk.table e j) ≡ f
      frame_here e j ed ji =
          ap (λ x. frame_of (new_walk.table x j)) ed
          ∙ ap (λ y. frame_of (new_walk.table d y)) ji
          ∙ ap frame_of new_here
          ∙ frame_of-entry

      d_known : o.rank d ≢ 0
      d_known z = omega (arith, r, z)

      same_rank : (e a : ℕ) → e ≡ d → new_owner.rank e ≡ suc (suc a) → suc b ≡ suc a
      same_rank e a ed re = omega (arith, sym re ∙ ap new_owner.rank ed ∙ (grown d d_known).0 ∙ r)

      free_new : Free new_owner new_walk.frames
      unfolding new_owner new_walk
      free_new = Free-claim o f (suc b) (o.prefix d * 512 + i) fs free_f.2 free_f.3

      Owned-new : Owned new_owner new_walk
      Owned-new = record { child_rank = child_rank; child_prefix = child_prefix; free = free_new }
        where
          child_rank :
              (e a j : ℕ)
              → new_owner.rank e ≡ suc (suc a)
              → j < 512
              → new_walk.table e j ≢ 0
              → new_owner.rank (frame_of (new_walk.table e j)) ≡ suc a
          child_rank e a j re lt' ne = elim (new_entry e a j re ne) [
            | inl (ed, ji) ↦
                ap new_owner.rank (frame_here e j ed ji) ∙ claimed.0 ∙ same_rank e a ed re
            | inr (oe, old) ↦
                let g = h.child_rank e a j oe lt' (λ z. ne (old ∙ z)) in
                ap (λ x. new_owner.rank (frame_of x)) old
                ∙ (grown (frame_of (w.table e j)) (λ z. omega (arith, g, z))).0
                ∙ g
          ]

          child_prefix :
              (e a j : ℕ)
              → new_owner.rank e ≡ suc (suc a)
              → j < 512
              → new_walk.table e j ≢ 0
              → new_owner.prefix (frame_of (new_walk.table e j)) ≡ new_owner.prefix e * 512 + j
          child_prefix e a j re lt' ne = elim (new_entry e a j re ne) [
            | inl (ed, ji) ↦
                ap new_owner.prefix (frame_here e j ed ji)
                ∙ claimed.1
                ∙ omega (arith, ap new_owner.prefix ed, (grown d d_known).1, ji)
            | inr (oe, old) ↦
                let known : o.rank e ≢ 0 = λ z. omega (arith, oe, z) in
                let g = h.child_rank e a j oe lt' (λ z. ne (old ∙ z)) in
                let q = h.child_prefix e a j oe lt' (λ z. ne (old ∙ z)) in
                ap (λ x. new_owner.prefix (frame_of x)) old
                ∙ (grown (frame_of (w.table e j)) (λ z. omega (arith, g, z))).1
                ∙ q
                ∙ ap (λ x. x * 512 + j) (sym (grown e known).1)
          ]

      Opened-new : Opened o new_owner w new_walk d b i f
      unfolding new_walk entry
      Opened-new = record {
        owned = Owned-new;
        rank_c = claimed.0;
        prefix_c = claimed.1;
        entry_ne = λ z. some_flag (omega (arith, sym new_here ∙ z));
        entry_c = frame_here d i refl refl;
        grows = grown;
        same = new_there;
        stays = λ ne. absurd (ne empty);
        kept_same = refl;
        shootdown_same = refl;
        blank = λ z. (free_f.1, new_blank);
      }

List-cases : (xs : List ℕ) → (xs ≡ []) ⊎ ((f : ℕ) × (fs : List ℕ) × (xs ≡ f ∷ fs))
List-cases [] = inl refl
List-cases (f ∷ fs) = inr (f, fs, refl)

-- Opening a child in a state whose tables are owned ends in a panic, or opens it.
pub access_to_child_dir-ChildResult :
    {K : Type 0} (o : Owner) (w : Walk K) (d b i flags : ℕ)
    → Owned o w
    → o.rank d ≡ suc (suc b)
    → i < 512
    → flags < 4096
    → ChildResult o w d b i flags
unfolding access_to_child_dir new_child new_walk entry
access_to_child_dir-ChildResult o w d b i flags h r lt small =
    elim (Bool-cases (w.table d i == 0)) [
      | inr there ↦
          ChildResult.opens (frame_of (w.table d i)) w o (rw there refl)
            (Opened-old o w d b i flags h r lt (unequal (w.table d i) 0 there))
      | inl empty ↦ elim (Bool-cases (flags == 0)) [
        | inl clear_flags ↦ ChildResult.panics (rw (empty, clear_flags) refl)
        | inr some_flag ↦ elim (List-cases w.frames) [
          | inl used_up ↦ ChildResult.panics (rw (empty, some_flag, used_up) refl)
          | inr (f, fs, available) ↦
              let z = (==_iff (w.table d i) 0).0 empty in
              let child =
                frame_of-entry o w d b i flags f fs h r lt small (unequal flags 0 some_flag) z
                  available in
              ChildResult.opens f (new_walk o w d b i flags f fs) (new_owner o w d b i flags f fs)
                (rw (empty, some_flag, available)
                  (ap (λ x. some (x, new_walk o w d b i flags f fs)) child))
                (Opened-new o w d b i flags f fs h r lt small (unequal flags 0 some_flag) z
                  available)
        ]
      ]
    ]
