-- ===== src/Tlb/Queue.antt =====
-- The ring of items of a shootdown (kernel/paging.cpp), with what it is to hold.
use shmdos.Prelude.{
  ◌+◌, ◌-◌, ◌≤◌, ◌<◌, ◌≡◌, ◌≢◌, refl, sym, ap, subst, ◌∙◌, inl, inr, ◌==◌, ltb, Bool, true, false,
  Bool-cases, arith,
}
use shmdos.Tlb.{Item, Task, word_mod, update_tlb_limit, old_items, all_due, put_item, post}

pub record Bounded (t : Task) : Type 0 where
  pub order : t.read ≤ t.write
  pub room : t.write ≤ t.read + 63
  pub word : t.write < word_mod

pub old_items-count : (t : Task) → Bounded t → old_items t ≡ t.write - t.read
unfolding old_items
old_items-count t b = let o = b.order in let r = b.room in let w = b.word in omega arith

-- Which of its three ways a post goes.
pub data Posted (t : Task) (item : Item) : Task × Bool → Type 0 where
  nothing : t.need_full ≡ true → Posted t item (t, false)
  everything : t.need_full ≡ false → Posted t item (all_due t, old_items t == 0)
  added :
      t.need_full ≡ false
      → old_items t ≢ 63
      → item.size < update_tlb_limit
      → Posted t item (put_item t item, old_items t == 0)

pub post-full : (t : Task) (item : Item) → t.need_full ≡ true → post t item ≡ (t, false)
unfolding post
post-full t item full = rw full refl

post-many :
    (t : Task) (item : Item)
    → t.need_full ≡ false
    → (old_items t == 63) ≡ true
    → post t item ≡ (all_due t, old_items t == 0)
unfolding post old_items
post-many t item free many = rw (free, many) refl

post-few :
    (t : Task) (item : Item)
    → t.need_full ≡ false
    → (old_items t == 63) ≡ false
    → ltb item.size update_tlb_limit ≡ false
    → post t item ≡ (all_due t, old_items t == 0)
unfolding post old_items
post-few t item free few large = rw (free, few, large) refl

pub post-small :
    (t : Task) (item : Item)
    → t.need_full ≡ false
    → (old_items t == 63) ≡ false
    → ltb item.size update_tlb_limit ≡ true
    → post t item ≡ (put_item t item, old_items t == 0)
unfolding post old_items
post-small t item free few small = rw (free, few, small) refl

pub post-large :
    (t : Task) (item : Item)
    → t.need_full ≡ false
    → old_items t ≢ 0
    → update_tlb_limit ≤ item.size
    → post t item ≡ (all_due t, false)
post-large t item free some_wait large =
    let size : ltb item.size update_tlb_limit ≡ false = ground (arith, large) in
    let count : (old_items t == 0) ≡ false = ground (arith, some_wait) in
    let all : post t item ≡ (all_due t, old_items t == 0) = elim (Bool-cases (old_items t == 63)) [
      | inl many ↦ post-many t item free many
      | inr few ↦ post-few t item free few size
    ] in
    all ∙ ap (λ b. (all_due t, b)) count

pub post-Posted : (t : Task) (item : Item) → Posted t item (post t item)
post-Posted t item = elim (Bool-cases t.need_full) [
  | inl full ↦ subst (Posted t item) (sym (post-full t item full)) (nothing full)
  | inr free ↦ elim (Bool-cases (old_items t == 63)) [
    | inl many ↦ subst (Posted t item) (sym (post-many t item free many)) (everything free)
    | inr few ↦ elim (Bool-cases (ltb item.size update_tlb_limit)) [
      | inl small ↦
          subst (Posted t item) (sym (post-small t item free few small))
            (added free (ground (arith, few)) (ground (arith, small)))
      | inr large ↦ subst (Posted t item) (sym (post-few t item free few large)) (everything free)
    ]
  ]
]
