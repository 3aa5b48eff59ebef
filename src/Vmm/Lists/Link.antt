-- ===== src/Vmm/Lists/Link.antt =====
-- `addFreeRegion` puts its item at the head of the list of its class.
use shmdos.Prelude.{
  ℕ, ◌+◌, ◌-◌, ◌≡◌, ◌≢◌, refl, sym, ap, ◌∙◌, ◌⊎◌, inl, inr, true, false, ◌&&◌, List, [], ◌∷◌, arith,
  ltb, ◌==◌, Bool-cases, ==_iff, if◌then◌else◌, length, update,
}
use shmdos.Vmm.Pages.{Item, Pages, set_prev, size_class, take_item, link_item, add_free_region}
use shmdos.Vmm.Chain.{has, Distinct, Linked, Chain, SameLinks, Linked-frame, Chain-frame}
use shmdos.Vmm.Lists.Defs.{ListInv, Pool, IsItem, Pool-frame}
use shmdos.Vmm.Lists.Add.{Fresh, with_item, rest_of, take-Taken}

-- The items after the new head has been written and the old one points back to it.
pushed : (ℕ → Item) → (item base pages head : ℕ) → ℕ → Item
pushed f item base pages head =
    let g = update f item (record { num_pages = pages; page_base = base; prev = 0; next = head }) in
    if head == 0 then g else set_prev g head item

link-items :
    (v : Pages) (item base pages : ℕ)
    → (link_item v item base pages).items
      ≡ pushed v.items item base pages (v.table (size_class pages))
unfolding link_item pushed
link-items v item base pages = refl

pushed-fields :
    (f : ℕ → Item) (item base pages head : ℕ)
    → head ≢ item
    → ((pushed f item base pages head item).next ≡ head)
      × ((pushed f item base pages head item).num_pages ≡ pages)
      × ((pushed f item base pages head item).page_base ≡ base)
      × ((head ≢ 0) → (pushed f item base pages head head).prev ≡ item)
unfolding pushed
pushed-fields f item base pages head ne =
    (ground arith, ground arith, ground arith, λ nz. ground arith)

pushed-other :
    (f : ℕ → Item) (item base pages head y : ℕ)
    → y ≢ item
    → ((pushed f item base pages head y).next ≡ (f y).next)
      × ((pushed f item base pages head y).num_pages ≡ (f y).num_pages)
      × ((pushed f item base pages head y).page_base ≡ (f y).page_base)
      × (y ≢ head → (pushed f item base pages head y).prev ≡ (f y).prev)
unfolding pushed
pushed-other f item base pages head y ne =
    (ground arith, ground arith, ground arith, λ nz. ground arith)

-- The old list follows the new head.
pushed-Linked :
    (f : ℕ → Item) (item base pages head : ℕ) (xs : List ℕ)
    → Chain f head xs
    → has item xs ≡ false
    → item ≢ 0
    → Distinct xs
    → Linked (pushed f item base pages head) item head xs
pushed-Linked f item base pages head [] l out nz d = l
pushed-Linked f item base pages head (x ∷ xs) (e, ne, rest) out nz d = (
  e,
  ne,
  ap (λ z. (pushed f item base pages head z).prev) (sym e) ∙ back,
  rw same_next (Linked-frame f (pushed f item base pages head) x (f x).next xs same rest),
)
  where
    back : (pushed f item base pages head head).prev ≡ item
    back = (pushed-fields f item base pages head (ground arith)).3 (ground arith)

    same_next : (pushed f item base pages head x).next ≡ (f x).next
    same_next = (pushed-other f item base pages head x (ground arith)).0

    same : SameLinks f (pushed f item base pages head) xs
    same y i =
        let other = pushed-other f item base pages head y (ground arith) in
        (other.3 (ground arith), other.0)

module _ (v : Pages) (lists : ℕ → List ℕ) (pool : List ℕ) (inv : ListInv v lists pool) (item : ℕ)
    (fresh : Fresh v lists pool item) (base pages : ℕ) where
  k : ℕ
  k = size_class pages

  new : ℕ → Item
  unfolding k
  new = pushed v.items item base pages (v.table k)

  -- The head of the class is an item of its list, or null.
  head_in : (xs : List ℕ) (h : ℕ) → Chain v.items h xs → h ≢ 0 → has h xs ≡ true
  head_in [] h l nz = absurd (nz l)
  head_in (x ∷ xs) h (e, ne, rest) nz = ground arith

  head-ne : v.table k ≢ item
  unfolding k
  head-ne e =
      let nz : v.table k ≢ 0 = λ z. fresh.valid.0 (ground arith) in
      let in_list = head_in (lists k) (v.table k) (inv.chains k) nz in
      let out = fresh.unlisted k in cc (rw e at in_list)

  chains' : (c : ℕ) → Chain new (update v.table k item c) (with_item lists k item c)
  unfolding new
  chains' c = elim (Bool-cases (c == k)) [
    | inl at ↦ rw at (
      refl,
      fresh.valid.0,
      rw (pushed-fields v.items item base pages (v.table k) head-ne).0 (
          pushed-Linked v.items item base pages (v.table k) (lists k) (inv.chains k)
            (fresh.unlisted k) fresh.valid.0 (inv.distinct k)),
    )
    | inr other ↦ rw other (
        Chain-frame v.items (pushed v.items item base pages (v.table k)) (v.table c) (lists c)
          (same c (ground arith)) (inv.chains c))
  ]
    where
      not_head : (c y : ℕ) → c ≢ k → has y (lists c) ≡ true → y ≢ v.table k
      not_head c y ne i e =
          let nz : v.table k ≢ 0 = λ z. (inv.known c y i).0 (ground arith) in
          let in_list = head_in (lists k) (v.table k) (inv.chains k) nz in
          ne (inv.apart c k y i (rw e in_list))

      same :
          (c : ℕ) → c ≢ k → SameLinks v.items (pushed v.items item base pages (v.table k)) (lists c)
      same c ne y i =
          let y-ne : y ≢ item = λ e. ground (arith, fresh.unlisted c, i) in
          let other = pushed-other v.items item base pages (v.table k) y y-ne in
          (other.3 (not_head c y ne i), other.0)

  with-has :
      (c y : ℕ)
      → has y (with_item lists k item c) ≡ true
      → ((y ≡ item) × (c ≡ k)) ⊎ ((y ≢ item) × (has y (lists c) ≡ true))
  with-has c y h = elim (Bool-cases (y == item)) [
    | inl self ↦ inl ((==_iff y item).0 self, at c (rw ((==_iff y item).0 self) at h))
    | inr other ↦ inr (ground arith, ground arith)
  ]
    where
      at : (c : ℕ) → has item (with_item lists k item c) ≡ true → c ≡ k
      at c h = ground (arith, fresh.unlisted c)

  fields : (c y : ℕ) → has y (lists c) ≡ true → y ≢ item
  fields c y i e = ground (arith, fresh.unlisted c, i)

  apart' :
      (c d y : ℕ)
      → has y (with_item lists k item c) ≡ true
      → has y (with_item lists k item d) ≡ true
      → c ≡ d
  apart' c d y i j = elim (with-has c y i) [
    | inl (e, ec) ↦ elim (with-has d y j) [
      | inl (e', ed) ↦ ec ∙ sym ed
      | inr (ne, in_d) ↦ absurd (ne e)
    ]
    | inr (ne, in_c) ↦ elim (with-has d y j) [
      | inl (e', ed) ↦ absurd (ne e')
      | inr (ne', in_d) ↦ inv.apart c d y in_c in_d
    ]
  ]

  pool_apart' : (c y : ℕ) → has y pool ≡ true → has y (with_item lists k item c) ≡ false
  pool_apart' c y i = elim (Bool-cases (has y (with_item lists k item c))) [
    | inr out ↦ out
    | inl in_list ↦ elim (with-has c y in_list) [
      | inl (e, ec) ↦ absurd (ground (arith, fresh.unpooled, i))
      | inr (ne, in_c) ↦ absurd (ground (arith, inv.pool_apart c y i, in_c))
    ]
  ]

  pool_chain' : Pool new v.free_items pool
  unfolding new
  pool_chain' =
      Pool-frame v.items (pushed v.items item base pages (v.table k)) v.free_items pool
        (λ y i. (pushed-other v.items item base pages (v.table k) y (unpooled-ne y i)).0)
        inv.pool_chain
    where
      unpooled-ne : (y : ℕ) → has y pool ≡ true → y ≢ item
      unpooled-ne y i e = ground (arith, fresh.unpooled, i)

  -- The operation keeps the lists well formed: the item heads the list of its class.
  pub link-ListInv :
      ListInv (link_item v item base pages) (with_item lists (size_class pages) item) pool
  unfolding link_item new pushed k
  link-ListInv = record {
    chains = chains';
    counts = λ c. counts' c;
    distinct = λ c. distinct' c;
    apart = apart';
    known = λ c y i. known' c y (with-has c y i);
    pool_chain = pool_chain';
    pool_distinct = inv.pool_distinct;
    pool_known = inv.pool_known;
    pool_apart = pool_apart';
    start = inv.start;
  }
    where
      counts' :
          (c : ℕ) → update v.counters k (v.counters k + 1) c ≡ length (with_item lists k item c)
      counts' c = elim (Bool-cases (c == k)) [
        | inl at ↦ rw (at, inv.counts k) (omega arith)
        | inr other ↦ rw other (inv.counts c)
      ]

      distinct' : (c : ℕ) → Distinct (with_item lists k item c)
      distinct' c = elim (Bool-cases (c == k)) [
        | inl at ↦ rw at (fresh.unlisted k, inv.distinct k)
        | inr other ↦ rw other (inv.distinct c)
      ]

      known' :
          (c y : ℕ)
          → ((y ≡ item) × (c ≡ k)) ⊎ ((y ≢ item) × (has y (lists c) ≡ true))
          → IsItem v.items_start y
      known' c y (inl (e, ec)) = rw e fresh.valid
      known' c y (inr (ne, i)) = inv.known c y i

-- The words that `addFreeRegion` leaves.
abbrev pub free_words : (ℕ → ℕ) → ℕ → ℕ → ℕ → ℕ → ℕ
free_words r base pages item =
    let r' = update r base item in if ltb 1 pages then update r' (base + pages - 1) item else r'

-- What `addFreeRegion` does: an item of no list heads the list of the class, with the size and place
-- of the region, and is the word of its first and last page.
pub record Added (v : Pages) (lists : ℕ → List ℕ) (pool : List ℕ) (base pages : ℕ) (u : Pages)
    (item : ℕ) : Type 0 where
  pub inv : ListInv u (with_item lists (size_class pages) item) (rest_of pool)
  pub unlisted : (c : ℕ) → has item (lists c) ≡ false
  pub valid : IsItem u.items_start item
  pub size_is : (u.items item).num_pages ≡ pages
  pub base_is : (u.items item).page_base ≡ base
  pub other :
      (y : ℕ)
      → y ≢ item
      → ((u.items y).num_pages ≡ (v.items y).num_pages)
        × ((u.items y).page_base ≡ (v.items y).page_base)
  pub words : u.regions ≡ free_words v.regions base pages item

pub add-Added :
    (v : Pages) (lists : ℕ → List ℕ) (pool : List ℕ) (base pages : ℕ)
    → ListInv v lists pool
    → Added v lists pool base pages (add_free_region v base pages) (take_item v).0
unfolding add_free_region link_item k new pushed
add-Added v lists pool base pages inv =
    let t = take-Taken v lists pool inv in
    let v' = (take_item v).1 in
    let item = (take_item v).0 in
    let ne = head-ne v' lists (rest_of pool) t.inv item t.fresh base pages in
    let at = pushed-fields v'.items item base pages (v'.table (size_class pages)) ne in
    record {
      inv = link-ListInv v' lists (rest_of pool) t.inv item t.fresh base pages;
      unlisted = t.fresh.unlisted;
      valid = t.fresh.valid;
      size_is = at.1;
      base_is = at.2;
      other = λ y y-ne.
          let o = pushed-other v'.items item base pages (v'.table (size_class pages)) y y-ne in
          (
            o.1 ∙ ap (λ f. (f y).num_pages) t.same_items,
            o.2 ∙ ap (λ f. (f y).page_base) t.same_items,
          );
      words = ap (λ r. free_words r base pages item) t.same_regions;
    }

pub free_words-at :
    (r : ℕ → ℕ) (base pages item x : ℕ)
    → free_words r base pages item x
      ≡ (if ltb 1 pages && x == base + pages - 1 then item else (if x == base then item else r x))
free_words-at r base pages item x = ground arith
