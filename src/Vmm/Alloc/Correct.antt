-- ===== src/Vmm/Alloc/Correct.antt =====
-- What `allocPages` of kernel/VirtualMemoryManager.cpp does, on every branch that a class of at most
-- 32 regions leaves.
use shmdos.Prelude.{
  ℕ, zero, suc, ◌+◌, ◌-◌, ◌^◌, ◌≤◌, ◌<◌, ◌≡◌, refl, ap, ◌∙◌, sym, subst, inl, inr, true, false,
  Option, none, some, List, [], ◌∷◌, ◌++◌, arith, ltb, ◌==◌, Bool-cases, Option-cases, ==_iff,
  if◌then◌else◌, length, min,
}
use shmdos.Vmm.Pages.{
  Pages, Scan, exact, best, size_class, max_alloc_iterations, invalid_page_offset, scan_class,
  larger_class, first_fit, alloc_elsewhere, alloc_pages, split_region, whole_region,
}
use shmdos.Vmm.Chain.{has, Chain}
use shmdos.Vmm.Blocks.{Block, free, busy, total}
use shmdos.Vmm.Invariant.{Inv}
use shmdos.Vmm.Alloc.Whole
use shmdos.Vmm.Alloc.Split
use shmdos.Vmm.Alloc.Search.{
  Found, exact_fit, best_fit, no_fit, scan-Found, larger_class-some, larger_class-none,
  last_one_bit_monotone,
}
use shmdos.Vmm.Alloc.Locate.{locate, free_facts}

-- What is left of a free block of k pages after n of them are taken.
abbrev pub leftover : ℕ → ℕ → ℕ → List Block
leftover item k n = if k == n then [] else free item (k - n) ∷ []

-- The first n pages of a free block became busy, the rest stayed free.
pub record Taken (bs : List Block) (n : ℕ) (r : ℕ × Pages) : Type 0 where
  pub before : List Block
  pub after : List Block
  pub item : ℕ
  pub size : ℕ
  pub rest_item : ℕ
  pub was : bs ≡ before ++ ((free item size ∷ []) ++ after)
  pub fits : n ≤ size
  pub page_is : r.0 ≡ total before
  pub inv : Inv r.1 (before ++ ((busy 0 n ∷ leftover rest_item size n) ++ after))

-- No free block of a class that the table has is large enough.
abbrev pub NoneFits : Pages → List Block → ℕ → Type 0
NoneFits v bs n =
    (xs ys : List Block) (p k : ℕ)
    → bs ≡ xs ++ ((free p k ∷ []) ++ ys)
    → n ≤ k
    → v.table_size ≤ size_class k

-- The result of an allocation of n pages.
pub data Outcome (v : Pages) (bs : List Block) (n : ℕ) (r : ℕ × Pages) : Type 0 where
  taken : Taken bs n r → Outcome v bs n r
  refused : r ≡ (invalid_page_offset, v) → NoneFits v bs n → Outcome v bs n r

module _ (v : Pages) (bs : List Block) (n : ℕ) (inv : Inv v bs) (pos : 0 < n) where
  take_whole :
      (p : ℕ)
      → has p (inv.lists (size_class n)) ≡ true
      → (v.items p).num_pages ≡ n
      → Taken bs n (whole_region v (size_class n) p n)
  take_whole p h size =
      let l = locate v bs inv (size_class n) p h in
      let same : l.block.size ≡ n = sym l.size_is ∙ size in
      let was : bs ≡ l.block.before ++ ((free p n ∷ []) ++ l.block.after) =
        l.block.split ∙ ap (λ k. l.block.before ++ ((free p k ∷ []) ++ l.block.after)) same in
      let done = Whole.whole-Inv v l.block.before l.block.after p n (rw was at inv) in
      let all : (n == n) ≡ true = ground arith in
      record {
        before = l.block.before;
        after = l.block.after;
        item = p;
        size = n;
        rest_item = 0;
        was = was;
        fits = omega arith;
        page_is = done.0;
        inv = rw all done.1;
      }

  take_part :
      (c p d : ℕ)
      → has p (inv.lists c) ≡ true
      → (v.items p).num_pages ≡ n + d
      → 0 < d
      → Taken bs n (split_region v c p n d)
  take_part c p d h size more =
      let l = locate v bs inv c p h in
      let same : l.block.size ≡ n + d = sym l.size_is ∙ size in
      let was : bs ≡ l.block.before ++ ((free p (n + d) ∷ []) ++ l.block.after) =
        l.block.split ∙ ap (λ k. l.block.before ++ ((free p k ∷ []) ++ l.block.after)) same in
      let less : n < n + d = omega (arith, more) in
      let inv' = rw was at inv in
      let done = Split.split-Inv v l.block.before l.block.after p (n + d) inv' n pos less in
      let class_is : c ≡ size_class (n + d) = l.class_is ∙ ap size_class same in
      let rest : n + d - n ≡ d = omega arith in
      let some_left : (n + d == n) ≡ false = ground arith in
      let done' = rw rest at done in
      rw class_is (record {
        before = l.block.before;
        after = l.block.after;
        item = p;
        size = n + d;
        rest_item = Split.item v l.block.before l.block.after p (n + d) inv' n pos less;
        was = was;
        fits = omega arith;
        page_is = done'.0;
        inv = rw (some_left, rest) done'.1;
      })

  -- A list whose counter is not 0 has an item, the one that the table leads to.
  head_of : (c : ℕ) → 0 < v.counters c → has (v.table c) (inv.lists c) ≡ true
  head_of c more =
      head_in (inv.lists c) (inv.list_inv.chains c) (rw (inv.list_inv.counts c) at more)
    where
      head_in : (l : List ℕ) → Chain v.items (v.table c) l → 0 < length l → has (v.table c) l ≡ true
      head_in [] chain lt = absurd (omega arith)
      head_in (x ∷ l) chain lt = ground (arith, chain.0)

  small_items : (c p : ℕ) → has p (inv.lists c) ≡ true → (v.items p).num_pages < 2 ^ 40
  small_items c p h = let l = locate v bs inv c p h in rw l.size_is l.small

  -- A region of a class above that of n is large enough and leaves some pages.
  larger_fits :
      (c : ℕ)
      → size_class n < c
      → 0 < v.counters c
      → (d : ℕ) × ((v.items (v.table c)).num_pages ≡ n + d) × (0 < d)
  larger_fits c above more =
      let l = locate v bs inv c (v.table c) (head_of c more) in
      let big : n < l.block.size = elim (Bool-cases (ltb n l.block.size)) [
        | inl lt ↦ ground (arith, lt)
        | inr ge ↦
            let mono = last_one_bit_monotone 64 l.block.size n (ground (arith, ge)) in
            absurd (omega (arith, mono, l.class_is))
      ] in
      (l.block.size - n, l.size_is ∙ omega (arith, big), omega (arith, big))

  abbrev larger : Option ℕ
  larger = larger_class (v.table_size - (size_class n + 1)) v (size_class n + 1)

  elsewhere_some :
      (cur i : ℕ)
      → larger ≡ some i
      → alloc_elsewhere v n cur
        ≡ split_region v i (v.table i) n ((v.items (v.table i)).num_pages - n)
  unfolding alloc_elsewhere
  elsewhere_some cur i e = rw (e, alloc_elsewhere) refl

  first_fit_end : (k : ℕ) → first_fit k v.items n 0 ≡ none
  unfolding first_fit
  first_fit_end zero = refl
  first_fit_end (suc k) = refl

  elsewhere_none : larger ≡ none → alloc_elsewhere v n 0 ≡ (invalid_page_offset, v)
  unfolding alloc_elsewhere
  elsewhere_none e = rw (e, alloc_elsewhere, first_fit_end (v.counters (size_class n) + 1)) refl

  -- Without a fit in the class of n and a region above, no block of the table's classes is large
  -- enough.
  none_fits :
      larger ≡ none
      → ((p : ℕ) → has p (inv.lists (size_class n)) ≡ true → (v.items p).num_pages < n)
      → NoneFits v bs n
  none_fits e small xs ys p k was le =
      let (bounds, listed, size) = free_facts v bs inv xs ys p k was in
      let mono = last_one_bit_monotone 64 n k le in
      elim (Bool-cases (size_class k == size_class n)) [
        | inl same ↦
            let eq = (==_iff (size_class k) (size_class n)).0 same in
            let lt = small p (rw eq at listed) in absurd (omega (arith, lt, size))
        | inr other ↦ elim (Bool-cases (ltb (size_class k) v.table_size)) [
          | inr out ↦ ground (arith, out)
          | inl inside ↦
              let empty =
                larger_class-none (v.table_size - (size_class n + 1)) v (size_class n + 1)
                  (size_class k) e (ground (arith, mono, other))
                  (ground (arith, mono, other, inside)) in
              absurd (
                nothing_in (inv.lists (size_class k)) p
                  (sym (inv.list_inv.counts (size_class k)) ∙ empty) listed)
        ]
      ]
    where
      nothing_in : (l : List ℕ) (q : ℕ) → length l ≡ 0 → has q l ≡ true → ⊥
      nothing_in [] q z h = ground arith
      nothing_in (x ∷ l) q z h = omega (arith, z)

  elsewhere-Outcome :
      ((p : ℕ) → has p (inv.lists (size_class n)) ≡ true → (v.items p).num_pages < n)
      → Outcome v bs n (alloc_elsewhere v n 0)
  elsewhere-Outcome small = elim (Option-cases larger) [
    | inl e ↦ refused (elsewhere_none e) (none_fits e small)
    | inr (i, e) ↦
        let (more, above, below) = found_class i e in
        let (d, size, rest) = larger_fits i (omega (arith, above)) more in
        let excess : (v.items (v.table i)).num_pages - n ≡ d = omega (arith, size) in
        rw (elsewhere_some 0 i e, excess)
          (taken (take_part i (v.table i) d (head_of i more) size rest))
  ]
    where
      found_class :
          (i : ℕ)
          → larger ≡ some i
          → (0 < v.counters i)
            × (size_class n + 1 ≤ i)
            × (i < size_class n + 1 + (v.table_size - (size_class n + 1)))
      found_class i e =
          larger_class-some (v.table_size - (size_class n + 1)) v (size_class n + 1) i e

  scan_class-Found :
      v.counters (size_class n) ≤ max_alloc_iterations
      → Found v.items n (inv.lists (size_class n)) (scan_class v n)
  unfolding scan_class
  scan_class-Found few =
      let all : min (v.counters (size_class n)) max_alloc_iterations ≡ v.counters (size_class n) =
        omega (arith, few) in
      let count = inv.list_inv.counts (size_class n) in
      let chain = inv.list_inv.chains (size_class n) in
      let scanned =
        scan-Found v.items n (v.table (size_class n)) (inv.lists (size_class n)) chain
          (small_items (size_class n)) in
      elim (Bool-cases (length (inv.lists (size_class n)) == 0)) [
        | inl empty ↦ rw (all, count, empty) (no_fit invalid_page_offset (λ p h. nothing p empty h))
        | inr some_items ↦ rw (all, count, some_items) scanned
      ]
    where
      nothing_in : (l : List ℕ) (q : ℕ) → (length l == 0) ≡ true → has q l ≡ true → ⊥
      nothing_in [] q z h = ground arith
      nothing_in (x ∷ l) q z h = ground (arith, z)

      nothing :
          (p : ℕ)
          → (length (inv.lists (size_class n)) == 0) ≡ true
          → has p (inv.lists (size_class n)) ≡ true
          → (v.items p).num_pages < n
      nothing p z h = absurd (nothing_in (inv.lists (size_class n)) p z h)

  abbrev after_scan : Scan → ℕ × Pages
  after_scan (exact item) = whole_region v (size_class n) item n
  after_scan (best cur item delta) =
      if item == 0 then alloc_elsewhere v n cur else split_region v (size_class n) item n delta

  scan-Outcome :
      (s : Scan) → Found v.items n (inv.lists (size_class n)) s → Outcome v bs n (after_scan s)
  scan-Outcome _ (exact_fit p h size) = taken (take_whole p h size)
  scan-Outcome _ (best_fit p d h ne size more) =
      let some_item : (p == 0) ≡ false = ground arith in
      rw some_item (taken (take_part (size_class n) p d h size more))
  scan-Outcome _ (no_fit d small) = elsewhere-Outcome small

  -- In a state that stands for a list of blocks, and as long as the class of n > 0 has at most 32
  -- regions, the number that the first loop visits, allocating n pages either makes the first n pages of one free block of n or more pages busy, returns the first of
  -- them and leaves the rest of that block free, with every other block as it was, or returns
  -- INVALID_PAGE_OFFSET and changes nothing; it does the latter only if no free block of a class
  -- that the table has is as large.
  pub alloc_pages-Outcome :
      v.counters (size_class n) ≤ max_alloc_iterations → Outcome v bs n (alloc_pages v n)
  unfolding alloc_pages
  alloc_pages-Outcome few =
      subst (Outcome v bs n) shape (scan-Outcome (scan_class v n) (scan_class-Found few))
    where
      shape : after_scan (scan_class v n) ≡ alloc_pages v n
      shape = same (scan_class v n)
        where
          same :
              (s : Scan)
              → after_scan s ≡ elim s [
                | exact item ↦ whole_region v (size_class n) item n
                | best cur item delta ↦
                    if item == 0
                    then alloc_elsewhere v n cur
                    else split_region v (size_class n) item n delta
              ]
          same (exact item) = refl
          same (best cur item delta) = refl
