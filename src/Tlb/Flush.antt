-- ===== src/Tlb/Flush.antt =====
-- `localCpuFlushTlb` of kernel/paging.cpp, against the pages that a walk over the same range visits.
use shmdos.Prelude.{
  ℕ, zero, suc, ◌+◌, ◌-◌, ◌*◌, ◌/◌, ◌%◌, ◌≤◌, ◌<◌, ◌≡◌, ◌≢◌, refl, sym, ap, subst, ◌∙◌, inl, inr,
  ◌==◌, ltb, leb, if◌then◌else◌, Bool, true, false, ◌||◌, Bool-cases, arith, Option, none, some,
  List, [], ◌∷◌,
}
use shmdos.Tlb.{word_mod, update_tlb_limit}
use shmdos.Paging.Walk.{address_mod, last_page}

-- The whole TLB, or the pages of so many `cpuFlushTLB`.
pub data Flush : Type 0 where
  whole : Flush
  pages : List ℕ → Flush

-- The page of a virtual address.
abbrev pub page_of : ℕ → ℕ
page_of addr = addr % address_mod / 4096

abbrev pub and_flush : ℕ → Option (List ℕ) → Option (List ℕ)
and_flush page none = none
and_flush page (some ps) = some (page ∷ ps)

-- The loop over the addresses; `none` says that its rounds did not suffice.
unfoldable pub flush_loop : (rounds addr end : ℕ) → Option (List ℕ)
flush_loop zero addr end = none
flush_loop (suc n) addr end =
    let rest = flush_loop n ((addr + 4096) % word_mod) end in
    if ltb addr end then and_flush (page_of addr) rest else some []

abbrev pub all_pages : Option (List ℕ) → Option Flush
all_pages none = none
all_pages (some ps) = some (pages ps)

unfoldable pub local_cpu_flush_tlb : (rounds base size : ℕ) → Option Flush
local_cpu_flush_tlb rounds base size =
    if leb size 4096
    then some (pages (page_of base ∷ []))
    else (if leb update_tlb_limit size
        then some whole
        else all_pages (flush_loop rounds base ((base + size) % word_mod)))

abbrev pub member : ℕ → List ℕ → Bool
member p [] = false
member p (q ∷ qs) = (p == q) || member p qs

abbrev pub has : ℕ → Flush → Bool
has p whole = true
has p (pages ps) = member p ps

abbrev Visits : (rounds addr end : ℕ) → Type 0
Visits rounds addr end =
    (ps : List ℕ) × (flush_loop rounds addr end ≡ some ps)
    × ((k : ℕ) → addr + k * 4096 < end → member (page_of (addr + k * 4096)) ps ≡ true)

or-right : (a b : Bool) → b ≡ true → (a || b) ≡ true
or-right true b e = refl
or-right false b e = e

flush_loop-done : (n addr end : ℕ) → end ≤ addr → Visits (suc n) addr end
unfolding flush_loop
flush_loop-done n addr end le =
    let test : ltb addr end ≡ false = ground (arith, le) in
    ([], rw test refl, λ k lt. absurd (omega (arith, le, lt)))

flush_loop-more :
    (n addr end : ℕ)
    → addr < end
    → addr + 4096 < word_mod
    → Visits n (addr + 4096) end
    → Visits (suc n) addr end
unfolding flush_loop
flush_loop-more n addr end lt word (ps, e, all) =
    let test : ltb addr end ≡ true = ground (arith, lt) in
    let small : (addr + 4096) % word_mod ≡ addr + 4096 = omega (arith, word) in
    (page_of addr ∷ ps, rw (test, small, e) refl, each)
  where
    each :
        (k : ℕ)
        → addr + k * 4096 < end
        → member (page_of (addr + k * 4096)) (page_of addr ∷ ps) ≡ true
    each zero below =
        let here : (page_of (addr + 0) == page_of addr) ≡ true = ground arith in rw here refl
    each (suc k) below =
        let same : addr + suc k * 4096 ≡ addr + 4096 + k * 4096 = omega arith in
        or-right (page_of (addr + suc k * 4096) == page_of addr)
          (member (page_of (addr + suc k * 4096)) ps)
          (subst (λ a. member (page_of a) ps ≡ true) (sym same) (all k (omega (arith, below))))

flush_loop-Visits :
    (n m addr end : ℕ)
    → n ≤ m
    → end ≤ addr + n * 4096
    → end + 4096 ≤ word_mod
    → Visits (suc m) addr end
flush_loop-Visits zero m addr end less le word = flush_loop-done m addr end (omega (arith, le))
flush_loop-Visits (suc n) zero addr end less le word = absurd (omega (arith, less))
flush_loop-Visits (suc n) (suc m) addr end less le word = elim (Bool-cases (ltb addr end)) [
  | inl lt ↦
      let below : addr < end = ground (arith, lt) in
      flush_loop-more (suc m) addr end below (omega (arith, below, word))
        (flush_loop-Visits n m (addr + 4096) end (omega arith) (omega arith) word)
  | inr ge ↦ flush_loop-done (suc m) addr end (ground (arith, ge))
]

page_of-add :
    (base k size : ℕ)
    → base % 4096 ≡ 0
    → base % address_mod + size ≤ address_mod
    → k * 4096 < size
    → page_of (base + k * 4096) ≡ page_of base + k
page_of-add base k size aligned inside below = omega (arith, aligned, inside, below)

last_page-small :
    (base size : ℕ)
    → base % address_mod + size ≤ address_mod
    → size ≢ 0
    → last_page base size ≡ (size + base % address_mod + 4095) / 4096 - 1
last_page-small base size inside some_size = omega (arith, inside, some_size)

page-Within :
    (base size p : ℕ)
    → base % 4096 ≡ 0
    → base % address_mod + size ≤ address_mod
    → size ≢ 0
    → page_of base ≤ p
    → p ≤ last_page base size
    → (k : ℕ) × (page_of (base + k * 4096) ≡ p) × (k * 4096 < size)
page-Within base size p aligned inside some_size lo hi =
    let last = last_page-small base size inside some_size in
    let below : (p - page_of base) * 4096 < size =
      omega (arith, aligned, some_size, lo, subst (λ n. p ≤ n) last hi) in
    (
      p - page_of base,
      page_of-add base (p - page_of base) size aligned inside below ∙ omega (arith, lo),
      below,
    )

-- For a range that starts at a page, is not empty, does not wrap around in the 48 bits of an address and
-- ends before the last page of the 64 bits: with 1025 rounds the flush is done, and it has every page that
-- `processPages` visits for the range.
pub local_cpu_flush_tlb-has :
    (base size : ℕ)
    → base % 4096 ≡ 0
    → base + size + 4096 ≤ word_mod
    → base % address_mod + size ≤ address_mod
    → size ≢ 0
    → (f : Flush) × (local_cpu_flush_tlb 1025 base size ≡ some f)
      × ((p : ℕ) → page_of base ≤ p → p ≤ last_page base size → has p f ≡ true)
unfolding local_cpu_flush_tlb
local_cpu_flush_tlb-has base size aligned word inside some_size =
    elim (Bool-cases (leb size 4096)) [
      | inl one ↦
          let le : size ≤ 4096 = ground (arith, one) in
          (
            pages (page_of base ∷ []),
            rw one refl,
            λ p lo hi.
                let here : (p == page_of base) ≡ true =
                  ground (arith, lo, hi, le, aligned, inside) in
                rw here refl,
          )
      | inr more ↦ elim (Bool-cases (leb update_tlb_limit size)) [
        | inl large ↦ (whole, rw (more, large) refl, λ p lo hi. refl)
        | inr small ↦
            let lt : size < update_tlb_limit = ground (arith, small) in
            let same : (base + size) % word_mod ≡ base + size = omega (arith, word) in
            let (ps, e, all) : Visits 1025 base ((base + size) % word_mod) =
              subst (Visits 1025 base) (sym same) (
                flush_loop-Visits 1024 1024 base (base + size) (omega arith) (omega (arith, lt))
                  word) in
            (
              pages ps,
              rw (more, small) (ap all_pages e),
              λ p lo hi.
                  let (k, at, below) = page-Within base size p aligned inside some_size lo hi in
                  subst (λ q. member q ps ≡ true) at (all k (omega (arith, below, same))),
            )
      ]
    ]
