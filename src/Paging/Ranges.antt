-- ===== src/Paging/Ranges.antt =====
-- What `mapPages`, `setPagesFlags` and `freeRamPages` of kernel/paging.cpp leave for each page.
use shmdos.Prelude.{
  ℕ, zero, suc, ◌+◌, ◌-◌, ◌*◌, ◌/◌, ◌%◌, ◌^◌, ◌≤◌, ◌<◌, ◌≡◌, ◌≢◌, refl, sym, ap, ◌∙◌, ◌⊎◌, inl, inr,
  ◌==◌, false, Bool-cases, ==_iff, none, some, length, bit_and, bit_or, arith,
}
use shmdos.Paging.Walk.{Walk, word_mod, process_pages}
use shmdos.Paging.Owned.{Owner}
use shmdos.Paging.Lookup.{lookup}
use shmdos.Paging.Refine.{PageMap, Shows, apply_page, apply_range, process_pages-Refines}
use shmdos.Paging.Returns.{process_pages-Returns}
use shmdos.Paging.Calls.{Space, begin, dir_flags, map_entry, map_pages, flag_entry, set_pages_flags}

-- The pages of a range.
abbrev pub first_page : (base : ℕ) → ℕ
first_page base = base % 2 ^ 48 / 4096

abbrev pub page_count : (base size : ℕ) → ℕ
page_count base size = (base % 2 ^ 48 + size + 4095) / 4096 - first_page base

abbrev pub page_map : {K : Type 0} → (ℕ → ℕ) → K → PageMap K
page_map m k = record { entry = m; kept = k; shootdown = false }

module _ {K : Type 0} (callback : K → ℕ → K × ℕ) where
  pub apply_range-outside :
      (n p q : ℕ) (a : PageMap K)
      → (q < p) ⊎ (p + n ≤ q)
      → (apply_range callback n p a).entry q ≡ a.entry q
  unfolding apply_range
  apply_range-outside zero p q a out = refl
  apply_range-outside (suc n) p q a out =
      let other : (q == p) ≡ false = ground (arith, out) in
      apply_range-outside n (p + 1) q (apply_page callback p a) (omega arith) ∙ rw other refl

  -- A callback that captures nothing that changes.
  pub apply_range-each :
      (f : ℕ → ℕ)
      → ((k : K) (e : ℕ) → (callback k e).1 ≡ f e)
      → (n p q : ℕ) (a : PageMap K) → p ≤ q
      → q < p + n
      → (apply_range callback n p a).entry q ≡ f (a.entry q)
  unfolding apply_range
  apply_range-each f each zero p q a le lt = absurd (omega arith)
  apply_range-each f each (suc n) p q a le lt = elim (Bool-cases (q == p)) [
    | inl same ↦
        let e = (==_iff q p).0 same in
        apply_range-outside n (p + 1) q (apply_page callback p a) (inl (omega arith))
        ∙ rw same (each a.kept (a.entry p) ∙ ap (λ t. f (a.entry t)) (sym e))
    | inr other ↦
        apply_range-each f each n (p + 1) q (apply_page callback p a) (ground (arith, other))
          (omega arith)
        ∙ ap f (rw other refl)
  ]

apply_range-map_entry :
    (flags n p q : ℕ) (a : PageMap ℕ)
    → a.kept + n * 4096 < word_mod
    → p ≤ q
    → q < p + n
    → (apply_range (map_entry flags) n p a).entry q ≡ bit_or (a.kept + (q - p) * 4096) flags
unfolding apply_range map_entry
apply_range-map_entry flags zero p q a small le lt = absurd (omega arith)
apply_range-map_entry flags (suc n) p q a small le lt = elim (Bool-cases (q == p)) [
  | inl same ↦
      let e = (==_iff q p).0 same in
      let at_start : a.kept ≡ a.kept + (q - p) * 4096 = omega arith in
      apply_range-outside (map_entry flags) n (p + 1) q (apply_page (map_entry flags) p a)
        (inl (omega arith))
      ∙ rw same (ap (λ t. bit_or t flags) at_start)
  | inr other ↦
      let below : p + 1 ≤ q = ground (arith, other) in
      let next : (a.kept + 4096) % word_mod + (q - (p + 1)) * 4096 ≡ a.kept + (q - p) * 4096 =
        omega arith in
      apply_range-map_entry flags n (p + 1) q (apply_page (map_entry flags) p a) (omega arith) below
        (omega arith)
      ∙ ap (λ t. bit_or t flags) next
]

dir_flags-small : (flags : ℕ) → (dir_flags flags < 4096) × (dir_flags flags ≢ 0)
unfolding dir_flags
dir_flags-small flags = (omega arith, λ z. omega (arith, z))

-- With pages of memory for the tables, a walk leaves what the specification gives.
process_pages-Shows :
    {K : Type 0} (callback : K → ℕ → K × ℕ) (flags root base size : ℕ) (o : Owner) (w : Walk K)
    (a : PageMap K)
    → flags < 4096
    → flags ≢ 0
    → Shows o root w a
    → 0 < size
    → base % 2 ^ 48 + size ≤ 2 ^ 48
    → 3 * page_count base size ≤ length w.frames
    → (v : Walk K) × (o' : Owner) × (process_pages callback flags root base size w ≡ some v)
      × Shows o' root v (apply_range callback (page_count base size) (first_page base) a)
process_pages-Shows callback flags root base size o w a small ne h some_size le enough =
    let (v, e, taken) =
      process_pages-Returns callback flags ne small root base size o w a h some_size le enough in
    elim (process_pages-Refines callback flags small root base size o w a h some_size le) [
      | inl none_left ↦ absurd (none-ne-some v (sym none_left ∙ e))
      | inr result ↦ result
    ]
  where
    none-ne-some : {A : Type 0} (x : A) → none ≢ some x
    none-ne-some x z = cc

module _ (root base size : ℕ) (o : Owner) (s : Space) (m : ℕ → ℕ) (some_size : 0 < size)
    (le : base % 2 ^ 48 + size ≤ 2 ^ 48) (enough : 3 * page_count base size ≤ length s.frames) where
  -- For a range of at least one byte that does not leave the 48 bits of addresses, physical addresses
  -- that do not reach 2^64, and tables that show a map m, with three free pages of memory for each page
  -- of the range: `mapPages` returns; the page of number i in the range then has the physical address of
  -- number i with the flags, and every page outside has the entry that it had.
  pub map_pages-entries :
      (phys flags : ℕ)
      → Shows o root (begin s phys) (page_map m phys)
      → phys + page_count base size * 4096 < 2 ^ 64
      → (v : Walk ℕ) × (map_pages root base phys size flags s ≡ some v)
        × ((i : ℕ)
            → i < page_count base size
            → lookup 3 root (first_page base + i) v ≡ bit_or (phys + i * 4096) flags)
        × ((q : ℕ)
            → q < 2 ^ 36
            → (q < first_page base) ⊎ (first_page base + page_count base size ≤ q)
            → lookup 3 root q v ≡ m q)
  unfolding map_pages
  map_pages-entries phys flags h small =
      let (dir_small, dir_ne) = dir_flags-small flags in
      let (v, o', e, shows) =
        process_pages-Shows (map_entry flags) (dir_flags flags) root base size o (begin s phys)
          (page_map m phys) dir_small dir_ne h some_size le enough in
      (
        v,
        e,
        λ i lt.
            shows.entries (first_page base + i) (omega arith)
            ∙ apply_range-map_entry flags (page_count base size) (first_page base)
                (first_page base + i) (page_map m phys) small (omega arith) (omega arith)
            ∙ ap (λ t. bit_or (phys + t * 4096) flags) (shift (first_page base) i),
        λ q lt out.
            shows.entries q lt
            ∙ apply_range-outside (map_entry flags) (page_count base size) (first_page base) q
                (page_map m phys) out,
      )
    where
      shift : (x i : ℕ) → x + i - x ≡ i
      shift x i = omega arith

  -- For a range of at least one byte that does not leave the 48 bits of addresses, and tables that show a
  -- map m, with three free pages of memory for each page of the range: `setPagesFlags` returns; it clears
  -- the bits of the mask and sets those of the flags in the entry of each page in the range, and leaves
  -- the entry of every page outside.
  pub set_pages_flags-entries :
      (mask flags : ℕ)
      → Shows o root (begin s tt) (page_map m tt)
      → (v : Walk (Unit {0})) × (set_pages_flags root base size mask flags s ≡ some v)
        × ((i : ℕ)
            → i < page_count base size
            → lookup 3 root (first_page base + i) v
              ≡ bit_or (bit_and (m (first_page base + i)) (2 ^ 64 - 1 - mask)) flags)
        × ((q : ℕ)
            → q < 2 ^ 36
            → (q < first_page base) ⊎ (first_page base + page_count base size ≤ q)
            → lookup 3 root q v ≡ m q)
  unfolding set_pages_flags flag_entry
  set_pages_flags-entries mask flags h =
      let (dir_small, dir_ne) = dir_flags-small flags in
      let (v, o', e, shows) =
        process_pages-Shows (flag_entry mask flags) (dir_flags flags) root base size o (begin s tt)
          (page_map m tt) dir_small dir_ne h some_size le enough in
      (
        v,
        e,
        λ i lt.
            shows.entries (first_page base + i) (omega arith)
            ∙ apply_range-each (flag_entry mask flags)
                (λ x. bit_or (bit_and x (2 ^ 64 - 1 - mask)) flags) (λ k x. refl)
                (page_count base size) (first_page base) (first_page base + i) (page_map m tt)
                (omega arith) (omega arith),
        λ q lt out.
            shows.entries q lt
            ∙ apply_range-outside (flag_entry mask flags) (page_count base size) (first_page base) q
                (page_map m tt) out,
      )
