-- ===== src/Vmm/Free/Ignored.antt =====
-- What `freePages` of kernel/VirtualMemoryManager.cpp does on a page where no busy block begins.
use shmdos.Prelude.{
  ℕ, ◌+◌, ◌-◌, ◌/◌, ◌%◌, ◌≡◌, refl, ◌&&◌, inl, inr, Bool, true, false, not, List, [], ◌∷◌, arith,
  ltb, ◌==◌, Bool-cases, if◌then◌else◌,
}
use shmdos.Vmm.Pages.{Item, Pages, is_busy, free_pages}
use shmdos.Vmm.Chain.{has}
use shmdos.Vmm.Blocks.{Block, free, busy, limbo, word_at}
use shmdos.Vmm.Invariant.{Owned, Inv}
use shmdos.Vmm.Free.Spec.{Settled}

-- Whether an allocated block begins at the page.
abbrev pub begins_busy : List Block → ℕ → Bool
begins_busy [] i = false
begins_busy (free p n ∷ bs) i = if ltb i n then false else begins_busy bs (i - n)
begins_busy (busy a n ∷ bs) i = if ltb i n then i == 0 else begins_busy bs (i - n)
begins_busy (limbo w z n ∷ bs) i = if ltb i n then false else begins_busy bs (i - n)

-- The word is no start of a busy region: not busy, or of no pages.
abbrev IsIdle : ℕ → Type 0
IsIdle w = (is_busy w && not (w / 4096 == 0)) ≡ false

word-IsIdle :
    (f : ℕ → Item) (lists : ℕ → List ℕ) (base : ℕ) (bs : List Block) (i : ℕ)
    → ((c p : ℕ) → has p (lists c) ≡ true → p % 4 ≡ 0)
    → Owned f lists base bs
    → Settled bs
    → begins_busy bs i ≡ false
    → IsIdle (word_at bs i)
word-IsIdle f lists base [] i al o ok b = ground arith
word-IsIdle f lists base (free p n ∷ bs) i al (x, h, y, z, o) ok b =
    let a = al _ p h in
    elim (Bool-cases (ltb i n)) [
      | inl lo ↦ ground (arith, a)
      | inr hi ↦ rw hi (word-IsIdle f lists (base + n) bs (i - n) al o ok (rw hi at b))
    ]
word-IsIdle f lists base (busy a n ∷ bs) i al (x, o) ok b = elim (Bool-cases (ltb i n)) [
  | inl lo ↦ ground (arith, x)
  | inr hi ↦ rw hi (word-IsIdle f lists (base + n) bs (i - n) al o ok (rw hi at b))
]
word-IsIdle f lists base (limbo w z n ∷ bs) i al o ok b = absurd ok

idle_free : (v : Pages) (page : ℕ) → IsIdle (v.regions page) → free_pages v page ≡ (0, v)
unfolding free_pages
idle_free v page idle = elim (Bool-cases (is_busy (v.regions page))) [
  | inl flag ↦ rw (flag, zero_pages flag) refl
  | inr clear ↦ rw clear refl
]
  where
    zero_pages : is_busy (v.regions page) ≡ true → (v.regions page / 4096 == 0) ≡ true
    zero_pages flag = ground (arith, idle)

-- In a state that stands for free and busy blocks, freeing a page at which no busy block begins, be it free, inside a busy block or past
-- the last one, returns 0 and changes nothing.
pub free_pages-ignored :
    (v : Pages) (bs : List Block) (page : ℕ)
    → Inv v bs
    → Settled bs
    → begins_busy bs page ≡ false
    → free_pages v page ≡ (0, v)
free_pages-ignored v bs page inv ok b = idle_free v page (
    rw (inv.block_inv.words page) (
      word-IsIdle v.items inv.lists 0 bs page (λ c p h. (inv.list_inv.known c p h).1)
        inv.block_inv.owned ok b))
