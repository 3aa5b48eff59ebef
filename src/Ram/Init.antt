-- ===== src/Ram/Init.antt =====
-- The constructor in kernel/phmem.cpp makes one list of the pages of all regions.
use shmdos.Prelude.{
  ℕ, zero, suc, ◌+◌, ◌-◌, ◌*◌, ◌/◌, ◌≤◌, ◌<◌, ◌≡◌, refl, ◌∙◌, ◌==◌, true, false, List, [], ◌∷◌,
  ◌++◌, update, arith,
}
use shmdos.Ram.{Ram, link_pages, add_pages, add_region, add_regions}
use shmdos.Ram.Invariant.{Chain, has, Distinct, Chain-update}

-- The addresses of so many pages in a row.
abbrev pub pages_from : (count start : ℕ) → List ℕ
pages_from zero start = []
pages_from (suc n) start = start ∷ pages_from n (start + 4096)

-- Regions in ascending order, from the bound up to the stop.
abbrev pub Ascending : (offset bound stop : ℕ) → List (ℕ × ℕ) → Type 0
Ascending offset bound stop [] = Unit {0}
Ascending offset bound stop ((start, end) ∷ rs) =
    (bound ≤ start + offset)
    × (start ≤ end)
    × (end + offset ≤ stop)
    × Ascending offset (end + offset) stop rs

-- The list of the pages of the regions, on top of another.
abbrev pub region_pages : (offset : ℕ) → List (ℕ × ℕ) → List ℕ → List ℕ
region_pages offset [] fs = fs
region_pages offset ((start, end) ∷ rs) fs =
    region_pages offset rs (pages_from ((end - start) / 4096) (start + offset) ++ fs)

-- All of them lie below the bound.
abbrev Under : ℕ → List ℕ → Type 0
Under bound [] = Unit {0}
Under bound (p ∷ ps) = (p < bound) × Under bound ps

Under-has : (bound q : ℕ) (fs : List ℕ) → Under bound fs → bound ≤ q → has q fs ≡ false
Under-has bound q [] u le = refl
Under-has bound q (p ∷ ps) u le =
    let other : (q == p) ≡ false = ground (arith, u.0, le) in
    rw (other) (Under-has bound q ps u.1 le)

Under-mono : (a b : ℕ) (fs : List ℕ) → a ≤ b → Under a fs → Under b fs
Under-mono a b [] le u = u
Under-mono a b (p ∷ ps) le u = (omega arith, Under-mono a b ps le u.1)

Under-pages_from :
    (n start bound : ℕ) (fs : List ℕ)
    → start + n * 4096 ≤ bound
    → Under bound fs
    → Under bound (pages_from n start ++ fs)
Under-pages_from zero start bound fs le u = u
Under-pages_from (suc n) start bound fs le u =
    (omega arith, Under-pages_from n (start + 4096) bound fs (omega arith) u)

has-pages_from :
    (n start q : ℕ) (fs : List ℕ)
    → q < start
    → has q fs ≡ false
    → has q (pages_from n start ++ fs) ≡ false
has-pages_from zero start q fs lt out = out
has-pages_from (suc n) start q fs lt out =
    let other : (q == start) ≡ false = ground (arith, lt) in
    rw other (has-pages_from n (start + 4096) q fs (omega arith) out)

Distinct-pages_from :
    (n start : ℕ) (fs : List ℕ) → Under start fs → Distinct fs → Distinct (pages_from n start ++ fs)
Distinct-pages_from zero start fs u d = d
Distinct-pages_from (suc n) start fs u d = (
  has-pages_from n (start + 4096) start fs (omega arith) (Under-has start start fs u (omega arith)),
  Distinct-pages_from n (start + 4096) fs (Under-mono start (start + 4096) fs (omega arith) u) d,
)

link_pages-else :
    (n ptr last a : ℕ) (link : ℕ → ℕ) → a < ptr → link_pages n ptr last link a ≡ link a
unfolding link_pages
link_pages-else zero ptr last a link lt =
    let other : (a == ptr) ≡ false = ground (arith, lt) in rw other refl
link_pages-else (suc n) ptr last a link lt =
    let other : (a == ptr) ≡ false = ground (arith, lt) in
    link_pages-else n (ptr + 4096) last a (update link ptr (ptr + 4096)) (omega arith)
    ∙ rw other refl

link_pages-Chain :
    (n ptr last stop : ℕ) (link : ℕ → ℕ) (fs : List ℕ)
    → ptr + n * 4096 < stop
    → Under ptr fs
    → Chain link stop last fs
    → Chain (link_pages n ptr last link) stop ptr (pages_from (suc n) ptr ++ fs)
unfolding link_pages
link_pages-Chain zero ptr last stop link fs lt u c =
    let here : (ptr == ptr) ≡ true = ground arith in
    (
      refl,
      (λ z. omega (arith, lt, z)),
      rw here (Chain-update link stop last ptr last fs (Under-has ptr ptr fs u (omega arith)) c),
    )
link_pages-Chain (suc n) ptr last stop link fs lt u c =
    let here : (ptr == ptr) ≡ true = ground arith in
    let next : link_pages n (ptr + 4096) last (update link ptr (ptr + 4096)) ptr ≡ ptr + 4096 =
      link_pages-else n (ptr + 4096) last ptr (update link ptr (ptr + 4096)) (omega arith)
      ∙ rw here refl in
    (
      refl,
      (λ z. omega (arith, lt, z)),
      rw next (
          link_pages-Chain n (ptr + 4096) last stop (update link ptr (ptr + 4096)) fs (omega arith)
            (Under-mono ptr (ptr + 4096) fs (omega arith) u)
            (Chain-update link stop last ptr (ptr + 4096) fs (Under-has ptr ptr fs u (omega arith))
              c)),
    )

add_pages-Chain :
    (n start stop : ℕ) (r : Ram) (fs : List ℕ)
    → start + n * 4096 ≤ stop
    → Under start fs
    → Chain r.link stop r.head fs
    → Chain (add_pages n start r).link stop (add_pages n start r).head (pages_from n start ++ fs)
unfolding add_pages
add_pages-Chain zero start stop r fs le u c = c
add_pages-Chain (suc n) start stop r fs le u c =
    link_pages-Chain n start r.head stop r.link fs (omega arith) u c

-- For regions in ascending order whose pages lie below the end marker, and a list of pages below them:
-- the constructor's loop puts all whole pages of the regions in front of the list, and no page is in it
-- twice.
pub add_regions-Chain :
    (offset bound stop : ℕ) (regions : List (ℕ × ℕ)) (r : Ram) (fs : List ℕ)
    → Ascending offset bound stop regions
    → Under bound fs
    → Distinct fs
    → Chain r.link stop r.head fs
    → Chain
        (add_regions offset regions r).link
        stop
        (add_regions offset regions r).head
        (region_pages offset regions fs)
      × Distinct (region_pages offset regions fs)
unfolding add_regions add_region
add_regions-Chain offset bound stop [] r fs a u d c = (c, d)
add_regions-Chain offset bound stop ((start, end) ∷ rs) r fs a u d c =
    let n = (end - start) / 4096 in
    let under = Under-mono bound (start + offset) fs a.0 u in
    add_regions-Chain offset (end + offset) stop rs (add_region offset start end r)
      (pages_from n (start + offset) ++ fs) a.3
      (Under-pages_from n (start + offset) (end + offset) fs (omega (arith, a.1))
        (Under-mono (start + offset) (end + offset) fs (omega (arith, a.1)) under))
      (Distinct-pages_from n (start + offset) fs under d)
      (add_pages-Chain n (start + offset) stop _ fs (omega (arith, a.1, a.2)) under c)
