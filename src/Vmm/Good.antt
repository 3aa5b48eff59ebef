-- ===== src/Vmm/Good.antt =====
-- The states that stand for a tidy list of blocks, and that the page operations stay among them.
use shmdos.Prelude.{
  ℕ, ◌-◌, ◌≤◌, ◌<◌, ◌≡◌, refl, ap, ◌∙◌, sym, inl, inr, true, List, [], ◌∷◌, ◌++◌, arith, ltb,
  Bool-cases,
}
use shmdos.Vmm.Pages.{Pages, size_class, max_alloc_iterations, alloc_pages, free_pages}
use shmdos.Vmm.Blocks.{Block, free, busy, limbo, total, total-append}
use shmdos.Vmm.Invariant.{Inv}
use shmdos.Vmm.Alloc.Correct.{Outcome, taken, refused, leftover, alloc_pages-Outcome}
use shmdos.Vmm.Free.Spec.{freed}
use shmdos.Vmm.Free.Correct.{free_pages-freed}
use shmdos.Vmm.Free.Ignored.{begins_busy, free_pages-ignored}
use shmdos.Vmm.Tidy.{IsTidy, IsTidy-Settled, IsTidy-append, freed-IsTidy, taken-IsTidy}

-- The state stands for a tidy list of blocks of this many pages.
pub record Good (v : Pages) (pages : ℕ) : Type 0 where
  pub blocks : List Block
  pub inv : Inv v blocks
  pub tidy : IsTidy blocks
  pub covers : total blocks ≡ pages

-- The busy block that begins at a page.
pub record BusyAt (bs : List Block) (page : ℕ) : Type 0 where
  pub before : List Block
  pub after : List Block
  pub flag : ℕ
  pub size : ℕ
  pub split : bs ≡ before ++ ((busy flag size ∷ []) ++ after)
  pub page_is : page ≡ total before

pub busy_at : (bs : List Block) (page : ℕ) → IsTidy bs → begins_busy bs page ≡ true → BusyAt bs page
busy_at [] page t e = absurd (ground arith)
busy_at (free p n ∷ bs) page t e =
    let r = busy_at bs (page - n) t.1 (ground arith) in
    record {
      before = free p n ∷ r.before;
      after = r.after;
      flag = r.flag;
      size = r.size;
      split = ap (λ l. free p n ∷ l) r.split;
      page_is = ground (arith, r.page_is);
    }
busy_at (busy a n ∷ bs) page t e = elim (Bool-cases (ltb page n)) [
  | inl here ↦ record {
    before = [];
    after = bs;
    flag = a;
    size = n;
    split = refl;
    page_is = ground (arith, here);
  }
  | inr later ↦
      let r = busy_at bs (page - n) t (ground (arith, later)) in
      record {
        before = busy a n ∷ r.before;
        after = r.after;
        flag = r.flag;
        size = r.size;
        split = ap (λ l. busy a n ∷ l) r.split;
        page_is = ground (arith, later, r.page_is);
      }
]
busy_at (limbo w z n ∷ bs) page t e = absurd t

-- Freeing any page, whether a busy block begins there or not, leads from a state that stands for
-- tidy blocks to another such state with the same number of pages.
pub free_pages-Good : (v : Pages) (pages page : ℕ) → Good v pages → Good (free_pages v page).1 pages
free_pages-Good v pages page g = elim (Bool-cases (begins_busy g.blocks page)) [
  | inr none_there ↦
      rw (free_pages-ignored v g.blocks page g.inv (IsTidy-Settled g.blocks g.tidy) none_there) g
  | inl there ↦
      let b = busy_at g.blocks page g.tidy there in
      let t = rw b.split at g.tidy in
      let (tx, ty, apart) = IsTidy-append b.before (busy b.flag b.size ∷ b.after) t in
      let done =
        free_pages-freed v b.before b.after b.flag b.size (rw b.split at g.inv)
          (IsTidy-Settled b.before tx) (IsTidy-Settled b.after ty) in
      let (tidy, size) = freed-IsTidy b.before b.after b.size done.1 tx ty in
      rw b.page_is (record {
        blocks = freed b.before b.size b.after done.1;
        inv = done.2;
        tidy = tidy;
        covers = omega (
          arith,
          size,
          g.covers,
          ap total b.split,
          total-append b.before (busy b.flag b.size ∷ b.after),
        );
      })
]

-- So does allocating pages, as long as their class has no more regions than the first loop visits.
pub alloc_pages-Good :
    (v : Pages) (pages n : ℕ)
    → 0 < n
    → v.counters (size_class n) ≤ max_alloc_iterations
    → Good v pages
    → Good (alloc_pages v n).1 pages
alloc_pages-Good v pages n pos few g = by_outcome (alloc_pages-Outcome v g.blocks n g.inv pos few)
  where
    by_outcome : Outcome v g.blocks n (alloc_pages v n) → Good (alloc_pages v n).1 pages
    by_outcome (taken t) =
        let (tidy, same) =
          taken-IsTidy t.before t.after t.item t.size n t.rest_item t.fits (rw t.was at g.tidy) in
        record {
          blocks = t.before ++ ((busy 0 n ∷ leftover t.rest_item t.size n) ++ t.after);
          inv = t.inv;
          tidy = tidy;
          covers = same ∙ sym (ap total t.was) ∙ g.covers;
        }
    by_outcome (refused e out) = rw e g
