-- ===== src/Tlb/Steps.antt =====
-- The steps of one processor that gets shootdowns from the others (kernel/paging.cpp): the interrupt
-- handler between its lock and unlock, its loops round by round, and the posts of others at any time.
use shmdos.Prelude.{
  ℕ, ◌+◌, ◌*◌, ◌/◌, ◌%◌, ◌<◌, ◌≤◌, ◌≡◌, ◌≢◌, ltb, leb, Bool, true, false, ◌||◌, ◌&&◌, update,
}
use shmdos.Tlb.{Item, Task, word_mod, post, next_item, after_item, no_items}

-- Where `tlbShootdownHandler` is: not running, at `cpuFullFlushTLB`, at the test of its loop, or in the
-- inner loop.
pub data Handler : Type 0 where
  off : Handler
  flushing_all : Handler
  looping : Handler
  flushing : (addr end : ℕ) → Handler

-- `raised` says that an interrupt is sent or going to be; `stale` which pages the TLB may hold as they
-- were before a change.
pub record State : Type 0 where
  pub task : Task
  pub handler : Handler
  pub raised : Bool
  pub stale : ℕ → Bool

-- The page is one of those with an address in the range.
unfoldable pub in_range : (addr end page : ℕ) → Bool
in_range addr end page = leb (addr / 4096) page && ltb (page * 4096) end

abbrev pub posted : State → Item → State
posted s item = record s {
  task = (post s.task item).0;
  raised = s.raised || (post s.task item).1;
  stale = λ p. in_range item.addr (item.addr + item.size) p || s.stale p;
}

-- The end of a range, in 64 bits.
abbrev pub item_end : Item → ℕ
item_end item = (item.addr + item.size) % word_mod

-- Addresses of ranges are those of pages. Fewer items are put than a count has values.
pub data Step : State → State → Type 0 where
  send :
      {s : State} (item : Item)
      → item.addr % 4096 ≡ 0
      → s.task.write + 1 < word_mod
      → Step s (posted s item)
  enter_full :
      {s : State}
      → s.handler ≡ off
      → s.raised ≡ true
      → s.task.need_full ≡ true
      → Step s (record s {
        task = record s.task { need_full = false };
        handler = flushing_all;
        raised = false;
      })
  enter :
      {s : State}
      → s.handler ≡ off
      → s.raised ≡ true
      → s.task.need_full ≡ false
      → Step s (record s { handler = looping; raised = false })
  flush_all :
      {s : State}
      → s.handler ≡ flushing_all
      → Step s (record s { handler = off; stale = λ p. false })
  take :
      {s : State}
      → s.handler ≡ looping
      → s.task.read ≢ s.task.write
      → Step s (record s {
        task = after_item s.task;
        handler = flushing (next_item s.task).addr (item_end (next_item s.task));
      })
  flush :
      {s : State} (a e : ℕ)
      → s.handler ≡ flushing a e
      → a < e
      → Step s (record s {
        handler = flushing ((a + 4096) % word_mod) e;
        stale = update s.stale (a / 4096) false;
      })
  flushed :
      {s : State} (a e : ℕ)
      → s.handler ≡ flushing a e
      → e ≤ a
      → Step s (record s { handler = looping })
  leave :
      {s : State}
      → s.handler ≡ looping
      → s.task.read ≡ s.task.write
      → Step s (record s { handler = off })

abbrev pub start : State
start = record { task = no_items; handler = off; raised = false; stale = λ p. false }

pub data Steps (s : State) : State → Type 0 where
  begin : Steps s s
  after : {u v : State} → Steps s u → Step u v → Steps s v

-- No range comes to the last page of the addresses, where its end or the loop over it would wrap around.
abbrev pub IsInside : {s u : State} → Step s u → Type 0
IsInside (send item aligned small) = item.addr + item.size + 4096 ≤ word_mod
IsInside _ = Unit {0}

abbrev pub AreInside : {s u : State} → Steps s u → Type 0
AreInside begin = Unit {0}
AreInside (after before step) = AreInside before × IsInside step
