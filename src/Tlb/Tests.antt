-- ===== src/Tlb/Tests.antt =====
-- Shootdowns of kernel/paging.cpp on small examples.
use shmdos.Prelude.{ℕ, ◌*◌, ◌≤◌, ◌≡◌, ◌≢◌, ◌⊎◌, inl, refl, true, false, some, arith}
use shmdos.Tlb.{Item, post, old_items}
use shmdos.Tlb.Steps.{
  State, flushing, off, looping, in_range, posted, Steps, begin, after, send, enter, flushed, start,
}
use shmdos.Tlb.Covered.{IsSafe, Steps-IsSafe}
use shmdos.Tlb.Lost.{post-IsLost}
use shmdos.Tlb.Served.{AreCalm, Steps-served}
use shmdos.Tlb.Flush.{Flush, has, local_cpu_flush_tlb, local_cpu_flush_tlb-has, page_of}
use shmdos.Paging.Walk.{last_page}

abbrev two_pages : Item
two_pages = record { addr = 0x5000; size = 0x2000 }

abbrev sent : State
sent = posted start two_pages

sent-raised : sent.raised ≡ true
unfolding post old_items
sent-raised = refl

sent-free : sent.task.need_full ≡ false
unfolding post old_items
sent-free = refl

abbrev sent_steps : Steps start sent
sent_steps = after begin (send two_pages refl (omega arith))

abbrev entered : State
entered = record sent { handler = looping; raised = false }

Steps-IsSafe_example : IsSafe entered
Steps-IsSafe_example =
    Steps-IsSafe entered (after sent_steps (enter refl sent-raised sent-free))
      ((tt, omega arith), tt)

sent-AreCalm : AreCalm sent_steps
unfolding old_items
sent-AreCalm = (tt, inl refl)

sent-stale : sent.stale 6 ≡ true
unfolding in_range
sent-stale = refl

Steps-served_example : (sent.raised ≡ true) ⊎ (sent.handler ≢ off)
Steps-served_example = Steps-served sent 6 sent_steps sent-AreCalm (tt, omega arith) sent-stale

-- The handler is in a range that ends at 0x7000, and another waits.
abbrev busy : State
busy = record {
  task = record { items = λ i. two_pages; read = 1; write = 2; need_full = false };
  handler = flushing 0x7000 0x7000;
  raised = false;
  stale = λ p. true;
}

abbrev four_mb : Item
four_mb = record { addr = 0x400000; size = 0x400000 }

busy-waits : old_items busy.task ≢ 0
unfolding old_items
busy-waits z = absurd (cc z)

abbrev finished : State
finished = record (posted busy four_mb) { handler = looping }

post-IsLost_example :
    (finished.task.need_full ≡ true)
    × (finished.raised ≡ false)
    × ((p : ℕ) → 0x7000 ≤ p * 4096 → (posted busy four_mb).stale p ≡ true → finished.stale p ≡ true)
post-IsLost_example =
    post-IsLost busy finished four_mb 0x7000 0x7000 refl busy-waits refl refl (omega arith)
      (after begin (flushed 0x7000 0x7000 refl (omega arith)))

local_cpu_flush_tlb-has_example :
    (f : Flush) × (local_cpu_flush_tlb 1025 0x5000 0x2001 ≡ some f)
    × ((p : ℕ) → page_of 0x5000 ≤ p → p ≤ last_page 0x5000 0x2001 → has p f ≡ true)
local_cpu_flush_tlb-has_example =
    local_cpu_flush_tlb-has 0x5000 0x2001 refl (omega arith) (omega arith) (omega arith)
