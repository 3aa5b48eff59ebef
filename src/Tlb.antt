-- ===== src/Tlb.antt =====
-- The shootdown of TLBs in kernel/paging.cpp: what `flushPagesTlb` leaves for another processor.
pub mod Steps
pub mod Queue
pub mod Covered
pub mod Lost
mod Served
mod Flush
mod Tests
use shmdos.Prelude.{
  ℕ, ◌+◌, ◌-◌, ◌%◌, ◌^◌, ◌==◌, ltb, if◌then◌else◌, Bool, true, false, ◌||◌, not, update,
}

-- `TlbShotdownItem`: a range of addresses.
pub record Item : Type 0 where
  pub addr : ℕ
  pub size : ℕ

-- `CpuTlbShootdownTask`, without its spin lock: each function below runs with the lock held.
pub record Task : Type 0 where
  pub items : ℕ → Item
  pub read : ℕ
  pub write : ℕ
  pub need_full : Bool

abbrev pub word_mod : ℕ
word_mod = 2 ^ 64

abbrev pub update_tlb_limit : ℕ
update_tlb_limit = 0x400000

abbrev pub no_items : Task
no_items = record {
  items = λ i. record { addr = 0; size = 0 };
  read = 0;
  write = 0;
  need_full = false;
}

-- `oldItems`.
unfoldable pub old_items : Task → ℕ
old_items t = (t.write + word_mod - t.read) % word_mod % 64

abbrev pub all_due : Task → Task
all_due t = record t { write = 0; read = 0; need_full = true }

abbrev pub put_item : Task → Item → Task
put_item t item = record t {
  items = update t.items (t.write % 64) item;
  write = (t.write + 1) % word_mod;
}

-- The part of the loop of `flushPagesTlb` for one processor, and whether it gets an interrupt.
unfoldable pub post : Task → Item → Task × Bool
post t item =
    if t.need_full
    then (t, false)
    else (if old_items t == 63 || not (ltb item.size update_tlb_limit)
        then (all_due t, old_items t == 0)
        else (put_item t item, old_items t == 0))

-- The item that the loop of the handler takes, and the count behind it.
abbrev pub next_item : Task → Item
next_item t = t.items (t.read % 64)

abbrev pub after_item : Task → Task
after_item t = record t { read = (t.read + 1) % word_mod }
