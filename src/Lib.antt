-- ===== src/Lib.antt =====
-- The core of the SHM DOS64 kernel: its virtual memory manager, page tables with the shootdown of TLBs and
-- free pages of memory, the ring buffer that its interrupt queues are made of, its mutexes, semaphores and
-- spin locks, the C library functions that it gives to modules, and the configuration file of its boot
-- loader.
--
-- The page allocator (kernel/VirtualMemoryManager.cpp) hands out address space. Every page has a word:
-- the address of a list item at both ends of a free region, the size and flags at the first page of a
-- busy one. Free regions are in doubly linked lists by the highest bit of their size. The manager puts
-- page tables (kernel/paging.cpp) and RAM pages behind the address space. Threads are held back by
-- mutexes and semaphores (kernel/kmutex.cpp, kernel/Semaphore.cpp) and pass interrupts on through rings
-- (include/LockFreeRingBuffer.h).
--
-- Files, and the code that each models:
--   Prelude: numbers, Boolean tests, lists, memory as a function, `bsr`.
--   Vmm/Pages: `addFreeRegion`, `deleteFreeRegion`, `setBusyRegion`, `allocPages` and `freePages`, over
--     the words, the item memory and the tables as functions of an index.
--   Vmm/Chain, Vmm/Lists: doubly linked lists over item memory, and what linking and unlinking an item
--     does to them. Vmm/Blocks: the pages as a list of blocks, free or busy, the abstract view of the
--     map. Vmm/Invariant: when a state stands for such a list, and that an operation that exchanges some
--     blocks for others in a row keeps this. Vmm/Alloc, Vmm/Free, Vmm/Mark: that each operation does so.
--   Vmm/Tidy, Vmm/Good, Vmm/RoundTrip: lists of blocks without two free neighbours, the states that
--     stand for them, and freeing after allocating.
--   Vmm/Init: the constructor, over `setPagesFlags` as a parameter. Vmm/Manager: `alloc`, `free`, `mapMmio`, `unmapMmio` and
--     `setPagesFlags`, over an interface (the record `Paging`) for kernel/paging.cpp and
--     kernel/phmem.cpp. A panic is `none`.
--   Ring: push and pop as compare-and-swaps and stores. Ring/Steps interleaves those of any threads;
--     Ring/Invariant is about every state that they reach.
--   Mutex: the lock word, each compare-and-swap loop as its last round; Mutex/Steps interleaves those
--     of any threads, with the list of sleepers; Mutex/Locking and Mutex/Exclusion are about every state
--     that they reach.
--   SpinLock: the entries and the calls of the queued spin lock (kernel/SpinLock.cpp), each call by a thread
--     alone. SpinLock/Entries, SpinLock/Alone: what they do.
--   Semaphore: each compare-and-swap loop as its last round; Semaphore/Steps interleaves them.
--   Paging/Walk, Paging/Calls: the walks over page tables and the calls of them (kernel/paging.cpp), over
--     memory as tables by page and index. Paging/Owned: which page is which table, so that no page is a
--     table twice; Paging/Opening, Paging/Stable: creating tables keeps this. Paging/Spans: numbers of
--     pages by levels. Paging/Whole, Paging/Range: a walk over a range as walks to its pages.
--     Paging/Lookup, Paging/Effect, Paging/Mapping, Paging/Refine: the tables as a map from pages to
--     entries. Paging/Returns: when there are pages enough. Paging/Ranges, Paging/Release: the calls as
--     changes of the map. Paging/Fault, Paging/Supply, Paging/Outcome: `onPageFault`.
--   Ram: the list of free pages of memory (kernel/phmem.cpp): its constructor, the compare-and-swap of its
--     header. Ram/Steps interleaves `allocPagePtr` and `freePagePtr` of any threads with what users write to
--     their pages. Ram/Invariant, Ram/Moves, Ram/Changes, Ram/Reach: every state that they reach. Ram/Init:
--     the list that the constructor makes.
--   Tlb: what `flushPagesTlb` (kernel/paging.cpp) leaves for another processor. Tlb/Steps interleaves the
--     interrupt handler `tlbShootdownHandler` with posts. Tlb/Queue, Tlb/Covered, Tlb/Served, Tlb/Lost: every
--     state that they reach. Tlb/Flush: `localCpuFlushTlb`.
--   Config/Param, Config/Parser: `processParam` and `parseFile` (uefi/config.cpp) on bytes, a state and a
--     character at a time. Config/Total: the parser ends. Config/Lines, Config/Fields, Config/RoundTrip:
--     what a file is meant to hold, and that it is read so. Config/Names: `kstricmp`.
--   CLib/Symbol, CLib/Memory, CLib/Number: character classes, `memcpy`, `memmove`, `memset`, `memcmp`
--     and `kstrtoul` of kernel/CLibImpl.cpp and include/kclib.h, over byte memory.
--   CLib/Text: `kstrlen`, `kstrcpy`, `kstrcat` and `kstrncpy` of include/kclib.h.
--
-- Bounds. Words of the machine wrap around where the source lets them (`% 2 ^ 64`, `% 2 ^ 32`); the
-- theorems say where they suppose that they do not. A region has fewer than 2^40 pages, for which a
-- word has room; the constructor gives fewer than 2^27. Loops recur on the number of their rounds: the
-- scan of a class on the smaller of its counter and 32, the search for a larger class on the number of
-- classes left, the third loop of `allocPages` on the counter with one more, the length of the list.
-- The number of a byte string in `kstrtoul` recurs on a bound that the theorems relate to the digits.
-- Theorems about `allocPages` suppose that the class of the size has at most 32 regions; with more, its
-- third loop can give out a larger region and lose the rest of it.
-- Mutexes and semaphores are interleaved in runs in which no wait times out. A thread at a mutex goes on
-- inside when its `lock` returns, whatever the result, as `klock_guard` does. The event of a semaphore may be
-- left set at any time at which no thread is in its list.
-- Walks over page tables recur on the levels below a table and on counts of entries; a page table entry
-- with flags below 2^12 is a sum of address and flags. The parser of the configuration gets four rounds
-- for a character. The pages that `freeRamPages` gives back join the free ones behind its walk, which makes
-- no tables.
-- The accesses of the ring to a value and to a counter are steps of their own.
-- The ring is modelled for fewer than 2^64 operations and with sequentially consistent memory.
-- Shootdowns are modelled for one target, ranges that begin at a page and fewer than 2^64 posts between two
-- full flushes; an interrupt counts as on its way from the post on. The loop of `localCpuFlushTlb` gets 1025
-- rounds, one more than the pages of less than 4 MB.
-- The list of free pages of memory is modelled for fewer than 2^64 - 1 changes of its header; a thread that finds
-- it empty, where the source panics, stays there.
--
-- Not modelled: spin locks with several threads at them, wait lists, tasks and timers, the heap,
-- the loader, text output, drivers, and the boot code; assembly, and vendored code (3rdparty/acpica).
pub mod Prelude
pub mod CLib
pub mod Vmm
pub mod Ring
pub mod Semaphore
pub mod Mutex
pub mod Config
pub mod Paging
pub mod Ram
pub mod Tlb
pub mod SpinLock
