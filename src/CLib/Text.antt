-- ===== src/CLib/Text.antt =====
-- The functions of include/kclib.h on strings that a 0 ends, over byte memory. A loop that looks for
-- the 0 recurs on fuel, and `none` says that the fuel ran out first.
use shmdos.Prelude.{ℕ, zero, suc, ◌+◌, Option, none, some, ◌==◌, if◌then◌else◌}
use shmdos.CLib.Memory.{Memory, store, fill_bytes}
pub mod Copy

abbrev pub grow : Option ℕ → Option ℕ
grow none = none
grow (some n) = some (suc n)

unfoldable pub kstrlen : ℕ → Memory → ℕ → Option ℕ
kstrlen zero m str = none
kstrlen (suc f) m str = let rest = kstrlen f m (str + 1) in if m str == 0 then some 0 else grow rest

-- The memory after the call.
unfoldable pub kstrcpy : ℕ → Memory → ℕ → ℕ → Option Memory
kstrcpy zero m dst src = none
kstrcpy (suc f) m dst src =
    let u = store m dst (m src) in
    let rest = kstrcpy f u (dst + 1) (src + 1) in if u src == 0 then some u else rest

unfoldable pub kstrcat : ℕ → Memory → ℕ → ℕ → Option Memory
unfolding kstrlen kstrcpy
kstrcat f m str1 str2 = elim (kstrlen f m str1) [
  | none ↦ none
  | some n ↦ kstrcpy f m (str1 + n) str2
]

-- The loop of `kstrncpy` with `suc n` bytes left to write.
unfoldable pub copy_and_pad : ℕ → Memory → ℕ → ℕ → Memory
unfolding fill_bytes
copy_and_pad zero m dst src = store m dst (m src)
copy_and_pad (suc n) m dst src =
    let u = store m dst (m src) in
    let rest = copy_and_pad n u (dst + 1) (src + 1) in
    if u (src + 1) == 0 then fill_bytes (suc n) u (dst + 1) 0 else rest

unfoldable pub kstrncpy : Memory → ℕ → ℕ → ℕ → Memory
unfolding copy_and_pad
kstrncpy m dst src zero = m
kstrncpy m dst src (suc n) = copy_and_pad n m dst src
