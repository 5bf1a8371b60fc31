-- ===== src/Copy.antt =====
-- mem/mem.c: memcopy, memfill and scopy. The loops run on fuel, one step for each byte; `none` is
-- fuel that ran out. The result is the returned pointer and the memory.
pub mod Loops
pub mod Strings
mod Tests
use usbloader.Common.{ℕ, zero, suc, ◌+◌, Option, none, some, ltb, ◌==◌, if◌then◌else◌, not}
use usbloader.Common.Words.{add32}
use usbloader.Memory.{Bytes, store8}

pub copy_up : ℕ → (dst8 src8 end8 : ℕ) → Bytes → Option Bytes
copy_up zero dst8 src8 end8 m = none
copy_up (suc fuel) dst8 src8 end8 m =
    let rest = copy_up fuel (add32 dst8 1) (add32 src8 1) end8 (store8 m dst8 (m src8)) in
    if ltb dst8 end8 then rest else some m

pub memcopy : ℕ → (dst src size : ℕ) → Bytes → Option (ℕ × Bytes)
memcopy fuel dst src size m = elim (copy_up fuel dst src (add32 dst size) m) [
  | none ↦ none
  | some m' ↦ some (dst, m')
]

pub fill_up : ℕ → (dst8 byte end8 : ℕ) → Bytes → Option Bytes
fill_up zero dst8 byte end8 m = none
fill_up (suc fuel) dst8 byte end8 m =
    let rest = fill_up fuel (add32 dst8 1) byte end8 (store8 m dst8 byte) in
    if ltb dst8 end8 then rest else some m

pub memfill : ℕ → (buf byte size : ℕ) → Bytes → Option (ℕ × Bytes)
memfill fuel buf byte size m = elim (fill_up fuel buf byte (add32 buf size) m) [
  | none ↦ none
  | some m' ↦ some (buf, m')
]

-- The index at which the loop of `scopy` stops, and the memory.
pub copy_chars : ℕ → (i dst src : ℕ) → Bytes → Option (ℕ × Bytes)
copy_chars zero i dst src m = none
copy_chars (suc fuel) i dst src m =
    let rest = copy_chars fuel (add32 i 1) dst src (store8 m (add32 dst i) (m (add32 src i))) in
    if not (m (add32 src i) == 0) then rest else some (i, m)

pub scopy : ℕ → (dst src : ℕ) → Bytes → Option (ℕ × Bytes)
scopy fuel dst src m = elim (copy_chars fuel 0 dst src m) [
  | none ↦ none
  | some (i, m') ↦ some (dst, store8 m' (add32 dst i) 0)
]
