-- ===== src/Copy/Tests.antt =====
-- Copies and fills in a memory whose bytes are their addresses.
use usbloader.Common.{ℕ, ◌≡◌, refl, inl, arith, some, if◌then◌else◌, ltb}
use usbloader.Memory.{Bytes}
use usbloader.Copy.{memcopy, memfill, scopy}
use usbloader.Copy.Loops.{copied, filled, memcopy-copied, memfill-filled}
use usbloader.Copy.Strings.{IsString, scopy-copied}

abbrev memory : Bytes
memory x = x

-- Two overlapping regions, the destination in front.
memcopy-copied_example :
    (m' : Bytes) × (memcopy 9 100 104 8 memory ≡ some (100, m'))
    × ((x : ℕ) → m' x ≡ copied 8 100 104 memory x)
memcopy-copied_example =
    memcopy-copied 9 100 104 8 memory (inl (omega arith)) (omega arith) (omega arith) (omega arith)

memfill-filled_example :
    (m' : Bytes) × (memfill 9 100 7 8 memory ≡ some (100, m'))
    × ((x : ℕ) → m' x ≡ filled 8 100 7 memory x)
memfill-filled_example = memfill-filled 9 100 7 8 memory (omega arith) (omega arith)

-- The string "dd" at 104, in a memory that is 0 from 106 on.
abbrev letters : Bytes
letters x = if ltb x 106 then 100 else 0

letters-IsString : IsString letters 104 2
letters-IsString = record { chars = λ j lt. ground arith; end = refl }

scopy-copied_example :
    (m' : Bytes) × (scopy 3 100 104 letters ≡ some (100, m'))
    × ((x : ℕ) → m' x ≡ copied 3 100 104 letters x)
scopy-copied_example =
    scopy-copied 3 100 104 2 letters (inl (omega arith)) letters-IsString (omega arith)
      (omega arith) (omega arith)
