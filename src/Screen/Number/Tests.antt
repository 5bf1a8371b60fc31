-- ===== src/Screen/Number/Tests.antt =====
-- The number -255 at 100, in decimal digits, and two wide characters at 500.
use usbloader.Common.{ℕ, ◌+◌, ◌*◌, ◌%◌, ◌<◌, ◌≡◌, refl, ◌⊎◌, inl, inr, some, arith}
use usbloader.Memory.{Bytes}
use usbloader.Screen.Number.{negsuc, itoa, wstr_to_str}
use usbloader.Screen.Number.Itoa.{Numeral, with_sign, itoa-Numeral}
use usbloader.Screen.Number.Wide.{wstr_to_str-chars}

abbrev empty_memory : Bytes
empty_memory = λ x. 0

itoa-Numeral_example :
    (last : ℕ) × (n : Bytes) × (itoa 9 (negsuc 254) 100 10 empty_memory ≡ some n)
    × Numeral 255 10 101 last (with_sign 10 (negsuc 254) 100 empty_memory) n
itoa-Numeral_example =
    itoa-Numeral 10 (omega arith) (omega arith) 8 (negsuc 254) 100 empty_memory (omega arith)

abbrev wide_memory : Bytes
wide_memory = λ x. x % 128

wstr_to_str-chars_example :
    ((j : ℕ)
      → j < 2
      → wstr_to_str 500 4 600 2 wide_memory (600 + j) ≡ wide_memory (500 + 2 * j) % 256)
    × (wstr_to_str 500 4 600 2 wide_memory (600 + 2) ≡ 0)
    × ((x : ℕ) → (x < 600) ⊎ (600 + 2 < x) → wstr_to_str 500 4 600 2 wide_memory x ≡ wide_memory x)
wstr_to_str-chars_example =
    wstr_to_str-chars 500 4 600 2 2 wide_memory (inl (refl, omega arith)) (inr (omega arith))
