-- ===== src/Screen/PciText.antt =====
-- print_pci_dev and itoa_once of drivers/display/print.c: numbers that are put in a buffer and
-- printed from there.
use usbloader.Common.{ℕ, zero, suc, ◌+◌, ◌==◌, if◌then◌else◌, Option, none, some, List, [], ◌∷◌}
use usbloader.Io.{Ports}
use usbloader.Memory.{Bytes}
use usbloader.Pci.{PciDev}
use usbloader.Pci.Devices.{PciHeader}
use usbloader.Screen.{Screen, print_string, space}
use usbloader.Screen.Number.{ℤ, pos, itoa}

-- The characters from `str` to the NUL; `none` is fuel that ran out.
pub string_at : ℕ → (str : ℕ) → Bytes → Option (List ℕ)
string_at zero str m = none
string_at (suc fuel) str m =
    let rest = string_at fuel (str + 1) m in
    if m str == 0 then some [] else elim rest [ none ↦ none | some cs ↦ some (m str ∷ cs) ]

-- `itoa` into the static buffer at `itoa_fixed`.
pub itoa_once : (fuel itoa_fixed : ℕ) (value : ℤ) (base : ℕ) → Bytes → Option Bytes
itoa_once fuel itoa_fixed value base m = itoa fuel value itoa_fixed base m

-- The ASCII characters of the texts between the numbers.
abbrev pub colon : ℕ
colon = 58

abbrev pub dot : ℕ
dot = 46

module _ {ℓ} {W : Type ℓ} (ports : Ports W) where
  -- A step of the output; `none` is fuel that ran out.
  abbrev pub Print : Type ℓ
  Print = Screen × W → Option (Screen × W)

  infixl 5 ◌>>◌
  abbrev pub ◌>>◌ : Print → Print → Print
  ◌>>◌ a b st = elim (a st) [ none ↦ none | some st' ↦ b st' ]

  abbrev pub text : List ℕ → Print
  text cs (s, w) = some (print_string ports cs s w)

  -- `print_string(itoa(value, buf, base))`
  pub print_number : (fuel buf value base : ℕ) → Print
  print_number fuel buf value base (s, w) = elim (itoa fuel (pos value) buf base s.memory) [
    | none ↦ none
    | some m ↦ elim (string_at fuel buf m) [
      | none ↦ none
      | some cs ↦ some (print_string ports cs (record s { memory = m }) w)
    ]
  ]

  pub print_pci_dev : (fuel buf : ℕ) → PciDev → PciHeader → Print
  print_pci_dev fuel buf dev header =
      print_number fuel buf dev.bus 10
      >> text (colon ∷ [])
      >> print_number fuel buf dev.device 10
      >> text (dot ∷ [])
      >> print_number fuel buf dev.func 10
      >> text (space ∷ [])
      >> print_number fuel buf header.vendor_id 16
      >> text (colon ∷ [])
      >> print_number fuel buf header.device_id 16
      >> text (space ∷ 114 ∷ 101 ∷ 118 ∷ space ∷ [])
      >> print_number fuel buf header.rev_id 16
      >> text (space ∷ 91 ∷ [])
      >> print_number fuel buf header.class_code 16
      >> text (colon ∷ [])
      >> print_number fuel buf header.subclass 16
      >> text (93 ∷ [])
      >> text (space ∷ 105 ∷ 102 ∷ space ∷ [])
      >> print_number fuel buf header.prog_if 16
