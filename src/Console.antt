-- ===== src/Console.antt =====
-- What the drivers print: the calls of print_string, itoa_once and print_pci_dev of
-- drivers/display/print.c, over the state `W` of the devices.
use usbloader.Common.{ℕ}
use Prim.Native.String.{String}

pub record Console {ℓ} (W : Type ℓ) : Type ℓ where
  pub print : String → W → W
  pub print_number : (value base : ℕ) → W → W
  pub print_pci_dev : (dev : ℕ) → W → W
