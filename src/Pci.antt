-- ===== src/Pci.antt =====
-- drivers/pci/pci21.c: configuration accesses through the ports of mechanism #1.
pub mod Access
pub mod Mechanism
pub mod Devices
mod Tests
use usbloader.Io.{Ports}
use usbloader.Common.{ℕ, ◌+◌, ◌*◌, ◌%◌, ◌^◌, bit_and, bit_or}

abbrev pub pci_config_address : ℕ
pci_config_address = 3320

abbrev pub pci_config_data : ℕ
pci_config_data = 3324

-- The fields of a `struct pci_dev` that locate the function.
pub record PciDev : Type 0 where
  pub bus : ℕ
  pub device : ℕ
  pub func : ℕ

-- `x << k` of a `uint32_t`.
abbrev pub shl32 : (x k : ℕ) → ℕ
shl32 x k = x * 2 ^ k % 2 ^ 32

pub get_pci_dev_addr : PciDev → (reg : ℕ) → ℕ
get_pci_dev_addr dev reg =
    let addr = bit_or 0 (shl32 1 31) in
    let addr_1 = bit_or addr (shl32 dev.bus 16) in
    let addr_2 = bit_or addr_1 (shl32 (bit_and dev.device 31) 11) in
    let addr_3 = bit_or addr_2 (shl32 (bit_and dev.func 7) 8) in bit_or addr_3 (bit_and reg 252)

module _ {ℓ} {W : Type ℓ} (ports : Ports W) where
  pub pci_read_32 : PciDev → (offset : ℕ) → W → ℕ × W
  pci_read_32 dev offset w =
      ports.inl pci_config_data
        (ports.outl pci_config_address (get_pci_dev_addr dev (bit_and offset 252)) w)

  pub pci_read_16 : PciDev → (offset : ℕ) → W → ℕ × W
  pci_read_16 dev offset w =
      ports.inw (pci_config_data + bit_and offset 3)
        (ports.outl pci_config_address (get_pci_dev_addr dev (bit_and offset 252)) w)

  pub pci_read_8 : PciDev → (offset : ℕ) → W → ℕ × W
  pci_read_8 dev offset w =
      ports.inb (pci_config_data + bit_and offset 3)
        (ports.outl pci_config_address (get_pci_dev_addr dev (bit_and offset 252)) w)

  pub pci_write_32 : PciDev → (offset value : ℕ) → W → W
  pci_write_32 dev offset value w =
      ports.outl pci_config_data value
        (ports.outl pci_config_address (get_pci_dev_addr dev (bit_and offset 252)) w)

  unfoldable pub pci_write_16 : PciDev → (offset value : ℕ) → W → W
  pci_write_16 dev offset value w =
      ports.outw (pci_config_data + bit_and offset 3) value
        (ports.outl pci_config_address (get_pci_dev_addr dev (bit_and offset 252)) w)

  pub pci_write_8 : PciDev → (offset value : ℕ) → W → W
  pci_write_8 dev offset value w =
      ports.outb (pci_config_data + bit_and offset 3) value
        (ports.outl pci_config_address (get_pci_dev_addr dev (bit_and offset 252)) w)
