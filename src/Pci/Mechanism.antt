-- ===== src/Pci/Mechanism.antt =====
-- The accesses of pci21.c at a chipset with configuration mechanism #1 (PCI specification 3.2.2.3.2):
-- the address register selects a function and one of its registers, the data port reads or
-- writes it. The functions' registers are the parameter `Space`.
use usbloader.Common.{ℕ, ◌+◌, ◌*◌, ◌/◌, ◌%◌, ◌≤◌, ◌<◌, ◌≡◌, refl, arith, bit_and}
use usbloader.Common.Bits.{bit_and-low}
use usbloader.Io.{Ports}
use usbloader.Pci.{
  PciDev, pci_config_address, pci_config_data, pci_read_32, pci_read_16, pci_read_8, pci_write_32,
  pci_write_16, pci_write_8,
}
use usbloader.Pci.Access.{fields, get_pci_dev_addr-fields}

pub record Space {ℓ} (D : Type ℓ) : Type ℓ where
  pub read_32 : PciDev → (reg : ℕ) → D → ℕ × D
  pub read_16 : PciDev → (reg : ℕ) → D → ℕ × D
  pub read_8 : PciDev → (reg : ℕ) → D → ℕ × D
  pub write_32 : PciDev → (reg value : ℕ) → D → D
  pub write_16 : PciDev → (reg value : ℕ) → D → D
  pub write_8 : PciDev → (reg value : ℕ) → D → D

pub record Chipset {ℓ} (D : Type ℓ) : Type ℓ where
  pub address : ℕ
  pub devices : D

abbrev pub selected : (address : ℕ) → PciDev
selected address = record {
  bus = address / 65536 % 256;
  device = address / 2048 % 32;
  func = address / 256 % 8;
}

abbrev pub register : (address : ℕ) → ℕ
register address = address / 4 % 64 * 4

abbrev pub after_read {ℓ} : {D : Type ℓ} → ℕ → ℕ × D → ℕ × Chipset D
after_read address (value, d) = (value, record { address = address; devices = d })

abbrev pub after_write {ℓ} : {D : Type ℓ} → ℕ → D → Chipset D
after_write address d = record { address = address; devices = d }

-- The documented behaviour of the two ports.
pub record Mechanism {ℓ} {D : Type ℓ} (space : Space D) (ports : Ports (Chipset D)) : Type ℓ where
  pub select : (a : ℕ) (c : Chipset D) → ports.outl pci_config_address a c ≡ after_write a c.devices
  pub reads_32 :
      (a : ℕ) (d : D)
      → 2147483648 ≤ a
      → ports.inl pci_config_data (after_write a d)
        ≡ after_read a (space.read_32 (selected a) (register a) d)
  pub reads_16 :
      (a k : ℕ) (d : D)
      → 2147483648 ≤ a
      → k < 3
      → ports.inw (pci_config_data + k) (after_write a d)
        ≡ after_read a (space.read_16 (selected a) (register a + k) d)
  pub reads_8 :
      (a k : ℕ) (d : D)
      → 2147483648 ≤ a
      → k < 4
      → ports.inb (pci_config_data + k) (after_write a d)
        ≡ after_read a (space.read_8 (selected a) (register a + k) d)
  pub writes_32 :
      (a v : ℕ) (d : D)
      → 2147483648 ≤ a
      → ports.outl pci_config_data v (after_write a d)
        ≡ after_write a (space.write_32 (selected a) (register a) v d)
  pub writes_16 :
      (a k v : ℕ) (d : D)
      → 2147483648 ≤ a
      → k < 3
      → ports.outw (pci_config_data + k) v (after_write a d)
        ≡ after_write a (space.write_16 (selected a) (register a + k) v d)
  pub writes_8 :
      (a k v : ℕ) (d : D)
      → 2147483648 ≤ a
      → k < 4
      → ports.outb (pci_config_data + k) v (after_write a d)
        ≡ after_write a (space.write_8 (selected a) (register a + k) v d)

-- The function that a `struct pci_dev` locates: the address has 5 and 3 bits for its numbers.
abbrev pub located : PciDev → PciDev
located dev = record { bus = dev.bus; device = dev.device % 32; func = dev.func % 8 }

-- The address register that an access leaves.
abbrev pub access_addr : PciDev → (offset : ℕ) → ℕ
access_addr dev offset = fields dev.bus (dev.device % 32) (dev.func % 8) (offset / 4 * 4)

selected-access_addr :
    (dev : PciDev) (offset : ℕ)
    → dev.bus < 256
    → offset < 256
    → selected (access_addr dev offset) ≡ located dev
selected-access_addr dev offset bus byte =
    let a = access_addr dev offset in
    let bus_eq : a / 65536 % 256 ≡ dev.bus = omega arith in
    let device_eq : a / 2048 % 32 ≡ dev.device % 32 = omega arith in
    let func_eq : a / 256 % 8 ≡ dev.func % 8 = omega arith in cc (bus_eq, device_eq, func_eq)

register-access_addr :
    (dev : PciDev) (offset : ℕ) → offset < 256 → register (access_addr dev offset) ≡ offset / 4 * 4
register-access_addr dev offset byte = omega arith

module _ {ℓ} {D : Type ℓ} (space : Space D) (ports : Ports (Chipset D))
    (m : Mechanism space ports) where
  -- At a chipset with mechanism #1, for a bus number and an offset below 256, pci_read_8 and
  -- pci_write_8 reach the register at the offset of the function that the device locates,
  -- pci_read_32 and pci_write_32 the register at the offset with its two low bits cleared, and
  -- nothing else of the devices changes.
  pub pci_access-Space :
      (dev : PciDev) (offset value : ℕ) (c : Chipset D)
      → dev.bus < 256
      → offset < 256
      → (pci_read_32 ports dev offset c
          ≡ after_read
              (access_addr dev offset)
              (space.read_32 (located dev) (offset / 4 * 4) c.devices))
        × (pci_read_8 ports dev offset c
            ≡ after_read (access_addr dev offset) (space.read_8 (located dev) offset c.devices))
        × (pci_write_32 ports dev offset value c
            ≡ after_write
                (access_addr dev offset)
                (space.write_32 (located dev) (offset / 4 * 4) value c.devices))
        × (pci_write_8 ports dev offset value c
            ≡ after_write
                (access_addr dev offset)
                (space.write_8 (located dev) offset value c.devices))
  unfolding pci_read_32 pci_read_8 pci_write_32 pci_write_8
  pci_access-Space dev offset value c bus byte =
      let a = access_addr dev offset in
      let addr = get_pci_dev_addr-fields dev offset bus byte in
      let dev_eq = selected-access_addr dev offset bus byte in
      let reg_eq = register-access_addr dev offset byte in
      let low_eq : bit_and offset 3 ≡ offset % 4 = bit_and-low 2 offset in
      let whole : offset / 4 * 4 + offset % 4 ≡ offset = omega arith in
      let open_32 = m.reads_32 a c.devices (omega arith) in
      let open_8 = m.reads_8 a (offset % 4) c.devices (omega arith) (omega arith) in
      let store_32 = m.writes_32 a value c.devices (omega arith) in
      let store_8 = m.writes_8 a (offset % 4) value c.devices (omega arith) (omega arith) in
      (
        rw (pci_read_32, addr, m.select a c, open_32, dev_eq, reg_eq) refl,
        rw (pci_read_8, addr, low_eq, m.select a c, open_8, dev_eq, reg_eq, whole) refl,
        rw (pci_write_32, addr, m.select a c, store_32, dev_eq, reg_eq) refl,
        rw (pci_write_8, addr, low_eq, m.select a c, store_8, dev_eq, reg_eq, whole) refl,
      )

  -- At a chipset with mechanism #1, for a bus number and an offset below 256 that is not the last
  -- byte of a double word, pci_read_16 and pci_write_16 reach the register at the offset of the
  -- function that the device locates, and nothing else of the devices changes.
  pub pci_access_16-Space :
      (dev : PciDev) (offset value : ℕ) (c : Chipset D)
      → dev.bus < 256
      → offset < 256
      → offset % 4 < 3
      → (pci_read_16 ports dev offset c
          ≡ after_read (access_addr dev offset) (space.read_16 (located dev) offset c.devices))
        × (pci_write_16 ports dev offset value c
            ≡ after_write
                (access_addr dev offset)
                (space.write_16 (located dev) offset value c.devices))
  unfolding pci_read_16 pci_write_16
  pci_access_16-Space dev offset value c bus byte inside =
      let a = access_addr dev offset in
      let addr = get_pci_dev_addr-fields dev offset bus byte in
      let dev_eq = selected-access_addr dev offset bus byte in
      let reg_eq = register-access_addr dev offset byte in
      let low_eq : bit_and offset 3 ≡ offset % 4 = bit_and-low 2 offset in
      let whole : offset / 4 * 4 + offset % 4 ≡ offset = omega arith in
      let open_16 = m.reads_16 a (offset % 4) c.devices (omega arith) inside in
      let store_16 = m.writes_16 a (offset % 4) value c.devices (omega arith) inside in
      (
        rw (pci_read_16, addr, low_eq, m.select a c, open_16, dev_eq, reg_eq, whole) refl,
        rw (pci_write_16, addr, low_eq, m.select a c, store_16, dev_eq, reg_eq, whole) refl,
      )
