-- ===== src/Pci/Tests.antt =====
-- Configuration accesses at a chipset whose functions' registers are plain bytes.
use usbloader.Common.{
  ℕ, zero, suc, ◌+◌, ◌*◌, ◌/◌, ◌%◌, ◌≡◌, refl, arith, ◌-◌, Bool, ◌&&◌, ◌==◌, if◌then◌else◌, ◌↔◌,
  bit_and,
}
use usbloader.Io.{Ports}
use usbloader.Pci.{PciDev, get_pci_dev_addr, pci_read_32, pci_read_8, pci_write_32, pci_write_8}
use usbloader.Pci.Access.{get_pci_dev_addr-injective}
use usbloader.Pci.Mechanism.{
  Space, Chipset, Mechanism, selected, register, after_read, after_write, located, access_addr,
  pci_access-Space,
}

-- The bytes of every function's registers.
abbrev Registers : Type 0
Registers = PciDev → ℕ → ℕ

abbrev same : PciDev → PciDev → Bool
same x y = x.bus == y.bus && (x.device == y.device && x.func == y.func)

abbrev write : ℕ → PciDev → ℕ → ℕ → Registers → Registers
write zero dev reg value d = d
write (suc n) dev reg value d =
    let rest = write n dev (reg + 1) (value / 256) d in
    λ x r. if same x dev && r == reg then value % 256 else rest x r

abbrev bytes : ℕ → PciDev → ℕ → Registers → ℕ
bytes zero dev reg d = 0
bytes (suc n) dev reg d = d dev reg + 256 * bytes n dev (reg + 1) d

abbrev plain : Space Registers
plain = record {
  read_32 = λ dev reg d. (bytes 4 dev reg d, d);
  read_16 = λ dev reg d. (bytes 2 dev reg d, d);
  read_8 = λ dev reg d. (bytes 1 dev reg d, d);
  write_32 = write 4;
  write_16 = write 2;
  write_8 = write 1;
}

abbrev at_port {ℓ} : {A : Type ℓ} (port : ℕ) (c : Chipset Registers) → (PciDev → ℕ → A) → A
at_port port c f = f (selected c.address) (register c.address + (port - 3324))

abbrev chipset_ports : Ports (Chipset Registers)
chipset_ports = record {
  outl = λ port v c.
      if port == 3320
      then after_write v c.devices
      else after_write c.address (at_port port c (λ dev reg. write 4 dev reg v c.devices));
  outw =
      λ port v c. after_write c.address (at_port port c (λ dev reg. write 2 dev reg v c.devices));
  outb =
      λ port v c. after_write c.address (at_port port c (λ dev reg. write 1 dev reg v c.devices));
  inl = λ port c. (at_port port c (λ dev reg. bytes 4 dev reg c.devices), c);
  inw = λ port c. (at_port port c (λ dev reg. bytes 2 dev reg c.devices), c);
  inb = λ port c. (at_port port c (λ dev reg. bytes 1 dev reg c.devices), c);
}

data_port : (k : ℕ) → 3324 + k - 3324 ≡ k
data_port k = omega arith

first_byte : (a : ℕ) → register a + 0 ≡ register a
first_byte a = omega arith

chipset_ports-Mechanism : Mechanism plain chipset_ports
chipset_ports-Mechanism = record {
  select = λ a c. refl;
  reads_32 = λ a d on. rw (first_byte a) refl;
  reads_16 = λ a k d on lt. rw (data_port k) refl;
  reads_8 = λ a k d on lt. rw (data_port k) refl;
  writes_32 = λ a v d on. rw (first_byte a) refl;
  writes_16 = λ a k v d on lt. rw (data_port k) refl;
  writes_8 = λ a k v d on lt. rw (data_port k) refl;
}

abbrev controller : PciDev
controller = record { bus = 0; device = 33; func = 2 }

abbrev start : Chipset Registers
start = record { address = 0; devices = λ dev reg. reg }

pci_access-Space_example :
    (pci_read_32 chipset_ports controller 6 start
      ≡ after_read (access_addr controller 6) (plain.read_32 (located controller) 4 start.devices))
    × (pci_read_8 chipset_ports controller 6 start
        ≡ after_read (access_addr controller 6) (plain.read_8 (located controller) 6 start.devices))
    × (pci_write_32 chipset_ports controller 6 9 start
        ≡ after_write
            (access_addr controller 6)
            (plain.write_32 (located controller) 4 9 start.devices))
    × (pci_write_8 chipset_ports controller 6 9 start
        ≡ after_write
            (access_addr controller 6)
            (plain.write_8 (located controller) 6 9 start.devices))
pci_access-Space_example =
    pci_access-Space plain chipset_ports chipset_ports-Mechanism controller 6 9 start (omega arith)
      (omega arith)

abbrev neighbour : PciDev
neighbour = record { bus = 0; device = 1; func = 2 }

get_pci_dev_addr-injective_example :
    (get_pci_dev_addr controller (bit_and 6 252) ≡ get_pci_dev_addr neighbour (bit_and 4 252)) ↔ (
      (controller.bus ≡ neighbour.bus)
      × (controller.device % 32 ≡ neighbour.device % 32)
      × (controller.func % 8 ≡ neighbour.func % 8)
      × (6 / 4 ≡ 4 / 4))
get_pci_dev_addr-injective_example =
    get_pci_dev_addr-injective controller neighbour 6 4 (omega arith) (omega arith) (omega arith)
      (omega arith)
