-- ===== src/Pci/Access.antt =====
-- What the accesses of pci21.c reach: the address register's fields, and the register of the
-- function that mechanism #1 decodes from them.
use usbloader.Common.{ℕ, ◌+◌, ◌*◌, ◌/◌, ◌%◌, ◌<◌, ◌≡◌, ◌∙◌, ◌↔◌, arith, bit_and, bit_or}
use usbloader.Common.Bits.{bit_and-high, bit_and-low, bit_or-add}
use usbloader.Pci.{PciDev, get_pci_dev_addr}

-- The address register: the enable bit, then the bus, the device, the function and the register.
abbrev pub fields : (bus device func reg : ℕ) → ℕ
fields bus device func reg = 2147483648 + bus * 65536 + device * 2048 + func * 256 + reg

-- The register of a `uint8_t` offset, less its two low bits.
pub offset_high : (offset : ℕ) → offset < 256 → bit_and offset 252 ≡ offset / 4 * 4
offset_high offset byte = bit_and-high 8 2 offset (omega arith) byte

pub get_pci_dev_addr-fields :
    (dev : PciDev) (offset : ℕ)
    → dev.bus < 256
    → offset < 256
    → get_pci_dev_addr dev (bit_and offset 252)
      ≡ fields dev.bus (dev.device % 32) (dev.func % 8) (offset / 4 * 4)
unfolding get_pci_dev_addr
get_pci_dev_addr-fields dev offset bus byte =
    let device = dev.device % 32 in
    let func = dev.func % 8 in
    let reg = offset / 4 * 4 in
    let reg_eq : bit_and (bit_and offset 252) 252 ≡ reg =
      rw (offset_high offset byte)
        (rw (offset_high (offset / 4 * 4) (omega arith)) (omega arith)) in
    let bus_eq : dev.bus * 65536 % 4294967296 ≡ dev.bus * 65536 = omega arith in
    let device_eq : bit_and dev.device 31 * 2048 % 4294967296 ≡ device * 2048 =
      rw (bit_and-low 5 dev.device) (omega arith) in
    let func_eq : bit_and dev.func 7 * 256 % 4294967296 ≡ func * 256 =
      rw (bit_and-low 3 dev.func) (omega arith) in
    let with_bus : bit_or 2147483648 (dev.bus * 65536) ≡ (32768 + dev.bus) * 65536 =
      bit_or-add 31 1 (dev.bus * 65536) (omega arith) ∙ omega arith in
    let with_device : bit_or ((32768 + dev.bus) * 65536) (device * 2048)
        ≡ (32 * (32768 + dev.bus) + device) * 2048 =
      bit_or-add 16 (32768 + dev.bus) (device * 2048) (omega arith) ∙ omega arith in
    let upper = 32 * (32768 + dev.bus) + device in
    let with_func : bit_or (upper * 2048) (func * 256) ≡ (8 * upper + func) * 256 =
      bit_or-add 11 upper (func * 256) (omega arith) ∙ omega arith in
    let with_reg : bit_or ((8 * upper + func) * 256) reg ≡ (8 * upper + func) * 256 + reg =
      bit_or-add 8 (8 * upper + func) reg (omega arith) in
    rw (reg_eq, bus_eq, device_eq, func_eq, with_bus, with_device, with_func, with_reg)
      (omega arith)

-- For bus numbers and offsets below 256, get_pci_dev_addr gives two accesses the same address
-- exactly when they agree in the bus, the device number modulo 32, the function number modulo 8 and
-- the double word of the offset.
pub get_pci_dev_addr-injective :
    (dev dev' : PciDev) (offset offset' : ℕ)
    → dev.bus < 256
    → dev'.bus < 256
    → offset < 256
    → offset' < 256
    → (get_pci_dev_addr dev (bit_and offset 252) ≡ get_pci_dev_addr dev' (bit_and offset' 252)) ↔ (
        (dev.bus ≡ dev'.bus)
        × (dev.device % 32 ≡ dev'.device % 32)
        × (dev.func % 8 ≡ dev'.func % 8)
        × (offset / 4 ≡ offset' / 4))
get_pci_dev_addr-injective dev dev' offset offset' bus bus' byte byte' =
    rw
      (get_pci_dev_addr-fields dev offset bus byte, get_pci_dev_addr-fields dev' offset' bus' byte')
      ((λ e. (omega arith, omega arith, omega arith, omega arith)), λ (b, d, f, r). omega arith)
