-- ===== src/Pci/Devices.antt =====
-- drivers/pci/pci21.c: the enumeration of the devices and the registry of drivers. The allocator's
-- calls are the parameter `Store`, which mem.c implements; a driver is its function `init`, over
-- the state `W` of the devices and the memory.
pub mod Offers
mod Tests
use usbloader.Common.{
  ℕ, zero, suc, ◌+◌, ◌-◌, ◌*◌, ◌%◌, ◌^◌, Bool, true, false, not, ◌||◌, Option, none, some, leb,
  ◌==◌, if◌then◌else◌, List, [], ◌∷◌, ◌++◌, length, bit_and,
}
use usbloader.Io.{Ports}
use usbloader.Pci.{PciDev, pci_read_8, pci_read_16, pci_read_32}

pub record Type00 : Type 0 where
  pub bar : List ℕ
  pub cardbus_cis : ℕ
  pub subsystem_vid : ℕ
  pub subsystem_id : ℕ
  pub rom_base_addr : ℕ
  pub interrupt_line : ℕ
  pub interrupt_pin : ℕ
  pub min_grant : ℕ
  pub max_latency : ℕ

-- `struct pci_header`; its union is set for type 0 only.
pub record PciHeader : Type 0 where
  pub vendor_id : ℕ
  pub device_id : ℕ
  pub command : ℕ
  pub status : ℕ
  pub rev_id : ℕ
  pub prog_if : ℕ
  pub subclass : ℕ
  pub class_code : ℕ
  pub cache_line_size : ℕ
  pub latency_timer : ℕ
  pub header_type : ℕ
  pub bist : ℕ
  pub type00 : Option Type00

abbrev pub header_type_multifunc_mask : ℕ
header_type_multifunc_mask = 0x80

abbrev pub header_type_type_mask : ℕ
header_type_type_mask = 0x7f

abbrev pub header_type00_bar_addrs : ℕ
header_type00_bar_addrs = 6

abbrev pub max_reg_drivers : ℕ
max_reg_drivers = 3

-- `memalloc` and `memfree`, as what they do to the state.
pub record Store {ℓ} (W : Type ℓ) : Type ℓ where
  pub memalloc : (size : ℕ) → W → ℕ × W
  pub memfree : (ptr : ℕ) → W → W

-- `sizeof(struct pci_dev)`
abbrev pub sizeof_pci_dev : ℕ
sizeof_pci_dev = 68

-- A device that was read: its address in memory, its location and its header.
pub record Found : Type 0 where
  pub pointer : ℕ
  pub dev : PciDev
  pub header : PciHeader

-- A driver's `init`: whether it takes the device.
abbrev pub Driver {ℓ} : Type ℓ → Type ℓ
Driver W = Found → W → Bool × W

module _ {ℓ} {W : Type ℓ} where
  infixl 5 ◌>>=◌
  abbrev pub ◌>>=◌ : {A B : Type 0} → (W → A × W) → (A → W → B × W) → W → B × W
  ◌>>=◌ m f w = let (a, w') = m w in f a w'

  abbrev pub pure : {A : Type 0} → A → W → A × W
  pure a w = (a, w)

  -- The loop over the registered drivers: whether one took the device.
  pub offer : List (Driver W) → Found → W → Bool × W
  offer [] f w = (false, w)
  offer (init ∷ drivers) f w =
      let (taken, w') = init f w in
      let rest = offer drivers f w' in if taken then (true, w') else rest

  pub pci_register_driver : Driver W → List (Driver W) → List (Driver W)
  pci_register_driver drv drivers =
      if leb max_reg_drivers (length drivers) then drivers else drivers ++ drv ∷ []

module _ {ℓ} {W : Type ℓ} (ports : Ports W) where
  -- The loop over the base addresses, with `left` to go.
  pub read_bars : (left bar_off : ℕ) → PciDev → W → List ℕ × W
  read_bars zero bar_off dev w = ([], w)
  read_bars (suc left) bar_off dev w =
      let (bar, w_1) = pci_read_32 ports dev (0x10 + bar_off * 4 % 2 ^ 8) w in
      let (bars, w_2) = read_bars left (bar_off + 1) dev w_1 in (bar ∷ bars, w_2)

  pub read_type00 : PciDev → W → Type00 × W
  read_type00 dev = do
    bar ← read_bars header_type00_bar_addrs 0 dev
    cardbus_cis ← pci_read_32 ports dev 0x28
    subsystem_vid ← pci_read_16 ports dev 0x2c
    subsystem_id ← pci_read_16 ports dev 0x2e
    rom_base_addr ← pci_read_16 ports dev 0x30
    interrupt_line ← pci_read_8 ports dev 0x3c
    interrupt_pin ← pci_read_8 ports dev 0x3d
    min_grant ← pci_read_8 ports dev 0x3e
    max_latency ← pci_read_8 ports dev 0x3f
    pure (record {
      bar = bar;
      cardbus_cis = cardbus_cis;
      subsystem_vid = subsystem_vid;
      subsystem_id = subsystem_id;
      rom_base_addr = rom_base_addr;
      interrupt_line = interrupt_line;
      interrupt_pin = interrupt_pin;
      min_grant = min_grant;
      max_latency = max_latency;
    })

  -- The fields that every header has.
  pub read_common : PciDev → W → PciHeader × W
  read_common dev = do
    vendor_id ← pci_read_16 ports dev 0x0
    device_id ← pci_read_16 ports dev 0x2
    command ← pci_read_16 ports dev 0x4
    status ← pci_read_16 ports dev 0x6
    rev_id ← pci_read_8 ports dev 0x8
    prog_if ← pci_read_8 ports dev 0x9
    subclass ← pci_read_8 ports dev 0xa
    class_code ← pci_read_8 ports dev 0xb
    cache_line_size ← pci_read_8 ports dev 0xc
    latency_timer ← pci_read_8 ports dev 0xd
    header_type ← pci_read_8 ports dev 0xe
    bist ← pci_read_8 ports dev 0xf
    pure (record {
      vendor_id = vendor_id;
      device_id = device_id;
      command = command;
      status = status;
      rev_id = rev_id;
      prog_if = prog_if;
      subclass = subclass;
      class_code = class_code;
      cache_line_size = cache_line_size;
      latency_timer = latency_timer;
      header_type = header_type;
      bist = bist;
      type00 = none;
    })

  -- The rest of the header, by its type.
  pub read_rest : PciDev → PciHeader → W → PciHeader × W
  read_rest dev header w =
      let (type00, w') = read_type00 dev w in
      if bit_and header.header_type header_type_type_mask == 0
      then (record header { type00 = some type00 }, w')
      else (header, w)

  module _ (store : Store W) (drivers : List (Driver W)) where
    -- One round of the loop over the functions.
    pub read_function : (bus device func : ℕ) → W → W
    read_function bus device func w =
        let (pointer, w_1) = store.memalloc sizeof_pci_dev w in
        let dev : PciDev = record { bus = bus; device = device; func = func } in
        let (header, w_2) = read_common dev w_1 in
        let (whole, w_3) = read_rest dev header w_2 in
        let (init_done, w_4) =
          offer drivers (record { pointer = pointer; dev = dev; header = whole }) w_3 in
        if header.header_type == 0xff || header.class_code == 0xff
        then w_2
        else if not init_done
        then store.memfree pointer w_4
        else w_4

    -- The loop over the functions, with `left` to go.
    pub read_functions : (left bus device func : ℕ) → W → W
    read_functions zero bus device func w = w
    read_functions (suc left) bus device func w =
        read_functions left bus device (func + 1) (read_function bus device func w)

    pub pci_read_device : (bus device : ℕ) → W → W
    pci_read_device bus device w =
        let tmp_dev : PciDev = record { bus = bus; device = device; func = 0 } in
        let (vid, w_1) = pci_read_16 ports tmp_dev 0 w in
        let (header_type, w_2) = pci_read_8 ports tmp_dev 0xe w_1 in
        let max_funcs =
          if not (bit_and header_type header_type_multifunc_mask == 0) then 8 else 1 in
        if vid == 0xffff then w_1 else read_functions max_funcs bus device 0 w_2

    -- The loop over the devices of a bus, with `left` to go.
    pub read_devices : (left bus device : ℕ) → W → W
    read_devices zero bus device w = w
    read_devices (suc left) bus device w =
        read_devices left bus (device + 1) (pci_read_device bus device w)

    -- The loop over the buses, with `left` to go.
    pub read_buses : (left bus : ℕ) → W → W
    read_buses zero bus w = w
    read_buses (suc left) bus w = read_buses left (bus + 1) (read_devices 32 (bus % 2 ^ 8) 0 w)

    pub pci_enumerate_devices : W → W
    pci_enumerate_devices w = read_buses 256 0 w
