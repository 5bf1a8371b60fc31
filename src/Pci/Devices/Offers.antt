-- ===== src/Pci/Devices/Offers.antt =====
-- Which drivers of pci21.c see a function, and what becomes of its memory.
use usbloader.Common.{
  ℕ, zero, suc, ◌+◌, ◌*◌, ◌/◌, ◌%◌, ◌≤◌, ◌≡◌, refl, ap, ◌∙◌, Bool, true, false, not, ◌||◌, arith,
  ◌==◌, if◌then◌else◌, List, [], ◌∷◌, ◌++◌,
}
use usbloader.Io.{Ports}
use usbloader.Pci.{PciDev}
use usbloader.Pci.Devices.{
  PciHeader, Found, Store, Driver, offer, read_common, read_rest, read_function, pci_read_device,
  read_devices, read_buses, pci_enumerate_devices, sizeof_pci_dev,
}

-- Drivers that refuse the device in turn, from the state `w` on, up to the state `w'`.
pub data Refused {ℓ} {W : Type ℓ} (f : Found) : List (Driver W) → W → W → Type ℓ where
  none_left : {w : W} → Refused f [] w w
  refuses :
      {init : Driver W} {drivers : List (Driver W)} {w w' : W}
      → (init f w).0 ≡ false
      → Refused f drivers (init f w).1 w'
      → Refused f (init ∷ drivers) w w'

offer-Refused {ℓ} :
    {W : Type ℓ} {f : Found} {front : List (Driver W)} {w w' : W}
    → Refused f front w w'
    → (back : List (Driver W)) → offer (front ++ back) f w ≡ offer back f w'
unfolding offer
offer-Refused none_left back = refl
offer-Refused (refuses no' rest) back = rw no' (offer-Refused rest back)

offer-Refused_all {ℓ} :
    {W : Type ℓ} {f : Found} {drivers : List (Driver W)} {w w' : W}
    → Refused f drivers w w'
    → offer drivers f w ≡ (false, w')
unfolding offer
offer-Refused_all none_left = refl
offer-Refused_all (refuses no' rest) = rw no' (offer-Refused_all rest)

offer-takes {ℓ} :
    {W : Type ℓ} (init : Driver W) (back : List (Driver W)) (f : Found) (w : W)
    → (init f w).0 ≡ true
    → offer (init ∷ back) f w ≡ (true, (init f w).1)
unfolding offer
offer-takes init back f w takes = rw takes refl

module _ {ℓ} {W : Type ℓ} (ports : Ports W) (store : Store W) (bus device func : ℕ) where
  abbrev located : PciDev
  located = record { bus = bus; device = device; func = func }

  abbrev pub pointer_of : W → ℕ
  pointer_of w = (store.memalloc sizeof_pci_dev w).0

  -- The header's common part, and the state after it has been read.
  abbrev pub common_of : W → PciHeader × W
  common_of w = read_common ports located (store.memalloc sizeof_pci_dev w).1

  -- The device, and the state when it is offered.
  abbrev pub found_of : W → Found
  found_of w = record {
    pointer = pointer_of w;
    dev = located;
    header = (read_rest ports located (common_of w).0 (common_of w).1).0;
  }

  abbrev pub read_of : W → W
  read_of w = (read_rest ports located (common_of w).0 (common_of w).1).1

  -- The function answers.
  abbrev pub present : W → Bool
  present w = not ((common_of w).0.header_type == 0xff || (common_of w).0.class_code == 0xff)

  read_function-present :
      (drivers : List (Driver W)) (w : W)
      → present w ≡ true
      → read_function ports store drivers bus device func w ≡ (
          let (init_done, w') = offer drivers (found_of w) (read_of w) in
          if not init_done then store.memfree (pointer_of w) w' else w')
  unfolding read_function
  read_function-present drivers w here =
      let there : ((common_of w).0.header_type == 0xff || (common_of w).0.class_code == 0xff)
          ≡ false =
        ground arith in
      rw (read_function, there) refl

  -- For a function whose header type and class are not 0xff, when the first drivers refuse it in
  -- turn and the next one takes it, the state after it has been read is the one that this driver
  -- leaves: no later driver is called and its memory is not freed.
  pub read_function-taken :
      (front back : List (Driver W)) (init : Driver W) (w w' : W)
      → present w ≡ true
      → Refused (found_of w) front (read_of w) w'
      → (init (found_of w) w').0 ≡ true
      → read_function ports store (front ++ init ∷ back) bus device func w
        ≡ (init (found_of w) w').1
  read_function-taken front back init w w' here refused takes =
      read_function-present (front ++ init ∷ back) w here
      ∙ rw (offer-Refused refused (init ∷ back), offer-takes init back (found_of w) w' takes) refl

  -- For a function whose header type and class are not 0xff, when all drivers refuse it in turn,
  -- its memory is freed after the last of them.
  pub read_function-Refused :
      (drivers : List (Driver W)) (w w' : W)
      → present w ≡ true
      → Refused (found_of w) drivers (read_of w) w'
      → read_function ports store drivers bus device func w ≡ store.memfree (pointer_of w) w'
  read_function-Refused drivers w w' here refused =
      read_function-present drivers w here ∙ rw (offer-Refused_all refused) refl

-- The functions of the pair `i` of a bus and a device, in the order of the buses.
abbrev pub read_pair {ℓ} : {W : Type ℓ} → Ports W → Store W → List (Driver W) → (i : ℕ) → W → W
read_pair ports store drivers i w = pci_read_device ports store drivers (i / 32) (i % 32) w

-- The pairs from `i` on, `left` of them.
pub read_pairs {ℓ} : {W : Type ℓ} → Ports W → Store W → List (Driver W) → (left i : ℕ) → W → W
read_pairs ports store drivers zero i w = w
read_pairs ports store drivers (suc left) i w =
    read_pairs ports store drivers left (i + 1) (read_pair ports store drivers i w)

module _ {ℓ} {W : Type ℓ} (ports : Ports W) (store : Store W) (drivers : List (Driver W)) where
  read_pairs-add :
      (m n i : ℕ) (w : W)
      → read_pairs ports store drivers (m + n) i w
        ≡ read_pairs ports store drivers n (i + m) (read_pairs ports store drivers m i w)
  unfolding read_pairs
  read_pairs-add zero n i w =
      let count : 0 + n ≡ n = omega arith in
      let start : i + 0 ≡ i = omega arith in rw (count, start) refl
  read_pairs-add (suc m) n i w =
      let count : suc m + n ≡ suc (m + n) = omega arith in
      let start : i + 1 + m ≡ i + suc m = omega arith in
      rw (count, read_pairs)
        (rw start at (read_pairs-add m n (i + 1) (read_pair ports store drivers i w)))

  read_devices-pairs :
      (left bus device : ℕ) (w : W)
      → device + left ≤ 32
      → read_devices ports store drivers left bus device w
        ≡ read_pairs ports store drivers left (bus * 32 + device) w
  unfolding read_devices read_pairs
  read_devices-pairs zero bus device w fits = refl
  read_devices-pairs (suc left) bus device w fits =
      let high : (bus * 32 + device) / 32 ≡ bus = omega arith in
      let low : (bus * 32 + device) % 32 ≡ device = omega arith in
      let next : bus * 32 + (device + 1) ≡ bus * 32 + device + 1 = omega arith in
      rw (read_devices, high, low)
        (rw next at (
          read_devices-pairs left bus (device + 1)
            (pci_read_device ports store drivers bus device w) (omega arith)))

  read_buses-pairs :
      (left bus : ℕ) (w : W)
      → bus + left ≤ 256
      → read_buses ports store drivers left bus w
        ≡ read_pairs ports store drivers (left * 32) (bus * 32) w
  unfolding read_buses read_pairs
  read_buses-pairs zero bus w fits = refl
  read_buses-pairs (suc left) bus w fits =
      let w' = read_devices ports store drivers 32 bus 0 w in
      let number : bus % 256 ≡ bus = omega arith in
      let here : bus * 32 + 0 ≡ bus * 32 = omega arith in
      let next : (bus + 1) * 32 ≡ bus * 32 + 32 = omega arith in
      let count : suc left * 32 ≡ 32 + left * 32 = omega arith in
      let devices = rw here at (read_devices-pairs 32 bus 0 w (omega arith)) in
      let rest = rw next at (read_buses-pairs left (bus + 1) w' (omega arith)) in
      rw (read_buses, number, count, read_pairs-add 32 (left * 32) (bus * 32) w)
        (rest ∙ ap (λ v. read_pairs ports store drivers (left * 32) (bus * 32 + 32) v) devices)

  -- pci_enumerate_devices reads the 8192 pairs of a bus below 256 and a device below 32 once each,
  -- the devices of a bus in a row.
  pub pci_enumerate_devices-pairs :
      (w : W)
      → pci_enumerate_devices ports store drivers w ≡ read_pairs ports store drivers 8192 0 w
  unfolding pci_enumerate_devices
  pci_enumerate_devices-pairs w = read_buses-pairs 256 0 w (omega arith)
