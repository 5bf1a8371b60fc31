-- ===== src/Uhci/Requests.antt =====
-- drivers/usb/uhci.c: the requests to a device, from the descriptors to the end of the transfer.
-- The state is the heap with the memory, the pending queue, and the rest of the machine. `none` is
-- fuel that ran out.
pub mod Entry
pub mod Actions
pub mod Steps
pub mod Ending
pub mod Transfer
pub mod Descriptor
mod Tests
use usbloader.Common.{
  ℕ, zero, suc, ◌+◌, ◌-◌, ◌*◌, ◌%◌, ◌^◌, Bool, true, false, not, ◌==◌, if◌then◌else◌, Option, none,
  some, bit_or,
}
use usbloader.Memory.{Bytes, store8, store32, load16, load32}
use usbloader.Heap.{Heap, memalloc, memfree}
use usbloader.Copy.{memfill}
use usbloader.Uhci.{DeviceDescriptor, UsbDevice, element}
use usbloader.Uhci.Control.{
  uhci_create_td_control_in, uhci_create_td_control_out, uhci_delete_td_control,
}
use usbloader.Uhci.Queue.{Queue, entry_userdata, uhci_schedule_queue}

pub record Machine {ℓ} (W : Type ℓ) : Type ℓ where
  pub heap : Heap
  pub pending_queue : ℕ
  pub world : W

abbrev pub bytes_of {ℓ} : {W : Type ℓ} → Machine W → Bytes
bytes_of s = s.heap.bytes

abbrev pub with_bytes {ℓ} : {W : Type ℓ} → (Bytes → Bytes) → Machine W → Machine W
with_bytes f s = record s { heap = record (s.heap) { bytes = f s.heap.bytes } }

abbrev pub dr_req_set_address : ℕ
dr_req_set_address = 5

abbrev pub dr_req_get_descriptor : ℕ
dr_req_get_descriptor = 6

abbrev pub dr_val_desc_device : ℕ
dr_val_desc_device = 1 * 2 ^ 8

abbrev pub dr_val_desc_string : ℕ
dr_val_desc_string = 3 * 2 ^ 8

abbrev pub sizeof_transfer_entry : ℕ
sizeof_transfer_entry = 20

-- `struct device_descriptor` and `struct usb_device` in memory.
pub read_device_descriptor : ℕ → Bytes → DeviceDescriptor
read_device_descriptor p m = record {
  length = m p;
  desc_type = m (p + 1);
  bcd_usb = load16 m (p + 2);
  device_class = m (p + 4);
  device_sub_class = m (p + 5);
  device_protocol = m (p + 6);
  max_packet_size = m (p + 7);
  vendor_id = load16 m (p + 8);
  product_id = load16 m (p + 10);
  bcd_device = load16 m (p + 12);
  manufacturer_idx = m (p + 14);
  product_idx = m (p + 15);
  serial_number_idx = m (p + 16);
  configurations_num = m (p + 17);
}

-- `&udev->addr` and `&udev->dev_desc`
abbrev pub addr_field : ℕ → ℕ
addr_field udev = udev + 1

abbrev pub dev_desc_field : ℕ → ℕ
dev_desc_field udev = udev + 2

pub read_usb_device : ℕ → Bytes → UsbDevice
read_usb_device p m = record {
  low_speed = not (m p == 0);
  addr = m (addr_field p);
  dev_desc = read_device_descriptor (dev_desc_field p) m;
  conf_desc = load32 m (p + 20);
}

-- The fields of a new entry for the `ntd` descriptors at `td`.
pub write_entry : (entry td ntd callback done : ℕ) → Bytes → Bytes
write_entry entry td ntd callback done m =
    let m_1 = store32 m (entry + 4) td in
    let m_2 = store32 m_1 entry (element td (ntd - 1)) in
    let m_3 = store32 m_2 (entry + 8) callback in
    let m_4 = store32 m_3 (entry + 12) done in store32 m_4 (entry + 16) 0

abbrev pub Act {ℓ} : Type ℓ → Type 0 → Type ℓ
Act W A = Machine W → Option (A × Machine W)

module _ {ℓ} {W : Type ℓ} where
  infixl 5 ◌>>=◌
  abbrev pub ◌>>=◌ : {A B : Type 0} → Act W A → (A → Act W B) → Act W B
  ◌>>=◌ a f s = elim (a s) [ none ↦ none | some (x, s') ↦ f x s' ]

  abbrev pub pure : {A : Type 0} → A → Act W A
  pure x s = some (x, s)

  abbrev pub on_heap : {A : Type 0} → (Heap → Option (A × Heap)) → Act W A
  on_heap f s = elim (f s.heap) [ none ↦ none | some (x, h) ↦ some (x, record s { heap = h }) ]

  abbrev pub release : (Heap → Option Heap) → Act W (Unit {0})
  release f s = elim (f s.heap) [ none ↦ none | some h ↦ some (tt, record s { heap = h }) ]

  abbrev pub modify : (Bytes → Bytes) → Act W (Unit {0})
  modify f s = some (tt, with_bytes f s)

  abbrev pub schedule : ℕ → (queue entry : ℕ) → Act W (Unit {0})
  schedule fuel queue entry s =
      elim (uhci_schedule_queue fuel queue entry
        (record { pending_queue = s.pending_queue; bytes = s.heap.bytes })) [
          | none ↦ none
          | some q ↦
              some (tt, record (with_bytes (λ m. q.bytes) s) { pending_queue = q.pending_queue })
        ]

  -- `hlt` waits for an interrupt and lets its handlers run.
  module _ (hlt : Machine W → Machine W) where
    pub uhci_wait_entry_complete : ℕ → (te : ℕ) → Act W Bool
    uhci_wait_entry_complete zero te s = none
    uhci_wait_entry_complete (suc n) te s =
        let rest = uhci_wait_entry_complete n te (hlt s) in
        if bytes_of s (entry_userdata (bytes_of s) te) == 0 then rest else some (true, s)

  -- Fuel for the walks of the heap and the queue and for the wait, and the address of
  -- `uhci_callback_trans_end`.
  module _ (hlt : Machine W → Machine W) (fuel halts callback : ℕ) where
    -- The part that all requests share: an entry for the descriptors is queued, waited for and
    -- freed. `done` is the address of the local variable.
    pub run_transfer : (queue done td ntd : ℕ) → Act W Bool
    run_transfer queue done td ntd = do
      _ ← modify (λ m. store8 m done 0)
      entry ← on_heap (memalloc fuel sizeof_transfer_entry)
      _ ← modify (write_entry entry td ntd callback done)
      _ ← schedule fuel queue entry
      result ← uhci_wait_entry_complete hlt halts entry
      _ ← release (memfree fuel entry)
      pure result

    abbrev pub create_in : (udev request value index length buf : ℕ) → Act W (ℕ × ℕ)
    create_in udev request value index length buf s =
        on_heap
          (uhci_create_td_control_in fuel (read_usb_device udev (bytes_of s)) request value index
            length buf)
          s

    abbrev pub create_out : (udev request value index length buf : ℕ) → Act W (ℕ × ℕ)
    create_out udev request value index length buf s =
        on_heap
          (uhci_create_td_control_out fuel (read_usb_device udev (bytes_of s)) request value index
            length buf)
          s

    pub uhci_read_dev_desc : (queue done udev dev_desc : ℕ) → Act W Bool
    uhci_read_dev_desc queue done udev dev_desc = do
      (ntd, td) ← create_in udev dr_req_get_descriptor dr_val_desc_device 0 18 dev_desc
      result ← run_transfer queue done td ntd
      _ ← release (uhci_delete_td_control fuel td)
      pure result

    -- The length is 8 for devices of both speeds.
    pub uhci_read_dev_desc_maxpkg : (queue done udev dev_desc : ℕ) → Act W Bool
    uhci_read_dev_desc_maxpkg queue done udev dev_desc = do
      (ntd, td) ← create_in udev dr_req_get_descriptor dr_val_desc_device 0 8 dev_desc
      result ← run_transfer queue done td ntd
      _ ← release (uhci_delete_td_control fuel td)
      pure result

    pub uhci_set_device_address : (queue done udev addr : ℕ) → Act W Bool
    uhci_set_device_address queue done udev addr = do
      (ntd, td) ← create_out udev dr_req_set_address addr 0 0 0
      result ← run_transfer queue done td ntd
      _ ← modify (λ m. if result then store8 m (addr_field udev) addr else m)
      _ ← release (uhci_delete_td_control fuel td)
      pure result

    -- The second half of `uhci_read_string_desc`, once the length is known.
    pub read_string : (queue done udev index sdesc desc_len : ℕ) → Act W (Bool × ℕ)
    read_string queue done udev index sdesc desc_len = do
      (ntd, td) ←
          create_in udev dr_req_get_descriptor (bit_or dr_val_desc_string index) 0 desc_len sdesc
      result ← run_transfer queue done td ntd
      sdesc' ← if result then pure sdesc else (do _ ← release (memfree fuel sdesc); pure 0)
      _ ← release (uhci_delete_td_control fuel td)
      pure (result, sdesc')

    -- With `*sdesc`, and `desc_len` at the address `desc_len`.
    pub uhci_read_string_desc : (queue done desc_len udev index sdesc : ℕ) → Act W (Bool × ℕ)
    uhci_read_string_desc queue done desc_len udev index sdesc = do
      _ ← modify (λ m. store8 m desc_len 0)
      (ntd, td) ←
          create_in udev dr_req_get_descriptor (bit_or dr_val_desc_string index) 0 1 desc_len
      result ← run_transfer queue done td ntd
      _ ← release (uhci_delete_td_control fuel td)
      if result
          then (λ s.
              (do
                sdesc' ← on_heap (memalloc fuel (bytes_of s desc_len))
                _ ← on_heap (λ h. elim (memfill fuel sdesc' 0 (h.bytes desc_len) h.bytes) [
                  | none ↦ none
                  | some (p, m) ↦ some (p, record h { bytes = m })
                ])
                read_string queue done udev index sdesc' (bytes_of s desc_len))
                s)
          else pure (false, sdesc)
