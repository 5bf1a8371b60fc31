-- ===== src/Uhci/Requests/Steps.antt =====
-- uhci_read_dev_desc and uhci_read_dev_desc_maxpkg of uhci.c, by what their calls answer.
use usbloader.Common.{ℕ, ◌^◌, ◌<◌, ◌≡◌, refl, ◌∙◌, Bool, true, some, arith, false, if◌then◌else◌}
use usbloader.Heap.{Heap}
use usbloader.Uhci.{DeviceRequest}
use usbloader.Uhci.Control.{uhci_delete_td_control, uhci_create_td_control_in, standard_request}
use usbloader.Uhci.Requests.{
  Machine, bytes_of, read_usb_device, uhci_read_dev_desc, uhci_read_dev_desc_maxpkg, run_transfer,
  Act, ◌>>=◌, pure, release, create_in, dr_req_get_descriptor, dr_val_desc_device,
}
use usbloader.Uhci.Requests.Actions.{bind-some, on_heap-some, release-some}

-- The request for the first `length` bytes of a device's descriptor.
abbrev pub get_descriptor : (length : ℕ) → DeviceRequest
get_descriptor length = standard_request 0x80 dr_req_get_descriptor dr_val_desc_device 0 length

module _ {ℓ} {W : Type ℓ} (hlt : Machine W → Machine W) (fuel halts callback : ℕ)
    (queue done udev dev_desc : ℕ) where
  -- The body that uhci_read_dev_desc and uhci_read_dev_desc_maxpkg share.
  abbrev pub transfer : (length : ℕ) → Act W Bool
  transfer length = do
    (ntd, td) ←
        create_in hlt fuel halts callback udev dr_req_get_descriptor dr_val_desc_device 0 length
          dev_desc
    result ← run_transfer hlt fuel halts callback queue done td ntd
    _ ← release (uhci_delete_td_control fuel td)
    pure result

  abbrev rest : ℕ × ℕ → Act W Bool
  rest (ntd, td) = do
    result ← run_transfer hlt fuel halts callback queue done td ntd
    _ ← release (uhci_delete_td_control fuel td)
    pure result

  pub transfer_steps :
      (length ntd td : ℕ) (s s_2 : Machine W) (h_1 h_3 : Heap)
      → uhci_create_td_control_in fuel
          (read_usb_device udev (bytes_of s))
          dr_req_get_descriptor
          dr_val_desc_device
          0
          length
          dev_desc
          s.heap
        ≡ some ((ntd, td), h_1)
      → run_transfer hlt fuel halts callback queue done td ntd (record s { heap = h_1 })
        ≡ some (true, s_2)
      → uhci_delete_td_control fuel td s_2.heap ≡ some h_3
      → transfer length s ≡ some (true, record s_2 { heap = h_3 })
  transfer_steps length ntd td s s_2 h_1 h_3 created ran deleted =
      let dev = read_usb_device udev (bytes_of s) in
      let s_1 : Machine W = record s { heap = h_1 } in
      bind-some
        (create_in hlt fuel halts callback udev dr_req_get_descriptor dr_val_desc_device 0 length
          dev_desc)
        rest s s_1 (ntd, td)
        (on_heap-some
          (uhci_create_td_control_in fuel dev dr_req_get_descriptor dr_val_desc_device 0 length
            dev_desc)
          s (ntd, td) h_1 created)
      ∙ bind-some (run_transfer hlt fuel halts callback queue done td ntd)
          (λ r. release (uhci_delete_td_control fuel td) >>= λ _. pure r) s_1 s_2 true ran
      ∙ bind-some (release (uhci_delete_td_control fuel td)) (λ _. pure true) s_2
          (record s_2 { heap = h_3 }) tt
          (release-some (uhci_delete_td_control fuel td) s_2 h_3 deleted)

-- The bytes that uhci_read_dev_desc_maxpkg and uhci_read_dev_desc ask for.
abbrev pub length_of : (maxpkg : Bool) → ℕ
length_of true = 8
length_of false = 18

pub transfer_of {ℓ} :
    (maxpkg : Bool) {W : Type ℓ} (hlt : Machine W → Machine W)
    (fuel halts callback queue done udev dev_desc : ℕ) (s : Machine W)
    → (if maxpkg
        then uhci_read_dev_desc_maxpkg hlt fuel halts callback queue done udev dev_desc s
        else uhci_read_dev_desc hlt fuel halts callback queue done udev dev_desc s)
      ≡ transfer hlt fuel halts callback queue done udev dev_desc (length_of maxpkg) s
unfolding uhci_read_dev_desc uhci_read_dev_desc_maxpkg
transfer_of true hlt fuel halts callback queue done udev dev_desc s = refl
transfer_of false hlt fuel halts callback queue done udev dev_desc s = refl

pub short : (maxpkg : Bool) → length_of maxpkg < 2 ^ 16
short true = omega arith
short false = omega arith
