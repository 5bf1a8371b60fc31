-- ===== src/Uhci/Queue/Tests.antt =====
-- Queues of three entries at 100, 200 and 300 whose last descriptors are at 1000, 2000 and 3000.
-- The handlers note the entry that they are called with.
use usbloader.Common.{
  ◌≤◌, ◌*◌, ◌-◌, ap, ℕ, ◌+◌, ◌^◌, ◌<◌, ◌≡◌, ◌≢◌, refl, ◌∙◌, ◌⊎◌, inl, inr, Bool, Bool-cases, true,
  false, not, some, arith, ◌==◌, if◌then◌else◌, List, [], ◌∷◌,
}
use usbloader.Memory.{Bytes, load32-Agree, load32, store32, store8, load32-store32_ne}
use usbloader.Io.{Ports}
use usbloader.Uhci.{read_td, td_status_active, td_pid_in, td_pid_out, UsbDevice, DeviceDescriptor}
use usbloader.Uhci.Control.{write_control}
use usbloader.Uhci.Control.Chain.{control_td, write_control-read, write_control-Agree}
use usbloader.Uhci.Queue.Walk.{reported, uhci_callback_trans_end_lem}
use usbloader.Uhci.Registers.{UhciDev}
use usbloader.Uhci.Queue.{
  Queue, entry_next, entry_last, entry_first, entry_userdata, td_link, uhci_callback_trans_end,
  set_entry_next, completed, uhci_isr, enqueue,
}
use usbloader.Uhci.Queue.Linked.{Linked, enqueue-Linked}
use usbloader.Uhci.Queue.Handlers.{Quiet}
use usbloader.Uhci.Queue.Isr.{uhci_isr-waiting, uhci_isr-finished}

-- The status of the last descriptor of the entry `x`, when only the entry `open` is in progress.
abbrev status_of : (finished : ℕ → Bool) → ℕ → ℕ
status_of finished x = if finished x then 0 else td_status_active

abbrev entry_at : (finished : ℕ → Bool) → (x next : ℕ) → Bytes → Bytes
entry_at finished x next m =
    store32 (store32 (store32 m x (x + 900)) (x + 16) next) (x + 904) (status_of finished x)

abbrev memory : (finished : ℕ → Bool) → Bytes
memory finished =
    entry_at finished 100 200 (entry_at finished 200 300 (entry_at finished 300 0 (λ x. 0)))

abbrev queue : (finished : ℕ → Bool) → Queue
queue finished = record { pending_queue = 100; bytes = memory finished }

abbrev Entry : ℕ → Type 0
Entry x = (x ≡ 100) ⊎ (x ≡ 200) ⊎ (x ≡ 300)

-- The last descriptor of the entry `x` and its status.
abbrev Holds : (finished : ℕ → Bool) → Bytes → ℕ → Type 0
Holds finished m x = (load32 m x ≡ x + 900) × (load32 m (x + 904) ≡ status_of finished x)

abbrev Statuses : (finished : ℕ → Bool) → Bytes → Type 0
Statuses finished m = Holds finished m 100 × Holds finished m 200 × Holds finished m 300

abbrev note : (handler te : ℕ) → Queue → List ℕ → Queue × List ℕ
note handler te q w = (q, te ∷ w)

abbrev second_only : ℕ → Bool
second_only x = x == 200

abbrev not_second : ℕ → Bool
not_second x = not (x == 200)

Holds-relink :
    (finished : ℕ → Bool) (m : Bytes) (x v y : ℕ)
    → Entry x
    → Entry y
    → Holds finished m y
    → Holds finished (set_entry_next x v m) y
Holds-relink finished m x v y at_x at_y h = (
  load32-store32_ne m (x + 16) v y (ground arith) ∙ h.0,
  load32-store32_ne m (x + 16) v (y + 904) (ground arith) ∙ h.1,
)

Statuses-relink :
    (finished : ℕ → Bool) (m : Bytes) (x v : ℕ)
    → Entry x
    → Statuses finished m
    → Statuses finished (set_entry_next x v m)
Statuses-relink finished m x v at_x (a, b, c) = (
  Holds-relink finished m x v 100 at_x (inl refl) a,
  Holds-relink finished m x v 200 at_x (inr (inl refl)) b,
  Holds-relink finished m x v 300 at_x (inr (inr refl)) c,
)

completed-Holds :
    (finished : ℕ → Bool) (m : Bytes) (x : ℕ)
    → Entry x
    → Holds finished m x
    → completed m x ≡ finished x
unfolding completed
completed-Holds finished m x at_x h =
    let set : (x + 900 == 0) ≡ false = ground arith in
    let at : x + 900 + 4 ≡ x + 904 = omega arith in
    elim (Bool-cases (finished x)) [
      | inl f ↦ rw (h.0, set, at, h.1, f) refl
      | inr f ↦ rw (h.0, set, at, h.1, f) refl
    ]

Holds-at :
    (finished : ℕ → Bool) (m : Bytes) (x : ℕ) → Statuses finished m → Entry x → Holds finished m x
Holds-at finished m x (a, b, c) (inl e) = rw e a
Holds-at finished m x (a, b, c) (inr (inl e)) = rw e b
Holds-at finished m x (a, b, c) (inr (inr e)) = rw e c

note-Quiet : (finished : ℕ → Bool) → Quiet note (Statuses finished) Entry finished (λ x w. x ∷ w)
note-Quiet finished = record {
  status = λ x m i at_x. completed-Holds finished m x at_x (Holds-at finished m x i at_x);
  relink = λ x v m i at_x. Statuses-relink finished m x v at_x i;
  pending = λ x q w i at_x. refl;
  links = λ x y q w i at_x at_y. refl;
  again = λ x q w i at_x. i;
  world = λ x q w i at_x. refl;
}

abbrev entries : List ℕ
entries = 100 ∷ 200 ∷ 300 ∷ []

abbrev controller : UhciDev
controller = record { iobase = 0xc000; frame_list_base = 0; portnum = 2; pci_dev = 0; qh1ms = 0 }

abbrev interrupting : Ports (List ℕ)
interrupting = record {
  outl = λ port value w. w;
  outw = λ port value w. value ∷ w;
  outb = λ port value w. w;
  inl = λ port w. (0, w);
  inw = λ port w. (1, w);
  inb = λ port w. (0, w);
}

second_Statuses : Statuses second_only (memory second_only)
unfolding load32 store32
second_Statuses = ((refl, refl), (refl, refl), (refl, refl))

nonzero : (x : ℕ) → 0 < x → x ≢ 0
nonzero x lt e = omega arith

third_Linked : (finished : ℕ → Bool) → Linked (memory finished) 300 (300 ∷ [])
unfolding load32 store32
third_Linked finished = (refl, nonzero 300 (omega arith), omega arith, tt, refl)

queue_Linked : (finished : ℕ → Bool) → Linked (memory finished) 100 entries
unfolding load32 store32
queue_Linked finished =
    let second : Linked (memory finished) 200 (200 ∷ 300 ∷ []) =
      (refl, nonzero 200 (omega arith), omega arith, (ground arith, tt), third_Linked finished) in
    (refl, nonzero 100 (omega arith), omega arith, (ground arith, (ground arith, tt)), second)

-- The second of three entries is finished; the others stay.
uhci_isr-waiting_example :
    (q' : Queue) × (uhci_isr note interrupting 5 controller (queue second_only) []
      ≡ some (true, (q', 0x1f ∷ 200 ∷ [])))
    × Linked q'.bytes q'.pending_queue (100 ∷ 300 ∷ [])
uhci_isr-waiting_example =
    uhci_isr-waiting note (Statuses second_only) Entry second_only (λ x w. x ∷ w)
      (note-Quiet second_only) interrupting 5 controller (queue second_only) [] 100 (200 ∷ 300 ∷ [])
      second_Statuses (inl refl, (inr (inl refl), (inr (inr refl), tt))) (queue_Linked second_only)
      refl (nonzero 1 (omega arith)) (omega arith)

not_second-Statuses : Statuses not_second (memory not_second)
unfolding load32 store32
not_second-Statuses = ((refl, refl), (refl, refl), (refl, refl))

-- The first and the third of three entries are finished, and the second is lost.
uhci_isr-finished_example :
    (q' : Queue) × (uhci_isr note interrupting 5 controller (queue not_second) []
      ≡ some (true, (q', 0x1f ∷ 300 ∷ 100 ∷ [])))
    × (q'.pending_queue ≡ 0)
uhci_isr-finished_example =
    uhci_isr-finished note (Statuses not_second) Entry not_second (λ x w. x ∷ w)
      (note-Quiet not_second) interrupting 5 controller (queue not_second) [] 100 (200 ∷ 300 ∷ [])
      not_second-Statuses (inl refl, (inr (inl refl), (inr (inr refl), tt)))
      (queue_Linked not_second) refl (nonzero 1 (omega arith)) (omega arith)

new_end : (finished : ℕ → Bool) → entry_next (memory finished) 400 ≡ 0
unfolding load32 store32
new_end finished = refl

enqueue-Linked_example :
    (q' : Queue) × (enqueue 5 400 (queue second_only) ≡ some q')
    × Linked q'.bytes q'.pending_queue (100 ∷ 200 ∷ 300 ∷ 400 ∷ [])
enqueue-Linked_example =
    enqueue-Linked 5 400 (queue second_only) entries (queue_Linked second_only)
      (ground arith, (ground arith, (ground arith, tt))) (nonzero 400 (omega arith)) (omega arith)
      (new_end second_only) (omega arith)

abbrev no_descriptor : DeviceDescriptor
no_descriptor = record {
  length = 0;
  desc_type = 0;
  bcd_usb = 0;
  device_class = 0;
  device_sub_class = 0;
  device_protocol = 0;
  max_packet_size = 8;
  vendor_id = 0;
  product_id = 0;
  bcd_device = 0;
  manufacturer_idx = 0;
  product_idx = 0;
  serial_number_idx = 0;
  configurations_num = 0;
}

abbrev mouse : UsbDevice
mouse = record { low_speed = true; addr = 2; dev_desc = no_descriptor; conf_desc = 0 }

-- An entry at 500 for the three descriptors from 1024 on.
abbrev with_entry : Bytes
with_entry = store32 (store32 (store32 (λ x. 0) 500 1088) 504 1024) 512 600

abbrev with_td : Bytes
with_td = write_control 1024 mouse 3 2000 td_pid_in td_pid_out 3000 with_entry

descriptors_fit : 1024 + 32 * 3 < 2 ^ 32
descriptors_fit = omega arith

field_of : (a : ℕ) → a + 4 ≤ 1024 → load32 with_td a ≡ load32 with_entry a
field_of a le =
    load32-Agree a
      (write_control-Agree 1024 mouse 3 2000 td_pid_in td_pid_out 3000 refl descriptors_fit
        (omega arith) (omega arith) (omega arith) (omega arith) (omega arith) a (a + 4) with_entry
        (inr le))
      (omega arith) (omega arith)

link_of :
    (j : ℕ)
    → j + 1 < 3
    → td_link with_td (1024 + 32 * j)
      ≡ (control_td 1024 mouse 3 2000 td_pid_in td_pid_out 3000 j).link_ptr
unfolding read_td
link_of j lt =
    ap (λ d. d.link_ptr)
      (write_control-read 1024 mouse 3 2000 td_pid_in td_pid_out 3000 refl descriptors_fit
        (omega arith) (omega arith) (omega arith) (omega arith) (omega arith) j with_entry
        (omega arith))

first_of_entry : entry_first with_entry 500 ≡ 1024
unfolding load32 store32
first_of_entry = refl

last_of_entry : entry_last with_entry 500 ≡ 1024 + 32 * (3 - 1)
unfolding load32 store32
last_of_entry = refl

uhci_callback_trans_end_lem_example :
    uhci_callback_trans_end 3 500 with_td
    ≡ some (reported with_td 1024 2, store8 with_td (entry_userdata with_td 500) 1)
uhci_callback_trans_end_lem_example =
    uhci_callback_trans_end_lem 3 500 1024 with_td mouse 3 2000 td_pid_in td_pid_out 3000 refl
      descriptors_fit (omega arith) (omega arith) (omega arith) (omega arith) (omega arith)
      (field_of 504 (omega arith) ∙ first_of_entry) (field_of 500 (omega arith) ∙ last_of_entry)
      link_of (omega arith)
