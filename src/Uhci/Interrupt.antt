-- ===== src/Uhci/Interrupt.antt =====
-- drivers/usb/uhci.c: a halt that the controller's interrupt ends, with `uhci_isr` and
-- `uhci_callback_trans_end` as its handlers.
pub mod Ends
pub mod Request
use usbloader.Common.{ℕ, ◌==◌, if◌then◌else◌, Bool, Option, none, some, List, [], ◌∷◌}
use usbloader.Memory.{Bytes}
use usbloader.Console.{Console}
use usbloader.Io.{Ports}
use usbloader.Uhci.{read_td}
use usbloader.Uhci.Init.{uhci_print_td_status}
use usbloader.Uhci.Queue.{Queue, uhci_isr, uhci_callback_trans_end}
use usbloader.Uhci.Registers.{UhciDev}
use usbloader.Uhci.Requests.{Machine, bytes_of}

-- The pending queue of a machine.
abbrev pub queue_of {ℓ} : {W : Type ℓ} → Machine W → Queue
queue_of s = record { pending_queue = s.pending_queue; bytes = s.heap.bytes }

abbrev pub with_queue {ℓ} : {W : Type ℓ} → Machine W → Queue → W → Machine W
with_queue s q w = record {
  heap = record (s.heap) { bytes = q.bytes };
  pending_queue = q.pending_queue;
  world = w;
}

-- The status of the descriptors of a list is printed.
pub print_statuses {ℓ} : {W : Type ℓ} → Console W → List ℕ → Bytes → W → W
print_statuses console [] m w = w
print_statuses console (td ∷ tds) m w =
    print_statuses console tds m (uhci_print_td_status console (read_td td m) w).1

module _ {ℓ} {W : Type ℓ} (ports : Ports W) (console : Console W) (fuel callback : ℕ)
    (dev : UhciDev) where
  -- The call `entry->handler(entry)`; the driver sets no other handler than the one at `callback`.
  unfoldable pub call_handler : (handler te : ℕ) → Queue → W → Queue × W
  call_handler handler te q w =
      if handler == callback
      then elim (uhci_callback_trans_end fuel te q.bytes) [
        | none ↦ (q, w)
        | some (tds, m) ↦ (record q { bytes = m }, print_statuses console tds q.bytes w)
      ]
      else (q, w)

  unfoldable pub interrupt : Machine W → Machine W
  interrupt s = elim (uhci_isr call_handler ports fuel dev (queue_of s) s.world) [
    | none ↦ s
    | some (b, (q, w)) ↦ with_queue s q w
  ]

  -- `controller` is what happens from the halt to the interrupt: the controller goes on with the
  -- descriptors, in memory.
  unfoldable pub halt : (controller : Machine W → Machine W) → Machine W → Machine W
  halt controller s = interrupt (controller s)
