-- ===== src/Uhci/Queue/Idle.antt =====
-- uhci_schedule_queue of uhci.c when nothing is pending.
use usbloader.Common.{ℕ, ◌+◌, ◌≡◌, refl, false, ◌==◌, some, bit_and}
use usbloader.Memory.{load32, store32}
use usbloader.Uhci.{td_lptr_term}
use usbloader.Uhci.Queue.{Queue, entry_first, flp_ptr, enqueue, attach, uhci_schedule_queue}

pub uhci_schedule_queue-idle :
    (fuel queue entry : ℕ) (q : Queue)
    → q.pending_queue ≡ 0
    → (bit_and (load32 q.bytes (queue + 4)) td_lptr_term == 0) ≡ false
    → uhci_schedule_queue fuel queue entry q
      ≡ some (record {
        pending_queue = entry;
        bytes = store32 q.bytes (queue + 4) (flp_ptr (entry_first q.bytes entry));
      })
unfolding uhci_schedule_queue enqueue attach
uhci_schedule_queue-idle fuel queue entry q none term = rw (none, term) refl
