-- ===== src/Uhci/Queue.antt =====
-- drivers/usb/uhci.c: the queue of pending transfers. A `struct transfer_entry` is in memory, and
-- the static pending_queue is a field beside it. What the entries' handlers do is a parameter.
pub mod Linked
pub mod Handlers
pub mod Behind
pub mod Isr
pub mod Walk
pub mod Idle
pub mod Single
mod Tests
use usbloader.Common.{
  ℕ, zero, suc, ◌+◌, ◌*◌, ◌%◌, ◌^◌, Bool, true, false, not, ◌&&◌, Option, none, some, ◌==◌,
  if◌then◌else◌, List, [], ◌∷◌, bit_and, bit_or,
}
use usbloader.Memory.{Bytes, load32, store32, store8}
use usbloader.Io.{Ports}
use usbloader.Uhci.{td_lptr_ptr, td_lptr_term, td_status_active, read_td}
use usbloader.Uhci.Registers.{UhciDev, uhci_read_16, uhci_write_16, usbsts}

-- The fields of a `struct transfer_entry` at `te`.
abbrev pub entry_last : Bytes → ℕ → ℕ
entry_last m te = load32 m te

abbrev pub entry_first : Bytes → ℕ → ℕ
entry_first m te = load32 m (te + 4)

abbrev pub entry_handler : Bytes → ℕ → ℕ
entry_handler m te = load32 m (te + 8)

abbrev pub entry_userdata : Bytes → ℕ → ℕ
entry_userdata m te = load32 m (te + 12)

abbrev pub entry_next : Bytes → ℕ → ℕ
entry_next m te = load32 m (te + 16)

abbrev pub set_entry_next : ℕ → ℕ → Bytes → Bytes
set_entry_next te v m = store32 m (te + 16) v

-- The fields of a `struct transfer_descriptor` that the driver reads.
abbrev pub td_link : Bytes → ℕ → ℕ
td_link m td = load32 m td

abbrev pub td_status : Bytes → ℕ → ℕ
td_status m td = load32 m (td + 4)

abbrev pub flp_ptr : ℕ → ℕ
flp_ptr ptr = bit_and ptr 0xfffffff0

abbrev pub td_status_mask : ℕ
td_status_mask = 0x7f * 2 ^ 17

pub record Queue : Type 0 where
  pub pending_queue : ℕ
  pub bytes : Bytes

-- The controller is done with the entry's last descriptor.
pub completed : Bytes → (te : ℕ) → Bool
completed m te =
    not (entry_last m te == 0) && bit_and (td_status m (entry_last m te)) td_status_active == 0

-- The removal of an entry, behind `prev_entry` or at the front.
pub unlink : (prev_entry entry : ℕ) → Queue → Queue
unlink prev_entry entry q =
    if not (prev_entry == 0)
    then record q { bytes = set_entry_next prev_entry (entry_next q.bytes entry) q.bytes }
    else record q { pending_queue = 0 }

module _ {ℓ} {W : Type ℓ} (call : (handler te : ℕ) → Queue → W → Queue × W) where
  -- The loop of `uhci_isr`; `none` is fuel that ran out.
  pub run_queue : ℕ → (prev_entry entry : ℕ) → Queue → W → Option (Queue × W)
  run_queue zero prev_entry entry q w = none
  run_queue (suc fuel) prev_entry entry q w =
      let q_1 = unlink prev_entry entry q in
      let next_entry = entry_next q_1.bytes entry in
      let (q_2, w_2) = call (entry_handler q_1.bytes entry) entry q_1 w in
      let removed = run_queue fuel prev_entry next_entry q_2 w_2 in
      let kept = run_queue fuel entry (entry_next q.bytes entry) q w in
      if entry == 0 then some (q, w) else if completed q.bytes entry then removed else kept

  pub uhci_isr : Ports W → ℕ → UhciDev → Queue → W → Option (Bool × (Queue × W))
  uhci_isr ports fuel dev q w =
      let (status, w_1) = uhci_read_16 ports dev usbsts w in
      let run = run_queue fuel 0 q.pending_queue q w_1 in
      if status == 0 then some (false, (q, w_1)) else elim run [
        | none ↦ none
        | some (q', w_2) ↦ some (true, (q', uhci_write_16 ports dev usbsts 0x1f w_2))
      ]

-- The loop to the last entry of the queue.
pub last_entry : ℕ → (te : ℕ) → Bytes → Option ℕ
last_entry zero te m = none
last_entry (suc fuel) te m =
    let rest = last_entry fuel (entry_next m te) m in
    if not (entry_next m te == 0) then rest else some te

-- The loop to the last descriptor behind the link `endptr`.
pub last_td : ℕ → (endptr : ℕ) → Bytes → Option ℕ
last_td zero endptr m = none
last_td (suc fuel) endptr m =
    let link = td_link m (td_lptr_ptr endptr) in
    let rest = last_td fuel link m in if bit_and link td_lptr_term == 0 then rest else some endptr

-- The entry joins the pending queue.
pub enqueue : ℕ → (transfer_entry : ℕ) → Queue → Option Queue
enqueue fuel transfer_entry q =
    if not (q.pending_queue == 0)
    then elim (last_entry fuel q.pending_queue q.bytes) [
      | none ↦ none
      | some te ↦ some (record q { bytes = set_entry_next te transfer_entry q.bytes })
    ]
    else some (record q { pending_queue = transfer_entry })

-- The descriptors join the controller's queue `queue`, whose element link is its second word.
pub attach : ℕ → (queue endptr transfer_entry : ℕ) → Queue → Option Queue
attach fuel queue endptr transfer_entry q =
    let first = flp_ptr (entry_first q.bytes transfer_entry) in
    if not (bit_and endptr td_lptr_term == 0)
    then some (record q { bytes = store32 q.bytes (queue + 4) first })
    else elim (last_td fuel endptr q.bytes) [
      | none ↦ none
      | some last ↦ some (record q { bytes = store32 q.bytes (td_lptr_ptr last) first })
    ]

pub uhci_schedule_queue : ℕ → (queue transfer_entry : ℕ) → Queue → Option Queue
uhci_schedule_queue fuel queue transfer_entry q =
    let endptr = load32 q.bytes (queue + 4) in
    elim (enqueue fuel transfer_entry q) [
      | none ↦ none
      | some q_1 ↦ attach fuel queue endptr transfer_entry q_1
    ]

-- The loop of `uhci_callback_trans_end`: the descriptors whose status is printed.
pub walk_td : ℕ → (td last : ℕ) → Bytes → Option (List ℕ)
walk_td zero td last m = none
walk_td (suc fuel) td last m =
    let rest = walk_td fuel (td_lptr_ptr (td_link m td)) last m in
    if td == last then some [] else elim rest [
      | none ↦ none
      | some tds ↦
          some (if not (bit_and (td_status m td) td_status_mask == 0) then td ∷ tds else tds)
    ]

-- The descriptors whose status is printed, and the memory.
pub uhci_callback_trans_end : ℕ → (te : ℕ) → Bytes → Option (List ℕ × Bytes)
uhci_callback_trans_end fuel te m = elim (walk_td fuel (entry_first m te) (entry_last m te) m) [
  | none ↦ none
  | some tds ↦ some (tds, store8 m (entry_userdata m te) 1)
]
