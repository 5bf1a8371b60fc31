-- ===== src/Uhci/Requests/Ending.antt =====
-- What the requests of uhci.c ask of the controller: that a queued transfer ends.
use usbloader.Common.{ℕ, ◌+◌, ◌-◌, ◌*◌, ◌%◌, ◌^◌, ◌∙◌, arith, ◌≤◌, ◌<◌, ◌≡◌, ◌≢◌, ◌⊎◌, List}
use usbloader.Memory.{Bytes, load32, Agree, Agree-part}
use usbloader.Heap.Contents.Holders.{Among}
use usbloader.Heap.Layout.{Cell, IsHeap}
use usbloader.Heap.Payloads.{payloads}
use usbloader.Heap.Promise.{HasPayloads}
use usbloader.Uhci.{UsbDevice, read_td}
use usbloader.Uhci.Control.Chain.{control_td}
use usbloader.Uhci.Control.Layout.{read_td-Agree}
use usbloader.Uhci.Queue.{entry_userdata, entry_handler}
use usbloader.Uhci.Requests.{Machine, bytes_of}
use usbloader.Uhci.Requests.Entry.{IsEntry, Idle, halted}

-- The `cnt` descriptors of a control transfer at `td`.
pub record Chain (td cnt : ℕ) (m : Bytes) : Type 0 where
  pub dev : UsbDevice
  pub dr : ℕ
  pub stage : ℕ
  pub final : ℕ
  pub buf : ℕ
  pub some_td : 2 ≤ cnt
  pub aligned : td % 16 ≡ 0
  pub fits : td + 32 * cnt < 2 ^ 32
  pub kind : stage < 256
  pub kind' : final < 256
  pub dr_word : dr < 2 ^ 32
  pub buf_word : buf < 2 ^ 32
  pub at_place :
      (j : ℕ) → j < cnt → read_td (td + 32 * j) m ≡ control_td td dev cnt dr stage final buf j

pub Chain-Agree :
    {td cnt : ℕ} {m n : Bytes} → Agree td (td + 32 * cnt) m n → Chain td cnt m → Chain td cnt n
Chain-Agree {td} {cnt} {m} {n} same c = record {
  dev = c.dev;
  dr = c.dr;
  stage = c.stage;
  final = c.final;
  buf = c.buf;
  some_td = c.some_td;
  aligned = c.aligned;
  fits = c.fits;
  kind = c.kind;
  kind' = c.kind';
  dr_word = c.dr_word;
  buf_word = c.buf_word;
  at_place = λ j lt.
      read_td-Agree (td + 32 * j) m n
        (Agree-part (td + 32 * j) (td + 32 * j + 20) same (omega arith) (omega arith))
      ∙ c.at_place j lt;
}

-- One control transfer is pending, for the descriptors at `td`; they, its entry and the
-- controller's queue are in payloads of the heap.
pub record Queued {ℓ} {W : Type ℓ} (lo hi queue done callback te td cnt : ℕ) (cells : List Cell)
    (s : Machine W) : Type 0 where
  pub chain : Chain td cnt (bytes_of s)
  pub handler : entry_handler (bytes_of s) te ≡ callback
  pub td_room : ℕ
  pub td_fits : 32 * cnt ≤ td_room
  pub td_held : Among td td_room (payloads lo cells)
  pub pending : s.pending_queue ≡ te
  pub entry : IsEntry te td (td + 32 * (cnt - 1)) done (bytes_of s)
  pub element_link : load32 (bytes_of s) (queue + 4) ≡ td
  pub not_done : bytes_of s done ≡ 0
  pub queue_room : ℕ
  pub queue_fits : 8 ≤ queue_room
  pub queue_held : Among queue queue_room (payloads lo cells)
  pub td_apart : (td + 32 * cnt ≤ queue) ⊎ (queue + 8 ≤ td)
  pub te_apart : (te + 20 ≤ queue) ⊎ (queue + 8 ≤ te)
  pub te_td_apart : (te + 20 ≤ td) ⊎ (td + 32 * cnt ≤ te)
  pub td_inside : (lo ≤ td) × (td + 32 * cnt ≤ hi)
  pub te_inside : (lo ≤ te) × (te + 20 ≤ hi)

-- After some halts, at most `rounds`, the byte is set, the queue is empty, and the heap and the
-- pointer to the request are what they were.
pub record Ended {ℓ} {W : Type ℓ} (hlt : Machine W → Machine W) (lo hi queue done rounds te td : ℕ)
    (cells : List Cell) (s : Machine W) : Type ℓ where
  pub k : ℕ
  pub bound : k ≤ rounds
  pub entry_kept : (j : ℕ) → j ≤ k → entry_userdata (bytes_of (halted hlt j s)) te ≡ done
  pub not_yet : (j : ℕ) → j < k → bytes_of (halted hlt j s) done ≡ 0
  pub set : bytes_of (halted hlt k s) done ≢ 0
  pub request : load32 (bytes_of (halted hlt k s)) (td + 12) ≡ load32 (bytes_of s) (td + 12)
  pub heap : IsHeap lo hi (halted hlt k s).heap cells
  pub idle : Idle queue (halted hlt k s)

-- Whatever is queued ends.
pub record Controller {ℓ} {W : Type ℓ} (hlt : Machine W → Machine W)
    (lo hi queue done callback rounds : ℕ) : Type ℓ where
  pub ends :
      (s : Machine W) (cells : List Cell) (te td cnt : ℕ)
      → IsHeap lo hi s.heap cells
      → Queued lo hi queue done callback te td cnt cells s
      → Ended hlt lo hi queue done rounds te td cells s

-- The request is over and nothing of it is left.
pub record Over {ℓ} {W : Type ℓ} (lo hi queue td : ℕ) (ps : List (ℕ × ℕ)) (s s' : Machine W)
    : Type 0 where
  pub payloads_kept : HasPayloads lo hi s'.heap ps
  pub idle : Idle queue s'
  pub request : load32 (bytes_of s') (td + 12) ≡ load32 (bytes_of s) (td + 12)
