-- ===== src/Uhci/Control/Ready.antt =====
-- uhci_create_td_control of uhci.c over the allocator: what the transfer holds, and that the heap
-- stays a heap.
use native.Mathlib.Nat.{div-mul-le_self, lt-div-mul-add, div-lt_iff_lt-mul}
use usbloader.Common.{
  ℕ, ◌+◌, ◌-◌, ◌*◌, ◌%◌, ◌^◌, ◌≤◌, ◌<◌, ◌≡◌, ◌≢◌, refl, ◌∙◌, sym, inl, inr, ◌⊎◌, arith, some, List,
}
use usbloader.Memory.{Bytes, store8, store16, Agree-store16, Agree, Agree-trans, Agree-store8}
use usbloader.Heap.{Heap, memalloc, memalloc_aligned}
use usbloader.Heap.Layout.{Cell, IsHeap}
use usbloader.Heap.Owners.{Added, Added-bounds, holder_write-IsHeap}
use usbloader.Heap.Payloads.{payloads}
use usbloader.Heap.Promise.{memalloc_aligned-Allocated, memalloc_lem}
use usbloader.Heap.Reach.{enough, enough-lt}
use usbloader.Uhci.{UsbDevice, DeviceRequest, read_td, sizeof_td}
use usbloader.Uhci.Control.{
  write_request, write_control, count_td, packet_size, sizeof_device_request,
  uhci_create_td_control, div_ceil,
}
use usbloader.Uhci.Control.Chain.{control_td, write_control-read, write_control-Agree}

-- Packets of at least 8 bytes.
pub packet_size_bounds : (dev : UsbDevice) → 8 ≤ packet_size dev
unfolding packet_size
packet_size_bounds dev = ground arith

-- For a length below 2^16 and packets of at least 8 bytes, a transfer has at least two and fewer
-- than 2^14 descriptors, and the packets of the others hold the length with less than a packet left
-- over.
pub count_td_bounds :
    (length size : ℕ)
    → length < 2 ^ 16
    → 8 ≤ size
    → let packets = count_td length size - 2 in
      (2 ≤ count_td length size)
      × (count_td length size < 2 ^ 14)
      × (length ≤ packets * size)
      × (packets * size < length + size)
unfolding count_td
count_td_bounds length size short least =
    let q = div_ceil length size in
    let below = div-mul-le_self (length + size - 1) size in
    let above = lt-div-mul-add {a = length + size - 1} {b = size} (omega arith) in
    let few : q < 8193 =
      (div-lt_iff_lt-mul {k = size} {x = length + size - 1} {y = 8193} (omega arith)).1
        (omega arith) in
    let whole : (2 + q % 65536) % 65536 ≡ q + 2 = omega arith in
    let packets : q + 2 - 2 ≡ q = omega arith in
    rw (count_td, whole, packets) (omega arith, omega arith, omega arith, omega arith)

pub write_request-Agree :
    (lo hi dr : ℕ) (r : DeviceRequest) (m : Bytes)
    → (dr + 8 ≤ lo) ⊎ (hi ≤ dr)
    → Agree lo hi m (write_request dr r m)
unfolding write_request
write_request-Agree lo hi dr r m apart =
    let m_1 = store8 m dr r.request_type in
    let m_2 = store8 m_1 (dr + 1) r.request in
    let m_3 = store16 m_2 (dr + 2) r.value in
    let m_4 = store16 m_3 (dr + 4) r.index in
    let f_1 = Agree-store8 lo hi m dr r.request_type (ground arith) in
    let f_2 = Agree-store8 lo hi m_1 (dr + 1) r.request (ground arith) in
    let f_3 = Agree-store16 lo hi m_2 (dr + 2) r.value (ground arith) in
    let f_4 = Agree-store16 lo hi m_3 (dr + 4) r.index (ground arith) in
    let f_5 = Agree-store16 lo hi m_4 (dr + 6) r.length (ground arith) in
    Agree-trans f_1 (Agree-trans f_2 (Agree-trans f_3 (Agree-trans f_4 f_5)))

-- A control transfer in a heap that had the payloads `ps`: the request's bytes and the descriptors
-- are two payloads more, and each descriptor is at its place.
pub record Transfer (lo hi : ℕ) (dev : UsbDevice) (cnt dr td stage final buf : ℕ)
    (ps : List (ℕ × ℕ)) (h : Heap) : Type 0 where
  pub cells : List Cell
  pub heap : IsHeap lo hi h cells
  pub between : List (ℕ × ℕ)
  pub request_room : ℕ
  pub request_fits : 8 ≤ request_room
  pub request : Added dr request_room ps between
  pub td_room : ℕ
  pub td_fits : 32 * cnt ≤ td_room
  pub descriptors : Added td td_room between (payloads lo cells)
  pub aligned : td % 16 ≡ 0
  pub bound : td + 32 * cnt < 2 ^ 32
  pub at_place :
      (j : ℕ) → j < cnt → read_td (td + 32 * j) h.bytes ≡ control_td td dev cnt dr stage final buf j

module _ {lo hi : ℕ} {h h_1 h_3 : Heap} {cs : List Cell} (dev : UsbDevice) (r : DeviceRequest)
    (stage final buf dr td : ℕ) (heap : IsHeap lo hi h cs) (short : r.length < 2 ^ 16)
    (kind : stage < 256) (kind' : final < 256) (buf_word : buf < 2 ^ 32)
    (call_1 : memalloc (enough lo hi) sizeof_device_request h ≡ some (dr, h_1)) (dr_set : dr ≢ 0)
    (call_2 : memalloc_aligned
        (enough lo hi)
        (sizeof_td * count_td r.length (packet_size dev))
        (2 ^ 4)
        (record h_1 { bytes = write_request dr r h_1.bytes })
      ≡ some (td, h_3))
    (td_set : td ≢ 0) where
  -- In a heap of given cells, for a length below 2^16, packet kinds below 256 and a buffer address
  -- below 2^32, when neither allocation returns NULL, uhci_create_td_control returns the number of
  -- descriptors and the first of them, and leaves a heap that has the earlier payloads and two
  -- more, the request's and the descriptors'; these are aligned to 16 and hold at each place the
  -- descriptor of the transfer, first the setup stage, then the data stage with alternating
  -- toggles, last the status stage.
  pub uhci_create_td_control-Transfer :
      (h' : Heap) × (uhci_create_td_control (enough lo hi) dev r stage final buf h
        ≡ some ((count_td r.length (packet_size dev), td), h'))
      × Transfer lo hi dev
          (count_td r.length (packet_size dev))
          dr
          td
          stage
          final
          buf
          (payloads lo cs)
          h'
  unfolding uhci_create_td_control
  uhci_create_td_control-Transfer =
      let cnt : ℕ = count_td r.length (packet_size dev) in
      let bounds = count_td_bounds r.length (packet_size dev) short (packet_size_bounds dev) in
      let asked = sym (memalloc_lem (enough lo hi) 8 h) ∙ call_1 in
      let a =
        memalloc_aligned-Allocated 2 8 (enough lo hi) dr h_1 heap (omega arith) (omega arith)
          (enough-lt heap) asked dr_set in
      let dr_bounds = Added-bounds dr a.room (payloads lo cs) a.heap a.added in
      let m = write_request dr r h_1.bytes in
      let heap_2 =
        holder_write-IsHeap dr a.room (payloads lo cs) m a.heap a.added
          (write_request-Agree lo dr dr r h_1.bytes (inr (omega arith)))
          (write_request-Agree (dr + a.room) hi dr r h_1.bytes (inl (omega (arith, a.enough)))) in
      let b =
        memalloc_aligned-Allocated 4 (32 * cnt) (enough lo hi) td h_3 heap_2 (omega arith)
          (omega (arith, bounds)) (enough-lt heap_2) call_2 td_set in
      let td_bounds = Added-bounds td b.room (payloads lo a.cells) b.heap b.added in
      let fits : td + 32 * cnt < 2 ^ 32 = omega (arith, td_bounds, b.enough, heap.top) in
      let m' = write_control td dev cnt dr stage final buf h_3.bytes in
      let word : dr < 2 ^ 32 = omega (arith, dr_bounds, heap.top) in
      let two : 2 ≤ cnt = bounds.0 in
      let outside =
        write_control-Agree td dev cnt dr stage final buf b.aligned fits two kind kind' word
          buf_word in
      let placed =
        write_control-read td dev cnt dr stage final buf b.aligned fits two kind kind' word
          buf_word in
      let heap_4 =
        holder_write-IsHeap td b.room (payloads lo a.cells) m' b.heap b.added
          (outside lo td h_3.bytes (inr (omega arith)))
          (outside (td + b.room) hi h_3.bytes (inl (omega (arith, b.enough)))) in
      (
        record h_3 { bytes = m' },
        rw (uhci_create_td_control, call_1, call_2) refl,
        record {
          cells = b.cells;
          heap = heap_4;
          between = payloads lo a.cells;
          request_room = a.room;
          request_fits = a.enough;
          request = a.added;
          td_room = b.room;
          td_fits = b.enough;
          descriptors = b.added;
          aligned = b.aligned;
          bound = fits;
          at_place = λ j lt. placed j h_3.bytes lt;
        },
      )
