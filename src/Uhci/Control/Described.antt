-- ===== src/Uhci/Control/Described.antt =====
-- What a controller finds that follows a control transfer of uhci.c: the words of the descriptors
-- taken apart into the fields of the UHCI specification, and the bytes of the USB request.
use usbloader.Common.{
  ℕ, ◌+◌, ◌-◌, ◌*◌, ◌/◌, ◌%◌, ◌^◌, ◌≤◌, ◌<◌, ◌≡◌, ◌≢◌, refl, ap, ◌∙◌, inl, inr, Bool, true, false,
  Bool-cases, if◌then◌else◌, arith, some, List, ◌==◌, bit_or,
}
use Prim.Native.Nat.{max}
use usbloader.Memory.{Bytes, load16, load32, store8, load16-Agree, Agree}
use usbloader.Heap.{Heap, memalloc, memalloc_aligned}
use usbloader.Heap.Layout.{Cell, IsHeap}
use usbloader.Heap.Owners.{Added}
use usbloader.Heap.Payloads.{payloads}
use usbloader.Heap.Reach.{enough}
use usbloader.Uhci.{
  UsbDevice, DeviceRequest, Td, element, read_td, sizeof_td, td_lptr_ptr, td_lptr_depth,
}
use usbloader.Uhci.Control.{
  write_request, count_td, packet_size, sizeof_device_request, uhci_create_td_control, setup_td,
  status_td,
}
use usbloader.Uhci.Control.Kept.{uhci_create_td_control-Untouched}
use usbloader.Uhci.Control.Layout.{toggle_at, buf_at, data_at, element-eq}
use usbloader.Uhci.Control.Ready.{
  Transfer, count_td_bounds, packet_size_bounds, uhci_create_td_control-Transfer,
}
use usbloader.Uhci.Control.Tokens.{
  token_of, setup_td-token, data_td-token, status_td-token, link_eq, ctrl_of, data_td-parts,
}

-- The fields of a transfer descriptor. The flags are 0 or 1.
pub record Fields : Type 0 where
  pub last : ℕ
  pub to_queue : ℕ
  pub depth_first : ℕ
  pub next : ℕ
  pub active : ℕ
  pub on_complete : ℕ
  pub isochronous : ℕ
  pub low_speed : ℕ
  pub errors : ℕ
  pub pid : ℕ
  pub address : ℕ
  pub endpoint : ℕ
  pub toggle : ℕ
  pub max_length : ℕ
  pub buffer : ℕ

abbrev pub fields_of : (link status token buffer : ℕ) → Fields
fields_of link status token buffer = record {
  last = link % 2;
  to_queue = link / 2 % 2;
  depth_first = link / 4 % 2;
  next = link / 16 * 16;
  active = status / 2 ^ 23 % 2;
  on_complete = status / 2 ^ 24 % 2;
  isochronous = status / 2 ^ 25 % 2;
  low_speed = status / 2 ^ 26 % 2;
  errors = status / 2 ^ 27 % 4;
  pid = token % 2 ^ 8;
  address = token / 2 ^ 8 % 2 ^ 7;
  endpoint = token / 2 ^ 15 % 2 ^ 4;
  toggle = token / 2 ^ 19 % 2;
  max_length = token / 2 ^ 21;
  buffer = buffer;
}

-- The fields of the descriptor at `p`.
abbrev pub fields_at : ℕ → Bytes → Fields
fields_at p m = fields_of (load32 m p) (load32 m (p + 4)) (load32 m (p + 8)) (load32 m (p + 12))

abbrev pub flag : Bool → ℕ
flag b = if b then 1 else 0

-- The bytes of a packet.
abbrev pub packet : UsbDevice → ℕ
packet dev = max 8 dev.dev_desc.max_packet_size

-- A stage of a control transfer that another follows, at `next`.
abbrev pub stage_of : UsbDevice → (pid toggle max_length buffer next : ℕ) → Fields
stage_of dev pid toggle max_length buffer next = record {
  last = 0;
  to_queue = 0;
  depth_first = 1;
  next = next;
  active = 1;
  on_complete = 0;
  isochronous = 0;
  low_speed = flag dev.low_speed;
  errors = 3;
  pid = pid;
  address = dev.addr % 2 ^ 7;
  endpoint = 0;
  toggle = toggle;
  max_length = max_length;
  buffer = buffer;
}

-- The setup stage sends the 8 bytes of the request as data 0.
abbrev pub setup_stage : UsbDevice → (dr td : ℕ) → Fields
setup_stage dev dr td = stage_of dev 0x2d 0 7 dr (td + 32)

-- The packet `i` of the data stage: the toggle alternates from data 1 on, the buffer goes on by a
-- packet each time. The driver keeps 6 bits of the length.
abbrev pub data_stage : UsbDevice → (pid buf td i : ℕ) → Fields
data_stage dev pid buf td i =
    stage_of dev pid (1 - i % 2) ((packet dev - 1) % 64) ((buf + i * packet dev) % 2 ^ 32)
      (td + 32 * (i + 2))

-- The status stage: the last, data 1, without a buffer, and with an interrupt at its end.
abbrev pub status_stage : UsbDevice → (pid : ℕ) → Fields
status_stage dev pid = record (stage_of dev pid 1 63 0 0) {
  last = 1;
  depth_first = 0;
  on_complete = 1;
}

-- The bytes of a USB request at `dr`.
pub record Requested (r : DeviceRequest) (dr : ℕ) (m : Bytes) : Type 0 where
  pub request_type : m dr ≡ r.request_type % 2 ^ 8
  pub request : m (dr + 1) ≡ r.request % 2 ^ 8
  pub value : load16 m (dr + 2) ≡ r.value % 2 ^ 16
  pub index : load16 m (dr + 4) ≡ r.index % 2 ^ 16
  pub length : load16 m (dr + 6) ≡ r.length % 2 ^ 16

write_request-Requested :
    (r : DeviceRequest) (dr : ℕ) (m : Bytes) → Requested r dr (write_request dr r m)
unfolding write_request load16 store8
write_request-Requested r dr m = record {
  request_type = ground arith;
  request = ground arith;
  value = ground arith;
  index = ground arith;
  length = ground arith;
}

Requested-Agree :
    {r : DeviceRequest} {dr : ℕ} {m n : Bytes}
    → Agree dr (dr + 8) m n
    → Requested r dr m
    → Requested r dr n
Requested-Agree {r} {dr} {m} {n} same q = record {
  request_type = same dr (omega arith) (omega arith) ∙ q.request_type;
  request = same (dr + 1) (omega arith) (omega arith) ∙ q.request;
  value = load16-Agree (dr + 2) same (omega arith) (omega arith) ∙ q.value;
  index = load16-Agree (dr + 4) same (omega arith) (omega arith) ∙ q.index;
  length = load16-Agree (dr + 6) same (omega arith) (omega arith) ∙ q.length;
}

token_fields :
    (len : ℕ) (toggle : Bool) (address pid : ℕ)
    → len < 64
    → address < 128
    → pid < 256
    → let token = token_of len toggle address pid in
      (token % 256 ≡ pid)
      × (token / 256 % 128 ≡ address)
      × (token / 32768 % 16 ≡ 0)
      × (token / 524288 % 2 ≡ flag toggle)
      × (token / 2097152 ≡ len)
token_fields len true address pid a b c =
    (omega arith, omega arith, omega arith, omega arith, omega arith)
token_fields len false address pid a b c =
    (omega arith, omega arith, omega arith, omega arith, omega arith)

-- A stage with another behind it at `p`, from its words.
stage_fields :
    (dev : UsbDevice) (p pid len buffer : ℕ) (toggle : Bool)
    → p % 16 ≡ 0
    → pid < 256
    → len < 64
    → fields_of (p + 4) (ctrl_of dev) (token_of len toggle (dev.addr % 128) pid) buffer
      ≡ stage_of dev pid (flag toggle) len buffer p
stage_fields dev p pid len buffer toggle aligned kind small =
    let t = token_fields len toggle (dev.addr % 128) pid small (omega arith) kind in
    let last : (p + 4) % 2 ≡ 0 = omega arith in
    let to_queue : (p + 4) / 2 % 2 ≡ 0 = omega arith in
    let depth : (p + 4) / 4 % 2 ≡ 1 = omega arith in
    let next : (p + 4) / 16 * 16 ≡ p = omega arith in
    elim (Bool-cases dev.low_speed) [
      | inl low ↦ rw (low, last, to_queue, depth, next, t.0, t.1, t.2, t.3, t.4) refl
      | inr full ↦ rw (full, last, to_queue, depth, next, t.0, t.1, t.2, t.3, t.4) refl
    ]

status_fields :
    (dev : UsbDevice) (pid cnt : ℕ)
    → pid < 256
    → let d = status_td dev pid cnt in
      fields_of d.link_ptr d.ctrl_status d.token d.buffer_ptr ≡ status_stage dev pid
unfolding status_td
status_fields dev pid cnt kind =
    let t = token_fields 63 true (dev.addr % 128) pid (omega arith) (omega arith) kind in
    let token = status_td-token dev pid cnt kind in
    elim (Bool-cases dev.low_speed) [
      | inl low ↦ rw (token, low, t.0, t.1, t.2, t.3, t.4) refl
      | inr full ↦ rw (token, full, t.0, t.1, t.2, t.3, t.4) refl
    ]

packet_size-eq : (dev : UsbDevice) → packet_size dev ≡ packet dev
unfolding packet_size
packet_size-eq dev = ground arith

module _ (td : ℕ) (dev : UsbDevice) (aligned : td % 16 ≡ 0) where
  setup_fields :
      (dr : ℕ)
      → td + 32 < 2 ^ 32
      → let d = setup_td td dev dr in
        fields_of d.link_ptr d.ctrl_status d.token d.buffer_ptr ≡ setup_stage dev dr td
  unfolding setup_td
  setup_fields dr fits =
      let link : bit_or (td_lptr_ptr (element td 1)) td_lptr_depth ≡ td + 32 + 4 =
        rw (element-eq td 1 (omega arith)) (link_eq (td + 32) fits (omega arith)) in
      rw (setup_td-token td dev dr, link)
        (stage_fields dev (td + 32) 45 7 dr false (omega arith) (omega arith) (omega arith))

  data_fields :
      (pid buf i : ℕ)
      → pid < 256
      → td + 32 * (i + 2) < 2 ^ 32
      → let d = data_at td dev (packet_size dev) pid buf i in
        fields_of d.link_ptr d.ctrl_status d.token d.buffer_ptr ≡ data_stage dev pid buf td i
  data_fields pid buf i kind fits =
      let size : ℕ = packet_size dev in
      let parts = data_td-parts td dev size pid (toggle_at i) (buf_at buf size i) i in
      let token = data_td-token td dev size pid (toggle_at i) (buf_at buf size i) i kind in
      let link : bit_or (td_lptr_ptr (element td (i + 2))) td_lptr_depth ≡ td + 32 * (i + 2) + 4 =
        rw (element-eq td (i + 2) fits) (link_eq (td + 32 * (i + 2)) fits (omega arith)) in
      let toggle : flag (toggle_at i) ≡ 1 - i % 2 = ground arith in
      let whole =
        stage_fields dev (td + 32 * (i + 2)) pid ((size - 1) % 64) (buf_at buf size i) (toggle_at i)
          (omega arith) kind (omega arith) in
      rw (parts.0, parts.1, parts.2, token, link, ← toggle, ← packet_size-eq dev) whole

-- A control transfer of `packets` packets in a heap that had the payloads `ps`: the request and the
-- descriptors are two payloads more.
pub record Described (lo hi : ℕ) (dev : UsbDevice) (r : DeviceRequest)
    (packets dr td stage final buf : ℕ) (ps : List (ℕ × ℕ)) (h : Heap) : Type 0 where
  pub cells : List Cell
  pub heap : IsHeap lo hi h cells
  pub between : List (ℕ × ℕ)
  pub request_room : ℕ
  pub request_fits : 8 ≤ request_room
  pub request_added : Added dr request_room ps between
  pub td_room : ℕ
  pub td_fits : 32 * (packets + 2) ≤ td_room
  pub td_added : Added td td_room between (payloads lo cells)
  pub aligned : td % 16 ≡ 0
  pub enough_packets : r.length ≤ packets * packet dev
  pub no_more : packets * packet dev < r.length + packet dev
  pub request : Requested r dr h.bytes
  pub setup : fields_at td h.bytes ≡ setup_stage dev dr td
  pub data_stages :
      (i : ℕ) → i < packets → fields_at (td + 32 * (i + 1)) h.bytes ≡ data_stage dev stage buf td i
  pub status : fields_at (td + 32 * (packets + 1)) h.bytes ≡ status_stage dev final

read_td-fields :
    (p : ℕ) (m : Bytes) {d : Td}
    → read_td p m ≡ d
    → fields_at p m ≡ fields_of d.link_ptr d.ctrl_status d.token d.buffer_ptr
unfolding read_td
read_td-fields p m e = ap (λ (d : Td). fields_of d.link_ptr d.ctrl_status d.token d.buffer_ptr) e

module _ {lo hi : ℕ} {h h_1 h_3 : Heap} {cs : List Cell} (dev : UsbDevice) (r : DeviceRequest)
    (stage final buf dr td : ℕ) (heap : IsHeap lo hi h cs) (short : r.length < 2 ^ 16)
    (kind : stage < 256) (kind' : final < 256) (buf_word : buf < 2 ^ 32)
    (call_1 : memalloc (enough lo hi) sizeof_device_request h ≡ some (dr, h_1)) (dr_set : dr ≢ 0)
    (call_2 : memalloc_aligned
        (enough lo hi)
        (sizeof_td * count_td r.length (packet_size dev))
        (2 ^ 4)
        (record h_1 { bytes = write_request dr r h_1.bytes })
      ≡ some (td, h_3))
    (td_set : td ≢ 0) where
  abbrev cnt : ℕ
  cnt = count_td r.length (packet_size dev)

  setup_placed :
      {h' : Heap}
      → Transfer lo hi dev cnt dr td stage final buf (payloads lo cs) h'
      → fields_at td h'.bytes ≡ setup_stage dev dr td
  setup_placed {h'} t =
      let bounds = count_td_bounds r.length (packet_size dev) short (packet_size_bounds dev) in
      let start : td + 32 * 0 ≡ td = omega arith in
      read_td-fields td h'.bytes (rw start at (t.at_place 0 (omega (arith, bounds))))
      ∙ setup_fields td dev t.aligned dr (omega (arith, t.bound, bounds))

  data_placed :
      {h' : Heap} (i : ℕ)
      → Transfer lo hi dev cnt dr td stage final buf (payloads lo cs) h'
      → i < cnt - 2
      → fields_at (td + 32 * (i + 1)) h'.bytes ≡ data_stage dev stage buf td i
  data_placed {h'} i t lt =
      let later : (i + 1 == 0) ≡ false = ground arith in
      let before : (i + 1 + 1 == cnt) ≡ false = ground arith in
      let index : i + 1 - 1 ≡ i = omega arith in
      read_td-fields (td + 32 * (i + 1)) h'.bytes
        (rw (later, before, index) at (t.at_place (i + 1) (omega arith)))
      ∙ data_fields td dev t.aligned stage buf i kind (omega (arith, t.bound))

  status_placed :
      {h' : Heap}
      → Transfer lo hi dev cnt dr td stage final buf (payloads lo cs) h'
      → fields_at (td + 32 * (cnt - 2 + 1)) h'.bytes ≡ status_stage dev final
  status_placed {h'} t =
      let bounds = count_td_bounds r.length (packet_size dev) short (packet_size_bounds dev) in
      let j : ℕ = cnt - 2 + 1 in
      let later : (j == 0) ≡ false = ground arith in
      let end : (j + 1 == cnt) ≡ true = ground (arith, bounds.0) in
      read_td-fields (td + 32 * j) h'.bytes
        (rw (later, end) at (t.at_place j (omega (arith, bounds.0))))
      ∙ status_fields dev final cnt kind'

  transfer-Described :
      {h' : Heap}
      → Transfer lo hi dev cnt dr td stage final buf (payloads lo cs) h'
      → Requested r dr h'.bytes
      → Described lo hi dev r (cnt - 2) dr td stage final buf (payloads lo cs) h'
  transfer-Described {h'} t requested =
      let bounds = count_td_bounds r.length (packet_size dev) short (packet_size_bounds dev) in
      let size = packet_size-eq dev in
      let whole : cnt - 2 + 2 ≡ cnt = omega (arith, bounds) in
      record {
        cells = t.cells;
        heap = t.heap;
        between = t.between;
        request_room = t.request_room;
        request_fits = t.request_fits;
        request_added = t.request;
        td_room = t.td_room;
        td_fits = rw whole (t.td_fits);
        td_added = t.descriptors;
        aligned = t.aligned;
        enough_packets = rw (← size) bounds.2;
        no_more = rw (← size) bounds.3;
        request = requested;
        setup = setup_placed t;
        data_stages = λ i lt. data_placed i t lt;
        status = status_placed t;
      }

  -- In a heap of given cells, for a length below 2^16, packet kinds below 256 and a buffer address
  -- below 2^32, when neither allocation returns NULL, uhci_create_td_control returns the first of
  -- the descriptors and their number, which is two more than the packets that the length takes, at
  -- least 8 bytes each, and leaves a heap with two payloads more: the request with its five fields
  -- in the order of the USB specification, and the descriptors, aligned to 16. Taken apart into the
  -- fields of the UHCI specification, these are the setup stage with the request as data 0, the
  -- packets of the data stage with toggles that alternate from data 1 on and buffers that follow
  -- each other, and the status stage, data 1, which is the last and alone asks for an interrupt;
  -- all are active, with the speed and the address of the device, and each but the last leads to
  -- the next.
  pub uhci_create_td_control-Described :
      (packets : ℕ) × (h' : Heap) × (uhci_create_td_control (enough lo hi) dev r stage final buf h
        ≡ some ((packets + 2, td), h'))
      × Described lo hi dev r packets dr td stage final buf (payloads lo cs) h'
  uhci_create_td_control-Described =
      let bounds = count_td_bounds r.length (packet_size dev) short (packet_size_bounds dev) in
      let whole : cnt - 2 + 2 ≡ cnt = omega (arith, bounds) in
      let (h', created, t) =
        uhci_create_td_control-Transfer dev r stage final buf dr td heap short kind kind' buf_word
          call_1 dr_set call_2 td_set in
      let kept =
        uhci_create_td_control-Untouched dev r stage final buf dr td heap short kind kind' buf_word
          call_1 dr_set call_2 td_set h' created in
      (
        cnt - 2,
        h',
        rw whole created,
        transfer-Described t (Requested-Agree kept.1 (write_request-Requested r dr h_1.bytes)),
      )
