-- ===== src/Uhci/Control/Kept.antt =====
-- uhci_create_td_control of uhci.c: the contents of the other payloads stay, and what the first
-- descriptor leads to.
use usbloader.Common.{
  ℕ, ◌+◌, ◌*◌, ◌^◌, ◌<◌, ◌≡◌, ◌≢◌, refl, ap, ◌∙◌, sym, inl, inr, arith, some, List,
}
use usbloader.Heap.{Heap, memalloc, memalloc_aligned}
use usbloader.Heap.Layout.{Cell, IsHeap}
use usbloader.Heap.Owners.{Added-bounds, holder_write-IsHeap}
use usbloader.Heap.Payloads.{payloads}
use usbloader.Heap.Promise.{memalloc_aligned-Allocated, memalloc_lem}
use usbloader.Heap.Reach.{enough, enough-lt}
use usbloader.Uhci.{UsbDevice, DeviceRequest, read_td, sizeof_td}
use usbloader.Uhci.Control.{
  write_request, write_control, count_td, packet_size, sizeof_device_request,
  uhci_create_td_control,
}
use usbloader.Uhci.Control.Chain.{write_control-Agree}
use usbloader.Heap.Contents.Calls.{
  Untouched, Untouched-trans, Untouched-Added, memalloc_aligned-Untouched,
}
use usbloader.Heap.Contents.Holders.{holder_write-Untouched, Untouched-at, Added-Among}
use usbloader.Uhci.Control.{setup_td, standard_request, uhci_create_td_control_in}
use usbloader.Uhci.{td_pid_in, td_pid_out}
use usbloader.Memory.{Agree, Agree-part, load32}
use usbloader.Uhci.Control.Ready.{
  Transfer, count_td_bounds, packet_size_bounds, write_request-Agree,
}

pub uhci_create_td_control_in-eq :
    (fuel : ℕ) (dev : UsbDevice) (request value index length buf : ℕ) (h : Heap)
    → uhci_create_td_control_in fuel dev request value index length buf h
      ≡ uhci_create_td_control fuel dev
          (standard_request 0x80 request value index length)
          td_pid_in
          td_pid_out
          buf
          h
unfolding uhci_create_td_control_in
uhci_create_td_control_in-eq fuel dev request value index length buf h = refl

-- What the two allocations return is what a control transfer consists of.
pub uhci_create_td_control_in_steps :
    (fuel : ℕ) (dev : UsbDevice) (request value index length buf : ℕ) {dr td : ℕ} (h : Heap)
    {h_1 h_3 : Heap}
    → memalloc fuel sizeof_device_request h ≡ some (dr, h_1)
    → memalloc_aligned fuel (sizeof_td * count_td length (packet_size dev)) (2 ^ 4) (record h_1 {
      bytes = write_request dr (standard_request 0x80 request value index length) h_1.bytes;
    })
      ≡ some (td, h_3)
    → uhci_create_td_control_in fuel dev request value index length buf h
      ≡ some (
        (count_td length (packet_size dev), td),
        record h_3 {
          bytes =
              write_control td dev
                (count_td length (packet_size dev))
                dr
                td_pid_in
                td_pid_out
                buf
                h_3.bytes;
        },
      )
unfolding uhci_create_td_control uhci_create_td_control_in
uhci_create_td_control_in_steps fuel dev request value index length buf h call_1 call_2 =
    rw (uhci_create_td_control, call_1, call_2) refl

-- The first descriptor leads to the request.
pub Transfer-request :
    {lo hi dr td stage final buf : ℕ} {dev : UsbDevice} {cnt : ℕ} {ps : List (ℕ × ℕ)} {h : Heap}
    → Transfer lo hi dev cnt dr td stage final buf ps h
    → 0 < cnt
    → load32 h.bytes (td + 12) ≡ dr
unfolding read_td setup_td
Transfer-request {lo} {hi} {dr} {td} t some_td =
    let start : td + 32 * 0 ≡ td = omega arith in
    rw start at (ap (λ d. d.buffer_ptr) (t.at_place 0 some_td))

module _ {lo hi : ℕ} {h h_1 h_3 : Heap} {cs : List Cell} (dev : UsbDevice) (r : DeviceRequest)
    (stage final buf dr td : ℕ) (heap : IsHeap lo hi h cs) (short : r.length < 2 ^ 16)
    (kind : stage < 256) (kind' : final < 256) (buf_word : buf < 2 ^ 32)
    (call_1 : memalloc (enough lo hi) sizeof_device_request h ≡ some (dr, h_1)) (dr_set : dr ≢ 0)
    (call_2 : memalloc_aligned
        (enough lo hi)
        (sizeof_td * count_td r.length (packet_size dev))
        (2 ^ 4)
        (record h_1 { bytes = write_request dr r h_1.bytes })
      ≡ some (td, h_3))
    (td_set : td ≢ 0) where
  -- A new control transfer changes no payload that was allocated before, and the request stays.
  pub uhci_create_td_control-Untouched :
      (h_4 : Heap)
      → uhci_create_td_control (enough lo hi) dev r stage final buf h
        ≡ some ((count_td r.length (packet_size dev), td), h_4)
      → Untouched (payloads lo cs) h.bytes h_4.bytes
        × Agree dr (dr + 8) (write_request dr r h_1.bytes) h_4.bytes
  unfolding uhci_create_td_control
  uhci_create_td_control-Untouched h_4 created =
      let cnt : ℕ = count_td r.length (packet_size dev) in
      let ps = payloads lo cs in
      let bounds = count_td_bounds r.length (packet_size dev) short (packet_size_bounds dev) in
      let asked = sym (memalloc_lem (enough lo hi) 8 h) ∙ call_1 in
      let a =
        memalloc_aligned-Allocated 2 8 (enough lo hi) dr h_1 heap (omega arith) (omega arith)
          (enough-lt heap) asked dr_set in
      let dr_bounds = Added-bounds dr a.room ps a.heap a.added in
      let u_1 =
        memalloc_aligned-Untouched 2 8 (enough lo hi) dr h_1 heap (omega arith) (enough-lt heap)
          asked (omega arith) in
      let m = write_request dr r h_1.bytes in
      let u_2 =
        holder_write-Untouched dr a.room ps m a.heap a.added
          (λ x y far. write_request-Agree x y dr r h_1.bytes (ground (arith, far, a.enough))) in
      let heap_2 =
        holder_write-IsHeap dr a.room ps m a.heap a.added
          (write_request-Agree lo dr dr r h_1.bytes (inr (omega arith)))
          (write_request-Agree (dr + a.room) hi dr r h_1.bytes (inl (omega (arith, a.enough)))) in
      let b =
        memalloc_aligned-Allocated 4 (32 * cnt) (enough lo hi) td h_3 heap_2 (omega arith)
          (omega (arith, bounds)) (enough-lt heap_2) call_2 td_set in
      let u_3 =
        memalloc_aligned-Untouched 4 (32 * cnt) (enough lo hi) td h_3 heap_2 (omega arith)
          (enough-lt heap_2) call_2 (omega (arith, bounds)) in
      let td_bounds = Added-bounds td b.room (payloads lo a.cells) b.heap b.added in
      let fits : td + 32 * cnt < 2 ^ 32 = omega (arith, td_bounds, b.enough, heap.top) in
      let m' = write_control td dev cnt dr stage final buf h_3.bytes in
      let word : dr < 2 ^ 32 = omega (arith, dr_bounds, heap.top) in
      let u_4 = holder_write-Untouched td b.room (payloads lo a.cells) m' b.heap b.added (λ x y far.
        write_control-Agree td dev cnt dr stage final buf b.aligned fits bounds.0 kind kind' word
          buf_word x y h_3.bytes (ground (arith, far, b.enough))) in
      let made : uhci_create_td_control (enough lo hi) dev r stage final buf h
          ≡ some ((cnt, td), record h_3 { bytes = m' }) =
        rw (uhci_create_td_control, call_1, call_2) refl in
      let same : record h_3 { bytes = m' } ≡ h_4 = cc (made, created) in
      let behind = Untouched-trans (payloads lo a.cells) m h_3.bytes m' u_3 u_4 in
      let later = Untouched-Added dr a.room ps (payloads lo a.cells) m m' a.added behind in
      let request =
        Untouched-at dr a.room (payloads lo a.cells) m m'
          (Added-Among dr a.room ps (payloads lo a.cells) a.added) behind in
      rw (← same) (
        Untouched-trans ps h.bytes h_1.bytes m' u_1 (Untouched-trans ps h_1.bytes m m' u_2 later),
        Agree-part dr (dr + 8) request (omega arith) (omega (arith, a.enough)),
      )
