-- ===== src/Uhci/Requests/Descriptor.antt =====
-- uhci_read_dev_desc of uhci.c from its first allocation to its last release.
use usbloader.Common.{
  ℕ, ◌+◌, ◌*◌, ◌^◌, ◌≤◌, ◌<◌, ◌≡◌, ◌≢◌, ap, sym, ◌∙◌, ◌⊎◌, Bool, true, some, List, arith, bit_and,
  ◌==◌, if◌then◌else◌,
}
use usbloader.Memory.{store8}
use usbloader.Heap.{Heap, memalloc, memalloc_aligned}
use usbloader.Heap.Contents.Calls.{Untouched}
use usbloader.Heap.Contents.Holders.{
  Among-bounds, Among, Added-Among, Among-Added, Added-clear, Untouched-load32,
}
use usbloader.Heap.Layout.{Cell, IsHeap}
use usbloader.Heap.Payloads.{payloads}
use usbloader.Heap.Promise.{HasPayloads, IsHeap-Separate}
use usbloader.Heap.Reach.{enough}
use usbloader.Uhci.{UsbDevice, td_lptr_term, td_pid_in, td_pid_out, sizeof_td}
use usbloader.Uhci.Control.{
  uhci_create_td_control, uhci_create_td_control_in, write_request, sizeof_device_request, count_td,
  packet_size,
}
use usbloader.Uhci.Control.Delete.{uhci_delete_td_control-HasPayloads}
use usbloader.Uhci.Control.Kept.{
  uhci_create_td_control_in-eq, uhci_create_td_control-Untouched, Transfer-request,
}
use usbloader.Uhci.Control.Ready.{
  Transfer, count_td_bounds, packet_size_bounds, uhci_create_td_control-Transfer,
}
use usbloader.Uhci.Requests.{
  Machine, bytes_of, read_usb_device, uhci_read_dev_desc, uhci_read_dev_desc_maxpkg,
  sizeof_transfer_entry, dr_req_get_descriptor, dr_val_desc_device,
}
use usbloader.Uhci.Requests.Entry.{Idle}
use usbloader.Uhci.Requests.Transfer.{run_transfer-Over}
use usbloader.Uhci.Requests.Ending.{Controller, Chain}
use usbloader.Uhci.Requests.Steps.{
  get_descriptor, transfer, transfer_steps, transfer_of, length_of, short,
}

module _ {ℓ} {W : Type ℓ} (hlt : Machine W → Machine W)
    (lo hi queue done rounds halts callback udev dev_desc dr td te qn : ℕ) (maxpkg : Bool)
    (s : Machine W) (cs : List Cell) (h_1 h_3 h_4 h_5 : Heap) (outside : (done < lo) ⊎ (hi ≤ done))
    (done_word : done < 2 ^ 32) (buf_word : dev_desc < 2 ^ 32) (heap : IsHeap lo hi s.heap cs)
    (callback_word : callback < 2 ^ 32) (idle : Idle queue s) (queue_fits : 8 ≤ qn)
    (queue_held : Among queue qn (payloads lo cs))
    (call_1 : memalloc (enough lo hi) sizeof_device_request s.heap ≡ some (dr, h_1))
    (dr_set : dr ≢ 0) where
  abbrev dev : UsbDevice
  dev = read_usb_device udev (bytes_of s)

  abbrev cnt : ℕ
  cnt = count_td (length_of maxpkg) (packet_size dev)

  module _
      (call_2 : memalloc_aligned
          (enough lo hi)
          (sizeof_td * cnt)
          (2 ^ 4)
          (record h_1 { bytes = write_request dr (get_descriptor (length_of maxpkg)) h_1.bytes })
        ≡ some (td, h_3))
      (td_set : td ≢ 0)
      (created : uhci_create_td_control_in
          (enough lo hi)
          dev
          dr_req_get_descriptor
          dr_val_desc_device
          0
          (length_of maxpkg)
          dev_desc
          s.heap
        ≡ some ((cnt, td), h_4))
      (call_3 : memalloc
          (enough lo hi)
          sizeof_transfer_entry
          (record h_4 { bytes = store8 h_4.bytes done 0 })
        ≡ some (te, h_5))
      (te_set : te ≢ 0) where
    same_call :
        uhci_create_td_control
          (enough lo hi)
          dev
          (get_descriptor (length_of maxpkg))
          td_pid_in
          td_pid_out
          dev_desc
          s.heap
        ≡ some ((cnt, td), h_4)
    same_call =
        sym (
          uhci_create_td_control_in-eq (enough lo hi) dev dr_req_get_descriptor dr_val_desc_device 0
            (length_of maxpkg) dev_desc s.heap)
        ∙ created

    placed : Transfer lo hi dev cnt dr td td_pid_in td_pid_out dev_desc (payloads lo cs) h_4
    placed =
        let (h', made, t) =
          uhci_create_td_control-Transfer dev (get_descriptor (length_of maxpkg)) td_pid_in
            td_pid_out dev_desc dr td heap (short maxpkg) (omega arith) (omega arith) buf_word
            call_1 dr_set call_2 td_set in
        let same : h' ≡ h_4 = cc (made, same_call) in rw (← same) t

    kept : Untouched (payloads lo cs) (bytes_of s) h_4.bytes
    kept =
        (uhci_create_td_control-Untouched dev (get_descriptor (length_of maxpkg)) td_pid_in
          td_pid_out dev_desc dr td heap (short maxpkg) (omega arith) (omega arith) buf_word call_1
          dr_set call_2 td_set h_4 same_call).0

    dr_word : dr < 2 ^ 32
    dr_word =
        let held =
          Among-Added dr placed.request_room td placed.td_room placed.between
            (payloads lo placed.cells) placed.descriptors
            (Added-Among dr placed.request_room (payloads lo cs) placed.between placed.request) in
        omega (arith, Among-bounds dr placed.request_room placed.heap held, heap.top)

    two : 2 ≤ cnt
    two =
        (count_td_bounds (length_of maxpkg) (packet_size dev) (short maxpkg)
          (packet_size_bounds dev)).0

    made_idle : Idle queue (record s { heap = h_4 })
    made_idle =
        let link =
          Untouched-load32 queue qn (queue + 4) (payloads lo cs) (bytes_of s) h_4.bytes queue_held
            kept (omega arith) (omega (arith, queue_fits)) in
        record {
          pending = idle.pending;
          terminated = ap (λ v. bit_and v td_lptr_term == 0) link ∙ idle.terminated;
        }

    between_held : Among queue qn placed.between
    between_held =
        Among-Added queue qn dr placed.request_room (payloads lo cs) placed.between placed.request
          queue_held

    made_held : Among queue qn (payloads lo placed.cells)
    made_held =
        Among-Added queue qn td placed.td_room placed.between (payloads lo placed.cells)
          placed.descriptors between_held

    td_held : Among td placed.td_room (payloads lo placed.cells)
    td_held =
        Added-Among td placed.td_room placed.between (payloads lo placed.cells) placed.descriptors

    chain : Chain td cnt h_4.bytes
    chain = record {
      dev = dev;
      dr = dr;
      stage = td_pid_in;
      final = td_pid_out;
      buf = dev_desc;
      some_td = two;
      aligned = placed.aligned;
      fits = placed.bound;
      kind = omega arith;
      kind' = omega arith;
      dr_word = dr_word;
      buf_word = buf_word;
      at_place = placed.at_place;
    }

    td_apart : (td + 32 * cnt ≤ queue) ⊎ (queue + 8 ≤ td)
    td_apart =
        let clear =
          Added-clear lo hi td placed.td_room queue qn placed.between (payloads lo placed.cells)
            (IsHeap-Separate placed.heap) placed.descriptors between_held in
        ground (arith, clear, placed.td_fits, queue_fits)

    -- The machine at the end of the request.
    abbrev pub Finished : Machine W → Type 0
    Finished s' = HasPayloads lo hi s'.heap (payloads lo cs) × Idle queue s'

    transfer-Finished :
        Controller hlt lo hi queue done callback rounds
        → rounds < halts
        → (s' : Machine W) × (transfer hlt
              (enough lo hi)
              halts
              callback
              queue
              done
              udev
              dev_desc
              (length_of maxpkg)
              s
            ≡ some (true, s'))
          × Finished s'
    transfer-Finished control in_time =
        let (s_2, ran, o) =
          run_transfer-Over hlt lo hi queue done rounds halts callback td cnt te qn placed.td_room
            (record s { heap = h_4 }) placed.cells h_5 outside done_word placed.heap made_idle
            queue_fits made_held callback_word chain placed.td_fits td_held td_apart call_3 te_set
            control in_time in
        let request = o.request ∙ Transfer-request placed (omega (arith, two)) in
        let (h_6, deleted, held, kept') =
          uhci_delete_td_control-HasPayloads dr placed.request_room td placed.td_room
            (payloads lo cs) placed.between (payloads lo placed.cells) o.payloads_kept
            placed.request placed.descriptors request in
        let link =
          Untouched-load32 queue qn (queue + 4) (payloads lo cs) (bytes_of s_2) h_6.bytes queue_held
            kept' (omega arith) (omega (arith, queue_fits)) in
        (
          record s_2 { heap = h_6 },
          transfer_steps hlt (enough lo hi) halts callback queue done udev dev_desc
              (length_of maxpkg) cnt td s s_2 h_4 h_6 created ran deleted,
          (
            held,
            record {
              pending = o.idle.pending;
              terminated = ap (λ v. bit_and v td_lptr_term == 0) link ∙ o.idle.terminated;
            },
          ),
        )

    -- The request, with whatever ends a queued transfer.
    pub uhci_read_dev_desc-Finished :
        Controller hlt lo hi queue done callback rounds
        → rounds < halts
        → (s' : Machine W) × ((if maxpkg
              then uhci_read_dev_desc_maxpkg hlt
                  (enough lo hi)
                  halts
                  callback
                  queue
                  done
                  udev
                  dev_desc
                  s
              else uhci_read_dev_desc hlt (enough lo hi) halts callback queue done udev dev_desc s)
            ≡ some (true, s'))
          × Finished s'
    uhci_read_dev_desc-Finished control in_time =
        let (s', ran, finished) = transfer-Finished control in_time in
        (
          s',
          transfer_of maxpkg hlt (enough lo hi) halts callback queue done udev dev_desc s ∙ ran,
          finished,
        )
