-- ===== src/Uhci/Init/FrameList.antt =====
-- uhci_init_frame_list of uhci.c: what the controller finds in memory.
use usbloader.Common.{ℕ, ◌+◌, ◌*◌, ◌%◌, ◌≤◌, ◌<◌, ◌≡◌, ◌≢◌, refl, ◌∙◌, ◌⊎◌, some, List, arith}
use usbloader.Memory.{load32, load32-Agree}
use usbloader.Heap.{Heap, memalloc_aligned}
use usbloader.Heap.Contents.Calls.{memalloc_aligned-Untouched}
use usbloader.Heap.Contents.Holders.{
  Among, Added-Among, Among-Added, Added-clear, Untouched-at, Among-bounds,
}
use usbloader.Heap.Layout.{Cell, IsHeap}
use usbloader.Heap.Owners.{Added}
use usbloader.Heap.Payloads.{payloads}
use usbloader.Heap.Promise.{IsHeap-Separate, memalloc_aligned-Allocated}
use usbloader.Heap.Reach.{enough, enough-lt}
use usbloader.Uhci.Init.{
  frame_list_size, frame_list_align, sizeof_queue_head, frbaseadd_ptr, read_uhci_dev,
}
use usbloader.Uhci.Init.Device.{Platform, uhci_init_frame_list}
use usbloader.Uhci.Requests.{Machine, bytes_of, ◌>>=◌, on_heap}
use usbloader.Uhci.Init.Frames.{
  finished, listed, finished-Ready, finished-IsHeap, frbaseadd_ptr-aligned,
}

-- The frame list at `flist` leads every frame to the queue head at `queue`, which has no transfer
-- and no other queue behind it. Both are new payloads of the heap, and the driver has the queue.
pub record Listed (lo hi dev flist queue : ℕ) (ps : List (ℕ × ℕ)) (h : Heap) : Type 0 where
  pub between : List Cell
  pub cells : List Cell
  pub list_room : ℕ
  pub queue_room : ℕ
  pub heap : IsHeap lo hi h cells
  pub list_added : Added flist list_room ps (payloads lo between)
  pub queue_added : Added queue queue_room (payloads lo between) (payloads lo cells)
  pub list_aligned : flist % 4096 ≡ 0
  pub queue_aligned : queue % 16 ≡ 0
  pub frames : (i : ℕ) → i < 1024 → load32 h.bytes (flist + 4 * i) ≡ queue + 2
  pub no_queue : load32 h.bytes queue ≡ 1
  pub no_transfer : load32 h.bytes (queue + 4) ≡ 1
  pub known : load32 h.bytes (dev + 16) ≡ queue

module _ {ℓ} {W : Type ℓ} (p : Platform W) {lo hi : ℕ} {cs : List Cell}
    (halts dev room flist queue : ℕ) (s : Machine W) (h_1 h_2 : Heap)
    (heap : IsHeap lo hi s.heap cs) (held : Among dev room (payloads lo cs)) (fits : 20 ≤ room)
    (outside : (load32 (bytes_of s) (dev + 4) + 4 ≤ lo) ⊎ (hi ≤ load32 (bytes_of s) (dev + 4)))
    (call_1 : memalloc_aligned (enough lo hi) (4 * frame_list_size) frame_list_align s.heap
      ≡ some (flist, h_1))
    (list_set : flist ≢ 0)
    (call_2 : memalloc_aligned (enough lo hi) sizeof_queue_head 16 h_1 ≡ some (queue, h_2))
    (queue_set : queue ≢ 0) where
  abbrev pub base : ℕ
  base = load32 (bytes_of s) (dev + 4)

  abbrev pub final : Machine W
  final = record s { heap = record h_2 { bytes = finished dev flist queue base h_2.bytes } }

  uhci_init_frame_list_steps :
      load32 (listed dev flist queue base h_2.bytes) (dev + 4) ≡ base
      → frbaseadd_ptr flist ≡ flist
      → uhci_init_frame_list p (enough lo hi) halts dev s
        ≡ some (tt, p.ports.outl ((read_uhci_dev dev (bytes_of final)).iobase + 8) flist final)
  unfolding uhci_init_frame_list
  uhci_init_frame_list_steps e e' =
      rw (uhci_init_frame_list, ◌>>=◌, on_heap, call_1, call_2, e, e') refl

  -- In a heap of given cells with the driver's structure in a payload, whose frame_list_base leads
  -- outside the heap, when neither allocation returns NULL, uhci_init_frame_list leaves a heap with
  -- two payloads more, a frame list aligned to 4096 and a queue head aligned to 16: all 1024
  -- entries of the list lead to the queue head and say that it is one, it has no transfer and no
  -- further queue, and its address is in the driver's structure; the last step tells the controller
  -- the list's address.
  pub uhci_init_frame_list-Listed :
      (s' : Machine W) × (uhci_init_frame_list p (enough lo hi) halts dev s
        ≡ some (tt, p.ports.outl ((read_uhci_dev dev (bytes_of s')).iobase + 8) flist s'))
      × Listed lo hi dev flist queue (payloads lo cs) s'.heap
  uhci_init_frame_list-Listed =
      let ps = payloads lo cs in
      let a =
        memalloc_aligned-Allocated 12 4096 (enough lo hi) flist h_1 heap (omega arith) (omega arith)
          (enough-lt heap) call_1 list_set in
      let qs = payloads lo a.cells in
      let b =
        memalloc_aligned-Allocated 4 8 (enough lo hi) queue h_2 a.heap (omega arith) (omega arith)
          (enough-lt a.heap) call_2 queue_set in
      let u_1 =
        memalloc_aligned-Untouched 12 4096 (enough lo hi) flist h_1 heap (omega arith)
          (enough-lt heap) call_1 (omega arith) in
      let u_2 =
        memalloc_aligned-Untouched 4 8 (enough lo hi) queue h_2 a.heap (omega arith)
          (enough-lt a.heap) call_2 (omega arith) in
      let held_1 = Among-Added dev room flist a.room ps qs a.added held in
      let held_2 = Among-Added dev room queue b.room qs (payloads lo b.cells) b.added held_1 in
      let list_1 = Added-Among flist a.room ps qs a.added in
      let list_2 = Among-Added flist a.room queue b.room qs (payloads lo b.cells) b.added list_1 in
      let dev_bounds = Among-bounds dev room b.heap held_2 in
      let list_bounds = Among-bounds flist a.room b.heap list_2 in
      let queue_bounds =
        Among-bounds queue b.room b.heap
          (Added-Among queue b.room qs (payloads lo b.cells) b.added) in
      let far =
        Added-clear lo hi queue b.room flist a.room qs (payloads lo b.cells)
          (IsHeap-Separate b.heap) b.added list_1 in
      let far' =
        Added-clear lo hi flist a.room dev room ps qs (IsHeap-Separate a.heap) a.added held in
      let far'' =
        Added-clear lo hi queue b.room dev room qs (payloads lo b.cells) (IsHeap-Separate b.heap)
          b.added held_1 in
      let queue_held = Added-Among queue b.room qs (payloads lo b.cells) b.added in
      let ready =
        finished-Ready dev flist queue base h_2.bytes lo hi (omega (arith, heap.top))
          (omega (arith, list_bounds)) (omega (arith, list_bounds, a.enough))
          (omega (arith, queue_bounds)) (omega (arith, queue_bounds, b.enough))
          (omega (arith, dev_bounds)) (omega (arith, dev_bounds, fits))
          (ground (arith, far, a.enough, b.enough)) (ground (arith, far', a.enough, fits))
          (ground (arith, far'', b.enough, fits)) outside b.aligned in
      let same_base =
        load32-Agree (dev + 4) (Untouched-at dev room qs h_1.bytes h_2.bytes held_1 u_2)
          (omega arith) (omega (arith, fits))
        ∙ load32-Agree (dev + 4) (Untouched-at dev room ps (bytes_of s) h_1.bytes held u_1)
            (omega arith) (omega (arith, fits)) in
      let list_ptr =
        frbaseadd_ptr-aligned flist (omega (arith, list_bounds, a.enough, heap.top)) a.aligned in
      (
        final,
        uhci_init_frame_list_steps (ready.base_kept ∙ same_base) list_ptr,
        record {
          between = a.cells;
          cells = b.cells;
          list_room = a.room;
          queue_room = b.room;
          heap =
              finished-IsHeap dev flist queue base h_2.bytes room a.room b.room b.heap refl held_2
                fits list_2 a.enough queue_held b.enough outside;
          list_added = a.added;
          queue_added = b.added;
          list_aligned = a.aligned;
          queue_aligned = b.aligned;
          frames = ready.frames;
          no_queue = ready.no_queue;
          no_transfer = ready.no_transfer;
          known = ready.known;
        },
      )
