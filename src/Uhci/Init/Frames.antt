-- ===== src/Uhci/Init/Frames.antt =====
-- The writes of uhci_init_frame_list of uhci.c, and what is in memory after them.
use usbloader.Common.{
  ℕ, zero, suc, ◌+◌, ◌*◌, ◌/◌, ◌%◌, ◌^◌, ◌≤◌, ◌<◌, ◌≡◌, ap, ◌∙◌, sym, ◌⊎◌, inl, inr, List, arith,
  bit_and, bit_or,
}
use usbloader.Common.Bits.{bit_and-high, bit_or-add}
use usbloader.Memory.{
  Bytes, load32, store32, load32-Agree, load32-store32, load32-store32_ne, Agree, Agree-refl,
  Agree-store32, Agree-trans,
}
use usbloader.Heap.{Heap}
use usbloader.Heap.Contents.Holders.{Among, Among-write-IsHeap, IsHeap-outside}
use usbloader.Heap.Layout.{Cell, IsHeap}
use usbloader.Heap.Payloads.{payloads}
use usbloader.Uhci.Init.{fill_list, frbaseadd_ptr}
use usbloader.Uhci.Queue.{flp_ptr}
use usbloader.Uhci.Requests.Entry.{flp_ptr-aligned}

fill_list-Agree :
    (left flist entry x y : ℕ) (m : Bytes)
    → (flist + 4 * left ≤ x) ⊎ (y ≤ flist)
    → Agree x y m (fill_list left flist entry m)
unfolding fill_list
fill_list-Agree zero flist entry x y m far = Agree-refl x y m
fill_list-Agree (suc left) flist entry x y m far =
    Agree-trans (Agree-store32 x y m flist entry (ground arith))
      (fill_list-Agree left (flist + 4) entry x y (store32 m flist entry) (ground arith))

fill_list-read :
    (left flist entry i : ℕ) (m : Bytes)
    → entry < 2 ^ 32
    → i < left
    → load32 (fill_list left flist entry m) (flist + 4 * i) ≡ entry
unfolding fill_list
fill_list-read zero flist entry i m word lt = absurd (omega arith)
fill_list-read (suc left) flist entry zero m word lt =
    let start : flist + 4 * 0 ≡ flist = omega arith in
    rw start (
      load32-Agree flist
        (fill_list-Agree left (flist + 4) entry flist (flist + 4) (store32 m flist entry)
          (inr (omega arith)))
        (omega arith) (omega arith)
      ∙ load32-store32 m flist entry word)
fill_list-read (suc left) flist entry (suc i) m word lt =
    let next : flist + 4 * suc i ≡ flist + 4 + 4 * i = omega arith in
    rw next (fill_list-read left (flist + 4) entry i (store32 m flist entry) word (omega arith))

pub frbaseadd_ptr-aligned : (p : ℕ) → p < 2 ^ 32 → p % 4096 ≡ 0 → frbaseadd_ptr p ≡ p
frbaseadd_ptr-aligned p word aligned =
    let mask : bit_and p 4294963200 ≡ p / 4096 * 4096 = bit_and-high 32 12 p (omega arith) word in
    mask ∙ omega arith

flp_qh_ptr : (p : ℕ) → p < 2 ^ 32 → p % 16 ≡ 0 → bit_or (flp_ptr p) 2 ≡ p + 2
flp_qh_ptr p word aligned =
    let whole : p ≡ p / 16 * 2 ^ 4 = omega arith in
    let sum : bit_or (p / 16 * 2 ^ 4) 2 ≡ p / 16 * 2 ^ 4 + 2 =
      bit_or-add 4 (p / 16) 2 (omega arith) in
    rw (flp_ptr-aligned p word aligned)
      (ap (λ x. bit_or x 2) whole ∙ sum ∙ ap (λ x. x + 2) (sym whole))

module _ (dev flist queue base : ℕ) (m : Bytes) where
  abbrev pub emptied : Bytes
  emptied = store32 (store32 m queue 1) (queue + 4) 1

  abbrev pub linked : Bytes
  linked = store32 emptied (dev + 16) queue

  abbrev pub listed : Bytes
  listed = fill_list 1024 flist (bit_or (flp_ptr queue) 2) linked

  abbrev pub finished : Bytes
  finished = store32 listed base (frbaseadd_ptr flist)

  -- What is in memory in the end.
  pub record Ready : Type 0 where
    pub frames : (i : ℕ) → i < 1024 → load32 finished (flist + 4 * i) ≡ queue + 2
    pub no_queue : load32 finished queue ≡ 1
    pub no_transfer : load32 finished (queue + 4) ≡ 1
    pub known : load32 finished (dev + 16) ≡ queue
    pub base_kept : load32 listed (dev + 4) ≡ load32 m (dev + 4)

  -- The three structures do not meet, and the word at `base` is outside the heap.
  module _ (lo hi : ℕ) (word : hi ≤ 2 ^ 32) (list_low : lo ≤ flist) (list_high : flist + 4096 ≤ hi)
      (queue_low : lo ≤ queue) (queue_high : queue + 8 ≤ hi) (dev_low : lo ≤ dev)
      (dev_high : dev + 20 ≤ hi) (far : (flist + 4096 ≤ queue) ⊎ (queue + 8 ≤ flist))
      (far' : (flist + 4096 ≤ dev) ⊎ (dev + 20 ≤ flist))
      (far'' : (queue + 8 ≤ dev) ⊎ (dev + 20 ≤ queue))
      (outside : (base + 4 ≤ lo) ⊎ (hi ≤ base)) where
    behind_list :
        (x : ℕ)
        → lo ≤ x
        → x + 4 ≤ hi
        → (flist + 4096 ≤ x) ⊎ (x + 4 ≤ flist)
        → load32 finished x ≡ load32 linked x
    behind_list x low high apart =
        load32-store32_ne listed base (frbaseadd_ptr flist) x (ground arith)
        ∙ load32-Agree x
            (fill_list-Agree 1024 flist (bit_or (flp_ptr queue) 2) x (x + 4) linked (ground arith))
            (omega arith) (omega arith)

    finished-frames :
        queue % 16 ≡ 0 → (i : ℕ) → i < 1024 → load32 finished (flist + 4 * i) ≡ queue + 2
    finished-frames aligned i lt =
        let entry = flp_qh_ptr queue (omega arith) aligned in
        load32-store32_ne listed base (frbaseadd_ptr flist) (flist + 4 * i) (ground arith)
        ∙ fill_list-read 1024 flist (bit_or (flp_ptr queue) 2) i linked (omega (arith, entry)) lt
        ∙ entry

    finished-no_queue : load32 finished queue ≡ 1
    finished-no_queue =
        behind_list queue queue_low (omega arith) (ground arith)
        ∙ load32-store32_ne emptied (dev + 16) queue queue (ground arith)
        ∙ load32-store32_ne (store32 m queue 1) (queue + 4) 1 queue (inr (omega arith))
        ∙ load32-store32 m queue 1 (omega arith)

    finished-no_transfer : load32 finished (queue + 4) ≡ 1
    finished-no_transfer =
        behind_list (queue + 4) (omega arith) (omega arith) (ground arith)
        ∙ load32-store32_ne emptied (dev + 16) queue (queue + 4) (ground arith)
        ∙ load32-store32 (store32 m queue 1) (queue + 4) 1 (omega arith)

    finished-known : load32 finished (dev + 16) ≡ queue
    finished-known =
        behind_list (dev + 16) (omega arith) (omega arith) (ground arith)
        ∙ load32-store32 emptied (dev + 16) queue (omega arith)

    -- The field `frame_list_base`, which nothing of this changes.
    listed-base : load32 listed (dev + 4) ≡ load32 m (dev + 4)
    listed-base =
        load32-Agree (dev + 4)
          (fill_list-Agree 1024 flist (bit_or (flp_ptr queue) 2) (dev + 4) (dev + 8) linked
            (ground arith))
          (omega arith) (omega arith)
        ∙ load32-store32_ne emptied (dev + 16) queue (dev + 4) (inr (omega arith))
        ∙ load32-store32_ne (store32 m queue 1) (queue + 4) 1 (dev + 4) (ground arith)
        ∙ load32-store32_ne m queue 1 (dev + 4) (ground arith)

    pub finished-Ready : queue % 16 ≡ 0 → Ready
    finished-Ready aligned = record {
      frames = finished-frames aligned;
      no_queue = finished-no_queue;
      no_transfer = finished-no_transfer;
      known = finished-known;
      base_kept = listed-base;
    }

  pub finished-IsHeap :
      {lo hi : ℕ} {h : Heap} {cs : List Cell} (room list_room queue_room : ℕ)
      → IsHeap lo hi h cs
      → h.bytes ≡ m
      → Among dev room (payloads lo cs)
      → 20 ≤ room
      → Among flist list_room (payloads lo cs)
      → 4096 ≤ list_room
      → Among queue queue_room (payloads lo cs)
      → 8 ≤ queue_room
      → (base + 4 ≤ lo) ⊎ (hi ≤ base)
      → IsHeap lo hi (record h { bytes = finished }) cs
  finished-IsHeap {lo} {hi} {h} room list_room queue_room heap same dev_held fits list_held fits'
        queue_held fits'' outside =
      let agree : (x y : ℕ) → (queue + 8 ≤ x) ⊎ (y ≤ queue) → Agree x y h.bytes emptied = λ x y far.
        rw same (
          Agree-trans (Agree-store32 x y m queue 1 (ground arith))
            (Agree-store32 x y (store32 m queue 1) (queue + 4) 1 (ground arith))) in
      let heap_1 =
        Among-write-IsHeap queue queue_room emptied heap queue_held
          (agree lo queue (inr (omega arith)))
          (agree (queue + queue_room) hi (inl (omega arith))) in
      let heap_2 =
        Among-write-IsHeap dev room linked heap_1 dev_held
          (Agree-store32 lo dev emptied (dev + 16) queue (inr (omega arith)))
          (Agree-store32 (dev + room) hi emptied (dev + 16) queue (inl (omega arith))) in
      let entry : ℕ = bit_or (flp_ptr queue) 2 in
      let heap_3 =
        Among-write-IsHeap flist list_room listed heap_2 list_held
          (fill_list-Agree 1024 flist entry lo flist linked (inr (omega arith)))
          (fill_list-Agree 1024 flist entry (flist + list_room) hi linked (inl (omega arith))) in
      IsHeap-outside finished heap_3
        (Agree-store32 lo hi listed base (frbaseadd_ptr flist) (ground arith))
