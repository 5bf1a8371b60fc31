-- ===== src/Uhci/Init/Refused.antt =====
-- What pci_dev_init_cb of uhci.c leaves when it does not take a device.
use usbloader.Common.{
  ℕ, zero, suc, ◌+◌, ◌%◌, ◌/◌, sym, [], ◌∷◌, ◌≤◌, ◌≡◌, ◌≢◌, refl, ap, ◌∙◌, ◌⊎◌, inl, inr, Bool,
  true, false, Bool-cases, some, List, arith, ◌==◌, bit_and, bit_or, if◌then◌else◌,
}
use Prim.Native.String.{String}
use usbloader.Memory.{
  Bytes, store8, Agree-refl, store16, store32, Agree, Agree-store16, Agree-store32, Agree-trans,
}
use usbloader.Heap.{Heap, memalloc, memfree}
use usbloader.Heap.Contents.Calls.{
  Untouched, Untouched-refl, Untouched-trans, memalloc_aligned-Untouched,
}
use usbloader.Heap.Contents.Lent.{given_back-HasPayloads}
use usbloader.Heap.Contents.Holders.{Among, Among-Added, Among-write-IsHeap}
use usbloader.Heap.Layout.{Cell, IsHeap}
use usbloader.Heap.Payloads.{payloads}
use usbloader.Heap.Promise.{HasPayloads, memalloc_aligned-Allocated, memalloc_lem}
use usbloader.Heap.Reach.{enough, enough-lt}
use usbloader.Pci.{PciDev, pci_write_16}
use usbloader.Pci.Devices.{Found, sizeof_pci_dev}
use usbloader.Uhci.Init.{
  is_uhci_device, read_uhci_dev, bar_at, usbbase_bar_idx, hoff_uhci_legsup, sizeof_uhci_dev,
}
use usbloader.Uhci.Init.Device.{
  Platform, pci_dev_init_cb, reset_controller, enable_busmaster, type00_of,
}
use usbloader.Uhci.Registers.{UhciDev, uhci_reset, wait_reset, usbcmd, usbcmd_hc_reset}
use usbloader.Uhci.Registers.Reset.{answers, uhci_reset-answers, resetting}
use usbloader.Uhci.Requests.{Machine, bytes_of, with_bytes, ◌>>=◌, on_heap, release}

-- The memory in which the device at `f.pointer` may use the bus: its command has the bit.
abbrev pub mastered : Found → Bytes → Bytes
mastered f m =
    if bit_and f.header.command 4 == 0
    then store16 m (f.pointer + 4 + 4) (bit_or f.header.command 4)
    else m

mastered-outside :
    (f : Found) (x y : ℕ) (m : Bytes)
    → (f.pointer + 68 ≤ x) ⊎ (y ≤ f.pointer)
    → Agree x y m (mastered f m)
mastered-outside f x y m far = elim (Bool-cases (bit_and f.header.command 4 == 0)) [
  | inl e ↦
      rw e (Agree-store16 x y m (f.pointer + 4 + 4) (bit_or f.header.command 4) (ground arith))
  | inr e ↦ rw e (Agree-refl x y m)
]

mastered-Agree :
    (f : Found) {x y : ℕ} {m n : Bytes} → Agree x y m n → Agree x y (mastered f m) (mastered f n)
unfolding store8
mastered-Agree f {x} {y} {m} {n} same a low high =
    elim (Bool-cases (bit_and f.header.command 4 == 0)) [
      | inl e ↦
          let v : ℕ = bit_or f.header.command 4 in
          let at : ℕ = f.pointer + 4 + 4 in
          rw e (
            ap (λ b. if a == at + 1 then v / 256 % 256 else if a == at then v % 256 else b)
              (same a low high))
      | inr e ↦ rw e (same a low high)
    ]

mastered-Untouched :
    (f : Found) (ps : List (ℕ × ℕ)) (m n : Bytes)
    → Untouched ps m n
    → Untouched ps (mastered f m) (mastered f n)
mastered-Untouched f [] m n u = tt
mastered-Untouched f ((q, k) ∷ ps) m n u = (mastered-Agree f u.0, mastered-Untouched f ps m n u.1)

-- While the controller does not run, nothing but the driver changes the memory; and the registers
-- read with the reset bit set, as they do where no device answers.
pub record Silent {ℓ} {W : Type ℓ} (p : Platform W) : Type ℓ where
  pub outl_kept : (port v : ℕ) (s : Machine W) → (p.ports.outl port v s).heap ≡ s.heap
  pub outw_kept : (port v : ℕ) (s : Machine W) → (p.ports.outw port v s).heap ≡ s.heap
  pub inw_kept : (port : ℕ) (s : Machine W) → (p.ports.inw port s).1.heap ≡ s.heap
  pub sleep_kept : (ms : ℕ) (s : Machine W) → (p.sleep ms s).heap ≡ s.heap
  pub print_kept : (text : String) (s : Machine W) → (p.console.print text s).heap ≡ s.heap
  pub print_pci_dev_kept : (dev : ℕ) (s : Machine W) → (p.console.print_pci_dev dev s).heap ≡ s.heap
  pub busy :
      (port : ℕ) (s : Machine W) → (bit_and (p.ports.inw port s).0 usbcmd_hc_reset == 0) ≡ false

module _ {ℓ} {W : Type ℓ} (p : Platform W) (silent : Silent p) where
  module _ (dev : UhciDev) where
    wait_reset_kept :
        (timeout : ℕ) (s : Machine W) → (wait_reset p.ports p.sleep dev timeout s).1.heap ≡ s.heap
    unfolding wait_reset
    wait_reset_kept zero s = refl
    wait_reset_kept (suc timeout) s =
        let read = p.ports.inw (dev.iobase + usbcmd) s in
        rw (silent.busy (dev.iobase + usbcmd) s) (
          wait_reset_kept timeout (p.sleep 10 read.1)
          ∙ silent.sleep_kept 10 read.1
          ∙ silent.inw_kept (dev.iobase + usbcmd) s)

    never_answers : (rounds : ℕ) (s : Machine W) → answers p.ports p.sleep dev rounds s ≡ false
    unfolding answers
    never_answers zero s = refl
    never_answers (suc rounds) s = rw (silent.busy (dev.iobase + usbcmd) s) (never_answers rounds _)

    uhci_reset_kept : (s : Machine W) → (uhci_reset p.ports p.sleep dev s).1.heap ≡ s.heap
    unfolding uhci_reset
    uhci_reset_kept s =
        let reg : ℕ = dev.iobase + usbcmd in
        let s_1 = p.ports.outw reg 4 s in
        let s_2 = p.sleep 20 s_1 in
        let s_3 = p.ports.outw reg 0 s_2 in
        wait_reset_kept 100 (p.ports.outw reg 2 s_3)
        ∙ silent.outw_kept reg 2 s_3
        ∙ silent.outw_kept reg 0 s_2
        ∙ silent.sleep_kept 20 s_1
        ∙ silent.outw_kept reg 4 s

  pci_write_16_kept :
      (d : PciDev) (offset v : ℕ) (s : Machine W)
      → (pci_write_16 p.ports d offset v s).heap ≡ s.heap
  unfolding pci_write_16
  pci_write_16_kept d offset v s = silent.outw_kept _ v _ ∙ silent.outl_kept _ _ s

  busmaster_kept :
      (c : Bool) (d : PciDev) (offset v : ℕ) (g : Bytes → Bytes) (s : Machine W)
      → (if c then pci_write_16 p.ports d offset v (with_bytes g s) else s).heap
        ≡ record (s.heap) { bytes = if c then g s.heap.bytes else s.heap.bytes }
  busmaster_kept true d offset v g s = pci_write_16_kept d offset v (with_bytes g s)
  busmaster_kept false d offset v g s = refl

  module _ {lo hi : ℕ} {cs : List Cell} (halts room : ℕ) (f : Found) (s : Machine W) (dev : ℕ)
      (h_1 : Heap) (heap : IsHeap lo hi s.heap cs) (held : Among f.pointer room (payloads lo cs))
      (fits : sizeof_pci_dev ≤ room)
      (call : memalloc (enough lo hi) sizeof_uhci_dev s.heap ≡ some (dev, h_1))
      (dev_set : dev ≢ 0) where
    -- The machine up to the reset.
    abbrev started : Machine W
    started =
        let s_1 = with_bytes (λ m. store32 m (dev + 12) f.pointer) (record s { heap = h_1 }) in
        let s_2 = p.console.print "UHCI found\n" s_1 in
        let s_3 = pci_write_16 p.ports f.dev hoff_uhci_legsup 0x2000 s_2 in
        if bit_and f.header.command 4 == 0
        then pci_write_16 p.ports f.dev 4 (bit_or f.header.command 4)
            (with_bytes (λ m. store16 m (f.pointer + 4 + 4) (bit_or f.header.command 4)) s_3)
        else s_3

    abbrev based : Machine W
    based =
        with_bytes
          (λ m.
            store16 m dev
              (bit_and (bar_at (type00_of p (enough lo hi) halts f).bar usbbase_bar_idx) 0xfffe))
          started

    abbrev answer : ℕ × Machine W
    answer = uhci_reset p.ports p.sleep (read_uhci_dev dev (bytes_of based)) based

    reset_controller_steps :
        reset_controller p (enough lo hi) halts f s ≡ some ((dev, answer.0), answer.1)
    unfolding reset_controller enable_busmaster
    reset_controller_steps = rw (reset_controller, ◌>>=◌, on_heap, call) refl

    started_kept :
        started.heap ≡ record h_1 { bytes = mastered f (store32 h_1.bytes (dev + 12) f.pointer) }
    started_kept =
        let s_1 : Machine W =
          with_bytes (λ m. store32 m (dev + 12) f.pointer) (record s { heap = h_1 }) in
        let s_2 : Machine W = p.console.print "UHCI found\n" s_1 in
        let s_3 : Machine W = pci_write_16 p.ports f.dev hoff_uhci_legsup 0x2000 s_2 in
        let before =
          pci_write_16_kept f.dev hoff_uhci_legsup 0x2000 s_2
          ∙ silent.print_kept "UHCI found\n" s_1 in
        busmaster_kept (bit_and f.header.command 4 == 0) f.dev 4 (bit_or f.header.command 4)
          (λ m. store16 m (f.pointer + 4 + 4) (bit_or f.header.command 4)) s_3
        ∙ ap (λ (g : Heap). record g { bytes = mastered f g.bytes }) before

    abbrev base : ℕ
    base = bit_and (bar_at (type00_of p (enough lo hi) halts f).bar usbbase_bar_idx) 0xfffe

    abbrev filled : Bytes
    filled = store16 (mastered f (store32 h_1.bytes (dev + 12) f.pointer)) dev base

    based_kept : based.heap ≡ record h_1 { bytes = filled }
    based_kept = ap (λ (g : Heap). record g { bytes = store16 g.bytes dev base }) started_kept

    refused_heap :
        (p.console.print_pci_dev f.pointer (p.console.print "UHCI reset timed out\n" answer.1)).heap
        ≡ record h_1 { bytes = filled }
    refused_heap =
        silent.print_pci_dev_kept f.pointer (p.console.print "UHCI reset timed out\n" answer.1)
        ∙ silent.print_kept "UHCI reset timed out\n" answer.1
        ∙ uhci_reset_kept (read_uhci_dev dev (bytes_of based)) based
        ∙ based_kept

    filled-Agree :
        (x y : ℕ)
        → (dev + sizeof_uhci_dev ≤ x) ⊎ (y ≤ dev)
        → Agree x y (mastered f h_1.bytes) filled
    filled-Agree x y far =
        Agree-trans
          (mastered-Agree f (Agree-store32 x y h_1.bytes (dev + 12) f.pointer (ground arith)))
          (Agree-store16 x y (mastered f (store32 h_1.bytes (dev + 12) f.pointer)) dev base
            (ground arith))

    refused-HasPayloads :
        (h' : Heap) × (memfree (enough lo hi) dev (record h_1 { bytes = filled }) ≡ some h')
        × (HasPayloads lo hi h' (payloads lo cs)
            × Untouched (payloads lo cs) (mastered f (bytes_of s)) h'.bytes)
    refused-HasPayloads =
        let ps = payloads lo cs in
        let asked = sym (memalloc_lem (enough lo hi) 20 s.heap) ∙ call in
        let a =
          memalloc_aligned-Allocated 2 20 (enough lo hi) dev h_1 heap (omega arith) (omega arith)
            (enough-lt heap) asked dev_set in
        let u_1 =
          memalloc_aligned-Untouched 2 20 (enough lo hi) dev h_1 heap (omega arith) (enough-lt heap)
            asked (omega arith) in
        let held_1 = Among-Added f.pointer room dev a.room ps (payloads lo a.cells) a.added held in
        let noted =
          Among-write-IsHeap f.pointer room (mastered f h_1.bytes) a.heap held_1
            (mastered-outside f lo f.pointer h_1.bytes (inr (omega arith)))
            (mastered-outside f (f.pointer + room) hi h_1.bytes (inl (omega arith))) in
        let (h', freed, (kept, u_2)) =
          given_back-HasPayloads 20 dev a.room ps filled noted a.added a.enough filled-Agree in
        (
          h',
          freed,
          (
            kept,
            Untouched-trans ps (mastered f (bytes_of s)) (mastered f h_1.bytes) h'.bytes
                (mastered-Untouched f ps (bytes_of s) h_1.bytes u_1) u_2,
          ),
        )

    -- In a heap of given cells with the device's structure in a payload, at registers that always
    -- read with the reset bit set and with ports, pauses and output that do not change the heap,
    -- when the allocation for the controller's structure does not return NULL, pci_dev_init_cb
    -- returns false, for a device that is no UHCI controller and for one that does not end its
    -- reset, and leaves a heap with exactly the payloads that were there before; their contents are
    -- unchanged, but for the bus master bit that is set in the command of the device's header when
    -- it is a UHCI controller without the bit.
    pub pci_dev_init_cb-HasPayloads :
        (s' : Machine W) × (pci_dev_init_cb p (enough lo hi) halts f s ≡ some (false, s'))
        × (HasPayloads lo hi s'.heap (payloads lo cs)
            × Untouched
                (payloads lo cs)
                (if is_uhci_device f.header then mastered f (bytes_of s) else bytes_of s)
                (bytes_of s'))
    unfolding pci_dev_init_cb
    pci_dev_init_cb-HasPayloads = elim (Bool-cases (is_uhci_device f.header)) [
      | inl e ↦
          let (h', freed, (kept, same)) = refused-HasPayloads in
          let timeout : answer.0 ≡ 1 =
            rw (uhci_reset-answers p.ports p.sleep (read_uhci_dev dev (bytes_of based)) based) (
              rw
                (never_answers (read_uhci_dev dev (bytes_of based)) 100
                  (resetting p.ports p.sleep (read_uhci_dev dev (bytes_of based)) based))
                refl) in
          let s_9 : Machine W =
            p.console.print_pci_dev f.pointer (p.console.print "UHCI reset timed out\n" answer.1) in
          (
            record s_9 { heap = h' },
            rw
                (
                  pci_dev_init_cb, e, ◌>>=◌, reset_controller_steps, timeout, release, refused_heap,
                  freed,
                )
                refl,
            (kept, rw e same),
          )
      | inr e ↦ (
        s,
        rw (pci_dev_init_cb, e) refl,
        (
          record { cells = cs; heap = heap; row = refl },
          rw e (Untouched-refl (payloads lo cs) (bytes_of s)),
        ),
      )
    ]
