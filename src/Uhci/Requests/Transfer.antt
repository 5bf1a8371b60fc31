-- ===== src/Uhci/Requests/Transfer.antt =====
-- The part of uhci.c that all requests share: a transfer is queued, ends, and leaves the heap as it
-- was.
use usbloader.Common.{
  ◌*◌, ℕ, ◌+◌, ◌-◌, ◌^◌, ◌≤◌, ◌<◌, ◌≡◌, ◌≢◌, refl, ap, sym, ◌∙◌, ◌⊎◌, inl, inr, true, false, ◌==◌,
  some, List, arith, bit_and,
}
use usbloader.Memory.{
  Agree-part, Bytes, load32, load32-Agree, load32-store32, store8, store32, Agree, Agree-store8,
  Agree-store32, Agree-trans,
}
use usbloader.Heap.{Heap, memalloc, memalloc_aligned, memfree}
use usbloader.Heap.Contents.Calls.{
  memalloc_aligned-Untouched, memalloc_aligned-outside, memfree-Untouched,
}
use usbloader.Heap.Contents.Holders.{
  Untouched-at, Untouched-load32, Among-bounds, Among-write-IsHeap, Among, Among-Added, Added-clear,
  IsHeap-outside,
}
use usbloader.Heap.Layout.{Cell, IsHeap}
use usbloader.Heap.Owners.{Added-bounds, holder_write-IsHeap}
use usbloader.Heap.Payloads.{payloads}
use usbloader.Heap.Promise.{
  Allocated, HasPayloads, IsHeap-Separate, memalloc_aligned-Allocated, memalloc_lem,
  memfree-HasPayloads,
}
use usbloader.Heap.Reach.{enough, enough-lt}
use usbloader.Uhci.{element, td_lptr_term}
use usbloader.Uhci.Queue.{entry_first, entry_handler, flp_ptr}
use usbloader.Uhci.Queue.Idle.{uhci_schedule_queue-idle}
use usbloader.Uhci.Requests.{
  Machine, bytes_of, write_entry, uhci_wait_entry_complete, run_transfer, sizeof_transfer_entry,
}
use usbloader.Uhci.Control.Layout.{element-eq}
use usbloader.Uhci.Requests.Actions.{run_transfer_steps}
use usbloader.Uhci.Requests.Entry.{
  IsEntry, IsEntry-Agree, Idle, halted, flp_ptr-aligned, write_entry-Agree, write_entry-IsEntry,
  write_entry-handler, uhci_wait_entry_complete-halted,
}
use usbloader.Uhci.Requests.Ending.{Chain, Chain-Agree, Queued, Ended, Controller, Over}

store8-cleared : (m : Bytes) (a : ℕ) → store8 m a 0 a ≡ 0
unfolding store8
store8-cleared m a = ground arith

module _ {ℓ} {W : Type ℓ} (hlt : Machine W → Machine W)
    (lo hi queue done rounds halts callback td ntd te qn tn : ℕ) (s : Machine W) (cs : List Cell)
    (h_1 : Heap) (outside : (done < lo) ⊎ (hi ≤ done)) (done_word : done < 2 ^ 32)
    (heap : IsHeap lo hi s.heap cs) (idle : Idle queue s) (queue_fits : 8 ≤ qn)
    (queue_held : Among queue qn (payloads lo cs)) (callback_word : callback < 2 ^ 32)
    (chain : Chain td ntd (bytes_of s)) (td_fits : 32 * ntd ≤ tn)
    (td_held : Among td tn (payloads lo cs))
    (apart : (td + 32 * ntd ≤ queue) ⊎ (queue + 8 ≤ td)) where
  -- The local variable is cleared.
  abbrev cleared : Heap
  cleared = record (s.heap) { bytes = store8 (bytes_of s) done 0 }

  abbrev filled : Bytes
  filled = write_entry te td ntd callback done h_1.bytes

  -- The entry is queued.
  abbrev joined : Bytes
  joined = store32 filled (queue + 4) (flp_ptr (entry_first filled te))

  abbrev started : Machine W
  started = record s { heap = record h_1 { bytes = joined }; pending_queue = te }

  cleared-Agree : Agree lo hi (bytes_of s) cleared.bytes
  cleared-Agree = Agree-store8 lo hi (bytes_of s) done 0 (ground arith)

  cleared-IsHeap : IsHeap lo hi cleared cs
  cleared-IsHeap = IsHeap-outside cleared.bytes heap cleared-Agree

  td_bounds : (lo + 8 ≤ td) × (td + tn ≤ hi)
  td_bounds = Among-bounds td tn heap td_held

  queue_bounds : (lo + 8 ≤ queue) × (queue + qn ≤ hi)
  queue_bounds = Among-bounds queue qn heap queue_held

  td_word : td < 2 ^ 32
  td_word = omega (arith, td_bounds, heap.top)

  module _ (call : memalloc (enough lo hi) sizeof_transfer_entry cleared ≡ some (te, h_1))
      (te_set : te ≢ 0) where
    asked : memalloc_aligned (enough lo hi) 20 (2 ^ 2) cleared ≡ some (te, h_1)
    asked = sym (memalloc_lem (enough lo hi) 20 cleared) ∙ call

    given : Allocated lo hi 20 (2 ^ 2) te h_1 (payloads lo cs)
    given =
        memalloc_aligned-Allocated 2 20 (enough lo hi) te h_1 cleared-IsHeap (omega arith)
          (omega arith) (enough-lt cleared-IsHeap) asked te_set

    te_bounds : (lo + 8 ≤ te) × (te + given.room ≤ hi)
    te_bounds = Added-bounds te given.room (payloads lo cs) given.heap given.added

    te_clear : (q k : ℕ) → Among q k (payloads lo cs) → (te + given.room ≤ q) ⊎ (q + k ≤ te)
    te_clear q k among =
        Added-clear lo hi te given.room q k (payloads lo cs) (payloads lo given.cells)
          (IsHeap-Separate given.heap) given.added among

    queue_held' : Among queue qn (payloads lo given.cells)
    queue_held' =
        Among-Added queue qn te given.room (payloads lo cs) (payloads lo given.cells) given.added
          queue_held

    filled-Agree : (x y : ℕ) → (te + 20 ≤ x) ⊎ (y ≤ te) → Agree x y h_1.bytes filled
    filled-Agree x y far = write_entry-Agree x y te td ntd callback done h_1.bytes far

    filled-IsEntry : IsEntry te td (element td (ntd - 1)) done filled
    filled-IsEntry = write_entry-IsEntry te td ntd callback done h_1.bytes td_word done_word

    joined-Agree : (x y : ℕ) → (queue + 8 ≤ x) ⊎ (y ≤ queue + 4) → Agree x y filled joined
    joined-Agree x y far =
        Agree-store32 x y filled (queue + 4) (flp_ptr (entry_first filled te)) (ground arith)

    filled-IsHeap : IsHeap lo hi (record h_1 { bytes = filled }) given.cells
    filled-IsHeap =
        holder_write-IsHeap te given.room (payloads lo cs) filled given.heap given.added
          (filled-Agree lo te (inr (omega arith)))
          (filled-Agree (te + given.room) hi (inl (omega (arith, given.enough))))

    joined-IsHeap : IsHeap lo hi (record h_1 { bytes = joined }) given.cells
    joined-IsHeap =
        Among-write-IsHeap queue qn joined filled-IsHeap queue_held'
          (joined-Agree lo queue (inr (omega arith)))
          (joined-Agree (queue + qn) hi (inl (omega arith)))

    joined-IsEntry : IsEntry te td (td + 32 * (ntd - 1)) done joined
    joined-IsEntry = rw (← element-eq td (ntd - 1) (omega (arith, chain.fits, chain.some_td))) (
        IsEntry-Agree te td (element td (ntd - 1)) done filled joined
          (joined-Agree te (te + 20) (ground (arith, te_clear queue qn queue_held, given.enough)))
          filled-IsEntry)

    element_joined : load32 joined (queue + 4) ≡ td
    element_joined =
        let link : flp_ptr (entry_first filled te) ≡ td =
          ap flp_ptr filled-IsEntry.first ∙ flp_ptr-aligned td td_word chain.aligned in
        load32-store32 filled (queue + 4) (flp_ptr (entry_first filled te)) (rw link td_word) ∙ link

    -- What happened outside the heap, and to a payload, until the transfer was queued.
    joined_outside : joined done ≡ 0
    joined_outside =
        let x = done in
        let y = done + 1 in
        let f_1 =
          memalloc_aligned-outside 2 20 (enough lo hi) te h_1 cleared-IsHeap (omega arith)
            (enough-lt cleared-IsHeap) asked (omega arith) x y (ground (arith, outside)) in
        let f_2 = filled-Agree x y (ground (arith, outside, te_bounds, given.enough)) in
        let f_3 = joined-Agree x y (ground (arith, outside, queue_bounds, queue_fits)) in
        Agree-trans f_1 (Agree-trans f_2 f_3) done (omega arith) (omega arith)
        ∙ store8-cleared (bytes_of s) done

    -- An earlier payload.
    filled_kept : (q k : ℕ) → Among q k (payloads lo cs) → Agree q (q + k) (bytes_of s) filled
    filled_kept q k among =
        let inside = Among-bounds q k heap among in
        let kept =
          memalloc_aligned-Untouched 2 20 (enough lo hi) te h_1 cleared-IsHeap (omega arith)
            (enough-lt cleared-IsHeap) asked (omega arith) in
        Agree-trans
          (Agree-part q (q + k) cleared-Agree (omega (arith, inside)) (omega (arith, inside)))
          (Agree-trans (Untouched-at q k (payloads lo cs) cleared.bytes h_1.bytes among kept)
            (filled-Agree q (q + k) (ground (arith, te_clear q k among, given.enough))))

    -- A word of it.
    filled_word :
        (q k a : ℕ)
        → Among q k (payloads lo cs)
        → q ≤ a
        → a + 4 ≤ q + k
        → load32 filled a ≡ load32 (bytes_of s) a
    filled_word q k a among low high = load32-Agree a (filled_kept q k among) low high

    joined-Chain : Chain td ntd joined
    joined-Chain =
        Chain-Agree
          (Agree-trans
            (Agree-part td (td + 32 * ntd) (filled_kept td tn td_held) (omega arith)
              (omega (arith, td_fits, chain.some_td)))
            (joined-Agree td (td + 32 * ntd) (ground (arith, apart))))
          chain

    joined_handler : entry_handler joined te ≡ callback
    joined_handler =
        load32-Agree (te + 8)
          (joined-Agree te (te + 20) (ground (arith, te_clear queue qn queue_held, given.enough)))
          (omega arith) (omega arith)
        ∙ write_entry-handler te td ntd callback done h_1.bytes callback_word

    joined_request : load32 joined (td + 12) ≡ load32 (bytes_of s) (td + 12)
    joined_request =
        load32-Agree (td + 12)
          (joined-Agree (td + 12) (td + 16) (ground (arith, apart, chain.some_td))) (omega arith)
          (omega arith)
        ∙ filled_word td tn (td + 12) td_held (omega arith) (omega (arith, td_fits, chain.some_td))

    started-Queued : Queued lo hi queue done callback te td ntd given.cells started
    started-Queued = record {
      chain = joined-Chain;
      handler = joined_handler;
      td_room = tn;
      td_fits = td_fits;
      td_held =
          Among-Added td tn te given.room (payloads lo cs) (payloads lo given.cells) given.added
            td_held;
      te_td_apart = ground (arith, te_clear td tn td_held, given.enough, td_fits);
      pending = refl;
      entry = joined-IsEntry;
      element_link = element_joined;
      not_done = joined_outside;
      queue_room = qn;
      queue_fits = queue_fits;
      queue_held = queue_held';
      td_apart = apart;
      te_apart = ground (arith, te_clear queue qn queue_held, given.enough);
      td_inside = (omega (arith, td_bounds), omega (arith, td_bounds, td_fits));
      te_inside = (omega (arith, te_bounds), omega (arith, te_bounds, given.enough));
    }

    abbrev Ending : Type ℓ
    Ending = Ended hlt lo hi queue done rounds te td given.cells started

    waited :
        (e : Ending)
        → rounds < halts
        → uhci_wait_entry_complete hlt halts te started ≡ some (true, halted hlt e.k started)
    waited e in_time =
        uhci_wait_entry_complete-halted hlt e.k halts te started
          (λ j lt.
            ap (λ a. bytes_of (halted hlt j started) a) (e.entry_kept j (omega arith))
            ∙ e.not_yet j lt)
          (λ z. e.set (
            ap (λ a. bytes_of (halted hlt e.k started) a) (sym (e.entry_kept e.k (omega arith)))
            ∙ z))
          (omega (arith, e.bound))

    -- After the entry is freed.
    over :
        (e : Ending) (h_5 : Heap)
        → memfree (enough lo hi) te (halted hlt e.k started).heap ≡ some h_5
        → HasPayloads lo hi h_5 (payloads lo cs)
        → Over lo hi queue td (payloads lo cs) s (record (halted hlt e.k started) { heap = h_5 })
    over e h_5 freed held =
        let m : Bytes = bytes_of (halted hlt e.k started) in
        let kept =
          memfree-Untouched (enough lo hi) te given.room (payloads lo cs) e.heap (enough-lt e.heap)
            given.added freed in
        let link =
          Untouched-load32 queue qn (queue + 4) (payloads lo cs) m h_5.bytes queue_held kept
            (omega arith) (omega (arith, queue_fits)) in
        record {
          payloads_kept = held;
          idle = record {
            pending = e.idle.pending;
            terminated = ap (λ v. bit_and v td_lptr_term == 0) link ∙ e.idle.terminated;
          };
          request =
              Untouched-load32 td tn (td + 12) (payloads lo cs) m h_5.bytes td_held kept
                (omega arith) (omega (arith, td_fits, chain.some_td))
              ∙ e.request
              ∙ joined_request;
        }

    -- A transfer to its end: the entry is released, and the queue is idle again.
    pub run_transfer-Over :
        Controller hlt lo hi queue done callback rounds
        → rounds < halts
        → (s' : Machine W) × (run_transfer hlt (enough lo hi) halts callback queue done td ntd s
            ≡ some (true, s'))
          × Over lo hi queue td (payloads lo cs) s s'
    run_transfer-Over control in_time =
        let e = control.ends started given.cells te td ntd joined-IsHeap started-Queued in
        let s_4 : Machine W = halted hlt e.k started in
        let term : (bit_and (load32 filled (queue + 4)) td_lptr_term == 0) ≡ false =
          ap (λ v. bit_and v td_lptr_term == 0)
            (filled_word queue qn (queue + 4) queue_held (omega arith) (omega (arith, queue_fits)))
          ∙ idle.terminated in
        let (h_5, freed, held) =
          memfree-HasPayloads (enough lo hi) te given.room (payloads lo cs) e.heap
            (enough-lt e.heap) given.added in
        (
          record s_4 { heap = h_5 },
          run_transfer_steps hlt (enough lo hi) halts callback queue done td ntd te s s_4 h_1 h_5
              (record { pending_queue = te; bytes = joined }) call
              (uhci_schedule_queue-idle (enough lo hi) queue te
                (record { pending_queue = s.pending_queue; bytes = filled }) idle.pending term)
              (waited e in_time) freed,
          over e h_5 freed held,
        )
