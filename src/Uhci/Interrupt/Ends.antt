-- ===== src/Uhci/Interrupt/Ends.antt =====
-- A queued transfer ends: the controller is a parameter, the interrupt's handlers are those of
-- uhci.c.
use usbloader.Common.{
  ℕ, zero, suc, ◌+◌, ◌-◌, ◌*◌, ◌≤◌, ◌<◌, ◌≡◌, ◌≢◌, refl, ap, ◌∙◌, ◌⊎◌, true, false, List, arith,
  ◌==◌, bit_and, ==_of_eq,
}
use usbloader.Memory.{Bytes, load32, load32-Agree, store8, Agree, Agree-store8}
use usbloader.Console.{Console}
use usbloader.Io.{Ports}
use usbloader.Heap.Contents.Holders.{IsHeap-outside, Among-bounds}
use usbloader.Heap.Reach.{enough}
use usbloader.Heap.Layout.{Cell, IsHeap}
use usbloader.Uhci.{td_status_active, td_lptr_term, td_lptr_ptr, read_td}
use usbloader.Uhci.Control.Chain.{control_td-link}
use usbloader.Uhci.Queue.{td_status, td_link, entry_handler, entry_userdata}
use usbloader.Uhci.Queue.Single.{completed-eq, uhci_isr-kept, uhci_isr-removed}
use usbloader.Uhci.Queue.Walk.{reported, uhci_callback_trans_end_walk}
use usbloader.Uhci.Registers.{UhciDev, uhci_read_16, usbsts}
use usbloader.Uhci.Interrupt.{queue_of, with_queue, print_statuses, call_handler, interrupt, halt}
use usbloader.Uhci.Requests.{Machine, bytes_of}
use usbloader.Uhci.Requests.Entry.{IsEntry, IsEntry-Agree, Idle, halted}
use usbloader.Uhci.Requests.Ending.{Queued, Ended, Controller}

-- The part of a machine that the driver and not the controller writes while a transfer is under
-- way: the heap's cells, the entry, the byte for the result, the links of the descriptors and the
-- pointer to the request. The controller writes status words, its queue head and buffers.
pub record Served {ℓ} {W : Type ℓ} (lo hi done te td cnt : ℕ) (cells : List Cell) (s s' : Machine W)
    : Type 0 where
  pub pending : s'.pending_queue ≡ s.pending_queue
  pub heap : IsHeap lo hi s'.heap cells
  pub entry : Agree te (te + 20) (bytes_of s) (bytes_of s')
  pub byte : bytes_of s' done ≡ bytes_of s done
  pub links :
      (j : ℕ) → j < cnt → td_link (bytes_of s') (td + 32 * j) ≡ td_link (bytes_of s) (td + 32 * j)
  pub request : load32 (bytes_of s') (td + 12) ≡ load32 (bytes_of s) (td + 12)

-- A controller that completes what is queued. `Working n` says that the transfer takes `n` further
-- interrupts after the next, which may be those of other devices; `begins` is the scheduling of a
-- queue head with a control transfer, `waits` and `completes` are the status words and the status
-- register of the UHCI specification: the last descriptor is active until the transfer is complete,
-- then the queue head has no element and the interrupt is in the status register.
pub record Completes {ℓ} {W : Type ℓ} (controller : Machine W → Machine W) (ports : Ports W)
    (dev : UhciDev) (lo hi queue done callback rounds : ℕ)
    (Working : (n te td cnt : ℕ) → List Cell → Machine W → Type 0) : Type ℓ where
  pub begins :
      (s : Machine W) (cells : List Cell) (te td cnt : ℕ)
      → IsHeap lo hi s.heap cells
      → Queued lo hi queue done callback te td cnt cells s
      → (n : ℕ) × (n < rounds) × Working n te td cnt cells s
  pub serves :
      (n te td cnt : ℕ) (cells : List Cell) (s : Machine W)
      → IsHeap lo hi s.heap cells
      → Working n te td cnt cells s
      → Served lo hi done te td cnt cells s (controller s)
  pub waits :
      (n te td cnt : ℕ) (cells : List Cell) (s : Machine W)
      → Working (suc n) te td cnt cells s
      → ((bit_and (td_status (bytes_of (controller s)) (td + 32 * (cnt - 1))) td_status_active == 0)
          ≡ false)
        × ((w : W) → Working n te td cnt cells (record (controller s) { world = w }))
  pub completes :
      (te td cnt : ℕ) (cells : List Cell) (s : Machine W)
      → Working 0 te td cnt cells s
      → ((bit_and (td_status (bytes_of (controller s)) (td + 32 * (cnt - 1))) td_status_active == 0)
          ≡ true)
        × ((uhci_read_16 ports dev usbsts (controller s).world).0 ≢ 0)
        × ((bit_and (load32 (bytes_of (controller s)) (queue + 4)) td_lptr_term == 0) ≡ false)

-- What the driver relies on while the transfer is under way.
record Underway {ℓ} {W : Type ℓ} (done callback te td cnt : ℕ) (s : Machine W) : Type 0 where
  pending : s.pending_queue ≡ te
  entry : IsEntry te td (td + 32 * (cnt - 1)) done (bytes_of s)
  handler : entry_handler (bytes_of s) te ≡ callback
  not_done : bytes_of s done ≡ 0
  links :
      (j : ℕ) → j < cnt - 1 → td_lptr_ptr (td_link (bytes_of s) (td + 32 * j)) ≡ td + 32 * (j + 1)

-- After the interrupt.
record After {ℓ} {W : Type ℓ} (lo hi queue done te td : ℕ) (cells : List Cell) (s s' : Machine W)
    : Type 0 where
  userdata : entry_userdata (bytes_of s') te ≡ done
  set : bytes_of s' done ≢ 0
  request : load32 (bytes_of s') (td + 12) ≡ load32 (bytes_of s) (td + 12)
  heap : IsHeap lo hi s'.heap cells
  idle : Idle queue s'

store8-set : (m : Bytes) (a : ℕ) → store8 m a 1 a ≢ 0
unfolding store8
store8-set m a e = ground arith

Queued-Underway {ℓ} :
    {W : Type ℓ} {lo hi queue done callback te td cnt : ℕ} {cells : List Cell} {s : Machine W}
    → Queued lo hi queue done callback te td cnt cells s
    → Underway done callback te td cnt s
unfolding read_td
Queued-Underway {W} {lo} {hi} {queue} {done} {callback} {te} {td} {cnt} {cells} {s} q =
    let c = q.chain in
    record {
      pending = q.pending;
      entry = q.entry;
      handler = q.handler;
      not_done = q.not_done;
      links = λ j lt.
          ap (λ d. td_lptr_ptr d.link_ptr) (c.at_place j (omega arith))
          ∙ control_td-link td c.dev cnt c.dr c.stage c.final c.buf c.aligned c.fits c.some_td
              c.kind c.kind' c.dr_word c.buf_word j (omega arith);
    }

Served-Underway {ℓ} :
    {W : Type ℓ} {lo hi done callback te td cnt : ℕ} {cells : List Cell} {s s' : Machine W}
    → Served lo hi done te td cnt cells s s'
    → Underway done callback te td cnt s
    → Underway done callback te td cnt s'
Served-Underway {W} {lo} {hi} {done} {callback} {te} {td} {cnt} {cells} {s} {s'} v u = record {
  pending = v.pending ∙ u.pending;
  entry = IsEntry-Agree te td (td + 32 * (cnt - 1)) done (bytes_of s) (bytes_of s') v.entry u.entry;
  handler = load32-Agree (te + 8) v.entry (omega arith) (omega arith) ∙ u.handler;
  not_done = v.byte ∙ u.not_done;
  links = λ j lt. ap td_lptr_ptr (v.links j (omega arith)) ∙ u.links j lt;
}

at_or_behind :
    (k : ℕ) (P : ℕ → Type 0) → P 0 → ((j : ℕ) → j ≤ k → P (suc j)) → (j : ℕ) → j ≤ suc k → P j
at_or_behind k P a f zero le = a
at_or_behind k P a f (suc j) le = f j (omega arith)

in_front :
    (k : ℕ) (P : ℕ → Type 0) → P 0 → ((j : ℕ) → j < k → P (suc j)) → (j : ℕ) → j < suc k → P j
in_front k P a f zero le = a
in_front k P a f (suc j) le = f j (omega arith)

zero_of : (j : ℕ) → j ≤ 0 → j ≡ 0
zero_of j le = omega arith

module _ {ℓ} {W : Type ℓ} (ports : Ports W) (console : Console W) (fuel callback : ℕ)
    (dev : UhciDev) (lo hi queue done te td cnt : ℕ) (cells : List Cell)
    (outside : (done < lo) ⊎ (hi ≤ done)) (te_inside : (lo ≤ te) × (te + 20 ≤ hi))
    (td_inside : (lo ≤ td) × (td + 32 * cnt ≤ hi)) (two : 2 ≤ cnt) (enough : cnt ≤ fuel)
    (start : 0 < lo) where
  module _ (s : Machine W) (u : Underway done callback te td cnt s) where
    abbrev last : ℕ
    last = td + 32 * (cnt - 1)

    waiting :
        (bit_and (td_status (bytes_of s) last) td_status_active == 0) ≡ false
        → (w : W) × (interrupt ports console fuel callback dev s ≡ record s { world = w })
    unfolding interrupt
    waiting active =
        let wait = completed-eq (bytes_of s) te last u.entry.last_td (λ e. omega arith) ∙ active in
        let (b, w, ran) =
          uhci_isr-kept (call_handler ports console fuel callback dev) ports dev te (queue_of s)
            s.world u.pending (λ e. omega (arith, te_inside)) u.entry.next fuel (omega arith)
            wait in
        (w, rw (interrupt, ran) refl)

    called :
        (w : W)
        → call_handler ports console fuel callback dev
            (entry_handler (bytes_of s) te)
            te
            (record { pending_queue = 0; bytes = bytes_of s })
            w
          ≡ (
            record { pending_queue = 0; bytes = store8 (bytes_of s) done 1 },
            print_statuses console (reported (bytes_of s) td (cnt - 1)) (bytes_of s) w,
          )
    unfolding call_handler
    called w =
        let ours : (entry_handler (bytes_of s) te == callback) ≡ true =
          ==_of_eq (entry_handler (bytes_of s) te) callback u.handler in
        let ran =
          uhci_callback_trans_end_walk fuel te td (cnt - 1) done (bytes_of s) u.entry.first
            u.entry.last_td u.entry.userdata u.links (omega arith) in
        rw (call_handler, ours, ran) refl

    finished :
        (bit_and (td_status (bytes_of s) last) td_status_active == 0) ≡ true
        → (uhci_read_16 ports dev usbsts s.world).0 ≢ 0
        → (w : W) × (interrupt ports console fuel callback dev s
            ≡ with_queue s (record { pending_queue = 0; bytes = store8 (bytes_of s) done 1 }) w)
    unfolding interrupt
    finished inactive ours =
        let fin = completed-eq (bytes_of s) te last u.entry.last_td (λ e. omega arith) ∙ inactive in
        let w_2 =
          print_statuses console (reported (bytes_of s) td (cnt - 1)) (bytes_of s)
            (uhci_read_16 ports dev usbsts s.world).1 in
        let ran =
          uhci_isr-removed (call_handler ports console fuel callback dev) ports dev te (queue_of s)
            s.world u.pending (λ e. omega (arith, te_inside)) u.entry.next fuel
            (record { pending_queue = 0; bytes = store8 (bytes_of s) done 1 }) w_2 (omega arith) fin
            ours (called (uhci_read_16 ports dev usbsts s.world).1) in
        (ports.outw (dev.iobase + usbsts) 0x1f w_2, rw (interrupt, ran) refl)

    finished-After :
        (w : W)
        → IsHeap lo hi s.heap cells
        → (bit_and (load32 (bytes_of s) (queue + 4)) td_lptr_term == 0) ≡ false
        → (lo ≤ queue) × (queue + 8 ≤ hi)
        → After lo hi queue done te td cells s
            (with_queue s (record { pending_queue = 0; bytes = store8 (bytes_of s) done 1 }) w)
    finished-After w heap empty queue_inside =
        let m : Bytes = bytes_of s in
        let kept : Agree lo hi m (store8 m done 1) = Agree-store8 lo hi m done 1 (ground arith) in
        record {
          userdata =
              load32-Agree (te + 12) kept (omega (arith, te_inside)) (omega (arith, te_inside))
              ∙ u.entry.userdata;
          set = store8-set m done;
          request =
              load32-Agree (td + 12) kept (omega (arith, td_inside)) (omega (arith, td_inside));
          heap = IsHeap-outside (store8 m done 1) heap kept;
          idle = record {
            pending = refl;
            terminated =
                ap (λ v. bit_and v td_lptr_term == 0)
                  (load32-Agree (queue + 4) kept (omega (arith, queue_inside))
                    (omega (arith, queue_inside)))
                ∙ empty;
          };
        }

  module _ (controller : Machine W → Machine W) (rounds : ℕ)
      (Working : (n te td cnt : ℕ) → List Cell → Machine W → Type 0)
      (laws : Completes controller ports dev lo hi queue done callback rounds Working)
      (queue_inside : (lo ≤ queue) × (queue + 8 ≤ hi)) where
    abbrev hlt : Machine W → Machine W
    hlt = halt ports console fuel callback dev controller

    at_once :
        (s : Machine W)
        → IsHeap lo hi s.heap cells
        → Underway done callback te td cnt s
        → Working 0 te td cnt cells s
        → After lo hi queue done te td cells s (hlt s)
    unfolding halt
    at_once s heap u working =
        let v = laws.serves 0 te td cnt cells s heap working in
        let u_1 = Served-Underway v u in
        let (inactive, ours, empty) = laws.completes te td cnt cells s working in
        let (w, e) = finished (controller s) u_1 inactive ours in
        let a = finished-After (controller s) u_1 w v.heap empty queue_inside in
        rw e (record {
          userdata = a.userdata;
          set = a.set;
          request = a.request ∙ v.request;
          heap = a.heap;
          idle = a.idle;
        })

    later :
        (n : ℕ) (s : Machine W)
        → IsHeap lo hi s.heap cells
        → Underway done callback te td cnt s
        → Working (suc n) te td cnt cells s
        → (w : W) × (hlt s ≡ record (controller s) { world = w })
    unfolding halt
    later n s heap u working =
        let v = laws.serves (suc n) te td cnt cells s heap working in
        waiting (controller s) (Served-Underway v u) (laws.waits n te td cnt cells s working).0

    -- One halt in front.
    one_more :
        (n : ℕ) (s s' : Machine W)
        → hlt s ≡ s'
        → Underway done callback te td cnt s
        → load32 (bytes_of s') (td + 12) ≡ load32 (bytes_of s) (td + 12)
        → Ended hlt lo hi queue done n te td cells s'
        → Ended hlt lo hi queue done (suc n) te td cells s
    one_more n s s' e u request ended =
        let next : Ended hlt lo hi queue done n te td cells (hlt s) = rw e ended in
        let same : load32 (bytes_of (hlt s)) (td + 12) ≡ load32 (bytes_of s) (td + 12) =
          rw e request in
        record {
          k = suc next.k;
          bound = omega (arith, next.bound);
          entry_kept =
              at_or_behind next.k (λ j. entry_userdata (bytes_of (halted hlt j s)) te ≡ done)
                u.entry.userdata next.entry_kept;
          not_yet =
              in_front next.k (λ j. bytes_of (halted hlt j s) done ≡ 0) u.not_done next.not_yet;
          set = next.set;
          request = next.request ∙ same;
          heap = next.heap;
          idle = next.idle;
        }

    ending :
        (n : ℕ) (s : Machine W)
        → IsHeap lo hi s.heap cells
        → Underway done callback te td cnt s
        → Working n te td cnt cells s
        → Ended hlt lo hi queue done (suc n) te td cells s
    ending zero s heap u working =
        let a = at_once s heap u working in
        record {
          k = 1;
          bound = omega arith;
          entry_kept =
              at_or_behind 0 (λ j. entry_userdata (bytes_of (halted hlt j s)) te ≡ done)
                u.entry.userdata (λ j le. rw (zero_of j le) a.userdata);
          not_yet =
              in_front 0 (λ j. bytes_of (halted hlt j s) done ≡ 0) u.not_done
                (λ j lt. absurd (omega arith));
          set = a.set;
          request = a.request;
          heap = a.heap;
          idle = a.idle;
        }
    ending (suc n) s heap u working =
        let v = laws.serves (suc n) te td cnt cells s heap working in
        let (w, e) = later n s heap u working in
        let s' : Machine W = record (controller s) { world = w } in
        let again = (laws.waits n te td cnt cells s working).1 w in
        let u_1 = Served-Underway v u in
        let u' : Underway done callback te td cnt s' = record {
          pending = u_1.pending;
          entry = u_1.entry;
          handler = u_1.handler;
          not_done = u_1.not_done;
          links = u_1.links;
        } in
        one_more (suc n) s s' e u v.request (ending n s' v.heap u' again)

-- A controller that completes what is queued ends it, with the handlers of the driver.
pub halt-Controller {ℓ} :
    {W : Type ℓ} (ports : Ports W) (console : Console W) (controller : Machine W → Machine W)
    (dev : UhciDev) (lo hi queue done callback rounds : ℕ)
    (Working : (n te td cnt : ℕ) → List Cell → Machine W → Type 0)
    → (done < lo) ⊎ (hi ≤ done)
    → Completes controller ports dev lo hi queue done callback rounds Working
    → Controller
        (halt ports console (enough lo hi) callback dev controller)
        lo
        hi
        queue
        done
        callback
        rounds
halt-Controller ports console controller dev lo hi queue done callback rounds Working outside laws =
    record {
      ends = λ s cells te td cnt heap q.
          let (n, lt, working) = laws.begins s cells te td cnt heap q in
          let queue_bounds = Among-bounds queue q.queue_room heap q.queue_held in
          let e =
            ending ports console (enough lo hi) callback dev lo hi queue done te td cnt cells
              outside q.te_inside q.td_inside q.chain.some_td (omega (arith, q.td_inside))
              heap.start controller rounds Working laws
              (omega (arith, queue_bounds), omega (arith, queue_bounds, q.queue_fits)) n s heap
              (Queued-Underway q) working in
          record {
            k = e.k;
            bound = omega (arith, e.bound, lt);
            entry_kept = e.entry_kept;
            not_yet = e.not_yet;
            set = e.set;
            request = e.request;
            heap = e.heap;
            idle = e.idle;
          };
    }
