-- ===== src/Uhci/Queue/Isr.antt =====
-- What uhci_isr of uhci.c does to the pending queue as a list of entries.
use usbloader.Common.{
  ℕ, zero, suc, ◌<◌, ◌≡◌, ◌≢◌, refl, ap, ◌∙◌, inl, inr, Bool, true, false, Option, some, arith,
  ◌==◌, Bool-cases, List, [], ◌∷◌, length,
}
use usbloader.Memory.{Bytes}
use usbloader.Io.{Ports}
use usbloader.Uhci.Registers.{UhciDev, uhci_read_16, uhci_write_16, usbsts}
use usbloader.Uhci.Queue.{Queue, entry_next, entry_handler, unlink, run_queue, uhci_isr}
use usbloader.Uhci.Queue.Linked.{Linked, Linked-SameNext, SameNext}
use usbloader.Uhci.Queue.Handlers.{
  Quiet, waiting, finished, effects, AllWatched, Apart-waiting, run_nil, run_removed, run_kept,
}
use usbloader.Uhci.Queue.Behind.{run-Behind}

module _ {ℓ} {W : Type ℓ} (call : (handler te : ℕ) → Queue → W → Queue × W) (I : Bytes → Type 0)
    (Watched : ℕ → Type 0) (done : ℕ → Bool) (effect : ℕ → W → W)
    (quiet : Quiet call I Watched done effect) where
  handled-SameNext :
      (e : ℕ) (q : Queue) (w : W)
      → I q.bytes
      → Watched e
      → (es : List ℕ) → AllWatched Watched es
      → SameNext q.bytes (call (entry_handler q.bytes e) e q w).0.bytes es
  handled-SameNext e q w i here [] all = tt
  handled-SameNext e q w i here (x ∷ xs) all =
      (quiet.links e x q w i here all.0, handled-SameNext e q w i here xs all.1)

  -- The loop before an entry that stays.
  record Front (rest : List ℕ) (w : W) (r : Option (Queue × W)) : Type ℓ where
    q' : Queue
    result : r ≡ some (q', effects effect (finished done rest) w)
    head : q'.pending_queue ≡ 0

  abbrev emptied : Queue → Queue
  emptied q = record q { pending_queue = 0 }

  unlink_front : (e : ℕ) (q : Queue) → unlink 0 e q ≡ emptied q
  unfolding unlink
  unlink_front e q = refl

  abbrev after : ℕ → Queue → W → Queue × W
  after e q w = call (entry_handler (emptied q).bytes e) e (emptied q) w

  -- A finished entry at the front, and the rest of the loop.
  run-Front_finished :
      (fuel entry e : ℕ) (es : List ℕ) (q : Queue) (w : W)
      → I q.bytes
      → Watched e
      → Linked q.bytes entry (e ∷ es)
      → done e ≡ true
      → Front es
          (after e q w).1
          (run_queue call fuel 0 (entry_next q.bytes e) (after e q w).0 (after e q w).1)
      → Front (e ∷ es) w (run_queue call (suc fuel) 0 entry q w)
  run-Front_finished fuel entry e es q w i here l fin ih =
      let ran =
        run_removed call fuel 0 e q (emptied q) w l.1 (quiet.status e q.bytes i here ∙ fin)
          (unlink_front e q) in
      let world : (after e q w).1 ≡ effect e w = quiet.world e (emptied q) w i here in
      record { q' = ih.q'; result = rw l.0 ran ∙ ih.result ∙ rw (fin, world) refl; head = ih.head }

  -- What the loop finds behind a finished entry at the front.
  behind_finished :
      (fuel e : ℕ) (es : List ℕ) (q : Queue) (w : W)
      → I q.bytes
      → AllWatched Watched (e ∷ es)
      → Linked q.bytes (entry_next q.bytes e) es
      → ((q_2 : Queue) (w_2 : W)
          → I q_2.bytes
          → q_2.pending_queue ≡ 0
          → Linked q_2.bytes (entry_next q.bytes e) es
          → Front es w_2 (run_queue call fuel 0 (entry_next q.bytes e) q_2 w_2))
      → Front es
          (after e q w).1
          (run_queue call fuel 0 (entry_next q.bytes e) (after e q w).0 (after e q w).1)
  behind_finished fuel e es q w i all l next =
      next (after e q w).0 (after e q w).1 (quiet.again e (emptied q) w i all.0)
        (quiet.pending e (emptied q) w i all.0)
        (Linked-SameNext q.bytes (after e q w).0.bytes (entry_next q.bytes e) es l
          (handled-SameNext e (emptied q) w i all.0 es all.1))

  run-Front :
      (fuel entry : ℕ) (rest : List ℕ) (q : Queue) (w : W)
      → I q.bytes
      → q.pending_queue ≡ 0
      → AllWatched Watched rest
      → Linked q.bytes entry rest
      → length rest < fuel
      → Front rest w (run_queue call fuel 0 entry q w)
  run-Front zero entry rest q w i empty all l lt = absurd (omega arith)
  run-Front (suc fuel) entry [] q w i empty all l lt = record {
    q' = q;
    result = rw l (run_nil call fuel 0 q w);
    head = empty;
  }
  run-Front (suc fuel) entry (e ∷ es) q w i empty all l lt = elim (Bool-cases (done e)) [
    | inl fin ↦ run-Front_finished fuel entry e es q w i all.0 l fin (
        behind_finished fuel e es q w i all l.4 (λ q_2 w_2 i_2 pending l_2.
          run-Front fuel (entry_next q.bytes e) es q_2 w_2 i_2 pending all.1 l_2 (omega arith)))
    | inr wait ↦
        let next = entry_next q.bytes e in
        let ih =
          run-Behind call I Watched done effect quiet fuel e next es q w i all.0 l.1 all.1 refl l.4
            l.3 (omega arith) in
        let ran = run_kept call fuel 0 e q w l.1 (quiet.status e q.bytes i all.0 ∙ wait) in
        record {
          q' = ih.q';
          result = rw l.0 ran ∙ ih.result ∙ rw wait refl;
          head = ih.head ∙ empty;
        }
  ]

  -- For a pending queue that is a list of entries, with fuel above their number, when the
  -- controller's status is not 0, the first entry is in progress, and the handlers change neither
  -- the links nor the head of the queue and keep the invariant that gives the statuses, which the
  -- driver's own link writes keep too, uhci_isr answers the interrupt: the handlers of the finished
  -- entries are called in the order of the queue, the status is cleared after them, and the pending
  -- queue is the list of the entries in progress, in the same order.
  pub uhci_isr-waiting :
      (ports : Ports W) (fuel : ℕ) (dev : UhciDev) (q : Queue) (w : W) (e : ℕ) (es : List ℕ)
      → I q.bytes
      → AllWatched Watched (e ∷ es)
      → Linked q.bytes q.pending_queue (e ∷ es)
      → done e ≡ false
      → (uhci_read_16 ports dev usbsts w).0 ≢ 0
      → length (e ∷ es) < fuel
      → (q' : Queue) × (uhci_isr call ports fuel dev q w
          ≡ some (
            true,
            (
              q',
              uhci_write_16 ports dev usbsts 0x1f
                  (effects effect (finished done (e ∷ es)) (uhci_read_16 ports dev usbsts w).1),
            ),
          ))
        × Linked q'.bytes q'.pending_queue (waiting done (e ∷ es))
  unfolding uhci_isr
  uhci_isr-waiting ports (suc fuel) dev q w e es i all l wait ours lt =
      let w_1 = (uhci_read_16 ports dev usbsts w).1 in
      let ih =
        run-Behind call I Watched done effect quiet fuel e (entry_next q.bytes e) es q w_1 i all.0
          l.1 all.1 refl l.4 l.3 (omega arith) in
      let ran = run_kept call fuel 0 e q w_1 l.1 (quiet.status e q.bytes i all.0 ∙ wait) in
      let run : run_queue call (suc fuel) 0 q.pending_queue q w_1
          ≡ some (ih.q', effects effect (finished done (e ∷ es)) w_1) =
        ap (λ p. run_queue call (suc fuel) 0 p q w_1) l.0 ∙ ran ∙ ih.result ∙ rw wait refl in
      let answered : ((uhci_read_16 ports dev usbsts w).0 == 0) ≡ false = ground arith in
      (
        ih.q',
        rw (answered, run) refl,
        rw wait (ih.head ∙ l.0, l.1, l.2, Apart-waiting done e es l.3, ih.linked),
      )
  uhci_isr-waiting ports zero dev q w e es i all l wait ours lt = absurd (omega arith)

  -- For a pending queue that is a list of entries, with fuel above their number, when the
  -- controller's status is not 0, the first entry is finished, and the handlers change neither the
  -- links nor the head of the queue and keep the invariant that gives the statuses, which the
  -- driver's own link writes keep too, uhci_isr calls the handlers of the finished entries in the
  -- order of the queue, clears the status, and leaves a pending queue that is empty, whichever
  -- entries are in progress.
  pub uhci_isr-finished :
      (ports : Ports W) (fuel : ℕ) (dev : UhciDev) (q : Queue) (w : W) (e : ℕ) (es : List ℕ)
      → I q.bytes
      → AllWatched Watched (e ∷ es)
      → Linked q.bytes q.pending_queue (e ∷ es)
      → done e ≡ true
      → (uhci_read_16 ports dev usbsts w).0 ≢ 0
      → length (e ∷ es) < fuel
      → (q' : Queue) × (uhci_isr call ports fuel dev q w
          ≡ some (
            true,
            (
              q',
              uhci_write_16 ports dev usbsts 0x1f
                  (effects effect (finished done (e ∷ es)) (uhci_read_16 ports dev usbsts w).1),
            ),
          ))
        × (q'.pending_queue ≡ 0)
  unfolding uhci_isr
  uhci_isr-finished ports (suc fuel) dev q w e es i all l fin ours lt =
      let w_1 = (uhci_read_16 ports dev usbsts w).1 in
      let ih = run-Front_finished fuel q.pending_queue e es q w_1 i all.0 l fin (
        behind_finished fuel e es q w_1 i all l.4 (λ q_2 w_2 i_2 pending l_2.
          run-Front fuel (entry_next q.bytes e) es q_2 w_2 i_2 pending all.1 l_2 (omega arith))) in
      let answered : ((uhci_read_16 ports dev usbsts w).0 == 0) ≡ false = ground arith in
      (ih.q', rw (answered, ih.result) refl, ih.head)
  uhci_isr-finished ports zero dev q w e es i all l fin ours lt = absurd (omega arith)
