-- ===== src/Uhci/Queue/Behind.antt =====
-- The loop of uhci_isr of uhci.c behind an entry that stays in the queue.
use usbloader.Common.{
  ℕ, zero, suc, ◌+◌, ◌<◌, ◌≡◌, ◌≢◌, refl, ◌∙◌, inl, inr, Bool, false, Option, some, arith, ◌==◌,
  Bool-cases, List, [], ◌∷◌, length,
}
use usbloader.Memory.{Bytes, load32-store32}
use usbloader.Uhci.Queue.{Queue, entry_next, entry_handler, set_entry_next, unlink, run_queue}
use usbloader.Uhci.Queue.Linked.{
  Disjoint, Apart, Linked, Linked-SameNext, SameNext, set_entry_next-other,
}
use usbloader.Uhci.Queue.Handlers.{
  Quiet, waiting, finished, effects, AllWatched, Apart-waiting, flip, Linked-word, run_nil,
  run_removed, run_kept,
}

module _ {ℓ} {W : Type ℓ} (call : (handler te : ℕ) → Queue → W → Queue × W) (I : Bytes → Type 0)
    (Watched : ℕ → Type 0) (done : ℕ → Bool) (effect : ℕ → W → W)
    (quiet : Quiet call I Watched done effect) where
  abbrev unlinked : (prev e : ℕ) → Queue → Queue
  unlinked prev e q = record q { bytes = set_entry_next prev (entry_next q.bytes e) q.bytes }

  unlink_behind : (prev e : ℕ) (q : Queue) → prev ≢ 0 → unlink prev e q ≡ unlinked prev e q
  unfolding unlink
  unlink_behind prev e q set =
      let some_prev : (prev == 0) ≡ false = ground arith in rw some_prev refl

  -- The removal of an entry and its handler leave the links of the entries behind it.
  same_after :
      (prev e : ℕ) (q : Queue) (w : W)
      → I q.bytes
      → Watched prev
      → Watched e
      → (es : List ℕ) → AllWatched Watched es
      → Apart prev es
      → SameNext q.bytes
          (call (entry_handler (unlinked prev e q).bytes e) e (unlinked prev e q) w).0.bytes
          es
  same_after prev e q w i seen here [] all apart = tt
  same_after prev e q w i seen here (x ∷ xs) all apart =
      let i_1 = quiet.relink prev (entry_next q.bytes e) q.bytes i seen in
      (
        quiet.links e x (unlinked prev e q) w i_1 here all.0
            ∙ set_entry_next-other q.bytes prev (entry_next q.bytes e) x apart.0,
        same_after prev e q w i seen here xs all.1 apart.1,
      )

  -- The loop behind an entry `prev` that stays.
  pub record Behind (prev : ℕ) (rest : List ℕ) (q : Queue) (w : W) (r : Option (Queue × W))
      : Type ℓ where
    pub q' : Queue
    pub result : r ≡ some (q', effects effect (finished done rest) w)
    pub head : q'.pending_queue ≡ q.pending_queue
    pub linked : Linked q'.bytes (entry_next q'.bytes prev) (waiting done rest)
    pub others :
        (x : ℕ)
        → Watched x
        → Disjoint prev x
        → Apart x rest
        → entry_next q'.bytes x ≡ entry_next q.bytes x

  pub run-Behind :
      (fuel prev entry : ℕ) (rest : List ℕ) (q : Queue) (w : W)
      → I q.bytes
      → Watched prev
      → prev ≢ 0
      → AllWatched Watched rest
      → entry_next q.bytes prev ≡ entry
      → Linked q.bytes entry rest
      → Apart prev rest
      → length rest < fuel
      → Behind prev rest q w (run_queue call fuel prev entry q w)
  run-Behind zero prev entry rest q w i seen set all link l apart lt = absurd (omega arith)
  run-Behind (suc fuel) prev entry [] q w i seen set all link l apart lt = record {
    q' = q;
    result = rw l (run_nil call fuel prev q w);
    head = refl;
    linked = link ∙ l;
    others = λ x wx d a. refl;
  }
  run-Behind (suc fuel) prev entry (e ∷ es) q w i seen set all link l apart lt =
      elim (Bool-cases (done e)) [
        | inl fin ↦
            let v : ℕ = entry_next q.bytes e in
            let q_1 : Queue = unlinked prev e q in
            let i_1 = quiet.relink prev v q.bytes i seen in
            let q_2 : Queue = (call (entry_handler q_1.bytes e) e q_1 w).0 in
            let w_2 : W = (call (entry_handler q_1.bytes e) e q_1 w).1 in
            let next : entry_next q_1.bytes e ≡ v = set_entry_next-other q.bytes prev v e apart.0 in
            let stored : entry_next q_1.bytes prev ≡ v =
              load32-store32 q.bytes (prev + 16) v (Linked-word q.bytes v es l.4) in
            let tail =
              Linked-SameNext q.bytes q_2.bytes v es l.4
                (same_after prev e q w i seen all.0 es all.1 apart.1) in
            let ih =
              run-Behind fuel prev v es q_2 w_2 (quiet.again e q_1 w i_1 all.0) seen set all.1
                (quiet.links e prev q_1 w i_1 all.0 seen ∙ stored) tail apart.1 (omega arith) in
            let ran : run_queue call (suc fuel) prev entry q w
                ≡ run_queue call fuel prev v q_2 w_2 =
              rw l.0 (
                rw next at (
                  run_removed call fuel prev e q q_1 w l.1 (quiet.status e q.bytes i all.0 ∙ fin)
                    (unlink_behind prev e q set))) in
            let world : w_2 ≡ effect e w = quiet.world e q_1 w i_1 all.0 in
            record {
              q' = ih.q';
              result = ran ∙ ih.result ∙ rw (fin, world) refl;
              head = ih.head ∙ quiet.pending e q_1 w i_1 all.0;
              linked = rw fin ih.linked;
              others = λ x wx d a.
                  ih.others x wx d a.1
                  ∙ quiet.links e x q_1 w i_1 all.0 wx
                  ∙ set_entry_next-other q.bytes prev v x d;
            }
        | inr wait ↦
            let ih =
              run-Behind fuel e (entry_next q.bytes e) es q w i all.0 l.1 all.1 refl l.4 l.3
                (omega arith) in
            let ran = run_kept call fuel prev e q w l.1 (quiet.status e q.bytes i all.0 ∙ wait) in
            record {
              q' = ih.q';
              result = rw l.0 ran ∙ ih.result ∙ rw wait refl;
              head = ih.head;
              linked = rw wait (
                ih.others prev seen (flip prev e apart.0) apart.1 ∙ link ∙ l.0,
                l.1,
                l.2,
                Apart-waiting done e es l.3,
                ih.linked,
              );
              others = λ x wx d a. ih.others x wx (flip x e a.0) a.1;
            }
      ]
