-- ===== src/Uhci/Queue/Single.antt =====
-- uhci_isr of uhci.c at a pending queue of one entry.
use usbloader.Common.{
  ℕ, zero, suc, ◌<◌, ◌≡◌, ◌≢◌, refl, ap, ◌∙◌, inl, inr, Bool, true, false, some, arith, ◌==◌,
  Bool-cases, bit_and,
}
use usbloader.Memory.{Bytes}
use usbloader.Io.{Ports}
use usbloader.Uhci.{td_status_active}
use usbloader.Uhci.Registers.{UhciDev, uhci_read_16, uhci_write_16, usbsts}
use usbloader.Uhci.Queue.{
  Queue, entry_next, entry_last, entry_handler, td_status, completed, unlink, run_queue, uhci_isr,
}
use usbloader.Uhci.Queue.Handlers.{run_nil, run_removed, run_kept}

pub completed-eq :
    (m : Bytes) (te last : ℕ)
    → entry_last m te ≡ last
    → last ≢ 0
    → completed m te ≡ (bit_and (td_status m last) td_status_active == 0)
unfolding completed
completed-eq m te last e set =
    let more : (last == 0) ≡ false = ground arith in rw (completed, e, more) refl

module _ {ℓ} {W : Type ℓ} (call : (handler te : ℕ) → Queue → W → Queue × W) (ports : Ports W)
    (dev : UhciDev) (te : ℕ) (q : Queue) (w : W) (pending : q.pending_queue ≡ te) (set : te ≢ 0)
    (single : entry_next q.bytes te ≡ 0) where
  -- The entry is in progress.
  pub uhci_isr-kept :
      (fuel : ℕ)
      → 1 < fuel
      → completed q.bytes te ≡ false
      → (b : Bool) × (w' : W) × (uhci_isr call ports fuel dev q w ≡ some (b, (q, w')))
  unfolding uhci_isr
  uhci_isr-kept zero lt wait = absurd (omega arith)
  uhci_isr-kept (suc zero) lt wait = absurd (omega arith)
  uhci_isr-kept (suc (suc n)) lt wait =
      let (status, w_1) = uhci_read_16 ports dev usbsts w in
      let ran : run_queue call (suc (suc n)) 0 q.pending_queue q w_1 ≡ some (q, w_1) =
        ap (λ x. run_queue call (suc (suc n)) 0 x q w_1) pending
        ∙ run_kept call (suc n) 0 te q w_1 set wait
        ∙ ap (λ x. run_queue call (suc n) te x q w_1) single
        ∙ run_nil call n te q w_1 in
      elim (Bool-cases (status == 0)) [
        | inl e ↦ (false, w_1, rw (uhci_isr, e) refl)
        | inr e ↦ (true, uhci_write_16 ports dev usbsts 0x1f w_1, rw (uhci_isr, e, ran) refl)
      ]

  abbrev pub emptied : Queue
  emptied = record q { pending_queue = 0 }

  -- The entry is finished, and its handler leaves its link.
  pub uhci_isr-removed :
      (fuel : ℕ) (q_2 : Queue) (w_2 : W)
      → 1 < fuel
      → completed q.bytes te ≡ true
      → (uhci_read_16 ports dev usbsts w).0 ≢ 0
      → call (entry_handler q.bytes te) te emptied (uhci_read_16 ports dev usbsts w).1 ≡ (q_2, w_2)
      → uhci_isr call ports fuel dev q w
        ≡ some (true, (q_2, uhci_write_16 ports dev usbsts 0x1f w_2))
  unfolding uhci_isr unlink
  uhci_isr-removed zero q_2 w_2 lt fin ours called = absurd (omega arith)
  uhci_isr-removed (suc zero) q_2 w_2 lt fin ours called = absurd (omega arith)
  uhci_isr-removed (suc (suc n)) q_2 w_2 lt fin ours called =
      let (status, w_1) = uhci_read_16 ports dev usbsts w in
      let answered : (status == 0) ≡ false = ground arith in
      let ran : run_queue call (suc (suc n)) 0 q.pending_queue q w_1 ≡ some (q_2, w_2) =
        ap (λ x. run_queue call (suc (suc n)) 0 x q w_1) pending
        ∙ run_removed call (suc n) 0 te q emptied w_1 set fin refl
        ∙ ap
            (λ x.
              run_queue call (suc n) 0 x (call (entry_handler q.bytes te) te emptied w_1).0
                (call (entry_handler q.bytes te) te emptied w_1).1)
            single
        ∙ ap (λ (r : Queue × W). run_queue call (suc n) 0 0 r.0 r.1) called
        ∙ run_nil call n 0 q_2 w_2 in
      rw (uhci_isr, answered, ran) refl
