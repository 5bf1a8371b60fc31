-- ===== src/Uhci/Registers/Reset.antt =====
-- The waiting loops of uhci.c: their results, by what the controller answers.
use usbloader.Common.{
  ℕ, zero, suc, ◌≡◌, refl, Bool, false, arith, ◌==◌, Bool-cases, ◌||◌, ltb, if◌then◌else◌, inl, inr,
  bit_and,
}
use usbloader.Io.{Ports}
use usbloader.Uhci.Registers.{
  UhciDev, uhci_read_16, uhci_write_16, wait_reset, uhci_reset, usbcmd, usbcmd_hc_reset,
  usbcmd_global_reset,
}

module _ {ℓ} {W : Type ℓ} (ports : Ports W) where
  module _ (sleep : (ms : ℕ) → W → W) (dev : UhciDev) where
    -- The reset bit is clear at the next reading of the command register.
    abbrev pub is_reset : W → Bool
    is_reset w = bit_and (uhci_read_16 ports dev usbcmd w).0 usbcmd_hc_reset == 0

    -- The devices after `k` readings and the pauses behind them.
    abbrev pub waited : (k : ℕ) → W → W
    waited zero w = w
    waited (suc k) w = waited k (sleep 10 (uhci_read_16 ports dev usbcmd w).1)

    -- The devices when the controller has been told to reset.
    abbrev pub resetting : W → W
    resetting w =
        let w_1 = uhci_write_16 ports dev usbcmd usbcmd_global_reset w in
        let w_2 = uhci_write_16 ports dev usbcmd 0 (sleep 20 w_1) in
        uhci_write_16 ports dev usbcmd usbcmd_hc_reset w_2

    -- One of the first `rounds` readings finds the bit clear.
    unfoldable pub answers : (rounds : ℕ) → W → Bool
    answers zero w = false
    answers (suc rounds) w = is_reset w || answers rounds (waited 1 w)

    wait_reset-answers :
        (timeout : ℕ) (w : W) → ltb 0 (wait_reset ports sleep dev timeout w).0 ≡ answers timeout w
    unfolding wait_reset answers
    wait_reset-answers zero w = refl
    wait_reset-answers (suc timeout) w = elim (Bool-cases (is_reset w)) [
      | inl e ↦ rw e (ground arith)
      | inr e ↦ rw e (wait_reset-answers timeout (waited 1 w))
    ]

    -- For every controller, uhci_reset returns 0 when one of the first hundred readings of the
    -- command register, 10 ms apart, finds the reset bit clear, and 1 when none of them does.
    pub uhci_reset-answers :
        (w : W) → (uhci_reset ports sleep dev w).0 ≡ (if answers 100 (resetting w) then 0 else 1)
    unfolding uhci_reset
    uhci_reset-answers w = rw (wait_reset-answers 100 (resetting w)) refl
