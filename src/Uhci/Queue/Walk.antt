-- ===== src/Uhci/Queue/Walk.antt =====
-- The walk of uhci_callback_trans_end of uhci.c along the descriptors of a control transfer.
use usbloader.Common.{
  ℕ, zero, suc, ◌+◌, ◌-◌, ◌*◌, ◌%◌, ◌^◌, ◌≤◌, ◌<◌, ◌≡◌, refl, ap, ◌∙◌, true, false, not, some,
  arith, ◌==◌, if◌then◌else◌, Bool-cases, inl, inr, List, [], ◌∷◌, bit_and,
}
use usbloader.Memory.{Bytes, store8}
use usbloader.Uhci.{UsbDevice, td_lptr_ptr}
use usbloader.Uhci.Control.Chain.{control_td, control_td-link}
use usbloader.Uhci.Queue.{
  entry_first, entry_last, entry_userdata, td_link, td_status, td_status_mask, walk_td,
  uhci_callback_trans_end,
}

-- Of the `k` descriptors from `td` on, those with an error or in progress.
abbrev pub reported : (m : Bytes) (td k : ℕ) → List ℕ
reported m td zero = []
reported m td (suc k) =
    let rest = reported m (td + 32) k in
    if not (bit_and (td_status m td) td_status_mask == 0) then td ∷ rest else rest

pub walk_td-reported :
    (k fuel td : ℕ) (m : Bytes)
    → ((j : ℕ) → j < k → td_lptr_ptr (td_link m (td + 32 * j)) ≡ td + 32 * (j + 1))
    → k < fuel
    → walk_td fuel td (td + 32 * k) m ≡ some (reported m td k)
unfolding walk_td
walk_td-reported k zero td m links lt = absurd (omega arith)
walk_td-reported zero (suc fuel) td m links lt =
    let end : (td == td + 32 * 0) ≡ true = ground arith in rw end refl
walk_td-reported (suc k) (suc fuel) td m links lt =
    let more : (td == td + 32 * suc k) ≡ false = ground arith in
    let here : td + 32 * 0 ≡ td = omega arith in
    let next : td_lptr_ptr (td_link m td) ≡ td + 32 = rw here at (links 0 (omega arith)) in
    let end : td + 32 * suc k ≡ (td + 32) + 32 * k = omega arith in
    let shifted : (j : ℕ)
        → j < k
        → td_lptr_ptr (td_link m (td + 32 + 32 * j)) ≡ td + 32 + 32 * (j + 1) =
      λ j lt'.
        let from : td + 32 * (j + 1) ≡ td + 32 + 32 * j = omega arith in
        let to : td + 32 * (j + 1 + 1) ≡ td + 32 + 32 * (j + 1) = omega arith in
        rw (from, to) at (links (j + 1) (omega arith)) in
    let ih : walk_td fuel (td + 32) (td + 32 * suc k) m ≡ some (reported m (td + 32) k) =
      rw end (walk_td-reported k fuel (td + 32) m shifted (omega arith)) in
    elim (Bool-cases (bit_and (td_status m td) td_status_mask == 0)) [
      | inl f ↦ rw (more, next, ih, f) refl
      | inr f ↦ rw (more, next, ih, f) refl
    ]

-- The callback, by the links that the controller follows.
pub uhci_callback_trans_end_walk :
    (fuel te td k done : ℕ) (m : Bytes)
    → entry_first m te ≡ td
    → entry_last m te ≡ td + 32 * k
    → entry_userdata m te ≡ done
    → ((j : ℕ) → j < k → td_lptr_ptr (td_link m (td + 32 * j)) ≡ td + 32 * (j + 1))
    → k < fuel
    → uhci_callback_trans_end fuel te m ≡ some (reported m td k, store8 m done 1)
unfolding uhci_callback_trans_end
uhci_callback_trans_end_walk fuel te td k done m first last userdata links lt =
    let walk = walk_td-reported k fuel td m links lt in
    rw (uhci_callback_trans_end, first, last, walk, userdata) refl

-- For an entry of a control transfer whose descriptors below 2^32 are aligned to 16 and have the
-- links that the transfer gave them, with fuel for their number, uhci_callback_trans_end ends at
-- the last descriptor, prints the status of the descriptors before it whose status bits are not all
-- 0, in order, and sets the byte that the entry's user data points to.
pub uhci_callback_trans_end_lem :
    (fuel te td : ℕ) (m : Bytes) (dev : UsbDevice) (cnt dr stage final buf : ℕ)
    → td % 16 ≡ 0
    → td + 32 * cnt < 2 ^ 32
    → 2 ≤ cnt
    → stage < 256
    → final < 256
    → dr < 2 ^ 32
    → buf < 2 ^ 32
    → entry_first m te ≡ td
    → entry_last m te ≡ td + 32 * (cnt - 1)
    → ((j : ℕ)
        → j + 1 < cnt
        → td_link m (td + 32 * j) ≡ (control_td td dev cnt dr stage final buf j).link_ptr)
    → cnt ≤ fuel
    → uhci_callback_trans_end fuel te m
      ≡ some (reported m td (cnt - 1), store8 m (entry_userdata m te) 1)
unfolding uhci_callback_trans_end
uhci_callback_trans_end_lem fuel te td m dev cnt dr stage final buf al fits two st fi drw bw first
      last links lt =
    let links' : (j : ℕ) → j < cnt - 1 → td_lptr_ptr (td_link m (td + 32 * j)) ≡ td + 32 * (j + 1) =
      λ j lt'.
        let follow =
          control_td-link td dev cnt dr stage final buf al fits two st fi drw bw j (omega arith) in
        ap td_lptr_ptr (links j (omega arith)) ∙ follow in
    let walk = walk_td-reported (cnt - 1) fuel td m links' (omega arith) in
    rw (uhci_callback_trans_end, first, last, walk) refl
