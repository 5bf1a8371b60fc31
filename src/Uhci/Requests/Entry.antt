-- ===== src/Uhci/Requests/Entry.antt =====
-- uhci.c: the entry of a transfer, its place in an idle queue, and the wait for its end.
use usbloader.Common.{
  ℕ, zero, suc, ◌+◌, ◌-◌, ◌*◌, ◌/◌, ◌%◌, ◌^◌, ◌≤◌, ◌<◌, ◌≡◌, ◌≢◌, refl, ◌∙◌, ◌⊎◌, true, false, ◌==◌,
  ==_of_eq, some, arith, bit_and,
}
use usbloader.Common.Bits.{bit_and-high}
use usbloader.Common.Words.{add32}
use usbloader.Memory.{
  Bytes, load32-Agree, load32, store32, load32-store32, load32-store32_ne, Agree, Agree-store32,
  Agree-trans,
}
use usbloader.Uhci.{element, td_lptr_term}
use usbloader.Uhci.Queue.{
  entry_handler, entry_first, entry_last, entry_userdata, entry_next, flp_ptr,
}
use usbloader.Uhci.Requests.{Machine, bytes_of, write_entry, uhci_wait_entry_complete}

pub flp_ptr-aligned : (td : ℕ) → td < 2 ^ 32 → td % 16 ≡ 0 → flp_ptr td ≡ td
flp_ptr-aligned td word aligned =
    let mask : bit_and td 4294967280 ≡ td / 16 * 16 = bit_and-high 32 4 td (omega arith) word in
    mask ∙ omega arith

-- Nothing is written outside the entry.
pub write_entry-Agree :
    (lo hi entry td ntd callback done : ℕ) (m : Bytes)
    → (entry + 20 ≤ lo) ⊎ (hi ≤ entry)
    → Agree lo hi m (write_entry entry td ntd callback done m)
unfolding write_entry
write_entry-Agree lo hi entry td ntd callback done m apart =
    let m_1 = store32 m (entry + 4) td in
    let m_2 = store32 m_1 entry (element td (ntd - 1)) in
    let m_3 = store32 m_2 (entry + 8) callback in
    let m_4 = store32 m_3 (entry + 12) done in
    let f_1 = Agree-store32 lo hi m (entry + 4) td (ground arith) in
    let f_2 = Agree-store32 lo hi m_1 entry (element td (ntd - 1)) (ground arith) in
    let f_3 = Agree-store32 lo hi m_2 (entry + 8) callback (ground arith) in
    let f_4 = Agree-store32 lo hi m_3 (entry + 12) done (ground arith) in
    let f_5 = Agree-store32 lo hi m_4 (entry + 16) 0 (ground arith) in
    Agree-trans f_1 (Agree-trans f_2 (Agree-trans f_3 (Agree-trans f_4 f_5)))

-- The entry leads to the descriptors and to the byte to set.
pub record IsEntry (te td last done : ℕ) (m : Bytes) : Type 0 where
  pub first : entry_first m te ≡ td
  pub last_td : entry_last m te ≡ last
  pub userdata : entry_userdata m te ≡ done
  pub next : entry_next m te ≡ 0

pub IsEntry-Agree :
    (te td last done : ℕ) (m n : Bytes)
    → Agree te (te + 20) m n
    → IsEntry te td last done m
    → IsEntry te td last done n
IsEntry-Agree te td last done m n same e = record {
  first = load32-Agree (te + 4) same (omega arith) (omega arith) ∙ e.first;
  last_td = load32-Agree te same (omega arith) (omega arith) ∙ e.last_td;
  userdata = load32-Agree (te + 12) same (omega arith) (omega arith) ∙ e.userdata;
  next = load32-Agree (te + 16) same (omega arith) (omega arith) ∙ e.next;
}

element-lt : (td i : ℕ) → element td i < 2 ^ 32
unfolding element add32
element-lt td i = omega arith

pub write_entry-IsEntry :
    (entry td ntd callback done : ℕ) (m : Bytes)
    → td < 2 ^ 32
    → done < 2 ^ 32
    → IsEntry entry td (element td (ntd - 1)) done (write_entry entry td ntd callback done m)
unfolding write_entry
write_entry-IsEntry entry td ntd callback done m word word' =
    let m_1 = store32 m (entry + 4) td in
    let last = element td (ntd - 1) in
    let m_2 = store32 m_1 entry last in
    let m_3 = store32 m_2 (entry + 8) callback in
    let m_4 = store32 m_3 (entry + 12) done in
    record {
      first =
          load32-store32_ne m_4 (entry + 16) 0 (entry + 4) (omega arith)
          ∙ load32-store32_ne m_3 (entry + 12) done (entry + 4) (omega arith)
          ∙ load32-store32_ne m_2 (entry + 8) callback (entry + 4) (omega arith)
          ∙ load32-store32_ne m_1 entry last (entry + 4) (omega arith)
          ∙ load32-store32 m (entry + 4) td word;
      last_td =
          load32-store32_ne m_4 (entry + 16) 0 entry (omega arith)
          ∙ load32-store32_ne m_3 (entry + 12) done entry (omega arith)
          ∙ load32-store32_ne m_2 (entry + 8) callback entry (omega arith)
          ∙ load32-store32 m_1 entry last (element-lt td (ntd - 1));
      userdata =
          load32-store32_ne m_4 (entry + 16) 0 (entry + 12) (omega arith)
          ∙ load32-store32 m_3 (entry + 12) done word';
      next = load32-store32 m_4 (entry + 16) 0 (omega arith);
    }

pub write_entry-handler :
    (entry td ntd callback done : ℕ) (m : Bytes)
    → callback < 2 ^ 32
    → entry_handler (write_entry entry td ntd callback done m) entry ≡ callback
unfolding write_entry
write_entry-handler entry td ntd callback done m word =
    let m_1 = store32 m (entry + 4) td in
    let m_2 = store32 m_1 entry (element td (ntd - 1)) in
    let m_3 = store32 m_2 (entry + 8) callback in
    let m_4 = store32 m_3 (entry + 12) done in
    load32-store32_ne m_4 (entry + 16) 0 (entry + 8) (omega arith)
    ∙ load32-store32_ne m_3 (entry + 12) done (entry + 8) (omega arith)
    ∙ load32-store32 m_2 (entry + 8) callback word

-- No transfer is pending, and the controller's queue `queue` is empty.
pub record Idle {ℓ} {W : Type ℓ} (queue : ℕ) (s : Machine W) : Type 0 where
  pub pending : s.pending_queue ≡ 0
  pub terminated : (bit_and (load32 (bytes_of s) (queue + 4)) td_lptr_term == 0) ≡ false

module _ {ℓ} {W : Type ℓ} (hlt : Machine W → Machine W) where
  -- The machine after `k` halts.
  abbrev pub halted : (k : ℕ) → Machine W → Machine W
  halted zero s = s
  halted (suc k) s = halted k (hlt s)

  -- The byte at which the wait looks.
  abbrev pub flag : (te : ℕ) → Machine W → ℕ
  flag te s = bytes_of s (entry_userdata (bytes_of s) te)

  pub uhci_wait_entry_complete-halted :
      (k n te : ℕ) (s : Machine W)
      → ((j : ℕ) → j < k → flag te (halted j s) ≡ 0)
      → flag te (halted k s) ≢ 0
      → k < n
      → uhci_wait_entry_complete hlt n te s ≡ some (true, halted k s)
  unfolding uhci_wait_entry_complete
  uhci_wait_entry_complete-halted k zero te s waiting set lt = absurd (omega arith)
  uhci_wait_entry_complete-halted zero (suc n) te s waiting set lt =
      let done : (flag te s == 0) ≡ false = ground arith in rw done refl
  uhci_wait_entry_complete-halted (suc k) (suc n) te s waiting set lt =
      let more : (flag te s == 0) ≡ true = ==_of_eq (flag te s) 0 (waiting 0 (omega arith)) in
      rw more (
        uhci_wait_entry_complete-halted k n te (hlt s) (λ j less. waiting (suc j) (omega arith)) set
          (omega arith))
