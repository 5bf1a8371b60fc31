-- ===== src/Uhci/Control/Layout.antt =====
-- What is in memory after uhci_create_td_control of uhci.c: each descriptor at its place.
use usbloader.Common.{
  ℕ, zero, suc, ◌+◌, ◌-◌, ◌*◌, ◌%◌, ◌^◌, ◌≤◌, ◌<◌, ◌≡◌, refl, ◌∙◌, ◌⊎◌, inr, Bool, not, arith,
  bit_or, ◌==◌,
}
use usbloader.Common.Words.{add32}
use usbloader.Memory.{
  Bytes, load32, store32, load32-store32, load32-store32_ne, Agree, Agree-trans, Agree-refl,
  Agree-store32, load32-Agree,
}
use usbloader.Uhci.{Td, UsbDevice, element, write_td, read_td, td_lptr_ptr, td_lptr_depth}
use usbloader.Uhci.Control.Tokens.{data_td-token, link_eq, data_td-parts, ctrl_of-lt, token_of-lt}
use usbloader.Uhci.Control.{data_td, write_data}

-- Every field of a descriptor fits its word.
pub record IsWords (d : Td) : Type 0 where
  pub link_ptr : d.link_ptr < 2 ^ 32
  pub ctrl_status : d.ctrl_status < 2 ^ 32
  pub token : d.token < 2 ^ 32
  pub buffer_ptr : d.buffer_ptr < 2 ^ 32
  pub swdata : d.swdata < 2 ^ 32

load_before : (m : Bytes) (a v b : ℕ) → b + 4 ≤ a → load32 (store32 m a v) b ≡ load32 m b
load_before m a v b le = load32-store32_ne m a v b (inr le)

pub read_td-write_td : (p : ℕ) (d : Td) (m : Bytes) → IsWords d → read_td p (write_td p d m) ≡ d
unfolding read_td write_td
read_td-write_td p d m w =
    let m_1 = store32 m p d.link_ptr in
    let m_2 = store32 m_1 (p + 4) d.ctrl_status in
    let m_3 = store32 m_2 (p + 8) d.token in
    let m_4 = store32 m_3 (p + 12) d.buffer_ptr in
    let link_2 = load_before m_1 (p + 4) d.ctrl_status p (omega arith) in
    let link_3 = load_before m_2 (p + 8) d.token p (omega arith) in
    let link_4 = load_before m_3 (p + 12) d.buffer_ptr p (omega arith) in
    let link_5 = load_before m_4 (p + 16) d.swdata p (omega arith) in
    let ctrl_3 = load_before m_2 (p + 8) d.token (p + 4) (omega arith) in
    let ctrl_4 = load_before m_3 (p + 12) d.buffer_ptr (p + 4) (omega arith) in
    let ctrl_5 = load_before m_4 (p + 16) d.swdata (p + 4) (omega arith) in
    let token_4 = load_before m_3 (p + 12) d.buffer_ptr (p + 8) (omega arith) in
    let token_5 = load_before m_4 (p + 16) d.swdata (p + 8) (omega arith) in
    let buffer_5 = load_before m_4 (p + 16) d.swdata (p + 12) (omega arith) in
    let link = link_5 ∙ link_4 ∙ link_3 ∙ link_2 ∙ load32-store32 m p d.link_ptr w.link_ptr in
    let ctrl = ctrl_5 ∙ ctrl_4 ∙ ctrl_3 ∙ load32-store32 m_1 (p + 4) d.ctrl_status w.ctrl_status in
    let token = token_5 ∙ token_4 ∙ load32-store32 m_2 (p + 8) d.token w.token in
    let buffer = buffer_5 ∙ load32-store32 m_3 (p + 12) d.buffer_ptr w.buffer_ptr in
    let software = load32-store32 m_4 (p + 16) d.swdata w.swdata in
    cc (link, ctrl, token, buffer, software)

pub write_td-Agree :
    (lo hi p : ℕ) (d : Td) (m : Bytes) → (p + 20 ≤ lo) ⊎ (hi ≤ p) → Agree lo hi m (write_td p d m)
unfolding write_td
write_td-Agree lo hi p d m apart =
    let m_1 = store32 m p d.link_ptr in
    let m_2 = store32 m_1 (p + 4) d.ctrl_status in
    let m_3 = store32 m_2 (p + 8) d.token in
    let m_4 = store32 m_3 (p + 12) d.buffer_ptr in
    let f_1 = Agree-store32 lo hi m p d.link_ptr (ground arith) in
    let f_2 = Agree-store32 lo hi m_1 (p + 4) d.ctrl_status (ground arith) in
    let f_3 = Agree-store32 lo hi m_2 (p + 8) d.token (ground arith) in
    let f_4 = Agree-store32 lo hi m_3 (p + 12) d.buffer_ptr (ground arith) in
    let f_5 = Agree-store32 lo hi m_4 (p + 16) d.swdata (ground arith) in
    Agree-trans f_1 (Agree-trans f_2 (Agree-trans f_3 (Agree-trans f_4 f_5)))

pub read_td-Agree : (p : ℕ) (m n : Bytes) → Agree p (p + 20) m n → read_td p n ≡ read_td p m
unfolding read_td
read_td-Agree p m n f =
    let link = load32-Agree p f (omega arith) (omega arith) in
    let ctrl = load32-Agree (p + 4) f (omega arith) (omega arith) in
    let token = load32-Agree (p + 8) f (omega arith) (omega arith) in
    let buffer = load32-Agree (p + 12) f (omega arith) (omega arith) in
    let software = load32-Agree (p + 16) f (omega arith) (omega arith) in
    rw (link, ctrl, token, buffer, software) refl

-- The data stage's descriptors, in closed form.
abbrev pub toggle_at : ℕ → Bool
toggle_at i = i % 2 == 0

abbrev pub buf_at : (buf size i : ℕ) → ℕ
buf_at buf size i = (buf + i * size) % 2 ^ 32

toggle_at-suc : (i : ℕ) → not (toggle_at i) ≡ toggle_at (i + 1)
toggle_at-suc i = ground arith

buf_at-suc : (buf size i : ℕ) → add32 (buf_at buf size i) size ≡ buf_at buf size (i + 1)
unfolding add32
buf_at-suc buf size i =
    let next : (i + 1) * size ≡ i * size + size = grind arith in omega (arith, next)

-- `&td[i]` within an array that does not wrap.
pub element-eq : (td i : ℕ) → td + 32 * i < 2 ^ 32 → element td i ≡ td + 32 * i
unfolding element add32
element-eq td i lt = omega arith

module _ (td : ℕ) (dev : UsbDevice) (size stage buf : ℕ) where
  abbrev pub data_at : ℕ → Td
  data_at i = data_td td dev size stage (toggle_at i) (buf_at buf size i) i

  abbrev loop : (left i : ℕ) → Bytes → Bytes
  loop left i m = write_data left td dev size stage (toggle_at i) (buf_at buf size i) i m

  loop-suc :
      (left i : ℕ) (m : Bytes)
      → td + 32 * (i + 1) < 2 ^ 32
      → loop (suc left) i m ≡ loop left (i + 1) (write_td (td + 32 * (i + 1)) (data_at i) m)
  unfolding write_data
  loop-suc left i m fits =
      rw (write_data, element-eq td (i + 1) fits, toggle_at-suc i, buf_at-suc buf size i) refl

  -- The loop writes nothing in front of its descriptors and nothing behind them.
  pub loop-Agree :
      (left i lo hi : ℕ) (m : Bytes)
      → td + 32 * (i + 1 + left) ≤ 2 ^ 32
      → (td + 32 * (i + 1 + left) ≤ lo) ⊎ (hi ≤ td + 32 * (i + 1))
      → Agree lo hi m (loop left i m)
  unfolding write_data
  loop-Agree zero i lo hi m fits apart = Agree-refl lo hi m
  loop-Agree (suc left) i lo hi m fits apart =
      let p = td + 32 * (i + 1) in
      let m' = write_td p (data_at i) m in
      let here = write_td-Agree lo hi p (data_at i) m (ground arith) in
      let there = loop-Agree left (i + 1) lo hi m' (omega arith) (ground arith) in
      rw (loop-suc left i m (omega arith)) (Agree-trans here there)

  data_at-IsWords :
      (i : ℕ) → td + 32 * (i + 2) < 2 ^ 32 → td % 16 ≡ 0 → stage < 256 → IsWords (data_at i)
  data_at-IsWords i fits aligned kind =
      let token = data_td-token td dev size stage (toggle_at i) (buf_at buf size i) i kind in
      let link : bit_or (td_lptr_ptr (element td (i + 2))) td_lptr_depth ≡ td + 32 * (i + 2) + 4 =
        rw (element-eq td (i + 2) fits) (link_eq (td + 32 * (i + 2)) fits (omega arith)) in
      let parts = data_td-parts td dev size stage (toggle_at i) (buf_at buf size i) i in
      record {
        link_ptr = rw (parts.0, link) (omega arith);
        ctrl_status = rw parts.1 (ctrl_of-lt dev);
        token = rw token (
            token_of-lt ((size - 1) % 64) (toggle_at i) (dev.addr % 128) stage (omega arith)
              (omega arith) kind);
        buffer_ptr = rw parts.2 (omega arith);
        swdata = rw parts.3 (omega arith);
      }

  -- The loop leaves each descriptor of the data stage at its place.
  pub loop-read :
      (left i k : ℕ) (m : Bytes)
      → td + 32 * (i + 1 + left) < 2 ^ 32
      → td % 16 ≡ 0
      → stage < 256
      → k < left
      → read_td (td + 32 * (i + 1 + k)) (loop left i m) ≡ data_at (i + k)
  loop-read zero i k m fits aligned kind lt = absurd (omega arith)
  loop-read (suc left) i zero m fits aligned kind lt =
      let p = td + 32 * (i + 1) in
      let m' = write_td p (data_at i) m in
      let same : td + 32 * (i + 1 + 0) ≡ p = omega arith in
      let index : i + 0 ≡ i = omega arith in
      let kept =
        read_td-Agree p m' (loop left (i + 1) m')
          (loop-Agree left (i + 1) p (p + 20) m' (omega arith) (inr (omega arith))) in
      let written =
        read_td-write_td p (data_at i) m (data_at-IsWords i (omega arith) aligned kind) in
      rw (same, index, loop-suc left i m (omega arith)) (kept ∙ written)
  loop-read (suc left) i (suc k) m fits aligned kind lt =
      let p = td + 32 * (i + 1) in
      let m' = write_td p (data_at i) m in
      let same : i + 1 + 1 + k ≡ i + 1 + suc k = omega arith in
      let index : i + 1 + k ≡ i + suc k = omega arith in
      let rest = loop-read left (i + 1) k m' (omega arith) aligned kind (omega arith) in
      rw (loop-suc left i m (omega arith)) (rw (same, index) at rest)
