-- ===== src/Uhci/Control/Tokens.antt =====
-- The words of the transfer descriptors of uhci.c as sums of their fields.
use usbloader.Common.{
  ℕ, ◌+◌, ◌-◌, ◌*◌, ◌/◌, ◌%◌, ◌^◌, ◌<◌, ◌≡◌, refl, ◌∙◌, Bool, true, false, inl, inr, Bool-cases,
  arith, if◌then◌else◌, bit_and, bit_or,
}
use usbloader.Common.Bits.{bit_and-low, bit_and-high, bit_or-add, bit_or-set}
use usbloader.Uhci.{
  UsbDevice, element, td_ioc, td_err_cnt, td_status_active, td_lptr_ptr, td_lptr_depth, td_max_len,
  td_dev_addr,
}
use usbloader.Uhci.Control.{setup_td, data_td, status_td, speed_flag}

-- A token: the length less one, the toggle, the device's address and the packet's kind.
abbrev pub token_of : (len : ℕ) → (toggle : Bool) → (addr pid : ℕ) → ℕ
token_of len toggle addr pid = len * 2097152 + (if toggle then 524288 else 0) + addr * 256 + pid

pub token_of-lt :
    (len : ℕ) (toggle : Bool) (addr pid : ℕ)
    → len < 64
    → addr < 128
    → pid < 256
    → token_of len toggle addr pid < 2 ^ 32
token_of-lt len false addr pid l a p = omega arith
token_of-lt len true addr pid l a p = omega arith

or_fields :
    (len addr pid : ℕ)
    → pid < 256
    → bit_or (bit_or (td_max_len len) (td_dev_addr addr)) pid
      ≡ token_of (len % 64) false (addr % 128) pid
or_fields len addr pid small =
    let high = len % 64 in
    let low = addr % 128 in
    let len_eq : bit_and len 63 ≡ high = bit_and-low 6 len in
    let addr_eq : bit_and addr 127 ≡ low = bit_and-low 7 addr in
    let first : bit_or (high * 2097152) (low * 256) ≡ (high * 8192 + low) * 256 =
      bit_or-add 21 high (low * 256) (omega arith) ∙ omega arith in
    let second : bit_or ((high * 8192 + low) * 256) pid ≡ (high * 8192 + low) * 256 + pid =
      bit_or-add 8 (high * 8192 + low) pid small in
    rw (len_eq, addr_eq, first, second) (omega arith)

pub data_td-token :
    (td : ℕ) (dev : UsbDevice) (size pid : ℕ) (toggle : Bool) (buf i : ℕ)
    → pid < 256
    → (data_td td dev size pid toggle buf i).token
      ≡ token_of ((size - 1) % 64) toggle (dev.addr % 128) pid
unfolding data_td
data_td-token td dev size pid false buf i small = or_fields (size - 1) dev.addr pid small
data_td-token td dev size pid true buf i small =
    let high = (size - 1) % 64 in
    let low = dev.addr % 128 * 256 + pid in
    let plain = or_fields (size - 1) dev.addr pid small in
    let split : high * 2097152 + 0 + dev.addr % 128 * 256 + pid ≡ high * 2 * 1048576 + low =
      omega arith in
    let set : bit_or (high * 2 * 1048576 + low) 524288 ≡ high * 2 * 1048576 + low + 524288 =
      bit_or-set 19 (high * 2) low (omega arith) in
    rw (plain, split, set) (omega arith)

pub setup_td-token :
    (td : ℕ) (dev : UsbDevice) (dr : ℕ)
    → (setup_td td dev dr).token ≡ token_of 7 false (dev.addr % 128) 45
unfolding setup_td
setup_td-token td dev dr = or_fields 7 dev.addr 45 (omega arith)

pub status_td-token :
    (dev : UsbDevice) (pid cnt : ℕ)
    → pid < 256
    → (status_td dev pid cnt).token ≡ token_of 63 true (dev.addr % 128) pid
unfolding status_td
status_td-token dev pid cnt small =
    let low = dev.addr % 128 in
    let addr_eq : bit_and dev.addr 127 ≡ low = bit_and-low 7 dev.addr in
    let first : bit_or 132644864 (low * 256) ≡ (518144 + low) * 256 =
      bit_or-add 19 253 (low * 256) (omega arith) ∙ omega arith in
    let second : bit_or ((518144 + low) * 256) pid ≡ (518144 + low) * 256 + pid =
      bit_or-add 8 (518144 + low) pid small in
    rw (addr_eq, first, second) (omega arith)

-- A link to a descriptor that is aligned: depth first, to a descriptor, not the last.
pub link_eq : (p : ℕ) → p < 2 ^ 32 → p % 16 ≡ 0 → bit_or (td_lptr_ptr p) td_lptr_depth ≡ p + 4
link_eq p word aligned =
    let same : p / 16 * 16 ≡ p = omega arith in
    let mask : bit_and p 4294967280 ≡ p / 16 * 16 = bit_and-high 32 4 p (omega arith) word in
    rw mask (bit_or-add 4 (p / 16) 4 (omega arith) ∙ omega arith)

-- The status word of a descriptor that is not the last.
abbrev pub ctrl_of : UsbDevice → ℕ
ctrl_of dev = bit_or (bit_or (td_err_cnt 3) (speed_flag dev)) td_status_active

pub ctrl_of-lt : (dev : UsbDevice) → ctrl_of dev < 2 ^ 32
ctrl_of-lt dev = elim (Bool-cases dev.low_speed) [
  | inl low ↦ rw low (omega arith)
  | inr full ↦ rw full (omega arith)
]

-- The fields of a data stage's descriptor that do not depend on the toggle.
pub data_td-parts :
    (td : ℕ) (dev : UsbDevice) (size pid : ℕ) (toggle : Bool) (buf i : ℕ)
    → let d = data_td td dev size pid toggle buf i in
      (d.link_ptr ≡ bit_or (td_lptr_ptr (element td (i + 2))) td_lptr_depth)
      × (d.ctrl_status ≡ ctrl_of dev)
      × (d.buffer_ptr ≡ buf)
      × (d.swdata ≡ i + 1)
unfolding data_td
data_td-parts td dev size pid false buf i = (refl, refl, refl, refl)
data_td-parts td dev size pid true buf i = (refl, refl, refl, refl)

-- The status word of the last descriptor.
pub status_ctrl-lt :
    (dev : UsbDevice)
    → bit_or (bit_or (bit_or (td_err_cnt 3) (speed_flag dev)) td_ioc) td_status_active < 2 ^ 32
status_ctrl-lt dev = elim (Bool-cases dev.low_speed) [
  | inl low ↦ rw low (omega arith)
  | inr full ↦ rw full (omega arith)
]

-- Following such a link.
pub follow_link :
    (p : ℕ) → p < 2 ^ 32 → p % 16 ≡ 0 → td_lptr_ptr (bit_or (td_lptr_ptr p) td_lptr_depth) ≡ p
follow_link p word aligned =
    let mask : bit_and (p + 4) 4294967280 ≡ (p + 4) / 16 * 16 =
      bit_and-high 32 4 (p + 4) (omega arith) (omega arith) in
    rw (link_eq p word aligned) (mask ∙ omega arith)

pub setup_td-link :
    (td : ℕ) (dev : UsbDevice) (dr : ℕ)
    → (setup_td td dev dr).link_ptr ≡ bit_or (td_lptr_ptr (element td 1)) td_lptr_depth
unfolding setup_td
setup_td-link td dev dr = refl
