-- ===== src/Heap/Align.antt =====
-- `align_ptr`, `aligned_mem_start` and `aligned_size` at a power of two, the sum's wrap-around
-- included.
use usbloader.Common.{
  ℕ, zero, suc, ◌+◌, ◌-◌, ◌*◌, ◌/◌, ◌%◌, ◌^◌, ◌≤◌, ◌<◌, ◌≡◌, ap, ◌∙◌, ◌⊎◌, inl, inr, Bool, true,
  not, arith, ltb, leb,
}
use usbloader.Common.Bits.{bit_and-high, pow_pos}
use usbloader.Common.Words.{add32, sub32, add32-eq, sub32-eq}
use usbloader.Memory.{Bytes}
use usbloader.Heap.{align_ptr, aligned_mem_start, aligned_size, size_of}
use native.Mathlib.Decide.{dec_lt}
use native.Mathlib.Nat.{
  pow-suc, pow-le-pow_right, div-eq_of_lt, mul-le-mul_right, le-div_iff_mul-le,
}

-- The least multiple of `n` that is not below `x`.
abbrev pub round_up : ℕ → ℕ → ℕ
round_up x n = (x + (n - 1)) / n * n

pub round_up-le : (x n : ℕ) → 0 < n → (x ≤ round_up x n) × (round_up x n < x + n)
round_up-le x n h = grind arith

pub pow-split : (w k : ℕ) → k ≤ w → (d : ℕ) × (2 ^ w ≡ d * 2 ^ k)
pow-split w zero h = (2 ^ w, omega arith)
pow-split zero (suc k) h = absurd (omega arith)
pow-split (suc w) (suc k) h =
    let (d, e) = pow-split w k (omega arith) in
    (d, omega (arith, e, pow-suc 2 w, ap (λ (t : ℕ). d * t) (pow-suc 2 k)))

-- A power of two of a 32-bit number.
pub pow_lt : (k : ℕ) → k < 32 → 2 ^ k ≤ 2 ^ 31
pow_lt k h = pow-le-pow_right {n = 2} (omega arith) {j = 31} (omega arith)

module _ (k x : ℕ) (small : k < 32) (word : x < 2 ^ 32) where
  mask : 2 ^ 32 - 1 - sub32 (2 ^ k) 1 ≡ 2 ^ 32 - 2 ^ k
  mask = omega (
    arith,
    sub32-eq (2 ^ k) 1 (pow_pos k) (omega (arith, pow_lt k small)),
    pow_pos k,
    pow_lt k small,
  )

  pub align_ptr-round_up : x + (2 ^ k - 1) < 2 ^ 32 → align_ptr x (2 ^ k) ≡ round_up x (2 ^ k)
  unfolding align_ptr
  align_ptr-round_up fit =
      let one = sub32-eq (2 ^ k) 1 (pow_pos k) (omega (arith, pow_lt k small)) in
      rw (mask, one, add32-eq x (2 ^ k - 1) fit)
        (bit_and-high 32 k (x + (2 ^ k - 1)) (omega arith) fit)

  -- Where the sum wraps around, the result is NULL.
  pub align_ptr-wrap : 2 ^ 32 ≤ x + (2 ^ k - 1) → align_ptr x (2 ^ k) ≡ 0
  unfolding align_ptr add32
  align_ptr-wrap over =
      let one = sub32-eq (2 ^ k) 1 (pow_pos k) (omega (arith, pow_lt k small)) in
      let y : ℕ = (x + (2 ^ k - 1)) % 2 ^ 32 in
      let low : y < 2 ^ k = omega (arith, pow_lt k small) in
      let none_left : y / 2 ^ k ≡ 0 = div-eq_of_lt low in
      rw (mask, one, bit_and-high 32 k y (omega arith) (omega arith), none_left) (omega arith)

  pub round_up_over : 2 ^ 32 ≤ x + (2 ^ k - 1) → 2 ^ 32 ≤ round_up x (2 ^ k)
  round_up_over over =
      let (d, e) = pow-split 32 k (omega arith) in
      let q =
        (le-div_iff_mul-le {k = 2 ^ k} {x = d} {y = x + (2 ^ k - 1)} (pow_pos k)).1 (omega arith) in
      let scaled : d * 2 ^ k ≤ round_up x (2 ^ k) = mul-le-mul_right (2 ^ k) q in omega arith

-- Whether the aligned payload of `size` bytes fits into the block of `s` bytes at `b`.
abbrev pub fits : (size align b s : ℕ) → Bool
fits size align b s = leb (round_up (b + 8) align + size) (b + s)

module _ (m : Bytes) (k b s size : ℕ) (small : k < 32) (room : b + s < 2 ^ 32) (least : 8 ≤ s)
    (nonnull : 0 < b) (held : size_of m b ≡ s) (pos : 0 < size) where
  start_cases :
      ((b + 8 + (2 ^ k - 1) < 2 ^ 32) × (aligned_mem_start b (2 ^ k) ≡ round_up (b + 8) (2 ^ k)))
      ⊎ ((2 ^ 32 ≤ round_up (b + 8) (2 ^ k)) × (aligned_mem_start b (2 ^ k) ≡ 0))
  unfolding aligned_mem_start
  start_cases =
      let word : b + 8 < 2 ^ 32 = omega arith in
      let step = add32-eq b 8 word in
      elim (dec_lt (b + 8 + (2 ^ k - 1)) (2 ^ 32)) [
        | yes fit ↦ inl (
          fit,
          ap (λ (t : ℕ). align_ptr t (2 ^ k)) step ∙ align_ptr-round_up k (b + 8) small word fit,
        )
        | no over ↦ inr (
          round_up_over k (b + 8) small word (omega arith),
          ap (λ (t : ℕ). align_ptr t (2 ^ k)) step
              ∙ align_ptr-wrap k (b + 8) small word (omega arith),
        )
      ]

  -- The loop passes the block exactly when it does not fit.
  pub aligned_size-fits : ltb (aligned_size m b (2 ^ k)) size ≡ not (fits size (2 ^ k) b s)
  unfolding aligned_size sub32
  aligned_size-fits =
      let bounds = round_up-le (b + 8) (2 ^ k) (pow_pos k) in
      elim start_cases [
        | inl (fit, e) ↦ rw (held, e) (ground (arith, bounds))
        | inr (over, e) ↦ rw (held, e) (ground (arith, bounds))
      ]

  pub aligned_mem_start-fits :
      fits size (2 ^ k) b s ≡ true → aligned_mem_start b (2 ^ k) ≡ round_up (b + 8) (2 ^ k)
  aligned_mem_start-fits f = ground (arith, start_cases)
