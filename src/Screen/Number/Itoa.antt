-- ===== src/Screen/Number/Itoa.antt =====
-- The string that itoa of print.c writes.
use usbloader.Common.{
  ℕ, suc, ◌+◌, ◌-◌, ◌/◌, ◌%◌, ◌^◌, ◌≤◌, ◌<◌, ◌≡◌, refl, ◌∙◌, ◌⊎◌, inl, inr, false, ◌&&◌, ◌||◌, ltb,
  ◌==◌, if◌then◌else◌, some, arith,
}
use usbloader.Memory.{Bytes, store8}
use usbloader.Screen.Number.{ℤ, magnitude, is_negative, convert, invert, itoa}
use usbloader.Screen.Number.Digits.{
  digit_char, digit_char-lt, remainder_lt, Written, convert-Written,
}
use usbloader.Screen.Number.Reverse.{Turned, AreBytes, invert-Turned}

-- From `low` on `n` has the digits of `v`, the highest first, and a NUL, with no digit in front that
-- is 0 but for the number 0 itself. The other bytes are those of `m`.
pub record Numeral (v base low last : ℕ) (m n : Bytes) : Type 0 where
  pub digits : (i : ℕ) → i ≤ last → n (low + i) ≡ digit_char (v / base ^ (last - i) % base)
  pub end : n (low + suc last) ≡ 0
  pub outside : (x : ℕ) → (x < low) ⊎ (low + suc last < x) → n x ≡ m x
  pub bound : v < base ^ suc last
  pub tight : (last ≡ 0) ⊎ (base ^ last ≤ v)

-- The first character of the digits, and the memory with the sign.
abbrev pub low_of : (base : ℕ) → ℤ → ℕ → ℕ
low_of base value str = if is_negative value && base == 10 then str + 1 else str

abbrev pub with_sign : (base : ℕ) → ℤ → ℕ → Bytes → Bytes
with_sign base value str m = if is_negative value && base == 10 then store8 m str 45 else m

module _ (base : ℕ) (two : 2 ≤ base) (le : base ≤ 36) where
  abbrev ended : (low last : ℕ) → Bytes → Bytes
  ended low last m = store8 m (low + suc last) 0

  ended-other :
      (low last : ℕ) (m : Bytes) (x : ℕ)
      → (x < low + suc last) ⊎ (low + suc last < x)
      → ended low last m x ≡ m x
  unfolding store8
  ended-other low last m x apart =
      let other : (x == low + suc last) ≡ false = ground arith in rw other refl

  ended-here : (low last : ℕ) (m : Bytes) → ended low last m (low + suc last) ≡ 0
  unfolding store8
  ended-here low last m = ground arith

  AreBytes-ended :
      (v low last : ℕ) (m n : Bytes)
      → Written v base low last m n
      → AreBytes low last (ended low last n)
  AreBytes-ended v low last m n w x le_x =
      rw (ended-other low last n (low + x) (inl (omega arith)), w.digits x le_x)
        (digit_char-lt (v / base ^ x % base) (remainder_lt (v / base ^ x) base two le))

  Numeral-Turned :
      (v low last : ℕ) (m m_2 n : Bytes)
      → Written v base low last m m_2
      → Turned low last (ended low last m_2) n
      → Numeral v base low last m n
  Numeral-Turned v low last m m_2 n w t = record {
    digits = λ i le_i.
        t.inside i le_i
        ∙ ended-other low last m_2 (low + (last - i)) (inl (omega arith))
        ∙ w.digits (last - i) (omega arith);
    end = t.outside (low + suc last) (inr (omega arith)) ∙ ended-here low last m_2;
    outside = λ x apart.
        t.outside x (ground arith)
        ∙ ended-other low last m_2 x (ground arith)
        ∙ w.outside x (ground arith);
    bound = w.bound;
    tight = w.tight;
  }

  itoa_run :
      (fuel : ℕ) (value : ℤ) (str ptr : ℕ) (m m_2 n : Bytes)
      → convert fuel value (low_of base value str) base (with_sign base value str m)
        ≡ some (ptr, m_2)
      → invert fuel (low_of base value str) (ptr - 1) (store8 m_2 ptr 0) ≡ some n
      → itoa fuel value str base m ≡ some n
  unfolding itoa
  itoa_run fuel value str ptr m m_2 n ran ran' =
      let fine : (ltb base 2 || ltb 36 base) ≡ false = ground arith in
      rw (itoa, fine, ran, ran') refl

  -- For a base from 2 to 36 and a number whose magnitude is below 2^k, with fuel k + 1, itoa ends
  -- and leaves in memory the digits of the magnitude in the base, the highest first, behind a minus
  -- sign when the number is negative and the base is 10, and a NUL behind them; no digit in front
  -- is 0 but for the number 0, and nothing else is written.
  pub itoa-Numeral :
      (fuel : ℕ) (value : ℤ) (str : ℕ) (m : Bytes)
      → magnitude value < 2 ^ fuel
      → (last : ℕ) × (n : Bytes) × (itoa (suc fuel) value str base m ≡ some n)
        × Numeral (magnitude value) base (low_of base value str) last (with_sign base value str m) n
  itoa-Numeral fuel value str m lt =
      let low = low_of base value str in
      let m_1 = with_sign base value str m in
      let c = convert-Written base two le fuel value low m_1 lt in
      let small = AreBytes-ended (magnitude value) low c.0 m_1 c.1 c.4 in
      let t = invert-Turned (suc fuel) low c.0 (ended low c.0 c.1) small c.2 in
      let ptr : low + suc c.0 - 1 ≡ low + c.0 = omega arith in
      let ran = itoa_run (suc fuel) value str (low + suc c.0) m c.1 t.0 c.3 (rw ptr t.1) in
      (c.0, t.0, ran, Numeral-Turned (magnitude value) low c.0 m_1 c.1 t.0 c.4 t.2)
