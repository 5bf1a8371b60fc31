-- ===== src/Screen/Number/Digits.antt =====
-- The digits that the first loop of itoa of print.c writes.
use usbloader.Common.{
  ℕ, zero, suc, ◌+◌, ◌-◌, ◌*◌, ◌/◌, ◌%◌, ◌^◌, ◌≤◌, ◌<◌, ◌≡◌, ◌≢◌, refl, sym, ap, ◌∙◌, ◌⊎◌, inl, inr,
  Bool, true, false, ◌&&◌, ltb, ◌==◌, if◌then◌else◌, some, arith, Bool-cases, eq_of_==,
}
use native.Mathlib.Nat.{
  div-div-eq-div-mul, div-lt_iff_lt-mul, mod-lt, div-one, le-div_iff_mul-le, mul_comm, pow-zero,
  mul-le-mul_right,
}
use native.Mathlib.Omega.{pow_step}
use usbloader.Memory.{Bytes, store8}
use usbloader.Screen.Number.{
  ℤ, pos, negsuc, magnitude, negated, quotient, digit_index, digit_chars, char_at, convert,
}

-- The character of a digit: 0 to 9, then the letters from `a` on.
abbrev pub digit_char : ℕ → ℕ
digit_char d = if ltb d 10 then 48 + d else 87 + d

-- The table has the digits in both directions.
table_has : ℕ → Bool
table_has zero = true
table_has (suc d) =
    (char_at digit_chars (35 + d) == digit_char d)
    && (char_at digit_chars (35 - d) == digit_char d)
    && table_has d

both :
    (a b c d : ℕ) (r : Bool) → ((a == b) && (c == d) && r) ≡ true → (a ≡ b) × (c ≡ d) × (r ≡ true)
both a b c d r e = ground arith

later : (k d : ℕ) → d < suc k → (d == k) ≡ false → d < k
later k d lt other = ground arith

table_lem :
    (k d : ℕ)
    → table_has k ≡ true
    → d < k
    → (char_at digit_chars (35 + d) ≡ digit_char d) × (char_at digit_chars (35 - d) ≡ digit_char d)
unfolding table_has
table_lem zero d has lt = absurd (omega arith)
table_lem (suc k) d has lt =
    let parts =
      both (char_at digit_chars (35 + k)) (digit_char k) (char_at digit_chars (35 - k))
        (digit_char k) (table_has k) has in
    elim (Bool-cases (d == k)) [
      | inl e ↦ rw (eq_of_== d k e) (parts.0, parts.1)
      | inr other ↦ table_lem k d parts.2 (later k d lt other)
    ]

pub digit_char-lt : (d : ℕ) → d < 36 → digit_char d < 256
digit_char-lt d lt = ground arith

pub remainder_lt : (v base : ℕ) → 2 ≤ base → base ≤ 36 → v % base < 36
remainder_lt v base two le = let lt = mod-lt v {m = base} (omega arith) in omega arith

char_at-digit :
    (value : ℤ) (base : ℕ)
    → 2 ≤ base
    → base ≤ 36
    → char_at digit_chars (digit_index value base) ≡ digit_char (magnitude value % base)
unfolding table_has
char_at-digit (pos n) base two le = (table_lem 36 (n % base) refl (remainder_lt n base two le)).0
char_at-digit (negsuc n) base two le =
    (table_lem 36 ((n + 1) % base) refl (remainder_lt (n + 1) base two le)).1

negated_lem : (n : ℕ) → magnitude (negated n) ≡ n
negated_lem zero = refl
negated_lem (suc n) = omega arith

magnitude-quotient :
    (value : ℤ) (base : ℕ) → magnitude (quotient value base) ≡ magnitude value / base
magnitude-quotient (pos n) base = refl
magnitude-quotient (negsuc n) base = negated_lem ((n + 1) / base)

-- From `ptr` on `n` has the digits of `v`, the lowest first, `last` being the place of the highest,
-- and no digit in front that is 0 but for the number 0 itself. The other bytes are those of `m`.
pub record Written (v base ptr last : ℕ) (m n : Bytes) : Type 0 where
  pub digits : (i : ℕ) → i ≤ last → n (ptr + i) ≡ digit_char (v / base ^ i % base)
  pub outside : (x : ℕ) → (x < ptr) ⊎ (ptr + last < x) → n x ≡ m x
  pub bound : v < base ^ suc last
  pub tight : (last ≡ 0) ⊎ (base ^ last ≤ v)

lt_trans : {a b c : ℕ} → a < b → b ≤ c → a < c
lt_trans lt le = omega arith

below : {a b : ℕ} → a < b → b ≤ a → ⊥
below lt le = omega arith

module _ (base : ℕ) (two : 2 ≤ base) (le : base ≤ 36) where
  abbrev first_digit : ℤ → ℕ → Bytes → Bytes
  first_digit value ptr m = store8 m ptr (char_at digit_chars (digit_index value base))

  first_digit-here :
      (value : ℤ) (ptr : ℕ) (m : Bytes)
      → first_digit value ptr m ptr ≡ digit_char (magnitude value % base)
  unfolding store8
  first_digit-here value ptr m =
      let small =
        digit_char-lt (magnitude value % base) (remainder_lt (magnitude value) base two le) in
      let same : (ptr == ptr) ≡ true = ground arith in
      rw (char_at-digit value base two le, same) (omega arith)

  first_digit-other :
      (value : ℤ) (ptr : ℕ) (m : Bytes) (x : ℕ)
      → (x < ptr) ⊎ (ptr < x)
      → first_digit value ptr m x ≡ m x
  unfolding store8
  first_digit-other value ptr m x apart =
      let other : (x == ptr) ≡ false = ground arith in rw other refl

  convert_last :
      (fuel : ℕ) (value : ℤ) (ptr : ℕ) (m : Bytes)
      → magnitude (quotient value base) ≡ 0
      → convert (suc fuel) value ptr base m ≡ some (ptr + 1, first_digit value ptr m)
  unfolding convert
  convert_last fuel value ptr m e = rw e refl

  convert_more :
      (fuel : ℕ) (value : ℤ) (ptr : ℕ) (m : Bytes)
      → (magnitude (quotient value base) == 0) ≡ false
      → convert (suc fuel) value ptr base m
        ≡ convert fuel (quotient value base) (ptr + 1) base (first_digit value ptr m)
  unfolding convert
  convert_more fuel value ptr m e = rw e refl

  -- The order of a quotient.
  quotient_lt : (v c : ℕ) → v / base < c → v < base * c
  quotient_lt v c lt = rw (mul_comm base c) ((div-lt_iff_lt-mul {k = base} (omega arith)).0 lt)

  lt_quotient : (v c : ℕ) → v < base * c → v / base < c
  lt_quotient v c lt = (div-lt_iff_lt-mul {k = base} (omega arith)).1 (rw (mul_comm base c) at lt)

  le_quotient : (v c : ℕ) → c ≤ v / base → base * c ≤ v
  le_quotient v c le' = rw (mul_comm base c) ((le-div_iff_mul-le {k = base} (omega arith)).0 le')

  halved : (v c : ℕ) → v < 2 * c → v / base < c
  halved v c lt = lt_quotient v c (lt_trans lt (mul-le-mul_right c two))

  quotient_digit : (v i : ℕ) → v / base / base ^ i ≡ v / base ^ suc i
  quotient_digit v i =
      div-div-eq-div-mul v base (base ^ i) ∙ ap (λ d. v / d) (sym (pow_step base i))

  whole : (v : ℕ) → v / base ^ 0 ≡ v
  whole v = ap (λ d. v / d) (pow-zero base) ∙ div-one v

  first_digit-start :
      (value : ℤ) (ptr : ℕ) (m n : Bytes)
      → n ptr ≡ first_digit value ptr m ptr
      → n (ptr + 0) ≡ digit_char (magnitude value / base ^ 0 % base)
  first_digit-start value ptr m n same =
      let start : ptr + 0 ≡ ptr = omega arith in
      rw start (same ∙ first_digit-here value ptr m)
      ∙ ap (λ v. digit_char (v % base)) (sym (whole (magnitude value)))

  Written-digit :
      (value : ℤ) (ptr : ℕ) (n : Bytes) (j : ℕ)
      → n (ptr + 1 + j) ≡ digit_char (magnitude (quotient value base) / base ^ j % base)
      → n (ptr + suc j) ≡ digit_char (magnitude value / base ^ suc j % base)
  Written-digit value ptr n j same =
      ap n (omega arith)
      ∙ same
      ∙ ap (λ v. digit_char (v / base ^ j % base)) (magnitude-quotient value base)
      ∙ ap (λ v. digit_char (v % base)) (quotient_digit (magnitude value) j)

  full_lower :
      (v last : ℕ) → v / base ≢ 0 → (last ≡ 0) ⊎ (base ^ last ≤ v / base) → base ^ suc last ≤ v
  full_lower v last some_left (inl e) =
      let unit : base ^ last ≤ v / base = rw (e, pow-zero base) (omega arith) in
      rw (pow_step base last) (le_quotient v (base ^ last) unit)
  full_lower v last some_left (inr le') = rw (pow_step base last) (le_quotient v (base ^ last) le')

  Written-one :
      (value : ℤ) (ptr : ℕ) (m : Bytes)
      → magnitude (quotient value base) ≡ 0
      → Written (magnitude value) base ptr 0 m (first_digit value ptr m)
  Written-one value ptr m e =
      let none_left : magnitude value / base ≡ 0 = sym (magnitude-quotient value base) ∙ e in
      record {
        digits = λ i le_0.
            let none : i ≡ 0 = omega arith in
            rw none (first_digit-start value ptr m (first_digit value ptr m) refl);
        outside = λ x apart. first_digit-other value ptr m x (ground arith);
        bound =
            let unit : magnitude value / base < base ^ 0 = rw (pow-zero base) (omega arith) in
            rw (pow_step base 0) (quotient_lt (magnitude value) (base ^ 0) unit);
        tight = inl refl;
      }

  Written-more :
      (value : ℤ) (ptr last : ℕ) (m n : Bytes)
      → magnitude (quotient value base) ≢ 0
      → Written (magnitude (quotient value base)) base (ptr + 1) last (first_digit value ptr m) n
      → Written (magnitude value) base ptr (suc last) m n
  Written-more value ptr last m n some_left w =
      let eq = magnitude-quotient value base in
      record {
        digits = λ i le_i. elim (Bool-cases (i == 0)) [
          | inl e ↦
              rw (eq_of_== i 0 e)
                (first_digit-start value ptr m n (w.outside ptr (inl (omega arith))))
          | inr later_i ↦
              let next : suc (i - 1) ≡ i = ground arith in
              rw next at (Written-digit value ptr n (i - 1) (w.digits (i - 1) (ground arith)))
        ];
        outside =
            λ x apart. w.outside x (ground arith) ∙ first_digit-other value ptr m x (ground arith);
        bound =
            rw (pow_step base (suc last))
              (quotient_lt (magnitude value) (base ^ suc last) (rw eq at w.bound));
        tight = inr (full_lower (magnitude value) last (rw eq at some_left) (rw eq at w.tight));
      }

  abbrev pub Converted : (fuel : ℕ) → ℤ → (ptr : ℕ) → Bytes → Type 0
  Converted fuel value ptr m =
      (last : ℕ) × (n : Bytes) × (last < fuel)
      × (convert fuel value ptr base m ≡ some (ptr + suc last, n))
      × Written (magnitude value) base ptr last m n

  Converted-more :
      (fuel : ℕ) (value : ℤ) (ptr : ℕ) (m : Bytes)
      → (magnitude (quotient value base) == 0) ≡ false
      → Converted fuel (quotient value base) (ptr + 1) (first_digit value ptr m)
      → Converted (suc fuel) value ptr m
  Converted-more fuel value ptr m more (last, n, room, ran, w) =
      let end : ptr + 1 + suc last ≡ ptr + suc (suc last) = omega arith in
      (
        suc last,
        n,
        omega arith,
        convert_more fuel value ptr m more ∙ rw end at ran,
        Written-more value ptr last m n (ground arith) w,
      )

  Converted-one :
      (fuel : ℕ) (value : ℤ) (ptr : ℕ) (m : Bytes)
      → magnitude (quotient value base) ≡ 0
      → Converted (suc fuel) value ptr m
  Converted-one fuel value ptr m none_left = (
    0,
    first_digit value ptr m,
    omega arith,
    convert_last fuel value ptr m none_left,
    Written-one value ptr m none_left,
  )

  pub convert-Written :
      (fuel : ℕ) (value : ℤ) (ptr : ℕ) (m : Bytes)
      → magnitude value < 2 ^ fuel
      → Converted (suc fuel) value ptr m
  convert-Written zero value ptr m lt =
      let small : magnitude value / base < 1 = lt_quotient (magnitude value) 1 (omega arith) in
      Converted-one zero value ptr m (rw (magnitude-quotient value base) (omega arith))
  convert-Written (suc fuel) value ptr m lt =
      let less : magnitude (quotient value base) < 2 ^ fuel =
        rw (magnitude-quotient value base)
          (halved (magnitude value) (2 ^ fuel) (rw (pow_step 2 fuel) at lt)) in
      let ih =
        convert-Written fuel (quotient value base) (ptr + 1) (first_digit value ptr m) less in
      elim (Bool-cases (magnitude (quotient value base) == 0)) [
        | inl e ↦
            Converted-one (suc fuel) value ptr m (eq_of_== (magnitude (quotient value base)) 0 e)
        | inr more ↦ Converted-more (suc fuel) value ptr m more ih
      ]
