-- ===== src/Common/Bits.antt =====
-- `x & mask` at a variable `x`, for the masks that keep or clear the low bits of a word.
use Prim.Native.Nat.{
  ℕ, zero, suc, ◌+◌, ◌-◌, ◌*◌, ◌/◌, ◌%◌, ◌^◌, ◌≤◌, ◌<◌, min, max, bit_and, bit_or, digits,
  bit_and-bitwise, bit_or-bitwise,
}
use mathlib.Core.Path.{◌≡◌, refl, sym, ap, ◌∙◌}
use native.Mathlib.Nat.{
  mod-eq_of_lt, add-mul-mod_self_right, div-add-mod, mod-lt, pow-suc, pow-succ', div-div-eq-div-mul,
}
use native.Mathlib.Omega.{arith}

pub pow_pos : (k : ℕ) → 0 < 2 ^ k
pow_pos zero = omega arith
pow_pos (suc k) = omega (arith, pow_pos k, pow-suc 2 k)

-- `x & mask` over the first `rounds` binary digits.
abbrev masked : (rounds x mask : ℕ) → ℕ
masked rounds x mask = digits (λ rest. zero) min rounds x mask

-- A mask whose half is `m` and whose lowest digit is `d`.
masked_halve :
    (rounds x mask m d : ℕ)
    → mask ≡ m * 2 + d
    → d < 2
    → masked (suc rounds) (suc x) mask ≡ masked rounds (suc x / 2) m * 2 + min (suc x % 2) d
masked_halve rounds x mask m d split digit =
    let half : mask / 2 ≡ m = omega arith in
    let low : mask % 2 ≡ d = omega arith in
    ap (λ (t : ℕ). masked rounds (suc x / 2) t * 2 + min (suc x % 2) (mask % 2)) half
    ∙ ap (λ (t : ℕ). masked rounds (suc x / 2) m * 2 + min (suc x % 2) t) low

masked_ones : (rounds w x : ℕ) → x ≤ rounds → x < 2 ^ w → masked rounds x (2 ^ w - 1) ≡ x
masked_ones zero w zero all word = refl
masked_ones (suc rounds) w zero all word = refl
masked_ones zero w (suc x) all word = absurd (omega arith)
masked_ones (suc rounds) zero (suc x) all word = absurd (omega arith)
masked_ones (suc rounds) (suc w) (suc x) all word =
    let twice = pow-suc 2 w in
    let one = pow_pos w in
    masked_halve rounds x (2 ^ suc w - 1) (2 ^ w - 1) 1 (omega arith) (omega arith)
    ∙ omega (arith, masked_ones rounds w (suc x / 2) (omega arith) (omega arith))

masked_high :
    (rounds w k x : ℕ)
    → x ≤ rounds
    → k ≤ w
    → x < 2 ^ w
    → masked rounds x (2 ^ w - 2 ^ k) ≡ x / 2 ^ k * 2 ^ k
masked_high rounds w zero x all le word = masked_ones rounds w x all word ∙ omega arith
masked_high rounds zero (suc k) x all le word = absurd (omega arith)
masked_high zero (suc w) (suc k) zero all le word = omega (arith, pow_pos (suc k))
masked_high (suc rounds) (suc w) (suc k) zero all le word = omega (arith, pow_pos (suc k))
masked_high zero (suc w) (suc k) (suc x) all le word = absurd (omega arith)
masked_high (suc rounds) (suc w) (suc k) (suc x) all le word =
    let twice_w = pow-suc 2 w in
    let twice_k = pow-suc 2 k in
    let rest = masked_high rounds w k (suc x / 2) (omega arith) (omega arith) (omega arith) in
    let halved =
      masked_halve rounds x (2 ^ suc w - 2 ^ suc k) (2 ^ w - 2 ^ k) 0 (omega arith) (omega arith) in
    let quotient : suc x / 2 ^ suc k ≡ suc x / 2 / 2 ^ k =
      sym (rw (pow-succ' 2 k) (div-div-eq-div-mul (suc x) 2 (2 ^ k))) in
    omega (
      arith,
      halved,
      rest,
      ap (λ (t : ℕ). t * 2 ^ suc k) quotient,
      ap (λ (t : ℕ). suc x / 2 / 2 ^ k * t) twice_k,
    )

-- The remainder by `2^(w + 1)`, digit by digit.
mod-halve : (w x : ℕ) → x / 2 % 2 ^ w * 2 + x % 2 ≡ x % 2 ^ suc w
mod-halve w x =
    let twice = pow-suc 2 w in
    let parts = div-add-mod (x / 2) (2 ^ w) in
    let bound = mod-lt (x / 2) (pow_pos w) in
    let whole : x ≡ x / 2 % 2 ^ w * 2 + x % 2 + x / 2 / 2 ^ w * 2 ^ suc w =
      omega (arith, parts, ap (λ (t : ℕ). x / 2 / 2 ^ w * t) twice) in
    sym (
      ap (λ (t : ℕ). t % 2 ^ suc w) whole
      ∙ add-mul-mod_self_right (x / 2 % 2 ^ w * 2 + x % 2) (x / 2 / 2 ^ w) (2 ^ suc w)
      ∙ mod-eq_of_lt (omega arith))

-- A mask of `w` ones, at a number of any width.
masked_low : (rounds w x : ℕ) → x ≤ rounds → masked rounds x (2 ^ w - 1) ≡ x % 2 ^ w
masked_low zero w zero all = sym (mod-eq_of_lt (pow_pos w))
masked_low (suc rounds) w zero all = sym (mod-eq_of_lt (pow_pos w))
masked_low zero w (suc x) all = absurd (omega arith)
masked_low (suc rounds) zero (suc x) all =
    masked_halve rounds x 0 0 0 (omega arith) (omega arith)
    ∙ omega (arith, masked_low rounds zero (suc x / 2) (omega arith))
masked_low (suc rounds) (suc w) (suc x) all =
    let twice = pow-suc 2 w in
    let one = pow_pos w in
    masked_halve rounds x (2 ^ suc w - 1) (2 ^ w - 1) 1 (omega arith) (omega arith)
    ∙ omega (arith, masked_low rounds w (suc x / 2) (omega arith), mod-halve w (suc x))

-- `x & ~(2^k - 1)` rounds a `w`-bit number down to a multiple of `2^k`.
pub bit_and-high : (w k x : ℕ) → k ≤ w → x < 2 ^ w → bit_and x (2 ^ w - 2 ^ k) ≡ x / 2 ^ k * 2 ^ k
bit_and-high w k x le word =
    bit_and-bitwise x (2 ^ w - 2 ^ k) ∙ masked_high x w k x (omega arith) le word

-- `x & (2^w - 1)` is `x` for a `w`-bit number.
pub bit_and-ones : (w x : ℕ) → x < 2 ^ w → bit_and x (2 ^ w - 1) ≡ x
bit_and-ones w x word = bit_and-bitwise x (2 ^ w - 1) ∙ masked_ones x w x (omega arith) word

-- `x & (2^w - 1)` is the remainder.
pub bit_and-low : (w x : ℕ) → bit_and x (2 ^ w - 1) ≡ x % 2 ^ w
bit_and-low w x = bit_and-bitwise x (2 ^ w - 1) ∙ masked_low x w x (omega arith)

-- `x | y` over the first `rounds` binary digits, at a multiple `x` of `2^k` above `y`.
joined :
    (rounds k a x y : ℕ)
    → x ≤ rounds
    → x ≡ a * 2 ^ k
    → y < 2 ^ k
    → digits (λ b. b) max rounds x y ≡ x + y
joined zero k a zero y all e lt = omega arith
joined (suc rounds) k a zero y all e lt = omega arith
joined zero k a (suc x) y all e lt = absurd (omega arith)
joined (suc rounds) zero a (suc x) y all e lt = omega (
  arith,
  joined rounds zero (suc x / 2) (suc x / 2) (y / 2) (omega arith) (omega arith) (omega arith),
)
joined (suc rounds) (suc k) a (suc x) y all e lt =
    let twice : 2 ^ suc k ≡ 2 ^ k * 2 = pow-suc 2 k in
    let scaled : a * 2 ^ suc k ≡ a * 2 ^ k * 2 = ap (λ (t : ℕ). a * t) twice ∙ omega arith in
    omega (arith, joined rounds k a (suc x / 2) (y / 2) (omega arith) (omega arith) (omega arith))

-- `x | y` is `x + y` where `x` is a multiple of `2^k` and `y` is below it.
pub bit_or-add : (k a y : ℕ) → y < 2 ^ k → bit_or (a * 2 ^ k) y ≡ a * 2 ^ k + y
bit_or-add k a y lt =
    bit_or-bitwise (a * 2 ^ k) y ∙ joined (a * 2 ^ k) k a (a * 2 ^ k) y (omega arith) refl lt

-- `x | y` over the first `rounds` binary digits, at a multiple `y` of `2^k` above `x`.
joined_low :
    (rounds k a x y : ℕ)
    → x ≤ rounds
    → y ≡ a * 2 ^ k
    → x < 2 ^ k
    → digits (λ b. b) max rounds x y ≡ x + y
joined_low zero k a zero y all e lt = omega arith
joined_low (suc rounds) k a zero y all e lt = omega arith
joined_low zero k a (suc x) y all e lt = absurd (omega arith)
joined_low (suc rounds) zero a (suc x) y all e lt = absurd (omega arith)
joined_low (suc rounds) (suc k) a (suc x) y all e lt =
    let twice : 2 ^ suc k ≡ 2 ^ k * 2 = pow-suc 2 k in
    let scaled : a * 2 ^ suc k ≡ a * 2 ^ k * 2 = ap (λ (t : ℕ). a * t) twice ∙ omega arith in
    omega
      (arith, joined_low rounds k a (suc x / 2) (y / 2) (omega arith) (omega arith) (omega arith))

-- `x | y` is `x + y` where `y` is a multiple of `2^k` and `x` is below it.
pub bit_or-add_low : (k a x : ℕ) → x < 2 ^ k → bit_or x (a * 2 ^ k) ≡ x + a * 2 ^ k
bit_or-add_low k a x lt =
    bit_or-bitwise x (a * 2 ^ k) ∙ joined_low x k a x (a * 2 ^ k) (omega arith) refl lt

pub bit_or-zero : (x : ℕ) → bit_or 0 x ≡ x
bit_or-zero x = bit_or-bitwise 0 x

-- `x | 2^k` over the first `rounds` binary digits, where `x` has no bit `k`.
added_bit :
    (rounds k a r x y : ℕ)
    → x ≤ rounds
    → x ≡ a * 2 ^ suc k + r
    → r < 2 ^ k
    → y ≡ 2 ^ k
    → digits (λ b. b) max rounds x y ≡ x + y
added_bit zero k a r zero y all e lt one = omega arith
added_bit (suc rounds) k a r zero y all e lt one = omega arith
added_bit zero k a r (suc x) y all e lt one = absurd (omega arith)
added_bit (suc rounds) zero a r (suc x) y all e lt one = omega (
  arith,
  joined rounds zero (suc x / 2) (suc x / 2) (y / 2) (omega arith) (omega arith) (omega arith),
)
added_bit (suc rounds) (suc k) a r (suc x) y all e lt one =
    let twice : 2 ^ suc k ≡ 2 ^ k * 2 = pow-suc 2 k in
    let scaled : a * 2 ^ suc (suc k) ≡ a * 2 ^ suc k * 2 =
      ap (λ (t : ℕ). a * t) (pow-suc 2 (suc k)) ∙ omega arith in
    omega (
      arith,
      added_bit rounds k a (r / 2) (suc x / 2) (y / 2) (omega arith) (omega arith) (omega arith)
          (omega arith),
    )

-- `x | 2^k` sets a bit that is not set.
pub bit_or-set :
    (k a r : ℕ) → r < 2 ^ k → bit_or (a * 2 ^ suc k + r) (2 ^ k) ≡ a * 2 ^ suc k + r + 2 ^ k
bit_or-set k a r lt =
    let x = a * 2 ^ suc k + r in
    bit_or-bitwise x (2 ^ k) ∙ added_bit x k a r x (2 ^ k) (omega arith) refl lt refl
