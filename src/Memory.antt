-- ===== src/Memory.antt =====
-- Byte-addressed memory: what a C object in memory is, as the code in mem/mem.c reads and writes it.
-- A `uint32_t` field occupies four bytes, the lowest first.
use usbloader.Common.{
  ℕ, ◌+◌, ◌*◌, ◌/◌, ◌%◌, ◌^◌, ◌≤◌, ◌<◌, ◌≡◌, refl, ◌⊎◌, ◌∙◌, arith, ◌==◌, if◌then◌else◌,
}

abbrev pub Bytes : Type 0
Bytes = ℕ → ℕ

unfoldable pub store8 : Bytes → ℕ → ℕ → Bytes
store8 m a v = λ x. if x == a then v % 256 else m x

unfoldable pub load32 : Bytes → ℕ → ℕ
load32 m a = m a + 256 * m (a + 1) + 65536 * m (a + 2) + 16777216 * m (a + 3)

unfoldable pub store32 : Bytes → ℕ → ℕ → Bytes
store32 m a v = λ x.
    if x == a
    then v % 256
    else if x == a + 1
    then v / 256 % 256
    else if x == a + 2
    then v / 65536 % 256
    else if x == a + 3
    then v / 16777216 % 256
    else m x

unfoldable pub load16 : Bytes → ℕ → ℕ
load16 m a = m a + 256 * m (a + 1)

abbrev pub store16 : Bytes → ℕ → ℕ → Bytes
store16 m a v = store8 (store8 m a v) (a + 1) (v / 256)

pub load16-store16 : (m : Bytes) (a v : ℕ) → v < 2 ^ 16 → load16 (store16 m a v) a ≡ v
unfolding load16 store8
load16-store16 m a v h = ground arith

-- A word read back is the word written, modulo 2 ^ 32.
pub load32-store32 : (m : Bytes) (a v : ℕ) → v < 2 ^ 32 → load32 (store32 m a v) a ≡ v
unfolding load32 store32
load32-store32 m a v h = ground arith

-- A write leaves every byte outside its four alone.
pub store32-ne : (m : Bytes) (a v x : ℕ) → (x < a) ⊎ (a + 4 ≤ x) → store32 m a v x ≡ m x
unfolding store32
store32-ne m a v x h = ground arith

-- `n` holds what `m` holds on the addresses from `lo` up to `hi`.
abbrev pub Agree : ℕ → ℕ → Bytes → Bytes → Type 0
Agree lo hi m n = (x : ℕ) → lo ≤ x → x < hi → n x ≡ m x

pub Agree-refl : (lo hi : ℕ) (m : Bytes) → Agree lo hi m m
Agree-refl lo hi m x p q = refl

pub Agree-trans : {lo hi : ℕ} {k m n : Bytes} → Agree lo hi k m → Agree lo hi m n → Agree lo hi k n
Agree-trans f g x p q = g x p q ∙ f x p q

pub Agree-part :
    {lo hi : ℕ} {m n : Bytes} (a b : ℕ) → Agree lo hi m n → lo ≤ a → b ≤ hi → Agree a b m n
Agree-part a b f p q x l h = f x (omega arith) (omega arith)

pub Agree-store32 :
    (lo hi : ℕ) (m : Bytes) (a v : ℕ) → (a + 4 ≤ lo) ⊎ (hi ≤ a) → Agree lo hi m (store32 m a v)
Agree-store32 lo hi m a v h x l u = store32-ne m a v x (ground arith)

pub Agree-store8 :
    (lo hi : ℕ) (m : Bytes) (a v : ℕ) → (a < lo) ⊎ (hi ≤ a) → Agree lo hi m (store8 m a v)
unfolding store8
Agree-store8 lo hi m a v h x l u = ground arith

pub Agree-store16 :
    (lo hi : ℕ) (m : Bytes) (a v : ℕ) → (a + 2 ≤ lo) ⊎ (hi ≤ a) → Agree lo hi m (store16 m a v)
Agree-store16 lo hi m a v apart =
    Agree-trans (Agree-store8 lo hi m a v (ground arith))
      (Agree-store8 lo hi (store8 m a v) (a + 1) (v / 256) (ground arith))

pub load16-Agree :
    {lo hi : ℕ} {m n : Bytes} (b : ℕ)
    → Agree lo hi m n
    → lo ≤ b
    → b + 2 ≤ hi
    → load16 n b ≡ load16 m b
unfolding load16
load16-Agree b f l u = omega (arith, f b l (omega arith), f (b + 1) (omega arith) (omega arith))

pub load32-Agree :
    {lo hi : ℕ} {m n : Bytes} (b : ℕ)
    → Agree lo hi m n
    → lo ≤ b
    → b + 4 ≤ hi
    → load32 n b ≡ load32 m b
unfolding load32
load32-Agree b f l u = omega (
  arith,
  f b l (omega arith),
  f (b + 1) (omega arith) (omega arith),
  f (b + 2) (omega arith) (omega arith),
  f (b + 3) (omega arith) (omega arith),
)

pub load32-store32_ne :
    (m : Bytes) (a v b : ℕ) → (a + 4 ≤ b) ⊎ (b + 4 ≤ a) → load32 (store32 m a v) b ≡ load32 m b
load32-store32_ne m a v b h =
    load32-Agree b (Agree-store32 b (b + 4) m a v (ground arith)) (omega arith) (omega arith)
