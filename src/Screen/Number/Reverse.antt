-- ===== src/Screen/Number/Reverse.antt =====
-- The loop of itoa of print.c that turns the digits round.
use usbloader.Common.{
  ℕ, zero, suc, ◌+◌, ◌-◌, ◌≤◌, ◌<◌, ◌≡◌, refl, ap, subst, ◌∙◌, ◌⊎◌, inl, inr, true, false, ltb,
  ◌==◌, some, arith, Bool-cases, eq_of_==,
}
use usbloader.Memory.{Bytes, store8}
use usbloader.Screen.Number.{invert}

-- `n` has the bytes of `m` from `low` to `low + k` in the other order, and the others as they are.
pub record Turned (low k : ℕ) (m n : Bytes) : Type 0 where
  pub inside : (x : ℕ) → x ≤ k → n (low + x) ≡ m (low + (k - x))
  pub outside : (x : ℕ) → (x < low) ⊎ (low + k < x) → n x ≡ m x

abbrev pub AreBytes : (low k : ℕ) → Bytes → Type 0
AreBytes low k m = (x : ℕ) → x ≤ k → m (low + x) < 256

abbrev swapped : (low ptr : ℕ) → Bytes → Bytes
swapped low ptr m = store8 (store8 m low (m ptr)) ptr (m low)

swapped-low : (low ptr : ℕ) (m : Bytes) → low < ptr → m ptr < 256 → swapped low ptr m low ≡ m ptr
unfolding store8
swapped-low low ptr m lt small = ground arith

swapped-ptr : (low ptr : ℕ) (m : Bytes) → m low < 256 → swapped low ptr m ptr ≡ m low
unfolding store8
swapped-ptr low ptr m small = ground arith

swapped-other :
    (low ptr : ℕ) (m : Bytes) (x : ℕ)
    → (x == low) ≡ false
    → (x == ptr) ≡ false
    → swapped low ptr m x ≡ m x
unfolding store8
swapped-other low ptr m x a b = ground arith

invert_more :
    (fuel low ptr : ℕ) (m : Bytes)
    → low < ptr
    → invert (suc fuel) low ptr m ≡ invert fuel (low + 1) (ptr - 1) (swapped low ptr m)
unfolding invert
invert_more fuel low ptr m lt = let more : ltb low ptr ≡ true = ground arith in rw more refl

invert_done : (fuel low ptr : ℕ) (m : Bytes) → ptr ≤ low → invert (suc fuel) low ptr m ≡ some m
unfolding invert
invert_done fuel low ptr m le = let done : ltb low ptr ≡ false = ground arith in rw done refl

Turned-first :
    (low k : ℕ) (m n : Bytes)
    → AreBytes low (k + 2) m
    → Turned (low + 1) k (swapped low (low + (k + 2)) m) n
    → n (low + 0) ≡ m (low + (k + 2 - 0))
Turned-first low k m n small t =
    let from : low + 0 ≡ low = omega arith in
    let to : low + (k + 2 - 0) ≡ low + (k + 2) = omega arith in
    rw (from, to)
      (t.outside low (ground arith)
        ∙ swapped-low low (low + (k + 2)) m (omega arith) (small (k + 2) (omega arith)))

Turned-last :
    (low k : ℕ) (m n : Bytes)
    → AreBytes low (k + 2) m
    → Turned (low + 1) k (swapped low (low + (k + 2)) m) n
    → n (low + (k + 2)) ≡ m (low + (k + 2 - (k + 2)))
Turned-last low k m n small t =
    let to : low + (k + 2 - (k + 2)) ≡ low = omega arith in
    let start : low + 0 ≡ low = omega arith in
    rw to (
      t.outside (low + (k + 2)) (ground arith)
      ∙ swapped-ptr low (low + (k + 2)) m (rw start at (small 0 (omega arith))))

Turned-middle :
    (low k : ℕ) (m n : Bytes) (x : ℕ)
    → Turned (low + 1) k (swapped low (low + (k + 2)) m) n
    → 0 < x
    → x < k + 2
    → n (low + x) ≡ m (low + (k + 2 - x))
Turned-middle low k m n x t some_x lt =
    let from : low + 1 + (x - 1) ≡ low + x = omega arith in
    let to : low + 1 + (k - (x - 1)) ≡ low + (k + 2 - x) = omega arith in
    rw (from, to) at (t.inside (x - 1) (omega arith))
    ∙ swapped-other low (low + (k + 2)) m (low + (k + 2 - x)) (ground arith) (ground arith)

-- The ends are swapped, then what lies between them is turned round.
Turned-swapped :
    (low k : ℕ) (m n : Bytes)
    → AreBytes low (k + 2) m
    → Turned (low + 1) k (swapped low (low + (k + 2)) m) n
    → Turned low (k + 2) m n
Turned-swapped low k m n small t = record {
  inside = λ x le. elim (Bool-cases (x == 0)) [
    | inl e ↦ rw (eq_of_== x 0 e) (Turned-first low k m n small t)
    | inr some_x ↦ elim (Bool-cases (x == k + 2)) [
      | inl e ↦ rw (eq_of_== x (k + 2) e) (Turned-last low k m n small t)
      | inr inner ↦ Turned-middle low k m n x t (ground arith) (ground arith)
    ]
  ];
  outside = λ x apart.
      t.outside x (ground arith)
      ∙ swapped-other low (low + (k + 2)) m x (ground arith) (ground arith);
}

AreBytes-swapped :
    (low k : ℕ) (m : Bytes)
    → AreBytes low (k + 2) m
    → AreBytes (low + 1) k (swapped low (low + (k + 2)) m)
AreBytes-swapped low k m small x le =
    let at : low + (x + 1) ≡ low + 1 + x = omega arith in
    rw (swapped-other low (low + (k + 2)) m (low + 1 + x) (ground arith) (ground arith))
      (rw at at (small (x + 1) (omega arith)))

abbrev Result : (fuel low k : ℕ) → Bytes → Type 0
Result fuel low k m = (n : Bytes) × (invert fuel low (low + k) m ≡ some n) × Turned low k m n

invert_none : (fuel low : ℕ) (m : Bytes) → Result (suc fuel) low 0 m
invert_none fuel low m = (
  m,
  invert_done fuel low (low + 0) m (omega arith),
  record { inside = λ x le. ap m (omega arith); outside = λ x apart. refl },
)

Turned-two : (low : ℕ) (m : Bytes) → AreBytes low 1 m → Turned low 1 m (swapped low (low + 1) m)
Turned-two low m small = record {
  inside = λ x le. elim (Bool-cases (x == 0)) [
    | inl e ↦
        let start : low + 0 ≡ low = omega arith in
        rw (eq_of_== x 0 e, start)
          (swapped-low low (low + 1) m (omega arith) (small 1 (omega arith)))
    | inr more ↦
        let one : x ≡ 1 = ground arith in
        let start : low + 0 ≡ low = omega arith in
        rw (one, start) (swapped-ptr low (low + 1) m (rw start at (small 0 (omega arith))))
  ];
  outside = λ x apart. swapped-other low (low + 1) m x (ground arith) (ground arith);
}

invert_two : (fuel low : ℕ) (m : Bytes) → AreBytes low 1 m → 0 < fuel → Result (suc fuel) low 1 m
invert_two zero low m small lt = absurd (omega arith)
invert_two (suc fuel) low m small lt =
    let ptr : low + 1 - 1 ≡ low = omega arith in
    let step = invert_more (suc fuel) low (low + 1) m (omega arith) in
    let done = invert_done fuel (low + 1) (low + 1 - 1) (swapped low (low + 1) m) (omega arith) in
    (swapped low (low + 1) m, step ∙ done, Turned-two low m small)

invert_outer :
    (fuel low k : ℕ) (m : Bytes)
    → AreBytes low (k + 2) m
    → Result fuel (low + 1) k (swapped low (low + (k + 2)) m)
    → Result (suc fuel) low (k + 2) m
invert_outer fuel low k m small (n, ran, t) =
    let ptr : low + (k + 2) - 1 ≡ low + 1 + k = omega arith in
    let step = invert_more fuel low (low + (k + 2)) m (omega arith) in
    (n, rw ptr at step ∙ ran, Turned-swapped low k m n small t)

pub invert-Turned :
    (fuel low k : ℕ) (m : Bytes)
    → AreBytes low k m
    → k < fuel
    → (n : Bytes) × (invert fuel low (low + k) m ≡ some n) × Turned low k m n
invert-Turned zero low k m small lt = absurd (omega arith)
invert-Turned (suc fuel) low k m small lt = elim (Bool-cases (k == 0)) [
  | inl e ↦ rw (eq_of_== k 0 e) (invert_none fuel low m)
  | inr some_k ↦ elim (Bool-cases (k == 1)) [
    | inl e ↦
        let one : k ≡ 1 = eq_of_== k 1 e in
        rw one (invert_two fuel low m (rw one at small) (ground arith))
    | inr more ↦
        let all : k - 2 + 2 ≡ k = ground arith in
        let small' : AreBytes low (k - 2 + 2) m = rw all small in
        let ih =
          invert-Turned fuel (low + 1) (k - 2) (swapped low (low + (k - 2 + 2)) m)
            (AreBytes-swapped low (k - 2) m small') (ground arith) in
        subst (λ j. Result (suc fuel) low j m) all (invert_outer fuel low (k - 2) m small' ih)
  ]
]
