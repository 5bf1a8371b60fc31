-- ===== src/Heap/Payloads.antt =====
-- The payloads of a row of cells, and what `allocate` and `put_free` do to them.
use usbloader.Common.{
  ℕ, ◌+◌, ◌-◌, ◌≤◌, ◌≡◌, refl, ap, ◌∙◌, List, [], ◌∷◌, ◌++◌, arith, leb, Bool-cases, inl, inr,
}
use usbloader.Heap.Alloc.{cut, cell_end, cells_after, cells_before}
use usbloader.Heap.Find.{Fit}
use usbloader.Heap.Free.{absorb, put_free}
use usbloader.Heap.Free.Cells.{span}
use usbloader.Heap.Layout.{Cell, free, used}

-- Address and length of each payload, in order of address, in a row that starts at `a`.
unfoldable pub payloads : ℕ → List Cell → List (ℕ × ℕ)
payloads a [] = []
payloads a (free s ∷ cs) = payloads (a + s) cs
payloads a (used off n ∷ cs) = (a + off + 8, n - 8) ∷ payloads (a + off + n) cs

pub payloads-append :
    (a : ℕ) (xs ys : List Cell) → payloads a (xs ++ ys) ≡ payloads a xs ++ payloads (a + span xs) ys
unfolding payloads
payloads-append a [] ys = let same : a + 0 ≡ a = omega arith in rw same
payloads-append a (free s ∷ xs) ys =
    let sum : a + (s + span xs) ≡ a + s + span xs = omega arith in
    rw sum (payloads-append (a + s) xs ys)
payloads-append a (used off n ∷ xs) ys =
    let sum : a + (off + n + span xs) ≡ a + off + n + span xs = omega arith in
    rw sum (ap (λ ps. (a + off + 8, n - 8) ∷ ps) (payloads-append (a + off + n) xs ys))

payloads-absorb : (a s : ℕ) (post : List Cell) → payloads a (absorb s post) ≡ payloads (a + s) post
unfolding payloads
payloads-absorb a s [] = refl
payloads-absorb a s (free t ∷ post) = ap (λ (x : ℕ). payloads x post) (omega arith)
payloads-absorb a s (used off n ∷ post) = refl

-- A free takes its own payload out and leaves the others where they are.
pub payloads-put_free :
    (a s : ℕ) (pre post : List Cell)
    → payloads a (put_free pre s post) ≡ payloads a pre ++ payloads (a + span pre + s) post
unfolding payloads
payloads-put_free a s [] post =
    let same : a + 0 + s ≡ a + s = omega arith in rw same (payloads-absorb a s post)
payloads-put_free a s (free x ∷ []) post =
    let sum : a + (x + 0) + s ≡ a + (x + s) = omega arith in rw sum (payloads-absorb a (x + s) post)
payloads-put_free a s (free x ∷ c ∷ pre) post =
    let sum : a + (x + span (c ∷ pre)) + s ≡ a + x + span (c ∷ pre) + s = omega arith in
    rw sum (payloads-put_free (a + x) s (c ∷ pre) post)
payloads-put_free a s (used off n ∷ pre) post =
    let sum : a + (off + n + span pre) + s ≡ a + off + n + span pre + s = omega arith in
    rw sum (ap (λ ps. (a + off + 8, n - 8) ∷ ps) (payloads-put_free (a + off + n) s pre post))

payloads-cells_after :
    (size p end : ℕ) (post : List Cell)
    → p + size ≤ end
    → payloads (cell_end size p end) (cells_after size p end post) ≡ payloads end post
unfolding payloads
payloads-cells_after size p end post high = elim (Bool-cases (leb 8 (end - (p + size)))) [
  | inl room ↦ rw room (ap (λ (x : ℕ). payloads x post) (omega arith))
  | inr tight ↦ rw tight refl
]

payloads-cells_before :
    (b p z : ℕ) (rest : List Cell)
    → b + 8 ≤ p
    → p ≤ z
    → payloads b (cells_before b p z rest) ≡ (p, z - p) ∷ payloads z rest
unfolding payloads
payloads-cells_before b p z rest low high =
    let length : z + 8 - p - 8 ≡ z - p = omega arith in
    elim (Bool-cases (leb 8 (p - b - 8))) [
      | inl room ↦
          let big : 8 ≤ p - b - 8 = ground arith in
          let here : b + (p - b - 8) + 0 + 8 ≡ p = omega arith in
          let next : b + (p - b - 8) + 0 + (z + 8 - p) ≡ z = omega arith in
          rw (room, here, next, length) refl
      | inr tight ↦
          let here : b + (p - b - 8) + 8 ≡ p = omega arith in
          let next : b + (p - b - 8) + (z + 8 - p) ≡ z = omega arith in
          rw (tight, here, next, length) refl
    ]

-- An allocation adds its payload between those in front and those behind, which stay.
pub payloads-cut :
    (lo size p : ℕ) (f : Fit)
    → lo + span f.pre ≡ f.at
    → f.at + 8 ≤ p
    → p + size ≤ f.at + f.size
    → payloads lo (cut size p f)
      ≡ payloads lo f.pre
        ++ (p, cell_end size p (f.at + f.size) - p) ∷ payloads (f.at + f.size) f.post
unfolding cut
payloads-cut lo size p f at low high =
    let z : ℕ = cell_end size p (f.at + f.size) in
    let rest : List Cell = cells_after size p (f.at + f.size) f.post in
    let top : p ≤ z = ground arith in
    payloads-append lo f.pre (cells_before f.at p z rest)
    ∙ (rw at (
        rw
          (
            payloads-cells_before f.at p z rest low top,
            payloads-cells_after size p (f.at + f.size) f.post high,
          )
          refl))
