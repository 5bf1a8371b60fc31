-- ===== src/Heap/Free/Cells.antt =====
-- Rows of cells by themselves: their length in bytes, taking them apart, and the result of a free.
use usbloader.Common.{ℕ, ◌+◌, ◌≡◌, refl, ap, ◌⊎◌, inl, inr, List, [], ◌∷◌, ◌++◌, arith}
use usbloader.Memory.{Bytes}
use usbloader.Heap.{next_of}
use usbloader.Heap.Free.{absorb, put_free}
use usbloader.Heap.Layout.{Cell, free, used, Tiles, last_free, Coalesced}
use usbloader.Heap.Layout.Ends.{EndsUsed}

-- The bytes of a row.
abbrev pub span : List Cell → ℕ
span [] = 0
span (free s ∷ cs) = s + span cs
span (used off n ∷ cs) = off + n + span cs

pub span-append : (xs ys : List Cell) → span (xs ++ ys) ≡ span xs + span ys
span-append [] ys = omega arith
span-append (free s ∷ xs) ys = omega (arith, span-append xs ys)
span-append (used off n ∷ xs) ys = omega (arith, span-append xs ys)

pub Tiles-span :
    (m : Bytes) (a p : ℕ) (cs : List Cell) (e q : ℕ) → Tiles m a p cs e q → a + span cs ≡ e
Tiles-span m a p [] e q t = omega (arith, t.0)
Tiles-span m a p (free s ∷ cs) e q t = omega (arith, Tiles-span m (a + s) (next_of m a) cs e q t.3)
Tiles-span m a p (used off n ∷ cs) e q t = omega (arith, Tiles-span m (a + off + n) p cs e q t.3)

pub Tiles-split :
    (m : Bytes) (a p : ℕ) (xs ys : List Cell) (e q : ℕ)
    → Tiles m a p (xs ++ ys) e q
    → (r : ℕ) × Tiles m a p xs (a + span xs) r × Tiles m (a + span xs) r ys e q
Tiles-split m a p [] ys e q t =
    let none : a + 0 ≡ a = omega arith in (p, (omega arith, refl), rw none t)
Tiles-split m a p (free s ∷ xs) ys e q t =
    let (r, front, back) = Tiles-split m (a + s) (next_of m a) xs ys e q t.3 in
    let sum : a + s + span xs ≡ a + (s + span xs) = omega arith in
    (r, (t.0, t.1, t.2, rw (← sum) front), rw (← sum) back)
Tiles-split m a p (used off n ∷ xs) ys e q t =
    let (r, front, back) = Tiles-split m (a + off + n) p xs ys e q t.3 in
    let sum : a + off + n + span xs ≡ a + (off + n + span xs) = omega arith in
    (r, (t.0, t.1, t.2, rw (← sum) front), rw (← sum) back)

-- Whether a row ends in a free cell.
pub Ends_cases :
    (pre : List Cell)
    → EndsUsed pre ⊎ ((front : List Cell) × (x : ℕ) × (pre ≡ front ++ free x ∷ []))
Ends_cases [] = inl tt
Ends_cases (free x ∷ []) = inr ([], x, refl)
Ends_cases (free x ∷ c ∷ pre) = elim (Ends_cases (c ∷ pre)) [
  | inl u ↦ inl u
  | inr (front, y, e) ↦ inr (free x ∷ front, y, ap (λ cs. free x ∷ cs) e)
]
Ends_cases (used off n ∷ pre) = elim (Ends_cases pre) [
  | inl u ↦ inl u
  | inr (front, y, e) ↦ inr (used off n ∷ front, y, ap (λ cs. used off n ∷ cs) e)
]

pub put_free-EndsUsed :
    (pre : List Cell) (s : ℕ) (post : List Cell)
    → EndsUsed pre
    → put_free pre s post ≡ pre ++ absorb s post
put_free-EndsUsed [] s post u = refl
put_free-EndsUsed (free x ∷ []) s post u = absurd u
put_free-EndsUsed (free x ∷ c ∷ pre) s post u =
    ap (λ cs. free x ∷ cs) (put_free-EndsUsed (c ∷ pre) s post u)
put_free-EndsUsed (used off n ∷ pre) s post u =
    ap (λ cs. used off n ∷ cs) (put_free-EndsUsed pre s post u)

pub put_free-append :
    (front : List Cell) (x s : ℕ) (post : List Cell)
    → put_free (front ++ free x ∷ []) s post ≡ front ++ absorb (x + s) post
put_free-append [] x s post = refl
put_free-append (free y ∷ []) x s post = refl
put_free-append (free y ∷ c ∷ front) x s post =
    ap (λ cs. free y ∷ cs) (put_free-append (c ∷ front) x s post)
put_free-append (used off n ∷ front) x s post =
    ap (λ cs. used off n ∷ cs) (put_free-append front x s post)

pub last_free-append :
    (a pv x : ℕ) (front : List Cell) → last_free a pv (front ++ free x ∷ []) ≡ a + span front
last_free-append a pv x [] = omega arith
last_free-append a pv x (free s ∷ front) = omega (arith, last_free-append (a + s) a x front)
last_free-append a pv x (used off n ∷ front) =
    omega (arith, last_free-append (a + off + n) pv x front)

Coalesced-absorb : (s : ℕ) (post : List Cell) → Coalesced post → Coalesced (absorb s post)
Coalesced-absorb s [] c = (tt, tt)
Coalesced-absorb s (free t ∷ post) c = c
Coalesced-absorb s (used off n ∷ post) c = (tt, c)

-- A free leaves no two free cells side by side.
pub Coalesced-put_free :
    (pre : List Cell) (off n s : ℕ) (post : List Cell)
    → Coalesced (pre ++ used off n ∷ post)
    → Coalesced (put_free pre s post)
Coalesced-put_free [] off n s post c = Coalesced-absorb s post c
Coalesced-put_free (free x ∷ []) off n s post c = Coalesced-absorb (x + s) post c.1
Coalesced-put_free (free x ∷ free y ∷ pre) off n s post c = absurd c.0
Coalesced-put_free (free x ∷ used o k ∷ pre) off n s post c =
    (tt, Coalesced-put_free pre off n s post c.1)
Coalesced-put_free (used o k ∷ pre) off n s post c = Coalesced-put_free pre off n s post c
