-- ===== src/Heap/Layout/Ends.antt =====
-- Rows that have no free cell at their end, and replacing the tail of a row.
use usbloader.Common.{ℕ, ◌+◌, ◌<◌, ◌≡◌, refl, ◌⊎◌, inl, inr, List, [], ◌∷◌, ◌++◌, arith}
use usbloader.Memory.{Bytes}
use usbloader.Heap.{size_of, next_of}
use usbloader.Heap.Layout.{Cell, free, used, Tiles, Tiles-le, last_free, Coalesced}

abbrev pub EndsUsed : List Cell → Type 0
EndsUsed [] = Unit {0}
EndsUsed (free s ∷ []) = ⊥
EndsUsed (free s ∷ c ∷ cs) = EndsUsed (c ∷ cs)
EndsUsed (used off n ∷ cs) = EndsUsed cs

-- Before a free cell no row of a coalesced heap ends in one.
pub EndsUsed-append :
    (pre : List Cell) (s : ℕ) (post : List Cell) → Coalesced (pre ++ free s ∷ post) → EndsUsed pre
EndsUsed-append [] s post h = tt
EndsUsed-append (free x ∷ []) s post h = h.0
EndsUsed-append (free x ∷ c ∷ cs) s post h = EndsUsed-append (c ∷ cs) s post h.1
EndsUsed-append (used off n ∷ cs) s post h = EndsUsed-append cs s post h

-- Another tail in the place of a free cell's.
pub Coalesced-replace :
    (pre : List Cell) (s : ℕ) (post xs : List Cell)
    → Coalesced (pre ++ free s ∷ post)
    → (Coalesced (free s ∷ post) → Coalesced xs)
    → Coalesced (pre ++ xs)
Coalesced-replace [] s post xs h f = f h
Coalesced-replace (free x ∷ []) s post xs h f = absurd h.0
Coalesced-replace (free x ∷ free y ∷ cs) s post xs h f = absurd h.0
Coalesced-replace (free x ∷ used off n ∷ cs) s post xs h f =
    (tt, Coalesced-replace cs s post xs h.1 f)
Coalesced-replace (used off n ∷ cs) s post xs h f = Coalesced-replace cs s post xs h f

Tiles-lt :
    (m : Bytes) (a p : ℕ) (c : Cell) (cs : List Cell) (e q : ℕ) → Tiles m a p (c ∷ cs) e q → a < e
Tiles-lt m a p (free s) cs e q t = omega (arith, Tiles-le m (a + s) (next_of m a) cs e q t.3)
Tiles-lt m a p (used off n) cs e q t = omega (arith, Tiles-le m (a + off + n) p cs e q t.3)

-- The last free block of such a row ends before the row does.
pub last_free-gap :
    (m : Bytes) (a p pv : ℕ) (cs : List Cell) (e q : ℕ)
    → Tiles m a p cs e q
    → EndsUsed cs
    → (last_free a pv cs ≡ pv) ⊎ (last_free a pv cs + size_of m (last_free a pv cs) < e)
last_free-gap m a p pv [] e q t u = inl refl
last_free-gap m a p pv (free s ∷ []) e q t u = absurd u
last_free-gap m a p pv (free s ∷ c ∷ cs) e q t u =
    let beyond = Tiles-lt m (a + s) (next_of m a) c cs e q t.3 in
    elim (last_free-gap m (a + s) (next_of m a) a (c ∷ cs) e q t.3 u) [
      | inl last ↦ inr (rw last (omega (arith, t.2)))
      | inr gap ↦ inr gap
    ]
last_free-gap m a p pv (used off n ∷ cs) e q t u = last_free-gap m (a + off + n) p pv cs e q t.3 u
