-- ===== src/Heap/Layout.antt =====
-- What the allocator's memory stands for: the heap as a row of adjacent cells, free or used, each
-- of which starts where the one before it ends. `Tiles` ties such a row to the bytes of memory and
-- to the linked list of free blocks.
pub mod Ends
pub mod Links
use usbloader.Common.{
  ℕ, ◌+◌, ◌^◌, ◌≤◌, ◌<◌, ◌≡◌, refl, ◌∙◌, ◌⊎◌, inl, inr, List, [], ◌∷◌, ◌++◌, arith,
}
use usbloader.Memory.{Bytes, Agree, Agree-part, load32-Agree}
use usbloader.Heap.{Heap, size_of, next_of}

-- `used off n`: `off` bytes that the alignment left over, then a header and its payload, `n` bytes
-- together. `n` is the header's `size`, `off` its `start_off`.
pub data Cell : Type 0 where
  free : ℕ → Cell
  used : ℕ → ℕ → Cell

-- From address `a` with `p` the first pointer into the free list, the cells end at `e` with `q` the
-- pointer that leads on.
abbrev pub Tiles : Bytes → ℕ → ℕ → List Cell → ℕ → ℕ → Type 0
Tiles m a p [] e q = (a ≡ e) × (p ≡ q)
Tiles m a p (free s ∷ cs) e q =
    (p ≡ a) × (8 ≤ s) × (size_of m a ≡ s) × Tiles m (a + s) (next_of m a) cs e q
Tiles m a p (used off n ∷ cs) e q =
    (9 ≤ n)
    × (size_of m (a + off) ≡ n)
    × (next_of m (a + off) ≡ off)
    × Tiles m (a + off + n) p cs e q

-- The last free block, `pv` if there is none.
abbrev pub last_free : ℕ → ℕ → List Cell → ℕ
last_free a pv [] = pv
last_free a pv (free s ∷ cs) = last_free (a + s) a cs
last_free a pv (used off n ∷ cs) = last_free (a + off + n) pv cs

-- No two free cells touch.
abbrev pub StartsUsed : List Cell → Type 0
StartsUsed [] = Unit {0}
StartsUsed (free s ∷ cs) = ⊥
StartsUsed (used off n ∷ cs) = Unit {0}

abbrev pub Coalesced : List Cell → Type 0
Coalesced [] = Unit {0}
Coalesced (free s ∷ cs) = StartsUsed cs × Coalesced cs
Coalesced (used off n ∷ cs) = Coalesced cs

-- A heap on the addresses from `lo` up to `hi`, which `cells` describe to the byte.
pub record IsHeap (lo hi : ℕ) (h : Heap) (cells : List Cell) : Type 0 where
  pub start : 0 < lo
  pub top : hi < 2 ^ 32
  pub tiles : Tiles h.bytes lo h.head cells hi 0
  pub coalesced : Coalesced cells

pub Tiles-le : (m : Bytes) (a p : ℕ) (cs : List Cell) (e q : ℕ) → Tiles m a p cs e q → a ≤ e
Tiles-le m a p [] e q t = omega arith
Tiles-le m a p (free s ∷ cs) e q t = omega (arith, Tiles-le m (a + s) (next_of m a) cs e q t.3)
Tiles-le m a p (used off n ∷ cs) e q t = omega (arith, Tiles-le m (a + off + n) p cs e q t.3)

-- Memory that agrees on the cells' addresses has the same cells.
pub Tiles-Agree :
    (m n : Bytes) (a p : ℕ) (cs : List Cell) (e q : ℕ)
    → Agree a e m n
    → Tiles m a p cs e q
    → Tiles n a p cs e q
Tiles-Agree m n a p [] e q f t = t
Tiles-Agree m n a p (free s ∷ cs) e q f t =
    let below = Tiles-le m (a + s) (next_of m a) cs e q t.3 in
    let size = load32-Agree a f (omega arith) (omega arith) in
    let next = load32-Agree (a + 4) f (omega arith) (omega arith) in
    (
      t.0,
      t.1,
      size ∙ t.2,
      rw next (
          Tiles-Agree m n (a + s) (next_of m a) cs e q
            (Agree-part (a + s) e f (omega arith) (omega arith)) t.3),
    )
Tiles-Agree m n a p (used off k ∷ cs) e q f t =
    let below = Tiles-le m (a + off + k) p cs e q t.3 in
    let size = load32-Agree (a + off) f (omega arith) (omega arith) in
    let next = load32-Agree (a + off + 4) f (omega arith) (omega arith) in
    (
      t.0,
      size ∙ t.1,
      next ∙ t.2,
      Tiles-Agree m n (a + off + k) p cs e q
          (Agree-part (a + off + k) e f (omega arith) (omega arith)) t.3,
    )

pub Tiles-append :
    (m : Bytes) (a p : ℕ) (xs ys : List Cell) (b r e q : ℕ)
    → Tiles m a p xs b r
    → Tiles m b r ys e q
    → Tiles m a p (xs ++ ys) e q
Tiles-append m a p [] ys b r e q t u = rw (t.0, t.1) u
Tiles-append m a p (free s ∷ xs) ys b r e q t u =
    (t.0, t.1, t.2, Tiles-append m (a + s) (next_of m a) xs ys b r e q t.3 u)
Tiles-append m a p (used off n ∷ xs) ys b r e q t u =
    (t.0, t.1, t.2, Tiles-append m (a + off + n) p xs ys b r e q t.3 u)

-- The pointer into a row that ends the list is NULL or an address of the row.
pub Tiles-head :
    (m : Bytes) (a p : ℕ) (cs : List Cell) (e : ℕ)
    → Tiles m a p cs e 0
    → (p ≡ 0) ⊎ ((a ≤ p) × (p + 8 ≤ e))
Tiles-head m a p [] e t = inl t.1
Tiles-head m a p (free s ∷ cs) e t =
    let below = Tiles-le m (a + s) (next_of m a) cs e 0 t.3 in inr (omega arith, omega arith)
Tiles-head m a p (used off n ∷ cs) e t = omega (arith, Tiles-head m (a + off + n) p cs e t.3)

-- Where the last free block is.
pub last_free-le :
    (m : Bytes) (a p pv : ℕ) (cs : List Cell) (e q : ℕ)
    → Tiles m a p cs e q
    → (last_free a pv cs ≡ pv) ⊎ ((a ≤ last_free a pv cs) × (last_free a pv cs + 8 ≤ e))
last_free-le m a p pv [] e q t = inl refl
last_free-le m a p pv (free s ∷ cs) e q t =
    let below = Tiles-le m (a + s) (next_of m a) cs e q t.3 in
    omega (arith, last_free-le m (a + s) (next_of m a) a cs e q t.3)
last_free-le m a p pv (used off n ∷ cs) e q t =
    let below = Tiles-le m (a + off + n) p cs e q t.3 in
    omega (arith, last_free-le m (a + off + n) p pv cs e q t.3)
