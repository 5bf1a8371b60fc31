-- ===== src/Heap/Contents/Holders.antt =====
-- The holder of a payload while others allocate, free and write.
use usbloader.Common.{ℕ, ◌+◌, ◌≤◌, ◌≡◌, refl, ap, ◌⊎◌, inl, inr, List, [], ◌∷◌, ◌++◌, arith}
use usbloader.Memory.{Bytes, Agree, load32, load32-Agree}
use usbloader.Heap.{Heap}
use usbloader.Heap.Layout.{Cell, Tiles-Agree, IsHeap}
use usbloader.Heap.Owners.{Added, Added-bounds, holder_write-IsHeap}
use usbloader.Heap.Payloads.{payloads}
use usbloader.Heap.Promise.{Separate, IsHeap-Separate}
use usbloader.Heap.Contents.Calls.{Untouched}

-- The payload of `n` bytes at `p` is in the list.
abbrev pub Among : (p n : ℕ) → List (ℕ × ℕ) → Type 0
Among p n [] = ⊥
Among p n ((q, k) ∷ ps) = ((p ≡ q) × (n ≡ k)) ⊎ Among p n ps

Among-front : (p n : ℕ) (xs ys : List (ℕ × ℕ)) → Among p n xs → Among p n (xs ++ ys)
Among-front p n [] ys none = absurd none
Among-front p n ((q, k) ∷ xs) ys (inl here) = inl here
Among-front p n ((q, k) ∷ xs) ys (inr there) = inr (Among-front p n xs ys there)

Among-back : (p n : ℕ) (xs ys : List (ℕ × ℕ)) → Among p n ys → Among p n (xs ++ ys)
Among-back p n [] ys there = there
Among-back p n ((q, k) ∷ xs) ys there = inr (Among-back p n xs ys there)

Among-append : (p n : ℕ) (xs ys : List (ℕ × ℕ)) → Among p n (xs ++ ys) → Among p n xs ⊎ Among p n ys
Among-append p n [] ys there = inr there
Among-append p n ((q, k) ∷ xs) ys (inl here) = inl (inl here)
Among-append p n ((q, k) ∷ xs) ys (inr there) = elim (Among-append p n xs ys there) [
  | inl front ↦ inl (inr front)
  | inr back ↦ inr back
]

pub Added-Among : (p n : ℕ) (ps qs : List (ℕ × ℕ)) → Added p n ps qs → Among p n qs
Added-Among p n ps qs d = rw d.within (Among-back p n d.front ((p, n) ∷ d.back) (inl (refl, refl)))

-- Who holds a payload holds it after another one was added.
pub Among-Added :
    (q k p n : ℕ) (ps qs : List (ℕ × ℕ)) → Added p n ps qs → Among q k ps → Among q k qs
Among-Added q k p n ps qs d among = elim (Among-append q k d.front d.back (rw d.without at among)) [
  | inl front ↦ rw d.within (Among-front q k d.front ((p, n) ∷ d.back) front)
  | inr back ↦ rw d.within (Among-back q k d.front ((p, n) ∷ d.back) (inr back))
]

pub Added-of-Among :
    (p n : ℕ) (qs : List (ℕ × ℕ)) → Among p n qs → (ps : List (ℕ × ℕ)) × Added p n ps qs
Added-of-Among p n [] none = absurd none
Added-of-Among p n ((q, k) ∷ qs) (inl (e, f)) =
    (qs, record { front = []; back = qs; without = refl; within = rw (e, f) refl })
Added-of-Among p n ((q, k) ∷ qs) (inr there) =
    let (ps, d) = Added-of-Among p n qs there in
    (
      (q, k) ∷ ps,
      record {
        front = (q, k) ∷ d.front;
        back = d.back;
        without = ap (λ xs. (q, k) ∷ xs) d.without;
        within = ap (λ xs. (q, k) ∷ xs) d.within;
      },
    )

-- Its contents stay when all contents of the list do.
pub Untouched-at :
    (p n : ℕ) (ps : List (ℕ × ℕ)) (m v : Bytes)
    → Among p n ps
    → Untouched ps m v
    → Agree p (p + n) m v
Untouched-at p n [] m v none u = absurd none
Untouched-at p n ((q, k) ∷ ps) m v (inl (e, f)) u = rw (e, f) u.0
Untouched-at p n ((q, k) ∷ ps) m v (inr there) u = Untouched-at p n ps m v there u.1

Separate-low : (lo hi p n : ℕ) (ps : List (ℕ × ℕ)) → Separate lo hi ps → Among p n ps → lo ≤ p
Separate-low lo hi p n [] s none = absurd none
Separate-low lo hi p n ((q, k) ∷ ps) s (inl (e, f)) = omega (arith, s)
Separate-low lo hi p n ((q, k) ∷ ps) s (inr there) =
    omega (arith, s.0, Separate-low (q + k) hi p n ps s.2 there)

Separate-append :
    (lo hi p n q k : ℕ) (xs ys : List (ℕ × ℕ))
    → Separate lo hi (xs ++ (p, n) ∷ ys)
    → Among q k (xs ++ ys)
    → (p + n ≤ q) ⊎ (q + k ≤ p)
Separate-append lo hi p n q k [] ys s among = inl (Separate-low (p + n) hi q k ys s.2 among)
Separate-append lo hi p n q k ((x, z) ∷ xs) ys s (inl (e, f)) =
    let after =
      Separate-low (x + z) hi p n (xs ++ (p, n) ∷ ys) s.2
        (Among-back p n xs ((p, n) ∷ ys) (inl (refl, refl))) in
    inr (omega arith)
Separate-append lo hi p n q k ((x, z) ∷ xs) ys s (inr there) =
    Separate-append (x + z) hi p n q k xs ys s.2 there

-- A new payload meets none of the earlier ones.
pub Added-clear :
    (lo hi p n q k : ℕ) (ps qs : List (ℕ × ℕ))
    → Separate lo hi qs
    → Added p n ps qs
    → Among q k ps
    → (p + n ≤ q) ⊎ (q + k ≤ p)
Added-clear lo hi p n q k ps qs s d among =
    Separate-append lo hi p n q k d.front d.back (rw d.within at s) (rw d.without at among)

pub Untouched-each :
    (ps : List (ℕ × ℕ)) (m v : Bytes)
    → ((q k : ℕ) → Among q k ps → Agree q (q + k) m v)
    → Untouched ps m v
Untouched-each [] m v each = tt
Untouched-each ((q, k) ∷ ps) m v each =
    (each q k (inl (refl, refl)), Untouched-each ps m v (λ q' k' there. each q' k' (inr there)))

-- What its holder writes into a new payload.
pub holder_write-Untouched :
    {lo hi : ℕ} {h : Heap} {cs : List Cell} (p n : ℕ) (ps : List (ℕ × ℕ)) (m : Bytes)
    → IsHeap lo hi h cs
    → Added p n ps (payloads lo cs)
    → ((x y : ℕ) → (p + n ≤ x) ⊎ (y ≤ p) → Agree x y h.bytes m)
    → Untouched ps h.bytes m
holder_write-Untouched {lo} {hi} {h} {cs} p n ps m heap d same =
    Untouched-each ps h.bytes m (λ q k among.
      same q (q + k) (Added-clear lo hi p n q k ps (payloads lo cs) (IsHeap-Separate heap) d among))

-- What is written outside the heap does not change it.
pub IsHeap-outside :
    {lo hi : ℕ} {h : Heap} {cs : List Cell} (m : Bytes)
    → IsHeap lo hi h cs
    → Agree lo hi h.bytes m
    → IsHeap lo hi (record h { bytes = m }) cs
IsHeap-outside {lo} {hi} {h} {cs} m heap same = record {
  start = heap.start;
  top = heap.top;
  tiles = Tiles-Agree h.bytes m lo h.head cs hi 0 same heap.tiles;
  coalesced = heap.coalesced;
}

pub Among-bounds :
    {lo hi : ℕ} {h : Heap} {cs : List Cell} (p n : ℕ)
    → IsHeap lo hi h cs
    → Among p n (payloads lo cs)
    → (lo + 8 ≤ p) × (p + n ≤ hi)
Among-bounds {lo} {hi} {h} {cs} p n heap among =
    let (ps, d) = Added-of-Among p n (payloads lo cs) among in Added-bounds p n ps heap d

-- What who holds a payload writes into it.
pub Among-write-IsHeap :
    {lo hi : ℕ} {h : Heap} {cs : List Cell} (p n : ℕ) (m : Bytes)
    → IsHeap lo hi h cs
    → Among p n (payloads lo cs)
    → Agree lo p h.bytes m
    → Agree (p + n) hi h.bytes m
    → IsHeap lo hi (record h { bytes = m }) cs
Among-write-IsHeap {lo} {hi} {h} {cs} p n m heap among below above =
    let (ps, d) = Added-of-Among p n (payloads lo cs) among in
    holder_write-IsHeap p n ps m heap d below above

-- A word of a payload, when the payloads are untouched.
pub Untouched-load32 :
    (p n a : ℕ) (ps : List (ℕ × ℕ)) (m v : Bytes)
    → Among p n ps
    → Untouched ps m v
    → p ≤ a
    → a + 4 ≤ p + n
    → load32 v a ≡ load32 m a
Untouched-load32 p n a ps m v among u low high =
    load32-Agree a (Untouched-at p n ps m v among u) low high
