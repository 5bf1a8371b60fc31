-- ===== src/Heap/Contents/Calls.antt =====
-- memalloc_aligned and memfree of mem.c leave the contents of the payloads as they are.
use usbloader.Common.{
  ℕ, ◌+◌, ◌-◌, ◌^◌, ◌≤◌, ◌<◌, ◌≡◌, refl, ap, ◌⊎◌, inl, inr, some, List, [], ◌∷◌, ◌++◌, arith,
  length,
}
use usbloader.Memory.{Bytes, Agree, Agree-refl, Agree-trans}
use usbloader.Heap.{Heap, memalloc_aligned, memfree, release, next_of}
use usbloader.Heap.Layout.{Cell, free, used, Tiles, Tiles-le, last_free, last_free-le, IsHeap}
use usbloader.Heap.Alloc.Refines.{Served, Found-Site, memalloc_aligned_cases}
use usbloader.Heap.Alloc.After.{bounds}
use usbloader.Heap.Find.{Fit}
use usbloader.Heap.Free.Cells.{span, Tiles-span}
use usbloader.Heap.Free.Refines.{Held, IsHeap-Held, memfree_released, back_eq}
use usbloader.Heap.Owners.{Added, CellOf_lem}
use usbloader.Heap.Promise.{payloads-free, length-append_lt}
use usbloader.Heap.Payloads.{payloads}
use usbloader.Heap.Contents.{Clear, Other, place-Agree, release-Agree}

-- The payloads of a list have the same contents.
abbrev pub Untouched : List (ℕ × ℕ) → Bytes → Bytes → Type 0
Untouched [] m n = Unit {0}
Untouched ((p, size) ∷ ps) m n = Agree p (p + size) m n × Untouched ps m n

pub Untouched-append :
    (xs ys : List (ℕ × ℕ)) (m n : Bytes)
    → Untouched xs m n
    → Untouched ys m n
    → Untouched (xs ++ ys) m n
Untouched-append [] ys m n u v = v
Untouched-append (x ∷ xs) ys m n u v = (u.0, Untouched-append xs ys m n u.1 v)

pub Untouched-trans :
    (xs : List (ℕ × ℕ)) (m n v : Bytes) → Untouched xs m n → Untouched xs n v → Untouched xs m v
Untouched-trans [] m n v a b = tt
Untouched-trans ((p, k) ∷ xs) m n v a b = (Agree-trans a.0 b.0, Untouched-trans xs m n v a.1 b.1)

Untouched-tail :
    (xs : List (ℕ × ℕ)) (x : ℕ × ℕ) (ys : List (ℕ × ℕ)) (m n : Bytes)
    → Untouched (xs ++ x ∷ ys) m n
    → Untouched (xs ++ ys) m n
Untouched-tail [] x ys m n u = u.1
Untouched-tail (z ∷ xs) x ys m n u = (u.0, Untouched-tail xs x ys m n u.1)

-- What holds of a list with one payload more.
pub Untouched-Added :
    (p k : ℕ) (ps qs : List (ℕ × ℕ)) (m n : Bytes)
    → Added p k ps qs
    → Untouched qs m n
    → Untouched ps m n
Untouched-Added p k ps qs m n d u =
    rw d.without (Untouched-tail d.front (p, k) d.back m n (rw d.within at u))

pub Untouched-refl : (xs : List (ℕ × ℕ)) (m : Bytes) → Untouched xs m m
Untouched-refl [] m = tt
Untouched-refl ((p, n) ∷ xs) m = (Agree-refl p (p + n) m, Untouched-refl xs m)

-- Every payload of a row satisfies what each interval of the row that meets no free block does.
Untouched-behind :
    (m n : Bytes) (v : Bytes) (a p : ℕ) (cs : List Cell) (e q : ℕ)
    → Tiles v a p cs e q
    → ((x y : ℕ) → a ≤ x → Agree x y m n)
    → Untouched (payloads a cs) m n
unfolding payloads
Untouched-behind m n v a p [] e q t far = tt
Untouched-behind m n v a p (free s ∷ cs) e q t far =
    Untouched-behind m n v (a + s) (next_of v a) cs e q t.3 (λ x y le. far x y (omega arith))
Untouched-behind m n v a p (used off k ∷ cs) e q t far = (
  far (a + off + 8) (a + off + 8 + (k - 8)) (omega arith),
  Untouched-behind m n v (a + off + k) p cs e q t.3 (λ x y le. far x y (omega arith)),
)

-- In front of the address `e`: the payloads meet neither what is behind `e` nor the last free block.
Untouched-front :
    (m n : Bytes) (v : Bytes) (a p pv : ℕ) (cs : List Cell) (e q : ℕ)
    → Tiles v a p cs e q
    → (pv ≡ 0) ⊎ (pv + 8 ≤ a)
    → ((x y : ℕ) → y ≤ e → Other x y (last_free a pv cs) → Agree x y m n)
    → Untouched (payloads a cs) m n
unfolding payloads
Untouched-front m n v a p pv [] e q t low near = tt
Untouched-front m n v a p pv (free s ∷ cs) e q t low near =
    Untouched-front m n v (a + s) (next_of v a) a cs e q t.3 (inr (omega arith)) near
Untouched-front m n v a p pv (used off k ∷ cs) e q t low near =
    let end = Tiles-le v (a + off + k) p cs e q t.3 in
    let last = last_free-le v (a + off + k) p pv cs e q t.3 in
    (
      near (a + off + 8) (a + off + 8 + (k - 8)) (omega arith) (ground (arith, last, low, t.0)),
      Untouched-front m n v (a + off + k) p pv cs e q t.3 (ground arith) near,
    )

-- The payloads around an interval from `b` to `z`, where the last free block in front of `b` may be
-- written too.
Untouched-around :
    (m n v : Bytes) (lo p b z r e q r' : ℕ) (pre post : List Cell)
    → 0 < lo
    → b ≤ z
    → Tiles v lo p pre b r
    → Tiles v z r' post e q
    → ((x y : ℕ) → Clear x y b (z - b) → Other x y (last_free lo 0 pre) → Agree x y m n)
    → Untouched (payloads lo pre ++ payloads z post) m n
Untouched-around m n v lo p b z r e q r' pre post start le before after keep =
    let last = last_free-le v lo p 0 pre b r before in
    Untouched-append (payloads lo pre) (payloads z post) m n
      (Untouched-front m n v lo p 0 pre b r before (inl refl)
        (λ x y below other. keep x y (inr below) other))
      (Untouched-behind m n v z r' post e q after
        (λ x y above. keep x y (inl (omega arith)) (ground (arith, last, above, le))))

module _ {lo hi : ℕ} {h : Heap} {cs : List Cell} (k size fuel p : ℕ) (h_1 : Heap)
    (heap : IsHeap lo hi h cs) (small : k < 32) (enough : length cs < fuel)
    (call : memalloc_aligned fuel size (2 ^ k) h ≡ some (p, h_1)) (pos : 0 < size) where
  Served-Untouched :
      (s : Served heap k size small pos fuel) → Untouched (payloads lo cs) h.bytes s.after.bytes
  Served-Untouched s =
      let f : Fit = s.fit in
      let d = s.found in
      let at = Tiles-span h.bytes lo h.head f.pre f.at f.at d.before in
      let around =
        Untouched-around h.bytes s.after.bytes h.bytes lo h.head f.at (f.at + f.size) f.at hi 0
          (next_of h.bytes f.at) f.pre f.post heap.start (omega arith) d.before d.after
          (λ x y clear other. rw s.placed (
            place-Agree x y (Found-Site heap k size small pos f d) (last_free lo 0 f.pre) other
              (ground (arith, clear)))) in
      rw (d.parts, payloads-free lo f.size f.pre f.post, at) around

  -- In a heap of given cells, for a positive size, an alignment 2^k with k < 32 and more fuel than
  -- cells, memalloc_aligned changes no byte of a payload that was allocated before, whether it
  -- returns NULL or not.
  pub memalloc_aligned-Untouched : Untouched (payloads lo cs) h.bytes h_1.bytes
  memalloc_aligned-Untouched = elim (memalloc_aligned_cases heap k size small pos fuel enough) [
    | inl (full, refused) ↦
        let same : h ≡ h_1 = cc (call, refused) in
        rw (← same) (Untouched-refl (payloads lo cs) h.bytes)
    | inr s ↦ let same : s.after ≡ h_1 = cc (call, s.result) in rw (← same) (Served-Untouched s)
  ]

module _ {lo hi : ℕ} {h : Heap} {cs : List Cell} (k size fuel p : ℕ) (h_1 : Heap)
    (heap : IsHeap lo hi h cs) (small : k < 32) (enough : length cs < fuel)
    (call : memalloc_aligned fuel size (2 ^ k) h ≡ some (p, h_1)) (pos : 0 < size) where
  served-outside :
      (x y : ℕ)
      → (y ≤ lo) ⊎ (hi ≤ x)
      → (s : Served heap k size small pos fuel) → Agree x y h.bytes s.after.bytes
  served-outside x y far s =
      let f : Fit = s.fit in
      let site = Found-Site heap k size small pos f s.found in
      let inside = bounds site in
      let last = last_free-le h.bytes lo h.head 0 f.pre f.at f.at s.found.before in
      rw s.placed (
        place-Agree x y site (last_free lo 0 f.pre)
          (ground (arith, far, last, inside, s.found.least)) (ground (arith, far, inside)))

  -- Outside the heap no byte changes.
  pub memalloc_aligned-outside : (x y : ℕ) → (y ≤ lo) ⊎ (hi ≤ x) → Agree x y h.bytes h_1.bytes
  memalloc_aligned-outside x y far =
      elim (memalloc_aligned_cases heap k size small pos fuel enough) [
        | inl (full, refused) ↦
            let same : h ≡ h_1 = cc (call, refused) in rw (← same) (Agree-refl x y h.bytes)
        | inr s ↦
            let same : s.after ≡ h_1 = cc (call, s.result) in rw (← same) (served-outside x y far s)
      ]

released-Untouched :
    {lo hi : ℕ} {h : Heap} {pre post : List Cell} {off n r : ℕ}
    → Held lo hi h pre post (lo + span pre) off n r
    → Untouched
        (payloads lo pre ++ payloads (lo + span pre + off + n) post)
        h.bytes
        (release (lo + span pre + off + 8) (last_free lo 0 pre) r h).bytes
released-Untouched {lo} {hi} {h} {pre} {post} {off} {n} {r} held =
    let b : ℕ = lo + span pre in
    let g : Heap = release (b + off + 8) (last_free lo 0 pre) r h in
    Untouched-around h.bytes g.bytes h.bytes lo h.head b (b + off + n) r hi 0 r pre post held.start
      (omega arith) held.before held.after
      (λ x y clear other.
        release-Agree x y (b + off + 8) (last_free lo 0 pre) r h other
          (rw (back_eq held) (ground (arith, clear, held.least))))

-- In a heap of given cells, with more fuel than cells, memfree of the address of a payload changes
-- no byte of the other payloads.
pub memfree-Untouched :
    {lo hi : ℕ} {h h' : Heap} {cs : List Cell} (fuel p n : ℕ) (ps : List (ℕ × ℕ))
    → IsHeap lo hi h cs
    → length cs < fuel
    → Added p n ps (payloads lo cs)
    → memfree fuel p h ≡ some h'
    → Untouched ps h.bytes h'.bytes
memfree-Untouched {lo} {hi} {h} {h'} {cs} fuel p n ps heap enough d call =
    let c = CellOf_lem lo p n cs d.front d.back d.within in
    let cells : IsHeap lo hi h (c.pre ++ used c.off c.size ∷ c.post) = rw c.row at heap in
    let (r, held) = IsHeap-Held c.pre c.post c.off c.size cells in
    let short : length c.pre < fuel = omega (
      arith,
      enough,
      ap (λ xs. length xs) c.row,
      length-append_lt c.pre (used c.off c.size) c.post,
    ) in
    let freed = memfree_released fuel held short in
    let here = ap (λ (x : ℕ). memfree fuel x h) c.here in
    let same : release (lo + span c.pre + c.off + 8) (last_free lo 0 c.pre) r h ≡ h' =
      cc (here, freed, call) in
    rw (d.without, ← same, ← c.front, ← c.back) (released-Untouched held)
