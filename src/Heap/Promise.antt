-- ===== src/Heap/Promise.antt =====
-- What the allocator promises its callers, in terms of payloads.
use native.Mathlib.Nat.{mul-mod_left}
use usbloader.Common.{
  ℕ, ◌+◌, ◌-◌, ◌/◌, ◌%◌, ◌^◌, ◌≤◌, ◌<◌, ◌≡◌, ◌≢◌, refl, ◌∙◌, sym, ap, inl, inr, Option, none, some,
  List, [], ◌∷◌, ◌++◌, arith, length, length-append, Bool-cases,
}
use usbloader.Common.Bits.{pow_pos}
use usbloader.Memory.{Bytes}
use usbloader.Heap.{Heap, memalloc, memalloc_aligned, memfree, next_of}
use usbloader.Heap.Align.{round_up, round_up-le, fits}
use usbloader.Heap.Alloc.{cut, cell_end}
use usbloader.Heap.Alloc.Refines.{Served, memalloc_aligned_cases}
use usbloader.Heap.Find.{Fit, first_fit, behind}
use usbloader.Heap.Free.{put_free}
use usbloader.Heap.Free.Cells.{span, Tiles-span}
use usbloader.Heap.Free.Refines.{memfree-put_free}
use usbloader.Heap.Layout.{Cell, free, used, Tiles, IsHeap}
use usbloader.Heap.Owners.{Added, CellOf_lem}
use usbloader.Heap.Payloads.{payloads, payloads-append, payloads-cut, payloads-put_free}

-- Payloads that lie apart from one another between `lo` and `hi`, each behind its header.
abbrev pub Separate : (lo hi : ℕ) → List (ℕ × ℕ) → Type 0
Separate lo hi [] = lo ≤ hi
Separate lo hi ((p, n) ∷ ps) = (lo + 8 ≤ p) × (0 < n) × Separate (p + n) hi ps

Separate-mono : (a b hi : ℕ) (ps : List (ℕ × ℕ)) → a ≤ b → Separate b hi ps → Separate a hi ps
Separate-mono a b hi [] le s = omega arith
Separate-mono a b hi ((p, n) ∷ ps) le s = (omega arith, s.1, s.2)

Tiles-Separate :
    (m : Bytes) (a p : ℕ) (cs : List Cell) (e q : ℕ)
    → Tiles m a p cs e q
    → Separate a e (payloads a cs)
unfolding payloads
Tiles-Separate m a p [] e q t = omega arith
Tiles-Separate m a p (free s ∷ cs) e q t =
    Separate-mono a (a + s) e (payloads (a + s) cs) (omega arith)
      (Tiles-Separate m (a + s) (next_of m a) cs e q t.3)
Tiles-Separate m a p (used off n ∷ cs) e q t =
    let end : a + off + 8 + (n - 8) ≡ a + off + n = omega (arith, t.0) in
    (omega arith, omega (arith, t.0), rw end (Tiles-Separate m (a + off + n) p cs e q t.3))

-- No two payloads of a heap overlap, and none reaches into a header or out of the heap.
pub IsHeap-Separate :
    {lo hi : ℕ} {h : Heap} {cs : List Cell} → IsHeap lo hi h cs → Separate lo hi (payloads lo cs)
IsHeap-Separate {lo} {hi} {h} {cs} heap = Tiles-Separate h.bytes lo h.head cs hi 0 heap.tiles

-- A new payload in a heap that keeps all the others.
pub record Allocated (lo hi size align p : ℕ) (h : Heap) (ps : List (ℕ × ℕ)) : Type 0 where
  pub cells : List Cell
  pub heap : IsHeap lo hi h cells
  pub aligned : p % align ≡ 0
  pub room : ℕ
  pub enough : size ≤ room
  pub added : Added p room ps (payloads lo cells)

round_up-mod : (x n : ℕ) → 0 < n → round_up x n % n ≡ 0
round_up-mod x n pos = mul-mod_left ((x + (n - 1)) / n) n

pub payloads-free :
    (a s : ℕ) (pre post : List Cell)
    → payloads a (pre ++ free s ∷ post) ≡ payloads a pre ++ payloads (a + span pre + s) post
unfolding payloads
payloads-free a s pre post = payloads-append a pre (free s ∷ post)

module _ {lo hi : ℕ} {h : Heap} {cs : List Cell} (k size fuel p : ℕ) (h₁ : Heap)
    (heap : IsHeap lo hi h cs) (small : k < 32) (pos : 0 < size) (enough : length cs < fuel)
    (call : memalloc_aligned fuel size (2 ^ k) h ≡ some (p, h₁)) where
  Served-Allocated :
      (s : Served heap k size small pos fuel)
      → Allocated lo hi size (2 ^ k) (round_up (s.fit.at + 8) (2 ^ k)) s.after (payloads lo cs)
  Served-Allocated s =
      let f : Fit = s.fit in
      let q : ℕ = round_up (f.at + 8) (2 ^ k) in
      let at = Tiles-span h.bytes lo h.head f.pre f.at f.at s.found.before in
      let low = (round_up-le (f.at + 8) (2 ^ k) (pow_pos k)).0 in
      let high : q + size ≤ f.at + f.size = ground (arith, s.found.fit) in
      record {
        cells = cut size q f;
        heap = s.cells;
        aligned = round_up-mod (f.at + 8) (2 ^ k) (pow_pos k);
        room = cell_end size q (f.at + f.size) - q;
        enough = ground arith;
        added = record {
          front = payloads lo f.pre;
          back = payloads (f.at + f.size) f.post;
          without = rw s.found.parts (rw (← at) (payloads-free lo f.size f.pre f.post));
          within = payloads-cut lo size q f at low high;
        };
      }

  -- In a heap of given cells, for a positive size, an alignment 2^k with k < 32 and more fuel than
  -- cells, a pointer other than NULL that memalloc_aligned returns is a multiple of the alignment
  -- and heads a payload of at least size bytes in a heap that has every earlier payload unchanged.
  pub memalloc_aligned-Allocated : p ≢ 0 → Allocated lo hi size (2 ^ k) p h₁ (payloads lo cs)
  memalloc_aligned-Allocated ne = elim (memalloc_aligned_cases heap k size small pos fuel enough) [
    | inl (full, refused) ↦ absurd (ne (cc (sym call, refused)))
    | inr s ↦
        let same : round_up (s.fit.at + 8) (2 ^ k) ≡ p = cc (call, s.result) in
        let same_heap : s.after ≡ h₁ = cc (call, s.result) in
        rw (← same, ← same_heap) (Served-Allocated s)
  ]

-- No free cell has room for `size` bytes at that alignment.
abbrev pub NoRoom : (size align a : ℕ) → List Cell → Type 0
NoRoom size align a [] = Unit {0}
NoRoom size align a (free s ∷ cs) =
    (a + s < round_up (a + 8) align + size) × NoRoom size align (a + s) cs
NoRoom size align a (used off n ∷ cs) = NoRoom size align (a + off + n) cs

behind-eq-none : (c : Cell) (o : Option Fit) → behind c o ≡ none → o ≡ none
behind-eq-none c none h = refl
behind-eq-none c (some f) h = cc

first_fit-none :
    (size align a : ℕ) (cs : List Cell) → first_fit size align a cs ≡ none → NoRoom size align a cs
unfolding first_fit
first_fit-none size align a [] h = tt
first_fit-none size align a (free s ∷ cs) h = elim (Bool-cases (fits size align a s)) [
  | inl yes' ↦ cc (rw yes' at h)
  | inr no' ↦ (
    ground (arith, no'),
    first_fit-none size align (a + s) cs
        (behind-eq-none (free s) (first_fit size align (a + s) cs) (rw no' at h)),
  )
]
first_fit-none size align a (used off n ∷ cs) h =
    first_fit-none size align (a + off + n) cs
      (behind-eq-none (used off n) (first_fit size align (a + off + n) cs) h)

module _ {lo hi : ℕ} {h : Heap} {cs : List Cell} (k size fuel p : ℕ) (h₁ : Heap)
    (heap : IsHeap lo hi h cs) (small : k < 32) (pos : 0 < size) (enough : length cs < fuel)
    (call : memalloc_aligned fuel size (2 ^ k) h ≡ some (p, h₁)) where
  -- In a heap of given cells, for a positive size, an alignment 2^k with k < 32 and more fuel than
  -- cells, memalloc_aligned returns NULL only if no free cell has room for the aligned payload, and
  -- then the heap is unchanged.
  pub memalloc_aligned-null : p ≡ 0 → NoRoom size (2 ^ k) lo cs × (h₁ ≡ h)
  memalloc_aligned-null null = elim (memalloc_aligned_cases heap k size small pos fuel enough) [
    | inl (full, refused) ↦ (first_fit-none size (2 ^ k) lo cs full, cc (call, refused))
    | inr s ↦
        let same : round_up (s.fit.at + 8) (2 ^ k) ≡ p = cc (call, s.result) in
        let low = (round_up-le (s.fit.at + 8) (2 ^ k) (pow_pos k)).0 in
        absurd (omega (arith, same, low, null))
  ]

-- A heap with the payloads `ps`.
pub record HasPayloads (lo hi : ℕ) (h : Heap) (ps : List (ℕ × ℕ)) : Type 0 where
  pub cells : List Cell
  pub heap : IsHeap lo hi h cells
  pub row : payloads lo cells ≡ ps

pub length-append_lt :
    (xs : List Cell) (y : Cell) (ys : List Cell) → length xs < length (xs ++ y ∷ ys)
length-append_lt xs y ys = omega (arith, length-append {0} xs (y ∷ ys))

-- In a heap of given cells, with more fuel than cells, memfree of the address of a payload succeeds
-- and leaves a heap whose payloads are the others, each where it was.
pub memfree-HasPayloads :
    {lo hi : ℕ} {h : Heap} {cs : List Cell} (fuel p n : ℕ) (ps : List (ℕ × ℕ))
    → IsHeap lo hi h cs
    → length cs < fuel
    → Added p n ps (payloads lo cs)
    → (h' : Heap) × (memfree fuel p h ≡ some h') × HasPayloads lo hi h' ps
memfree-HasPayloads {lo} {hi} {h} {cs} fuel p n ps heap enough d =
    let c = CellOf_lem lo p n cs d.front d.back d.within in
    let cells : IsHeap lo hi h (c.pre ++ used c.off c.size ∷ c.post) = rw c.row at heap in
    let bound = ap (λ xs. length xs) c.row in
    let (h', freed, whole) =
      memfree-put_free c.pre c.post c.off c.size fuel cells
        (omega (arith, bound, length-append_lt c.pre (used c.off c.size) c.post)) in
    let sum : lo + span c.pre + (c.size + c.off) ≡ lo + span c.pre + c.off + c.size = omega arith in
    (
      h',
      ap (λ (x : ℕ). memfree fuel x h) (sym c.here) ∙ freed,
      record {
        cells = put_free c.pre (c.size + c.off) c.post;
        heap = whole;
        row =
            payloads-put_free lo (c.size + c.off) c.pre c.post
            ∙ (rw (sum, c.front, c.back) (sym d.without));
      },
    )

-- `memalloc` is `memalloc_aligned` at four bytes.
pub memalloc_lem :
    (fuel size : ℕ) (h : Heap) → memalloc fuel size h ≡ memalloc_aligned fuel size (2 ^ 2) h
unfolding memalloc
memalloc_lem fuel size h = refl
