-- ===== src/Heap/RoundTrip.antt =====
-- `memalloc_aligned` and then `memfree`.
use usbloader.Common.{
  ℕ, ◌+◌, ◌-◌, ◌^◌, ◌≤◌, ◌<◌, ◌≡◌, ◌≢◌, refl, sym, ap, ◌∙◌, inl, inr, some, List, [], ◌∷◌, ◌++◌,
  arith, leb, length, true, false, Bool-cases,
}
use mathlib.Core.List.{append_assoc}
use usbloader.Common.Bits.{pow_pos}
use usbloader.Heap.{Heap, memalloc_aligned, memfree}
use usbloader.Heap.Align.{round_up, round_up-le}
use usbloader.Heap.Alloc.{cut, cell_end, cells_after}
use usbloader.Heap.Alloc.Refines.{Served, memalloc_aligned_cases}
use usbloader.Heap.Find.{Fit}
use usbloader.Heap.Free.{put_free, absorb}
use usbloader.Heap.Free.Cells.{span, span-append, Tiles-span, put_free-append, put_free-EndsUsed}
use usbloader.Heap.Free.Refines.{memfree-put_free}
use usbloader.Heap.Layout.{Cell, free, used, IsHeap, Coalesced, StartsUsed}
use usbloader.Heap.Layout.Ends.{EndsUsed-append}

absorb-cells_after :
    (size p x end s : ℕ) (post : List Cell)
    → p + size ≤ end
    → x + (end - cell_end size p end) ≡ s
    → StartsUsed post
    → absorb x (cells_after size p end post) ≡ free s ∷ post
absorb-cells_after size p x end s post high sum u = elim (Bool-cases (leb 8 (end - (p + size)))) [
  | inl room ↦
      let e : x + (end - (p + size)) ≡ s = ground arith in rw room (ap (λ (t : ℕ). free t ∷ post) e)
  | inr tight ↦ let e : x ≡ s = ground arith in rw (tight, e) (alone s post u)
]
  where
    alone : (s : ℕ) (post : List Cell) → StartsUsed post → absorb s post ≡ free s ∷ post
    alone s [] u = refl
    alone s (free t ∷ post) u = absurd u
    alone s (used off n ∷ post) u = refl

length-le_append : (xs ys : List Cell) → length xs ≤ length (xs ++ ys)
length-le_append [] ys = omega arith
length-le_append (x ∷ xs) ys = omega (arith, length-le_append xs ys)

length-append_one :
    (xs : List Cell) (y z : Cell) (ys : List Cell) → length (xs ++ y ∷ []) ≤ length (xs ++ z ∷ ys)
length-append_one [] y z ys = omega arith
length-append_one (x ∷ xs) y z ys = omega (arith, length-append_one xs y z ys)

-- The row in which a payload is placed, seen from the payload's cell.
record Placed (lo size p : ℕ) (f : Fit) : Type 0 where
  front : List Cell
  off : ℕ
  n : ℕ
  back : List Cell
  row : cut size p f ≡ front ++ used off n ∷ back
  here : lo + span front + off + 8 ≡ p
  short : length front ≤ length (f.pre ++ free f.size ∷ f.post)
  undone : put_free front (n + off) back ≡ f.pre ++ free f.size ∷ f.post

module _ (lo size p : ℕ) (f : Fit) (at : lo + span f.pre ≡ f.at) (low : f.at + 8 ≤ p)
    (high : p + size ≤ f.at + f.size) (c : Coalesced (f.pre ++ free f.size ∷ f.post))
    (u : StartsUsed f.post) where
  abbrev end : ℕ
  end = f.at + f.size

  abbrev z : ℕ
  z = cell_end size p end

  abbrev gap : ℕ
  gap = p - f.at - 8

  abbrev back : List Cell
  back = cells_after size p end f.post

  z_bounds : (p + size ≤ z) × (z ≤ end)
  z_bounds = ground arith

  apart-Placed : leb 8 gap ≡ true → Placed lo size p f
  unfolding cut
  apart-Placed room =
      let big : 8 ≤ gap = ground arith in
      record {
        front = f.pre ++ free gap ∷ [];
        off = 0;
        n = z + 8 - p;
        back = back;
        row = rw room (sym (append_assoc f.pre (free gap ∷ []) (used 0 (z + 8 - p) ∷ back)));
        here = ground (arith, span-append f.pre (free gap ∷ []), at);
        short = length-append_one f.pre (free gap) (free f.size) f.post;
        undone =
            put_free-append f.pre gap (z + 8 - p + 0) back
            ∙ ap (λ cs. f.pre ++ cs)
                (absorb-cells_after size p (gap + (z + 8 - p + 0)) end f.size f.post high
                  (omega (arith, z_bounds)) u);
      }

  joined-Placed : leb 8 gap ≡ false → Placed lo size p f
  unfolding cut
  joined-Placed tight = record {
    front = f.pre;
    off = gap;
    n = z + 8 - p;
    back = back;
    row = rw tight refl;
    here = omega (arith, at);
    short = length-le_append f.pre (free f.size ∷ f.post);
    undone =
        put_free-EndsUsed f.pre (z + 8 - p + gap) back (EndsUsed-append f.pre f.size f.post c)
        ∙ ap (λ cs. f.pre ++ cs)
            (absorb-cells_after size p (z + 8 - p + gap) end f.size f.post high
              (omega (arith, z_bounds)) u);
  }

  cut-Placed : Placed lo size p f
  cut-Placed = elim (Bool-cases (leb 8 gap)) [
    | inl room ↦ apart-Placed room
    | inr tight ↦ joined-Placed tight
  ]

StartsUsed-after :
    (pre : List Cell) (s : ℕ) (post : List Cell)
    → Coalesced (pre ++ free s ∷ post)
    → StartsUsed post
StartsUsed-after [] s post c = c.0
StartsUsed-after (free x ∷ pre) s post c = StartsUsed-after pre s post c.1
StartsUsed-after (used off n ∷ pre) s post c = StartsUsed-after pre s post c

-- In a heap of given cells, for a positive size, an alignment 2^k with k < 32 and more fuel than
-- cells, memfree of a pointer other than NULL that memalloc_aligned returned succeeds and gives
-- back a heap of the same cells.
pub memfree-memalloc_aligned :
    {lo hi : ℕ} {h : Heap} {cs : List Cell} (k size fuel p : ℕ) (h₁ : Heap)
    → IsHeap lo hi h cs
    → k < 32
    → 0 < size
    → length cs < fuel
    → memalloc_aligned fuel size (2 ^ k) h ≡ some (p, h₁)
    → p ≢ 0
    → (h₂ : Heap) × (memfree fuel p h₁ ≡ some h₂) × IsHeap lo hi h₂ cs
memfree-memalloc_aligned {lo} {hi} {h} {cs} k size fuel p h₁ heap small pos enough call ne =
    elim (memalloc_aligned_cases heap k size small pos fuel enough) [
      | inl (full, refused) ↦ absurd (ne (cc (sym call, refused)))
      | inr s ↦ undo s
    ]
  where
    undo :
        Served heap k size small pos fuel
        → (h₂ : Heap) × (memfree fuel p h₁ ≡ some h₂) × IsHeap lo hi h₂ cs
    undo s =
        let f : Fit = s.fit in
        let q : ℕ = round_up (f.at + 8) (2 ^ k) in
        let same : p ≡ q = cc (sym call, s.result) in
        let same_heap : h₁ ≡ s.after = cc (sym call, s.result) in
        let c : Coalesced (f.pre ++ free f.size ∷ f.post) = rw s.found.parts at heap.coalesced in
        let d =
          cut-Placed lo size q f (Tiles-span h.bytes lo h.head f.pre f.at f.at s.found.before)
            (round_up-le (f.at + 8) (2 ^ k) (pow_pos k)).0 (ground (arith, s.found.fit)) c
            (StartsUsed-after f.pre f.size f.post c) in
        let cells : IsHeap lo hi s.after (d.front ++ used d.off d.n ∷ d.back) =
          rw d.row at s.cells in
        let bound : length cs ≡ length (f.pre ++ free f.size ∷ f.post) =
          ap (λ xs. length xs) s.found.parts in
        let (h₂, freed, whole) =
          memfree-put_free d.front d.back d.off d.n fuel cells (omega (arith, d.short, bound)) in
        (
          h₂,
          ap (λ (x : ℕ). memfree fuel x h₁) (same ∙ sym d.here)
              ∙ ap (λ g. memfree fuel (lo + span d.front + d.off + 8) g) same_heap
              ∙ freed,
          rw s.found.parts (rw d.undone at whole),
        )
