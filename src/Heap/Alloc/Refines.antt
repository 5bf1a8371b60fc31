-- ===== src/Heap/Alloc/Refines.antt =====
-- `memalloc_aligned` on memory does what `allocate` does on cells.
use usbloader.Common.{
  ◌⊎◌, inl, inr, ℕ, ◌+◌, ◌^◌, ◌<◌, ◌≡◌, refl, false, Option, none, some, List, ◌∷◌, ◌++◌, arith,
  ◌==◌, length, ==_of_gt,
}
use usbloader.Common.Bits.{pow_pos}
use usbloader.Common.Words.{sub32-eq}
use usbloader.Heap.{Heap, place, memalloc_aligned, next_of}
use usbloader.Heap.Align.{round_up, round_up-le, aligned_mem_start-fits}
use usbloader.Heap.Alloc.{cut, cell_end, cells_after, cells_before}
use usbloader.Heap.Alloc.After.{Site, bounds, split_after-Behind}
use usbloader.Heap.Alloc.Before.{split_before-Tiles}
use usbloader.Heap.Find.{Fit, Found, Outcome, first_fit, find_block-first_fit}
use usbloader.Heap.Layout.{Cell, free, Tiles, Tiles-le, last_free, IsHeap, Coalesced}
use usbloader.Heap.Layout.Ends.{EndsUsed-append, Coalesced-replace}

-- The abstract allocator: the payload's address and the new row of cells.
unfoldable pub allocate : (size align lo : ℕ) → List Cell → Option (ℕ × List Cell)
unfolding first_fit cut
allocate size align lo cs = elim (first_fit size align lo cs) [
  | none ↦ none
  | some f ↦ some (round_up (f.at + 8) align, cut size (round_up (f.at + 8) align) f)
]

-- A call that returns NULL and changes nothing, or a payload in a heap of the given cells.
abbrev pub Refines : (lo hi : ℕ) → Heap → Option (ℕ × List Cell) → Option (ℕ × Heap) → Type 0
Refines lo hi h none r = r ≡ some (0, h)
Refines lo hi h (some (p, cs)) r = (h' : Heap) × (r ≡ some (p, h')) × IsHeap lo hi h' cs

module _ {lo hi : ℕ} {h : Heap} {pre post : List Cell} {b s p size : ℕ}
    (site : Site lo hi h pre post b s p size) where
  place-Tiles :
      Coalesced (pre ++ free s ∷ post)
      → Tiles
          (place size (last_free lo 0 pre) b p h).bytes
          lo
          (place size (last_free lo 0 pre) b p h).head
          (pre ++ cells_before b p (cell_end size p (b + s)) (cells_after size p (b + s) post))
          hi
          0
  unfolding place
  place-Tiles c =
      let (count, (next, word, cases, behind)) = split_after-Behind site in
      let bound = Tiles-le h.bytes lo h.head pre b b site.before in
      let top = Tiles-le h.bytes (b + s) (next_of h.bytes b) post hi 0 site.after in
      let header_at = sub32-eq p 8 (omega (arith, site)) (omega (arith, site)) in
      rw (header_at, count)
        (split_before-Tiles behind site.start site.top site.low (ground (arith, site)) cases word
          (EndsUsed-append pre s post c))

Coalesced-cut :
    (size p b s : ℕ) (post : List Cell)
    → Coalesced (free s ∷ post)
    → Coalesced (cells_before b p (cell_end size p (b + s)) (cells_after size p (b + s) post))
Coalesced-cut size p b s post c = ground arith

module _ {lo hi : ℕ} {h : Heap} {cs : List Cell} (heap : IsHeap lo hi h cs) (k size : ℕ)
    (small : k < 32) (pos : 0 < size) where
  abbrev align : ℕ
  align = 2 ^ k

  pub Found-Site :
      (f : Fit)
      → Found size align h.bytes lo h.head cs hi f
      → Site lo hi h f.pre f.post f.at f.size (round_up (f.at + 8) align) size
  Found-Site f d = record {
    start = heap.start;
    top = heap.top;
    before = d.before;
    held = d.held;
    after = d.after;
    low = (round_up-le (f.at + 8) align (pow_pos k)).0;
    high = ground (arith, d.fit);
    pos = pos;
  }

  place-IsHeap :
      (f : Fit)
      → Found size align h.bytes lo h.head cs hi f
      → IsHeap lo hi
          (place size (last_free lo 0 f.pre) f.at (round_up (f.at + 8) align) h)
          (cut size (round_up (f.at + 8) align) f)
  unfolding cut
  place-IsHeap f d =
      let p = round_up (f.at + 8) align in
      let c : Coalesced (f.pre ++ free f.size ∷ f.post) = rw (← d.parts) heap.coalesced in
      record {
        start = heap.start;
        top = heap.top;
        tiles = place-Tiles (Found-Site f d) c;
        coalesced =
            Coalesced-replace f.pre f.size f.post
              (cells_before f.at p (cell_end size p (f.at + f.size))
                (cells_after size p (f.at + f.size) f.post))
              c (Coalesced-cut size p f.at f.size f.post);
      }

  size_set : (size == 0) ≡ false
  size_set = ==_of_gt size 0 pos

  align_set : (align == 0) ≡ false
  align_set = ==_of_gt align 0 (pow_pos k)

  -- The call's result, by what the search finds.
  memalloc_aligned_placed :
      (fuel : ℕ) (f : Fit)
      → Outcome fuel size align 0 h.head lo hi h.bytes cs (some f)
      → memalloc_aligned fuel size align h
        ≡ some (
          round_up (f.at + 8) align,
          place size (last_free lo 0 f.pre) f.at (round_up (f.at + 8) align) h,
        )
  unfolding memalloc_aligned
  memalloc_aligned_placed fuel f (d, found) =
      let site = Found-Site f d in
      let inside = bounds site in
      let there =
        aligned_mem_start-fits h.bytes k f.at f.size size small (omega (arith, heap, inside))
          d.least (omega (arith, heap, inside)) d.held pos d.fit in
      let block : (f.at == 0) ≡ false = ==_of_gt f.at 0 (omega (arith, heap, inside)) in
      let given : (round_up (f.at + 8) align == 0) ≡ false = ==_of_gt _ 0 (omega (arith, site)) in
      rw (size_set, align_set, found, block, there, given) refl

  Refines-Outcome :
      (fuel : ℕ) (o : Option Fit)
      → Outcome fuel size align 0 h.head lo hi h.bytes cs o
      → Refines lo hi h
          (elim o [
            | none ↦ none
            | some f ↦ some (round_up (f.at + 8) align, cut size (round_up (f.at + 8) align) f)
          ])
          (memalloc_aligned fuel size align h)
  unfolding memalloc_aligned
  Refines-Outcome fuel none found = rw (size_set, align_set, found) refl
  Refines-Outcome fuel (some f) d = (
    place size (last_free lo 0 f.pre) f.at (round_up (f.at + 8) align) h,
    memalloc_aligned_placed fuel f d,
    place-IsHeap f d.0,
  )

  -- In a heap of given cells below 2^32, for a positive size, an alignment 2^k with k < 32 and more
  -- fuel than cells, memalloc_aligned does what the first-fit specification does on the cells: NULL
  -- and no change where no free cell has room, otherwise the aligned payload in the first free cell
  -- that has room and a heap of the cells cut accordingly.
  pub memalloc_aligned-allocate :
      (fuel : ℕ)
      → length cs < fuel
      → Refines lo hi h (allocate size align lo cs) (memalloc_aligned fuel size align h)
  unfolding allocate
  memalloc_aligned-allocate fuel enough = Refines-Outcome fuel (first_fit size align lo cs) (
      find_block-first_fit size k h.bytes hi small pos heap.top fuel 0 h.head lo cs heap.start
        enough heap.tiles)

  -- A served call, with the free cell that it took.
  pub record Served (fuel : ℕ) : Type 0 where
    pub fit : Fit
    pub found : Found size align h.bytes lo h.head cs hi fit
    pub after : Heap
    pub result : memalloc_aligned fuel size align h ≡ some (round_up (fit.at + 8) align, after)
    pub placed : after ≡ place size (last_free lo 0 fit.pre) fit.at (round_up (fit.at + 8) align) h
    pub cells : IsHeap lo hi after (cut size (round_up (fit.at + 8) align) fit)

  -- A refused call finds no free cell with room, and changes nothing.
  abbrev Answer : ℕ → Type 0
  Answer fuel =
      ((first_fit size align lo cs ≡ none) × (memalloc_aligned fuel size align h ≡ some (0, h)))
      ⊎ Served fuel

  served :
      (fuel : ℕ) (o : Option Fit)
      → first_fit size align lo cs ≡ o
      → Outcome fuel size align 0 h.head lo hi h.bytes cs o
      → Refines lo hi h
          (elim o [
            | none ↦ none
            | some f ↦ some (round_up (f.at + 8) align, cut size (round_up (f.at + 8) align) f)
          ])
          (memalloc_aligned fuel size align h)
      → Answer fuel
  served fuel none e found r = inl (e, r)
  served fuel (some f) e d (h', result, cells) = inr (record {
    fit = f;
    found = d.0;
    after = h';
    result = result;
    placed = cc (result, memalloc_aligned_placed fuel f d);
    cells = cells;
  })

  pub memalloc_aligned_cases : (fuel : ℕ) → length cs < fuel → Answer fuel
  memalloc_aligned_cases fuel enough =
      let o =
        find_block-first_fit size k h.bytes hi small pos heap.top fuel 0 h.head lo cs heap.start
          enough heap.tiles in
      served fuel (first_fit size align lo cs) refl o
        (Refines-Outcome fuel (first_fit size align lo cs) o)
