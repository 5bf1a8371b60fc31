-- ===== src/Heap/Reach.antt =====
-- A program that uses the heap: it starts with `init_memory`, allocates, frees payloads that it
-- holds, and writes bytes of payloads that it holds, in any order.
use usbloader.Common.{
  ℕ, zero, suc, ◌+◌, ◌-◌, ◌^◌, ◌≤◌, ◌<◌, ◌≡◌, refl, ◌∙◌, inl, inr, some, List, [], ◌∷◌, ◌++◌, arith,
  length, length-append,
}
use usbloader.Common.Words.{sub32, sub32-eq}
use usbloader.Memory.{
  Bytes, Agree, Agree-part, Agree-store8, store8, store32, load32-Agree, load32-store32,
  load32-store32_ne,
}
use usbloader.Heap.{Heap, init_memory, memalloc_aligned, memfree, next_of}
use usbloader.Heap.Alloc.Refines.{memalloc_aligned_cases}
use usbloader.Heap.Free.Cells.{span, Tiles-split}
use usbloader.Heap.Free.Refines.{memfree-put_free}
use usbloader.Heap.Layout.{Cell, free, used, Tiles, Tiles-Agree, Tiles-append, IsHeap}

-- `init_memory` makes the whole heap one free cell.
pub init_memory-IsHeap :
    (lo hi : ℕ) (h : Heap)
    → 0 < lo
    → lo + 8 ≤ hi
    → hi < 2 ^ 32
    → IsHeap lo hi (init_memory lo hi h) (free (hi - lo) ∷ [])
unfolding init_memory
init_memory-IsHeap lo hi h start room top =
    let size = sub32-eq hi lo (omega arith) top in
    record {
      start = start;
      top = top;
      tiles = (
        refl,
        omega arith,
        load32-store32_ne (store32 h.bytes lo (sub32 hi lo)) (lo + 4) 0 lo (omega arith)
            ∙ load32-store32 h.bytes lo (sub32 hi lo) (omega (arith, size))
            ∙ size,
        (omega arith, load32-store32 (store32 h.bytes lo (sub32 hi lo)) (lo + 4) 0 (omega arith)),
      );
      coalesced = (tt, tt);
    }

-- No row has more cells than bytes, so the length of the heap is fuel enough for every loop.
pub length-le-span :
    (m : Bytes) (a p : ℕ) (cs : List Cell) (e q : ℕ) → Tiles m a p cs e q → a + length cs ≤ e
length-le-span m a p [] e q t = omega arith
length-le-span m a p (free s ∷ cs) e q t =
    omega (arith, length-le-span m (a + s) (next_of m a) cs e q t.3)
length-le-span m a p (used off n ∷ cs) e q t =
    omega (arith, length-le-span m (a + off + n) p cs e q t.3)

abbrev pub enough : (lo hi : ℕ) → ℕ
enough lo hi = suc (hi - lo)

pub enough-lt :
    {lo hi : ℕ} {h : Heap} {cs : List Cell} → IsHeap lo hi h cs → length cs < enough lo hi
enough-lt {lo} {hi} {h} {cs} heap =
    omega (arith, length-le-span h.bytes lo h.head cs hi 0 heap.tiles)

-- In a heap whose row has a used cell, memory that differs only inside the payload of that cell is
-- a heap of the same cells.
pub payload_write-IsHeap :
    {lo hi : ℕ} {h : Heap} (pre post : List Cell) (off n : ℕ) (m : Bytes)
    → IsHeap lo hi h (pre ++ used off n ∷ post)
    → Agree lo (lo + span pre + off + 8) h.bytes m
    → Agree (lo + span pre + off + n) hi h.bytes m
    → IsHeap lo hi (record h { bytes = m }) (pre ++ used off n ∷ post)
payload_write-IsHeap {lo} {hi} {h} pre post off n m heap below above =
    let (r, before, (least, size, start_off, after)) =
      Tiles-split h.bytes lo h.head pre (used off n ∷ post) hi 0 heap.tiles in
    let b : ℕ = lo + span pre in
    record {
      start = heap.start;
      top = heap.top;
      tiles =
          Tiles-append m lo h.head pre (used off n ∷ post) b r hi 0
            (Tiles-Agree h.bytes m lo h.head pre b r
              (Agree-part lo b below (omega arith) (omega arith)) before)
            (
              least,
              load32-Agree (b + off) below (omega arith) (omega arith) ∙ size,
              load32-Agree (b + off + 4) below (omega arith) (omega arith) ∙ start_off,
              Tiles-Agree h.bytes m (b + off + n) r post hi 0 above after,
            );
      coalesced = heap.coalesced;
    }

-- One action of the program. A payload that it holds is that of a used cell.
pub data Step (lo hi : ℕ) (h : Heap) : Heap → Type 0 where
  alloc :
      {h' : Heap} (size k p : ℕ)
      → k < 32
      → memalloc_aligned (enough lo hi) size (2 ^ k) h ≡ some (p, h')
      → Step lo hi h h'
  release :
      {h' : Heap} (pre post : List Cell) (off n : ℕ)
      → IsHeap lo hi h (pre ++ used off n ∷ post)
      → memfree (enough lo hi) (lo + span pre + off + 8) h ≡ some h'
      → Step lo hi h h'
  write :
      (pre post : List Cell) (off n x v : ℕ)
      → IsHeap lo hi h (pre ++ used off n ∷ post)
      → lo + span pre + off + 8 ≤ x
      → x < lo + span pre + off + n
      → Step lo hi h (record h { bytes = store8 h.bytes x v })

pub data Reach (lo hi : ℕ) : Heap → Type 0 where
  start : (h : Heap) → Reach lo hi (init_memory lo hi h)
  next : {h h' : Heap} → Reach lo hi h → Step lo hi h h' → Reach lo hi h'

pub record Valid (lo hi : ℕ) (h : Heap) : Type 0 where
  pub cells : List Cell
  pub heap : IsHeap lo hi h cells

memalloc_aligned_zero : (fuel align : ℕ) (h : Heap) → memalloc_aligned fuel 0 align h ≡ some (0, h)
unfolding memalloc_aligned
memalloc_aligned_zero fuel align h = refl

Step-Valid : {lo hi : ℕ} {h h' : Heap} → Step lo hi h h' → Valid lo hi h → Valid lo hi h'
Step-Valid {lo} {hi} {h} (alloc {h'} zero k p small call) v =
    let same : h ≡ h' = cc (call, memalloc_aligned_zero (enough lo hi) (2 ^ k) h) in rw (← same) v
Step-Valid {lo} {hi} {h} (alloc {h'} (suc size) k p small call) v =
    elim (memalloc_aligned_cases v.heap k (suc size) small (omega arith) (enough lo hi)
      (enough-lt v.heap)) [
        | inl (full, refused) ↦ let same : h ≡ h' = cc (call, refused) in rw (← same) v
        | inr s ↦
            let same : s.after ≡ h' = cc (call, s.result) in
            rw (← same) (record { cells = _; heap = s.cells })
      ]
Step-Valid {lo} {hi} {h} (release {h'} pre post off n heap call) v =
    let short = enough-lt heap in
    let (g, freed, whole) =
      memfree-put_free pre post off n (enough lo hi) heap
        (omega (arith, short, length-append {0} pre (used off n ∷ post))) in
    let same : g ≡ h' = cc (call, freed) in rw (← same) (record { cells = _; heap = whole })
Step-Valid {lo} {hi} {h} (write pre post off n x b heap low high) v = record {
  cells = _;
  heap =
      payload_write-IsHeap pre post off n (store8 h.bytes x b) heap
        (Agree-store8 lo (lo + span pre + off + 8) h.bytes x b (inr low))
        (Agree-store8 (lo + span pre + off + n) hi h.bytes x b (inl high));
}

-- On a heap that starts above 0, has at least 8 bytes and ends below 2^32, every state reached from
-- init_memory by aligned allocations, frees of held payloads and writes of bytes inside held
-- payloads is a row of cells that tiles the heap, with the free list in memory linking exactly the
-- free cells and no two of them adjacent.
pub Reach-Valid :
    {lo hi : ℕ} {h : Heap} → 0 < lo → lo + 8 ≤ hi → hi < 2 ^ 32 → Reach lo hi h → Valid lo hi h
Reach-Valid {lo} {hi} low room top (start h) = record {
  cells = _;
  heap = init_memory-IsHeap lo hi h low room top;
}
Reach-Valid low room top (next r st) = Step-Valid st (Reach-Valid low room top r)

-- In every valid heap memalloc_aligned returns a result for every size and every alignment 2^k with
-- k < 32, with the heap's bytes plus one as fuel.
pub memalloc_aligned-total :
    {lo hi : ℕ} {h : Heap} (size k : ℕ)
    → Valid lo hi h
    → k < 32
    → (r : ℕ × Heap) × (memalloc_aligned (enough lo hi) size (2 ^ k) h ≡ some r)
memalloc_aligned-total {lo} {hi} {h} zero k v small =
    ((0, h), memalloc_aligned_zero (enough lo hi) (2 ^ k) h)
memalloc_aligned-total {lo} {hi} {h} (suc size) k v small =
    elim (memalloc_aligned_cases v.heap k (suc size) small (omega arith) (enough lo hi)
      (enough-lt v.heap)) [ inl (full, refused) ↦ (_, refused) | inr s ↦ (_, s.result) ]
