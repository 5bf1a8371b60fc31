-- ===== src/Heap/Free/Refines.antt =====
-- `memfree` on memory does what `put_free` does on cells.
use usbloader.Common.{
  ℕ, zero, suc, ◌+◌, ◌^◌, ◌≤◌, ◌<◌, ◌≡◌, refl, ◌∙◌, ◌⊎◌, inl, some, List, [], ◌∷◌, ◌++◌, arith,
  length, true, false, ◌==◌, ltb, ==_of_gt,
}
use usbloader.Common.Words.{sub32, add32-eq, sub32-eq}
use usbloader.Memory.{
  Bytes, Agree, Agree-trans, Agree-store32, load32-store32, load32-store32_ne, store32,
}
use usbloader.Heap.{
  Heap, size_of, next_of, set_size, set_next, set_link, find_neighbours, release, memfree,
}
use usbloader.Heap.Free.{put_free}
use usbloader.Heap.Free.Cells.{span, Tiles-split, Coalesced-put_free}
use usbloader.Heap.Free.Merge.{IsLinked, coalesce_blocks-put_free}
use usbloader.Heap.Layout.{
  Cell, free, used, Tiles, Tiles-le, Tiles-head, Tiles-Agree, last_free, last_free-le, IsHeap,
}
use usbloader.Heap.Layout.Links.{relink, set_link-Agree, load32-set_link}

-- The loop stops between the free blocks in front of `ptr` and those behind it.
find_neighbours-last_free :
    (fuel ptr pv a p : ℕ) (m : Bytes) (pre : List Cell) (b r : ℕ)
    → Tiles m a p pre b r
    → 0 < a
    → b < ptr
    → (r ≡ 0) ⊎ (ptr ≤ r)
    → length pre < fuel
    → find_neighbours fuel ptr pv p m ≡ some (last_free a pv pre, r)
unfolding find_neighbours
find_neighbours-last_free zero ptr pv a p m pre b r t start inside far lt = absurd (omega arith)
find_neighbours-last_free (suc fuel) ptr pv a p m [] b r t start inside far lt = ground arith
find_neighbours-last_free (suc fuel) ptr pv a p m (free s ∷ pre) b r t start inside far lt =
    let below = Tiles-le m (a + s) (next_of m a) pre b r t.3 in
    let rest =
      find_neighbours-last_free fuel ptr a (a + s) (next_of m a) m pre b r t.3 (omega arith) inside
        far (omega arith) in
    let there : (a == 0) ≡ false = ==_of_gt a 0 start in
    let before : ltb a ptr ≡ true = ground arith in rw t.0 (rw (there, before) rest)
find_neighbours-last_free (suc fuel) ptr pv a p m (used off n ∷ pre) b r t start inside far lt =
    find_neighbours-last_free (suc fuel) ptr pv (a + off + n) p m pre b r t.3 (omega arith) inside
      far (omega arith)

-- A used cell between `pre` and `post`, at the address `b`.
pub record Held (lo e : ℕ) (h : Heap) (pre post : List Cell) (b off n r : ℕ) : Type 0 where
  pub start : 0 < lo
  pub top : e < 2 ^ 32
  pub before : Tiles h.bytes lo h.head pre b r
  pub least : 9 ≤ n
  pub size : size_of h.bytes (b + off) ≡ n
  pub start_off : next_of h.bytes (b + off) ≡ off
  pub after : Tiles h.bytes (b + off + n) r post e 0

module _ {lo e : ℕ} {h : Heap} {pre post : List Cell} {b off n r : ℕ}
    (held : Held lo e h pre post b off n r) where
  abbrev prev : ℕ
  prev = last_free lo 0 pre

  bounds : (lo ≤ b) × (b + off + n ≤ e)
  bounds = (
    Tiles-le h.bytes lo h.head pre b r held.before,
    Tiles-le h.bytes (b + off + n) r post e 0 held.after,
  )

  prev_cases : (prev ≡ 0) ⊎ ((lo ≤ prev) × (prev + 8 ≤ b))
  prev_cases = last_free-le h.bytes lo h.head 0 pre b r held.before

  next_cases : (r ≡ 0) ⊎ ((b + off + n ≤ r) × (r + 8 ≤ e))
  next_cases = Tiles-head h.bytes (b + off + n) r post e held.after

  -- The new free block's two fields, and the link to it.
  filled : Heap
  filled = set_size b (n + off) (set_next b r h)

  joined : Heap
  unfolding filled
  joined = set_link prev b filled

  filled-Agree : (x y : ℕ) → (b + 8 ≤ x) ⊎ (y ≤ b) → Agree x y h.bytes filled.bytes
  unfolding filled
  filled-Agree x y far =
      let first = store32 h.bytes (b + 4) r in
      Agree-trans {k = h.bytes} {m = first} {n = filled.bytes}
        (Agree-store32 x y h.bytes (b + 4) r (ground arith))
        (Agree-store32 x y first b (n + off) (ground arith))

  joined-IsLinked : IsLinked lo e joined.bytes joined.head pre post b (n + off) r
  unfolding joined
  joined-IsLinked = record {
    start = held.start;
    top = held.top;
    before =
        relink filled 0 b lo filled.head pre b r
          (Tiles-Agree h.bytes filled.bytes lo h.head pre b r (filled-Agree lo b (omega arith))
            held.before)
          (inl refl) held.start refl (omega (arith, bounds, held));
    least = omega (arith, held);
    held =
        load32-set_link filled prev b b (ground (arith, prev_cases))
        ∙ load32-store32 (store32 h.bytes (b + 4) r) b (n + off) (omega (arith, bounds, held));
    link =
        load32-set_link filled prev b (b + 4) (ground (arith, prev_cases))
        ∙ load32-store32_ne (store32 h.bytes (b + 4) r) b (n + off) (b + 4) (omega arith)
        ∙ load32-store32 h.bytes (b + 4) r (ground (arith, next_cases, held.top));
    after =
        let ends : b + (n + off) ≡ b + off + n = omega arith in
        rw ends (
          Tiles-Agree h.bytes joined.bytes (b + off + n) r post e 0
            (Agree-trans {k = h.bytes} {m = filled.bytes} {n = joined.bytes}
              (filled-Agree (b + off + n) e (omega (arith, held)))
              (set_link-Agree filled prev b (b + off + n) e (ground (arith, prev_cases))))
            held.after);
  }

  -- Where the freed block starts.
  pub back_eq : sub32 (sub32 (b + off + 8) 8) (next_of h.bytes (sub32 (b + off + 8) 8)) ≡ b
  back_eq =
      let header_at : sub32 (b + off + 8) 8 ≡ b + off =
        sub32-eq _ 8 (omega arith) (omega (arith, bounds, held)) ∙ omega arith in
      rw (header_at, held.start_off)
        (sub32-eq (b + off) off (omega arith) (omega (arith, bounds, held)) ∙ omega arith)

  release-Tiles :
      Tiles
        (release (b + off + 8) prev r h).bytes
        lo
        (release (b + off + 8) prev r h).head
        (put_free pre (n + off) post)
        e
        0
  unfolding release joined
  release-Tiles =
      let header_at : sub32 (b + off + 8) 8 ≡ b + off =
        sub32-eq _ 8 (omega arith) (omega (arith, bounds, held)) ∙ omega arith in
      let back : sub32 (b + off) off ≡ b =
        sub32-eq _ off (omega arith) (omega (arith, bounds, held)) ∙ omega arith in
      let total = add32-eq n off (omega (arith, bounds, held)) in
      rw (header_at, held.start_off, held.size, back, total)
        (coalesce_blocks-put_free joined-IsLinked)

-- The facts about a used cell of a heap.
pub IsHeap-Held :
    {lo hi : ℕ} {h : Heap} (pre post : List Cell) (off n : ℕ)
    → IsHeap lo hi h (pre ++ used off n ∷ post)
    → (r : ℕ) × Held lo hi h pre post (lo + span pre) off n r
IsHeap-Held {lo} {hi} {h} pre post off n heap =
    let (r, before, (least, size, start_off, after)) =
      Tiles-split h.bytes lo h.head pre (used off n ∷ post) hi 0 heap.tiles in
    (
      r,
      record {
        start = heap.start;
        top = heap.top;
        before = before;
        least = least;
        size = size;
        start_off = start_off;
        after = after;
      },
    )

-- The call's result.
pub memfree_released :
    {lo hi : ℕ} {h : Heap} {pre post : List Cell} {off n r : ℕ} (fuel : ℕ)
    → Held lo hi h pre post (lo + span pre) off n r
    → length pre < fuel
    → memfree fuel (lo + span pre + off + 8) h
      ≡ some (release (lo + span pre + off + 8) (last_free lo 0 pre) r h)
unfolding memfree
memfree_released {lo} {hi} {h} {pre} {post} {off} {n} {r} fuel held enough =
    let b : ℕ = lo + span pre in
    let given : (b + off + 8 == 0) ≡ false = ==_of_gt _ 0 (omega arith) in
    let found =
      find_neighbours-last_free fuel (b + off + 8) 0 lo h.head h.bytes pre b r held.before
        held.start (omega arith) (ground (arith, next_cases held)) enough in
    rw (given, found) refl

-- In a heap whose row has a used cell, with more fuel than cells in front of it, memfree of the
-- payload of that cell succeeds and leaves a heap in which the cell is free and merged with the
-- free cells on both sides.
pub memfree-put_free :
    {lo hi : ℕ} {h : Heap} (pre post : List Cell) (off n fuel : ℕ)
    → IsHeap lo hi h (pre ++ used off n ∷ post)
    → length pre < fuel
    → (h' : Heap) × (memfree fuel (lo + span pre + off + 8) h ≡ some h')
      × IsHeap lo hi h' (put_free pre (n + off) post)
memfree-put_free {lo} {hi} {h} pre post off n fuel heap enough =
    let (r, held) = IsHeap-Held pre post off n heap in
    (
      release (lo + span pre + off + 8) (last_free lo 0 pre) r h,
      memfree_released fuel held enough,
      record {
        start = heap.start;
        top = heap.top;
        tiles = release-Tiles held;
        coalesced = Coalesced-put_free pre off n (n + off) post heap.coalesced;
      },
    )
