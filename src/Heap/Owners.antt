-- ===== src/Heap/Owners.antt =====
-- The holder of a payload: its cell, and what it may write.
use usbloader.Common.{ℕ, ◌+◌, ◌-◌, ◌≤◌, ◌≡◌, refl, ap, List, [], ◌∷◌, ◌++◌, arith}
use usbloader.Memory.{Bytes, Agree}
use usbloader.Heap.{Heap}
use usbloader.Heap.Free.Cells.{span, Tiles-split}
use usbloader.Heap.Layout.{Cell, free, used, Tiles-le, IsHeap}
use usbloader.Heap.Payloads.{payloads}
use usbloader.Heap.Reach.{payload_write-IsHeap}

-- `ps` with the payload `(p, n)` put in is `qs`.
pub record Added (p n : ℕ) (ps qs : List (ℕ × ℕ)) : Type 0 where
  pub front : List (ℕ × ℕ)
  pub back : List (ℕ × ℕ)
  pub without : ps ≡ front ++ back
  pub within : qs ≡ front ++ (p, n) ∷ back

-- The used cell of a payload.
pub record CellOf (a p n : ℕ) (cs : List Cell) (xs ys : List (ℕ × ℕ)) : Type 0 where
  pub pre : List Cell
  pub off : ℕ
  pub size : ℕ
  pub post : List Cell
  pub row : cs ≡ pre ++ used off size ∷ post
  pub here : a + span pre + off + 8 ≡ p
  pub room : size - 8 ≡ n
  pub front : payloads a pre ≡ xs
  pub back : payloads (a + span pre + off + size) post ≡ ys

pub CellOf_lem :
    (a p n : ℕ) (cs : List Cell) (xs ys : List (ℕ × ℕ))
    → payloads a cs ≡ xs ++ (p, n) ∷ ys
    → CellOf a p n cs xs ys
unfolding payloads
CellOf_lem a p n [] [] ys e = cc
CellOf_lem a p n [] (x ∷ xs) ys e = cc
CellOf_lem a p n (free s ∷ cs) xs ys e =
    let d = CellOf_lem (a + s) p n cs xs ys e in
    let sum : a + (s + span d.pre) ≡ a + s + span d.pre = omega arith in
    record {
      pre = free s ∷ d.pre;
      off = d.off;
      size = d.size;
      post = d.post;
      row = ap (λ r. free s ∷ r) d.row;
      here = rw sum d.here;
      room = d.room;
      front = d.front;
      back = rw sum d.back;
    }
CellOf_lem a p n (used off k ∷ cs) [] ys e =
    let same : a + 0 ≡ a = omega arith in
    record {
      pre = [];
      off = off;
      size = k;
      post = cs;
      row = refl;
      here = rw same (cc (e));
      room = cc (e);
      front = refl;
      back = rw same (cc (e));
    }
CellOf_lem a p n (used off k ∷ cs) (x ∷ xs) ys e =
    let d = CellOf_lem (a + off + k) p n cs xs ys (cc (e)) in
    let sum : a + (off + k + span d.pre) ≡ a + off + k + span d.pre = omega arith in
    record {
      pre = used off k ∷ d.pre;
      off = d.off;
      size = d.size;
      post = d.post;
      row = ap (λ r. used off k ∷ r) d.row;
      here = rw sum d.here;
      room = d.room;
      front = rw d.front (cc (e));
      back = rw sum d.back;
    }

-- Whatever a holder writes into its payload, the heap is what it was.
pub holder_write-IsHeap :
    {lo hi : ℕ} {h : Heap} {cs : List Cell} (p n : ℕ) (ps : List (ℕ × ℕ)) (m : Bytes)
    → IsHeap lo hi h cs
    → Added p n ps (payloads lo cs)
    → Agree lo p h.bytes m
    → Agree (p + n) hi h.bytes m
    → IsHeap lo hi (record h { bytes = m }) cs
holder_write-IsHeap {lo} {hi} {h} {cs} p n ps m heap d below above =
    let c = CellOf_lem lo p n cs d.front d.back d.within in
    let cells : IsHeap lo hi h (c.pre ++ used c.off c.size ∷ c.post) = rw c.row at heap in
    let (r, before, (least, size, start_off, after)) =
      Tiles-split h.bytes lo h.head c.pre (used c.off c.size ∷ c.post) hi 0 cells.tiles in
    let end : lo + span c.pre + c.off + c.size ≡ p + n = omega (arith, c.here, c.room, least) in
    let below' : Agree lo (lo + span c.pre + c.off + 8) h.bytes m = rw c.here below in
    let above' : Agree (lo + span c.pre + c.off + c.size) hi h.bytes m = rw end above in
    rw c.row (payload_write-IsHeap c.pre c.post c.off c.size m cells below' above')

-- A payload lies between the heap's bounds, behind a header.
pub Added-bounds :
    {lo hi : ℕ} {h : Heap} {cs : List Cell} (p n : ℕ) (ps : List (ℕ × ℕ))
    → IsHeap lo hi h cs
    → Added p n ps (payloads lo cs)
    → (lo + 8 ≤ p) × (p + n ≤ hi)
Added-bounds {lo} {hi} {h} {cs} p n ps heap d =
    let c = CellOf_lem lo p n cs d.front d.back d.within in
    let cells : IsHeap lo hi h (c.pre ++ used c.off c.size ∷ c.post) = rw c.row at heap in
    let (r, before, (least, size, start_off, after)) =
      Tiles-split h.bytes lo h.head c.pre (used c.off c.size ∷ c.post) hi 0 cells.tiles in
    let end = Tiles-le h.bytes (lo + span c.pre + c.off + c.size) r c.post hi 0 after in
    (omega (arith, c.here), omega (arith, c.here, c.room, least, end))
