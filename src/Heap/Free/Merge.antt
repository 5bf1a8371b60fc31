-- ===== src/Heap/Free/Merge.antt =====
-- `coalesce_blocks` on a block that has just been linked into the list, in all four cases.
use usbloader.Common.{
  ℕ, ◌+◌, ◌^◌, ◌≤◌, ◌<◌, ◌≡◌, refl, ◌∙◌, ◌⊎◌, inl, inr, List, [], ◌∷◌, ◌++◌, arith, Bool, true,
  false, ◌==◌, ◌&&◌, not,
}
use usbloader.Common.Words.{add32, add32-eq}
use usbloader.Memory.{
  Bytes, Agree, Agree-trans, Agree-store32, load32-store32, load32-store32_ne, store32,
}
use usbloader.Heap.{
  Blocks, var, can_merge, coalesce_blocks, merge_both, merge_left, merge_right, size_of, next_of,
}
use usbloader.Heap.Free.{absorb, put_free}
use usbloader.Heap.Free.Cells.{
  span, Tiles-split, Ends_cases, put_free-EndsUsed, put_free-append, last_free-append,
}
use usbloader.Heap.Layout.{
  Cell, free, used, Tiles, Tiles-le, Tiles-head, Tiles-Agree, Tiles-append, last_free,
}
use usbloader.Heap.Layout.Ends.{EndsUsed, last_free-gap}

-- Memory `n` is `m` but for the eight bytes of a free block at `c`.
record Rewritten (m n : Bytes) (c size next : ℕ) : Type 0 where
  same : (x y : ℕ) → (c + 8 ≤ x) ⊎ (y ≤ c) → Agree x y m n
  size_held : size_of n c ≡ size
  next_held : next_of n c ≡ next

rewrite_size_next :
    (m : Bytes) (c size next : ℕ)
    → size < 2 ^ 32
    → next < 2 ^ 32
    → Rewritten m (store32 (store32 m c size) (c + 4) next) c size next
rewrite_size_next m c size next hs hn =
    let first = store32 m c size in
    record {
      same = λ x y far.
          Agree-trans {k = m} {m = first} {n = store32 first (c + 4) next}
            (Agree-store32 x y m c size (ground arith))
            (Agree-store32 x y first (c + 4) next (ground arith));
      size_held = load32-store32_ne first (c + 4) next c (omega arith) ∙ load32-store32 m c size hs;
      next_held = load32-store32 first (c + 4) next hn;
    }

rewrite_next_size :
    (m : Bytes) (c size next : ℕ)
    → size < 2 ^ 32
    → next < 2 ^ 32
    → Rewritten m (store32 (store32 m (c + 4) next) c size) c size next
rewrite_next_size m c size next hs hn =
    let first = store32 m (c + 4) next in
    record {
      same = λ x y far.
          Agree-trans {k = m} {m = first} {n = store32 first c size}
            (Agree-store32 x y m (c + 4) next (ground arith))
            (Agree-store32 x y first c size (ground arith));
      size_held = load32-store32 first c size hs;
      next_held =
          load32-store32_ne first c size (c + 4) (omega arith) ∙ load32-store32 m (c + 4) next hn;
    }

-- A block rewritten in front of `post` is a free cell there.
Rewritten-Tiles :
    {m n : Bytes} {c size next : ℕ} (lo hd e : ℕ) (pre post : List Cell)
    → Rewritten m n c size next
    → 8 ≤ size
    → Tiles m lo hd pre c c
    → Tiles m (c + size) next post e 0
    → Tiles n lo hd (pre ++ free size ∷ post) e 0
Rewritten-Tiles {m} {n} {c} {size} {next} lo hd e pre post w least front back =
    Tiles-append n lo hd pre (free size ∷ post) c c e 0
      (Tiles-Agree m n lo hd pre c c (w.same lo c (omega arith)) front)
      (
        refl,
        least,
        w.size_held,
        rw w.next_held
            (Tiles-Agree m n (c + size) next post e 0 (w.same (c + size) e (omega arith)) back),
      )

-- The row behind a block: nothing to merge with, or a free cell that the list leads to.
record Merges (m : Bytes) (z r e : ℕ) (post : List Cell) : Type 0 where
  more : ℕ
  rest : List Cell
  row : post ≡ free more ∷ rest
  here : r ≡ z
  least : 8 ≤ more
  held : size_of m z ≡ more
  after : Tiles m (z + more) (next_of m z) rest e 0

post_cases :
    (m : Bytes) (z r e : ℕ) (post : List Cell)
    → Tiles m z r post e 0
    → (((r ≡ 0) ⊎ (z < r)) × ((s : ℕ) → absorb s post ≡ free s ∷ post)) ⊎ Merges m z r e post
post_cases m z r e [] t = inl (inl t.1, λ s. refl)
post_cases m z r e (free k ∷ rest) t =
    inr (record {
      more = k;
      rest = rest;
      row = refl;
      here = t.0;
      least = t.1;
      held = t.2;
      after = t.3;
    })
post_cases m z r e (used off n ∷ rest) t =
    inl (ground (arith, Tiles-head m (z + off + n) r rest e t.3), λ s. refl)

-- A free block of `s` bytes at `b`, linked between `pre` and `post`, and not merged.
pub record IsLinked (lo e : ℕ) (m : Bytes) (hd : ℕ) (pre post : List Cell) (b s r : ℕ)
    : Type 0 where
  pub start : 0 < lo
  pub top : e < 2 ^ 32
  pub before : Tiles m lo hd pre b b
  pub least : 8 ≤ s
  pub held : size_of m b ≡ s
  pub link : next_of m b ≡ r
  pub after : Tiles m (b + s) r post e 0

module _ {lo e : ℕ} {m : Bytes} {hd : ℕ} {pre post : List Cell} {b s r : ℕ}
    (linked : IsLinked lo e m hd pre post b s r) where
  abbrev prev : ℕ
  prev = last_free lo 0 pre

  bounds : (lo ≤ b) × (b + s ≤ e)
  bounds = (Tiles-le m lo hd pre b b linked.before, Tiles-le m (b + s) r post e 0 linked.after)

  abbrev blocks : Blocks
  blocks = record { prev = prev; middle = b; next = var r; bytes = m }

  abbrev left : Bool
  left = not (prev == 0) && can_merge m prev b

  abbrev right : Bool
  right = not (r == 0) && can_merge m b r

  left-false : EndsUsed pre → left ≡ false
  unfolding can_merge add32
  left-false u = ground (arith, last_free-gap m lo hd 0 pre b b linked.before u, bounds, linked.top)

  -- The free block in front, where there is one.
  record Before (front : List Cell) (x : ℕ) : Type 0 where
    at_prev : Tiles m lo hd front prev prev
    least : 8 ≤ x
    held : size_of m prev ≡ x
    ends : prev + x ≡ b

  prev_free : (front : List Cell) (x : ℕ) → pre ≡ front ++ free x ∷ [] → Before front x
  prev_free front x eq =
      let (q, before, (here, least, held, last)) =
        Tiles-split m lo hd front (free x ∷ []) b b (rw eq at linked.before) in
      let at : prev ≡ lo + span front = rw eq (last_free-append lo 0 x front) in
      record {
        at_prev = rw at (rw here at before);
        least = least;
        held = rw at held;
        ends = omega (arith, at, last.0);
      }

  right-false : (r ≡ 0) ⊎ (b + s < r) → right ≡ false
  unfolding can_merge add32
  right-false far = ground (arith, linked.held, bounds, linked.top)

  right-true : r ≡ b + s → right ≡ true
  unfolding can_merge add32
  right-true here = ground (arith, linked.held, bounds, linked.top, linked.start)

  left-true : {front : List Cell} {x : ℕ} → Before front x → left ≡ true
  unfolding can_merge add32
  left-true {front} {x} d =
      let in_row = Tiles-le m lo hd front prev prev d.at_prev in
      ground (arith, d, bounds, linked.top, linked.start)

  next_lt : r < 2 ^ 32
  next_lt = omega (arith, Tiles-head m (b + s) r post e linked.after, linked.top)

  apart :
      EndsUsed pre
      → ((r ≡ 0) ⊎ (b + s < r))
      → Tiles (coalesce_blocks blocks).bytes lo hd (pre ++ free s ∷ post) e 0
  unfolding coalesce_blocks
  apart u far =
      rw (left-false u, right-false far)
        (Tiles-append m lo hd pre (free s ∷ post) b b e 0 linked.before
          (refl, linked.least, linked.held, rw linked.link linked.after))

  with_left :
      (front : List Cell) (x : ℕ)
      → Before front x
      → ((r ≡ 0) ⊎ (b + s < r))
      → Tiles (coalesce_blocks blocks).bytes lo hd (front ++ free (x + s) ∷ post) e 0
  unfolding coalesce_blocks merge_left
  with_left front x d far =
      let sum = add32-eq x s (omega (arith, d, bounds, linked.top)) in
      let there : prev + (x + s) ≡ b + s = omega (arith, d) in
      rw (left-true d, right-false far, d.held, linked.held, sum)
        (Rewritten-Tiles lo hd e front post
          (rewrite_size_next m prev (x + s) r (omega (arith, d, bounds, linked.top)) next_lt)
          (omega (arith, d)) d.at_prev (rw there linked.after))

  module _ (d : Merges m (b + s) r e post) where
    open d use {more, rest}

    next_next : ℕ
    next_next = next_of m (b + s)

    next_next_lt : next_next < 2 ^ 32
    unfolding next_next
    next_next_lt =
        omega (arith, Tiles-head m (b + s + more) (next_of m (b + s)) rest e d.after, linked.top)

    more_le : b + s + more ≤ e
    more_le = Tiles-le m (b + s + more) (next_of m (b + s)) rest e 0 d.after

    with_right :
        EndsUsed pre
        → Tiles (coalesce_blocks blocks).bytes lo hd (pre ++ free (s + more) ∷ rest) e 0
    unfolding coalesce_blocks merge_right next_next
    with_right u =
        let sum = add32-eq s more (omega (arith, bounds, more_le, linked.top)) in
        let there : b + (s + more) ≡ b + s + more = omega arith in
        let m₁ = store32 m (b + 4) (next_of m (b + s)) in
        let own = load32-store32_ne m (b + 4) (next_of m (b + s)) b (omega arith) ∙ linked.held in
        let next's =
          load32-store32_ne m (b + 4) (next_of m (b + s)) (b + s) (omega (arith, linked.least))
          ∙ d.held in
        rw (left-false u, right-true d.here, d.here, own, next's, sum)
          (Rewritten-Tiles lo hd e pre rest
            (rewrite_next_size m b (s + more) (next_of m (b + s))
              (omega (arith, bounds, more_le, linked.top)) next_next_lt)
            (omega (arith, linked.least)) linked.before (rw there d.after))

    with_both :
        (front : List Cell) (x : ℕ)
        → Before front x
        → Tiles (coalesce_blocks blocks).bytes lo hd (front ++ free (x + s + more) ∷ rest) e 0
    unfolding coalesce_blocks merge_both next_next
    with_both front x b' =
        let sum = add32-eq s more (omega (arith, bounds, more_le, linked.top)) in
        let total = add32-eq x (s + more) (omega (arith, b', bounds, more_le, linked.top)) in
        let whole : x + (s + more) ≡ x + s + more = omega arith in
        let there : prev + (x + s + more) ≡ b + s + more = omega (arith, b') in
        let write = store32 m (prev + 4) (next_of m (b + s)) in
        let first =
          load32-store32_ne m (prev + 4) (next_of m (b + s)) prev (omega arith) ∙ b'.held in
        let own =
          load32-store32_ne m (prev + 4) (next_of m (b + s)) b (omega (arith, b')) ∙ linked.held in
        let next's =
          load32-store32_ne m (prev + 4) (next_of m (b + s)) (b + s) (omega (arith, b')) ∙ d.held in
        rw (left-true b', right-true d.here, d.here, first, own, next's, sum, total, whole)
          (Rewritten-Tiles lo hd e front rest
            (rewrite_next_size m prev (x + s + more) (next_of m (b + s))
              (omega (arith, b', bounds, more_le, linked.top)) next_next_lt)
            (omega (arith, b')) b'.at_prev (rw there d.after))

  -- A freed block merges with the free blocks that it touches.
  pub coalesce_blocks-put_free :
      Tiles (coalesce_blocks blocks).bytes lo hd (put_free pre s post) e 0
  coalesce_blocks-put_free = elim (Ends_cases pre) [
    | inl u ↦
        rw (put_free-EndsUsed pre s post u) (elim (post_cases m (b + s) r e post linked.after) [
          | inl (far, row) ↦ rw (row s) (apart u far)
          | inr d ↦ rw d.row (with_right d u)
        ])
    | inr (front, x, eq) ↦
        let d = prev_free front x eq in
        rw (eq, put_free-append front x s post)
          (elim (post_cases m (b + s) r e post linked.after) [
            | inl (far, row) ↦ rw (row (x + s)) (rw eq at (with_left front x d far))
            | inr g ↦ rw g.row (rw eq at (with_both g front x d))
          ])
  ]
