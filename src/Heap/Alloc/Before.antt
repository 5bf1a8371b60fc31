-- ===== src/Heap/Alloc/Before.antt =====
-- `split_before` and the last write of `memalloc_aligned`: the second half of `place`.
use usbloader.Common.{
  ℕ, ◌+◌, ◌-◌, ◌^◌, ◌≤◌, ◌<◌, ◌≡◌, refl, ◌∙◌, ◌⊎◌, inl, inr, List, ◌∷◌, ◌++◌, arith, leb, false,
  Bool-cases, ◌==◌, ◌&&◌, not, if◌then◌else◌,
}
use usbloader.Common.Words.{add32, sub32-eq}
use usbloader.Memory.{
  Bytes, Agree, Agree-trans, Agree-store32, load32-store32, load32-store32_ne, load32-Agree,
  store32,
}
use usbloader.Heap.{
  Heap, at, coalesce_blocks, can_merge, size_of, next_of, get_link, set_link, set_size, set_next,
  split_before,
}
use usbloader.Heap.Alloc.{cells_before}
use usbloader.Heap.Alloc.After.{Behind}
use usbloader.Heap.Layout.{
  Cell, free, used, Tiles, Tiles-le, Tiles-Agree, Tiles-append, last_free, last_free-le,
}
use usbloader.Heap.Layout.Ends.{EndsUsed, last_free-gap}
use usbloader.Heap.Layout.Links.{relink, set_link-Agree, load32-set_link}

-- Blocks that do not touch are left alone.
pub coalesce_blocks_apart :
    (prev middle next a : ℕ) (m : Bytes)
    → size_of m a ≡ next
    → (prev ≡ 0) ⊎ (prev + size_of m prev < middle)
    → middle < 2 ^ 32
    → (next ≡ 0) ⊎ (middle + size_of m middle < next)
    → next < 2 ^ 32
    → (coalesce_blocks (record { prev = prev; middle = middle; next = at a; bytes = m })).bytes ≡ m
unfolding coalesce_blocks can_merge add32
coalesce_blocks_apart prev middle next a m there left lt right lt' =
    let apart_left : (not (prev == 0) && can_merge m prev middle) ≡ false = ground arith in
    let apart_right : (not (next == 0) && can_merge m middle next) ≡ false = ground arith in
    rw (there, apart_left, apart_right) refl

module _ {lo e : ℕ} {h : Heap} {pre rest : List Cell} {b p z next : ℕ}
    (site : Behind lo e h pre rest b z next) (start : 0 < lo) (top : e < 2 ^ 32) (low : b + 8 ≤ p)
    (high : p < z) (cases : (next ≡ 0) ⊎ (z ≤ next)) (word : next < 2 ^ 32) where
  abbrev prev : ℕ
  prev = last_free lo 0 pre

  prev_cases : (prev ≡ 0) ⊎ ((lo ≤ prev) × (prev + 8 ≤ b))
  prev_cases = last_free-le h.bytes lo h.head 0 pre b next site.before

  bounds : (lo ≤ b) × (z ≤ e)
  bounds = (
    Tiles-le h.bytes lo h.head pre b next site.before,
    Tiles-le h.bytes z next rest e 0 site.after,
  )

  -- The header's two fields.
  abbrev header : ℕ → Heap → Heap
  header off g = set_size (p - 8) (z + 8 - p) (set_next (p - 8) off g)

  header-Agree :
      (g : Heap) (off x y : ℕ) → (p ≤ x) ⊎ (y ≤ p - 8) → Agree x y g.bytes (header off g).bytes
  header-Agree g off x y far =
      let first = store32 g.bytes (p - 8 + 4) off in
      Agree-trans {k = g.bytes} {m = first} {n = (header off g).bytes}
        (Agree-store32 x y g.bytes (p - 8 + 4) off (ground arith))
        (Agree-store32 x y first (p - 8) (z + 8 - p) (ground arith))

  header_size : (g : Heap) (off : ℕ) → size_of (header off g).bytes (p - 8) ≡ z + 8 - p
  header_size g off =
      load32-store32 (store32 g.bytes (p - 8 + 4) off) (p - 8) (z + 8 - p) (omega (arith, bounds))

  header_off : (g : Heap) (off : ℕ) → off < 2 ^ 32 → next_of (header off g).bytes (p - 8) ≡ off
  header_off g off lt =
      load32-store32_ne (store32 g.bytes (p - 8 + 4) off) (p - 8) (z + 8 - p) (p - 8 + 4)
        (omega arith)
      ∙ load32-store32 g.bytes (p - 8 + 4) off lt

  -- No space in front of the header, or too little: the block begins with the used cell.
  header-Tiles :
      Tiles (header (p - b - 8) h).bytes lo h.head (pre ++ used (p - b - 8) (z + 8 - p) ∷ rest) e 0
  header-Tiles =
      let g = header (p - b - 8) h in
      let there : b + (p - b - 8) ≡ p - 8 = omega arith in
      let ends : p - 8 + (z + 8 - p) ≡ z = omega arith in
      Tiles-append g.bytes lo h.head pre (used (p - b - 8) (z + 8 - p) ∷ rest) b next e 0
        (Tiles-Agree h.bytes g.bytes lo h.head pre b next
          (header-Agree h (p - b - 8) lo b (omega arith)) site.before)
        (
          omega arith,
          rw there (header_size h (p - b - 8)),
          rw there (header_off h (p - b - 8) (omega (arith, bounds))),
          rw (there, ends)
              (Tiles-Agree h.bytes g.bytes z next rest e 0
                (header-Agree h (p - b - 8) z e (omega arith)) site.after),
        )

  abbrev gap : ℕ
  gap = p - b - 8

  -- The block in front as a free block of its own, linked between `prev` and `next`.
  sized : Heap
  sized = set_next b next (set_size b gap h)

  linked : Heap
  unfolding sized
  linked = set_link prev b sized

  sized-Agree : (x y : ℕ) → (b + 8 ≤ x) ⊎ (y ≤ b) → Agree x y h.bytes sized.bytes
  unfolding sized
  sized-Agree x y far =
      let first = store32 h.bytes b gap in
      Agree-trans {k = h.bytes} {m = first} {n = sized.bytes}
        (Agree-store32 x y h.bytes b gap (ground arith))
        (Agree-store32 x y first (b + 4) next (ground arith))

  linked-Agree : (x y : ℕ) → b + 8 ≤ x → Agree x y h.bytes linked.bytes
  unfolding linked
  linked-Agree x y far =
      Agree-trans {k = h.bytes} {m = sized.bytes} {n = linked.bytes} (sized-Agree x y (inl far))
        (set_link-Agree sized prev b x y (ground (arith, prev_cases)))

  linked_size : size_of linked.bytes b ≡ gap
  unfolding linked
  linked_size =
      load32-set_link sized prev b b (ground (arith, prev_cases))
      ∙ load32-store32_ne (store32 h.bytes b gap) (b + 4) next b (omega arith)
      ∙ load32-store32 h.bytes b gap (omega (arith, bounds))

  linked_next : next_of linked.bytes b ≡ next
  unfolding linked
  linked_next =
      load32-set_link sized prev b (b + 4) (ground (arith, prev_cases))
      ∙ load32-store32 (store32 h.bytes b gap) (b + 4) next word

  linked-before : Tiles linked.bytes lo linked.head pre b b
  unfolding linked
  linked-before =
      relink sized 0 b lo sized.head pre b next
        (Tiles-Agree h.bytes sized.bytes lo h.head pre b next (sized-Agree lo b (omega arith))
          site.before)
        (inl refl) start refl (omega (arith, bounds))

  linked-Tiles :
      8 ≤ gap
      → Tiles
          (header 0 linked).bytes
          lo
          linked.head
          (pre ++ free gap ∷ used 0 (z + 8 - p) ∷ rest)
          e
          0
  linked-Tiles room =
      let g = header 0 linked in
      let here : b + gap ≡ p - 8 = omega arith in
      let there : p - 8 + 0 ≡ p - 8 = omega arith in
      let ends : p - 8 + (z + 8 - p) ≡ z = omega arith in
      let size =
        load32-Agree b (header-Agree linked 0 b (b + 4) (omega arith)) (omega arith)
          (omega arith) in
      let link =
        load32-Agree (b + 4) (header-Agree linked 0 (b + 4) (b + 8) (omega arith)) (omega arith)
          (omega arith) in
      Tiles-append g.bytes lo linked.head pre (free gap ∷ used 0 (z + 8 - p) ∷ rest) b b e 0
        (Tiles-Agree linked.bytes g.bytes lo linked.head pre b b
          (header-Agree linked 0 lo b (omega arith)) linked-before)
        (
          refl,
          room,
          size ∙ linked_size,
          rw (link, linked_next, here, there, ends)
              (
                omega arith,
                header_size linked 0,
                header_off linked 0 (omega arith),
                Tiles-Agree h.bytes g.bytes z next rest e 0
                    (Agree-trans {k = h.bytes} {m = linked.bytes} {n = g.bytes}
                      (linked-Agree z e (omega arith)) (header-Agree linked 0 z e (omega arith)))
                    site.after,
              ),
        )

  get_link_sized : get_link prev (set_size b gap h) ≡ next
  get_link_sized = elim (Bool-cases (prev == 0)) [
    | inl none ↦ rw none (rw none at site.link)
    | inr some ↦ rw some (
        load32-store32_ne h.bytes b gap (prev + 4) (ground (arith, prev_cases))
        ∙ (rw some at site.link))
  ]

  -- `curr` touches neither neighbour, so the call of `coalesce_blocks` changes nothing.
  linked-apart :
      EndsUsed pre
      → (coalesce_blocks
          (record { prev = prev; middle = b; next = at (b + 4); bytes = linked.bytes })).bytes
        ≡ linked.bytes
  linked-apart u =
      coalesce_blocks_apart prev b next (b + 4) linked.bytes linked_next
        (ground (arith, last_free-gap linked.bytes lo linked.head 0 pre b b linked-before u))
        (omega (arith, bounds)) (ground (arith, linked_size, cases, low)) word

  split_before_eq :
      EndsUsed pre
      → split_before prev b p h
        ≡ (if leb 8 gap then set_next (p - 8) 0 linked else set_next (p - 8) gap h)
  unfolding split_before
  split_before_eq u =
      let header_at = sub32-eq p 8 (omega (arith, bounds)) (omega (arith, bounds)) in
      let offset = sub32-eq p b (omega (arith, bounds)) (omega (arith, bounds)) in
      let before = sub32-eq (p - b) 8 (omega (arith, bounds)) (omega (arith, bounds)) in
      rw (header_at, offset, before)
        (elim (Bool-cases (leb 8 gap)) [
          | inl room ↦ rw (room, get_link_sized) (rw (fold, linked-apart u) refl)
          | inr tight ↦ rw tight
        ])
    where
      fold : set_link prev b (set_next b next (set_size b gap h)) ≡ linked
      fold = unfold sized linked in refl

  -- The second half makes the block's cells, whichever way it goes.
  pub split_before-Tiles :
      EndsUsed pre
      → Tiles
          (set_size (p - 8) (z + 8 - p) (split_before prev b p h)).bytes
          lo
          (split_before prev b p h).head
          (pre ++ cells_before b p z rest)
          e
          0
  split_before-Tiles u = rw (split_before_eq u) (elim (Bool-cases (leb 8 gap)) [
    | inl room ↦ rw room (linked-Tiles (ground arith))
    | inr tight ↦ rw tight header-Tiles
  ])
