-- ===== src/Heap/Contents.antt =====
-- What mem.c writes: the bytes of free blocks and of headers, so that the contents of the payloads
-- stay as they are.
pub mod Calls
pub mod Holders
pub mod Lent
use usbloader.Common.{
  ℕ, zero, suc, ◌+◌, ◌-◌, ◌^◌, ◌≤◌, ◌<◌, ◌≡◌, refl, ◌∙◌, ◌⊎◌, inl, inr, Bool, true, false, not,
  ◌&&◌, Bool-cases, arith, ◌==◌, leb, if◌then◌else◌, eq_of_==,
}
use usbloader.Common.Words.{add32, sub32}
use usbloader.Common.{List}
use usbloader.Common.Words.{sub32-eq}
use usbloader.Heap.Layout.{Cell}
use usbloader.Heap.Alloc.After.{Site, bounds, free_after, free_after_eq, new_free_blk_eq}
use usbloader.Memory.{Bytes, load32, store32, Agree, Agree-refl, Agree-trans, Agree-store32}
use usbloader.Heap.{
  Heap, Blocks, Slot, var, at, deref, size_of, next_of, can_merge, clear_next, merge_both,
  merge_left, merge_right, coalesce_blocks, get_link, set_link, set_next, set_size, split_after,
  split_before, place, release,
}

-- The addresses from `x` up to `y` do not meet the `n` bytes at `a`.
abbrev pub Clear : (x y a n : ℕ) → Type 0
Clear x y a n = (a + n ≤ x) ⊎ (y ≤ a)

module _ (x y : ℕ) where
  -- A block's two fields, unless the pointer is NULL.
  abbrev pub Other : ℕ → Type 0
  Other b = (b ≡ 0) ⊎ Clear x y b 8

  abbrev pub OtherSlot : Slot → Type 0
  OtherSlot (var p) = Unit {0}
  OtherSlot (at a) = Clear x y a 4

  store_two :
      (m : Bytes) (b v w : ℕ) → Clear x y b 8 → Agree x y m (store32 (store32 m (b + 4) v) b w)
  store_two m b v w clear =
      Agree-trans (Agree-store32 x y m (b + 4) v (ground arith))
        (Agree-store32 x y (store32 m (b + 4) v) b w (ground arith))

  store_back :
      (m : Bytes) (b v w : ℕ) → Clear x y b 8 → Agree x y m (store32 (store32 m b v) (b + 4) w)
  store_back m b v w clear =
      Agree-trans (Agree-store32 x y m b v (ground arith))
        (Agree-store32 x y (store32 m b v) (b + 4) w (ground arith))

  clear_next-Agree :
      (prev middle : ℕ) (next : Slot) (m : Bytes)
      → OtherSlot next
      → Agree x y m
          (clear_next (record { prev = prev; middle = middle; next = next; bytes = m })).bytes
  clear_next-Agree prev middle (var p) m clear = Agree-refl x y m
  clear_next-Agree prev middle (at a) m clear = Agree-store32 x y m a 0 clear

  -- What coalesce_blocks leaves alone.
  coalesce_blocks-Agree :
      (s : Blocks)
      → Other s.prev
      → Clear x y s.middle 8
      → OtherSlot s.next
      → Agree x y s.bytes (coalesce_blocks s).bytes
  unfolding coalesce_blocks merge_both merge_left merge_right
  coalesce_blocks-Agree s prev middle next =
      let m = s.bytes in
      let n = deref s.next m in
      elim (Bool-cases (not (s.prev == 0) && can_merge m s.prev s.middle)) [
        | inl left ↦
            let front : Clear x y s.prev 8 = ground arith in
            elim (Bool-cases (not (n == 0) && can_merge m s.middle n)) [
              | inl right ↦
                  rw (left, right)
                    (Agree-trans (store_two m s.prev _ _ front)
                      (clear_next-Agree s.prev 0 s.next _ next))
              | inr alone ↦ rw (left, alone) (store_back m s.prev _ _ front)
            ]
        | inr first ↦ elim (Bool-cases (not (n == 0) && can_merge m s.middle n)) [
          | inl right ↦
              rw (first, right)
                (Agree-trans (store_two m s.middle _ _ middle)
                  (clear_next-Agree s.prev s.middle s.next _ next))
          | inr alone ↦ rw (first, alone) (Agree-refl x y m)
        ]
      ]

  set_link-Agree :
      (prev v : ℕ) (h : Heap) → Other prev → Agree x y h.bytes (set_link prev v h).bytes
  set_link-Agree prev v h other = elim (Bool-cases (prev == 0)) [
    | inl e ↦ rw e (Agree-refl x y h.bytes)
    | inr ne ↦ rw ne (Agree-store32 x y h.bytes (prev + 4) v (ground arith))
  ]

  split_before-Agree :
      (prev b p : ℕ) (h : Heap)
      → Other prev
      → Clear x y b 8
      → Clear x y (sub32 p 8) 8
      → Agree x y h.bytes (split_before prev b p h).bytes
  unfolding split_before
  split_before-Agree prev b p h other block header =
      let before : ℕ = sub32 (sub32 p b) 8 in
      let h_1 : Heap = set_size b before h in
      let h_2 : Heap = set_link prev b (set_next b (get_link prev h_1) h_1) in
      let s : Blocks = record { prev = prev; middle = b; next = at (b + 4); bytes = h_2.bytes } in
      let a_1 = store_back h.bytes b before (get_link prev h_1) block in
      let a_2 = set_link-Agree prev b (set_next b (get_link prev h_1) h_1) other in
      let a_3 = coalesce_blocks-Agree s other block (ground arith) in
      let a_4 = Agree-store32 x y (coalesce_blocks s).bytes (sub32 p 8 + 4) 0 (ground arith) in
      elim (Bool-cases (leb 8 before)) [
        | inl room ↦ rw room (Agree-trans a_1 (Agree-trans a_2 (Agree-trans a_3 a_4)))
        | inr tight ↦ rw tight (Agree-store32 x y h.bytes (sub32 p 8 + 4) before (ground arith))
      ]

  module _ {lo hi : ℕ} {h : Heap} {pre post : List Cell} {b s p size : ℕ}
      (site : Site lo hi h pre post b s p size) (prev : ℕ) (other : Other prev)
      (cell : Clear x y b s) where
    split_after-Agree : Agree x y h.bytes (split_after size prev b p h).1.bytes
    unfolding split_after
    split_after-Agree =
        let h_1 : Heap =
          set_next (p + size) (next_of h.bytes b) (set_size (p + size) (free_after site) h) in
        elim (Bool-cases (leb 8 (free_after site))) [
          | inl room ↦
              rw (free_after_eq site, new_free_blk_eq site, room)
                (Agree-trans (store_back h.bytes (p + size) _ _ (ground (arith, site)))
                  (set_link-Agree prev (p + size) h_1 other))
          | inr tight ↦
              rw (free_after_eq site, new_free_blk_eq site, tight)
                (set_link-Agree prev (next_of h.bytes b) h other)
        ]

    pub place-Agree : Agree x y h.bytes (place size prev b p h).bytes
    unfolding place
    place-Agree =
        let inside = bounds site in
        let header : sub32 p 8 ≡ p - 8 =
          sub32-eq p 8 (omega (arith, site)) (omega (arith, site, inside)) in
        let r = split_after size prev b p h in
        let a_2 =
          split_before-Agree prev b p r.1 other (ground (arith, site))
            (rw header (ground (arith, site))) in
        let h_2 = split_before prev b p r.1 in
        Agree-trans split_after-Agree (
          Agree-trans a_2
            (Agree-store32 x y h_2.bytes (sub32 p 8) r.0 (rw header (ground (arith, site)))))

  -- Where the block starts that `release` makes of a payload at `ptr`.
  abbrev pub released : (ptr : ℕ) → Heap → ℕ
  released ptr h = sub32 (sub32 ptr 8) (next_of h.bytes (sub32 ptr 8))

  pub release-Agree :
      (ptr prev curr : ℕ) (h : Heap)
      → Other prev
      → Clear x y (released ptr h) 8
      → Agree x y h.bytes (release ptr prev curr h).bytes
  unfolding release
  release-Agree ptr prev curr h other block =
      let b : ℕ = released ptr h in
      let size : ℕ = add32 (size_of h.bytes (sub32 ptr 8)) (next_of h.bytes (sub32 ptr 8)) in
      let h_1 : Heap = set_size b size (set_next b curr h) in
      let h_2 : Heap = set_link prev b h_1 in
      let s : Blocks = record { prev = prev; middle = b; next = var curr; bytes = h_2.bytes } in
      Agree-trans (store_two h.bytes b curr size block)
        (Agree-trans (set_link-Agree prev b h_1 other) (coalesce_blocks-Agree s other block tt))
