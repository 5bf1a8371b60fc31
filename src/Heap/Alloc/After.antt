-- ===== src/Heap/Alloc/After.antt =====
-- `split_after`: the first half of `place`, up to the write of `prev->next`.
use usbloader.Common.{
  ℕ, ◌+◌, ◌-◌, ◌^◌, ◌≤◌, ◌<◌, ◌≡◌, refl, ◌∙◌, ◌⊎◌, inl, inr, List, ◌∷◌, arith, leb, Bool-cases,
}
use usbloader.Common.Words.{add32, sub32, add32-eq, sub32-eq}
use usbloader.Memory.{
  Agree, Agree-refl, Agree-trans, Agree-store32, load32-store32, load32-store32_ne, store32,
}
use usbloader.Heap.{Heap, size_of, next_of, get_link, set_link, set_size, set_next, split_after}
use usbloader.Heap.Alloc.{cell_end, cells_after}
use usbloader.Heap.Layout.{
  Cell, free, Tiles, Tiles-le, Tiles-head, Tiles-Agree, last_free, last_free-le,
}
use usbloader.Heap.Layout.Links.{relink, set_link-Agree, get_link-set_link}

-- A free block of `s` bytes at `b` between `pre` and `post`, and a payload of `size` bytes at `p`
-- inside of it.
pub record Site (lo e : ℕ) (h : Heap) (pre post : List Cell) (b s p size : ℕ) : Type 0 where
  pub start : 0 < lo
  pub top : e < 2 ^ 32
  pub before : Tiles h.bytes lo h.head pre b b
  pub held : size_of h.bytes b ≡ s
  pub after : Tiles h.bytes (b + s) (next_of h.bytes b) post e 0
  pub low : b + 8 ≤ p
  pub high : p + size ≤ b + s
  pub pos : 0 < size

-- After the first half: `prev` leads to the cells behind the payload, which `next` heads.
pub record Behind (lo e : ℕ) (h : Heap) (pre rest : List Cell) (b z next : ℕ) : Type 0 where
  pub before : Tiles h.bytes lo h.head pre b next
  pub link : get_link (last_free lo 0 pre) h ≡ next
  pub after : Tiles h.bytes z next rest e 0

module _ {lo e : ℕ} {h : Heap} {pre post : List Cell} {b s p size : ℕ}
    (site : Site lo e h pre post b s p size) where
  abbrev prev : ℕ
  prev = last_free lo 0 pre

  prev_cases : (prev ≡ 0) ⊎ ((lo ≤ prev) × (prev + 8 ≤ b))
  prev_cases = last_free-le h.bytes lo h.head 0 pre b b site.before

  pub bounds : (lo ≤ b) × (b + s ≤ e)
  bounds = (
    Tiles-le h.bytes lo h.head pre b b site.before,
    Tiles-le h.bytes (b + s) (next_of h.bytes b) post e 0 site.after,
  )

  -- Any heap `g` that has the same cells in front, once its link leads to `next`.
  Behind-set_link :
      (g : Heap) (rest : List Cell) (z next : ℕ)
      → Agree lo b h.bytes g.bytes
      → g.head ≡ h.head
      → next < 2 ^ 32
      → b ≤ z
      → Tiles g.bytes z next rest e 0
      → Behind lo e (set_link prev next g) pre rest b z next
  Behind-set_link g rest z next same head lt high after = record {
    before =
        relink g 0 next lo g.head pre b b
          (rw head (Tiles-Agree h.bytes g.bytes lo h.head pre b b same site.before)) (inl refl)
          site.start refl lt;
    link = get_link-set_link g prev next lt;
    after =
        Tiles-Agree g.bytes (set_link prev next g).bytes z next rest e 0
          (set_link-Agree g prev next z e (ground (arith, prev_cases))) after;
  }

  abbrev pub free_after : ℕ
  free_after = b + s - (p + size)

  pub free_after_eq : sub32 (size_of h.bytes b) (sub32 (add32 p size) b) ≡ free_after
  free_after_eq =
      rw
        (
          site.held,
          add32-eq p size (omega (arith, bounds, site)),
          sub32-eq (p + size) b (omega (arith, bounds, site)) (omega (arith, bounds, site)),
          sub32-eq s (p + size - b) (omega (arith, bounds, site)) (omega (arith, bounds, site)),
        )
        (omega (arith, bounds, site))

  header_size_eq : add32 size 8 ≡ size + 8
  header_size_eq = add32-eq size 8 (omega (arith, bounds, site))

  pub new_free_blk_eq : add32 (sub32 p 8) (add32 size 8) ≡ p + size
  new_free_blk_eq =
      rw
        (
          header_size_eq,
          sub32-eq p 8 (omega (arith, bounds, site)) (omega (arith, bounds, site)),
          add32-eq (p - 8) (size + 8) (omega (arith, bounds, site)),
        )
        (omega (arith, bounds, site))

  abbrev next : ℕ
  next = next_of h.bytes b

  next_cases : (next ≡ 0) ⊎ ((b + s ≤ next) × (next + 8 ≤ e))
  next_cases = Tiles-head h.bytes (b + s) (next_of h.bytes b) post e site.after

  -- The memory with the new free block's two fields.
  split : Heap
  split = set_next (p + size) next (set_size (p + size) free_after h)

  split-Agree : (x y : ℕ) → (p + size + 8 ≤ x) ⊎ (y ≤ p + size) → Agree x y h.bytes split.bytes
  unfolding split
  split-Agree x y off =
      let first = store32 h.bytes (p + size) free_after in
      Agree-trans {k = h.bytes} {m = first} {n = split.bytes}
        (Agree-store32 x y h.bytes (p + size) free_after (ground arith))
        (Agree-store32 x y first (p + size + 4) next (ground arith))

  split-Tiles :
      8 ≤ free_after → Tiles split.bytes (p + size) (p + size) (free free_after ∷ post) e 0
  unfolding split
  split-Tiles room =
      let first = store32 h.bytes (p + size) free_after in
      let ends : p + size + free_after ≡ b + s = omega (arith, site) in
      let next_held =
        load32-store32 first (p + size + 4) next (ground (arith, next_cases, site.top)) in
      (
        refl,
        room,
        load32-store32_ne first (p + size + 4) next (p + size) (omega arith)
            ∙ load32-store32 h.bytes (p + size) free_after (omega (arith, bounds, site)),
        rw (next_held, ends)
            (Tiles-Agree h.bytes split.bytes (b + s) next post e 0
              (split-Agree (b + s) e (omega arith)) site.after),
      )

  -- What the first half returns, by whether the rest of the block becomes a free block.
  abbrev Halved : ℕ × Heap → Type 0
  Halved r =
      (r.0 ≡ cell_end size p (b + s) + 8 - p)
      × ((next : ℕ) × (next < 2 ^ 32)
          × ((next ≡ 0) ⊎ (cell_end size p (b + s) ≤ next))
          × Behind lo e r.1 pre (cells_after size p (b + s) post) b (cell_end size p (b + s)) next)

  pub split_after-Behind : Halved (split_after size prev b p h)
  unfolding split_after split add32
  split_after-Behind =
      rw (free_after_eq, new_free_blk_eq, header_size_eq)
        (elim (Bool-cases (leb 8 free_after)) [
          | inl room ↦ rw room (
            omega (arith, bounds, site),
            (
              p + size,
              omega (arith, bounds, site),
              inr (omega arith),
              Behind-set_link split (free free_after ∷ post) (p + size) (p + size)
                  (split-Agree lo b (omega (arith, site))) refl (omega (arith, bounds, site))
                  (omega (arith, site)) (split-Tiles (ground arith)),
            ),
          )
          | inr tight ↦ rw tight (
            omega (arith, bounds, site),
            (
              next,
              ground (arith, next_cases, site.top),
              ground (arith, next_cases),
              Behind-set_link h post (b + s) next (Agree-refl lo b h.bytes) refl
                  (ground (arith, next_cases, site.top)) (omega arith) site.after,
            ),
          )
        ])
