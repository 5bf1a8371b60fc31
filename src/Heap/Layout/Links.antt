-- ===== src/Heap/Layout/Links.antt =====
-- A change of one link of the free list: `prev->next`, or `free_block_head`.
use usbloader.Common.{
  ℕ, ◌+◌, ◌^◌, ◌≤◌, ◌<◌, ◌≡◌, ◌∙◌, ◌⊎◌, inl, inr, Bool-cases, List, [], ◌∷◌, arith, ◌==◌,
}
use usbloader.Memory.{load32, Agree, Agree-refl, Agree-store32, load32-Agree, load32-store32}
use usbloader.Heap.{Heap, next_of, get_link, set_link}
use usbloader.Heap.Layout.{Cell, free, used, Tiles, last_free, last_free-le}

-- A link's four bytes lie off the addresses from `lo` up to `hi`.
abbrev pub Off : ℕ → ℕ → ℕ → Type 0
Off w lo hi = (w ≡ 0) ⊎ ((w + 8 ≤ lo) ⊎ (hi ≤ w + 4))

pub set_link-Agree :
    (h : Heap) (w v lo hi : ℕ) → Off w lo hi → Agree lo hi h.bytes (set_link w v h).bytes
set_link-Agree h w v lo hi off = elim (Bool-cases (w == 0)) [
  | inl e ↦ rw e (Agree-refl lo hi h.bytes)
  | inr e ↦ rw e (Agree-store32 lo hi h.bytes (w + 4) v (ground arith))
]

pub load32-set_link :
    (h : Heap) (w v b : ℕ) → Off w b (b + 4) → load32 (set_link w v h).bytes b ≡ load32 h.bytes b
load32-set_link h w v b off =
    load32-Agree b (set_link-Agree h w v b (b + 4) off) (omega arith) (omega arith)

pub get_link-set_link : (h : Heap) (w v : ℕ) → v < 2 ^ 32 → get_link w (set_link w v h) ≡ v
get_link-set_link h w v lt = elim (Bool-cases (w == 0)) [
  | inl e ↦ rw e
  | inr e ↦ rw e (load32-store32 h.bytes (w + 4) v lt)
]

-- A link other than the one written.
pub get_link-set_link_ne :
    (h : Heap) (w v pv : ℕ)
    → 0 < w
    → (pv ≡ 0) ⊎ (pv + 8 ≤ w)
    → get_link pv (set_link w v h) ≡ get_link pv h
get_link-set_link_ne h w v pv pos far = elim (Bool-cases (pv == 0)) [
  | inl e ↦ ground arith
  | inr e ↦ rw e (load32-set_link h w v (pv + 4) (ground arith))
]

pub get_link_pos : (h : Heap) (a : ℕ) → 0 < a → get_link a h ≡ next_of h.bytes a
get_link_pos h a pos = ground arith

-- The last link of a row, written anew, leads the row to `v` and changes nothing else of it.
pub relink :
    (h : Heap) (pv v a p : ℕ) (cs : List Cell) (b r : ℕ)
    → Tiles h.bytes a p cs b r
    → (pv ≡ 0) ⊎ (pv + 8 ≤ a)
    → 0 < a
    → get_link pv h ≡ p
    → v < 2 ^ 32
    → Tiles
        (set_link (last_free a pv cs) v h).bytes
        a
        (get_link pv (set_link (last_free a pv cs) v h))
        cs
        b
        v
relink h pv v a p [] b r t far pos link lt = (t.0, get_link-set_link h pv v lt)
relink h pv v a p (free s ∷ cs) b r t far pos link lt =
    let w = last_free (a + s) a cs in
    let place = last_free-le h.bytes (a + s) (next_of h.bytes a) a cs b r t.3 in
    let at_a = get_link_pos (set_link w v h) a pos in
    (
      get_link-set_link_ne h w v pv (omega arith) (omega arith) ∙ link ∙ t.0,
      t.1,
      load32-set_link h w v a (omega arith) ∙ t.2,
      rw (← at_a) (
          relink h a v (a + s) (next_of h.bytes a) cs b r t.3 (omega arith) (omega arith)
            (get_link_pos h a pos) lt),
    )
relink h pv v a p (used off n ∷ cs) b r t far pos link lt =
    let w = last_free (a + off + n) pv cs in
    let place = last_free-le h.bytes (a + off + n) p pv cs b r t.3 in
    (
      t.0,
      load32-set_link h w v (a + off) (omega arith) ∙ t.1,
      load32-set_link h w v (a + off + 4) (omega arith) ∙ t.2,
      relink h pv v (a + off + n) p cs b r t.3 (omega arith) (omega arith) link lt,
    )
