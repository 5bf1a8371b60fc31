-- ===== src/Heap/Find.antt =====
-- The search of `memalloc_aligned` finds the first free cell into which the allocation fits.
use usbloader.Common.{
  ℕ, zero, suc, ==_of_gt, ◌+◌, ◌^◌, ◌≤◌, ◌<◌, ◌≡◌, refl, ap, ◌∙◌, inl, inr, true, Bool-cases,
  Option, none, some, List, [], ◌∷◌, ◌++◌, arith, length, if◌then◌else◌,
}
use usbloader.Memory.{Bytes}
use usbloader.Heap.{size_of, next_of, find_block}
use usbloader.Heap.Align.{fits, aligned_size-fits}
use usbloader.Heap.Layout.{Cell, free, used, Tiles, Tiles-le, last_free}

-- A row taken apart at a free cell of `size` bytes at the address `at`.
pub record Fit : Type 0 where
  pub pre : List Cell
  pub at : ℕ
  pub size : ℕ
  pub post : List Cell

abbrev pub behind : Cell → Option Fit → Option Fit
behind c none = none
behind c (some f) = some (record f { pre = c ∷ f.pre })

-- The specification of the search, over cells.
unfoldable pub first_fit : (size align a : ℕ) → List Cell → Option Fit
first_fit size align a [] = none
first_fit size align a (free s ∷ cs) =
    if fits size align a s
    then some (record { pre = []; at = a; size = s; post = cs })
    else behind (free s) (first_fit size align (a + s) cs)
first_fit size align a (used off n ∷ cs) =
    behind (used off n) (first_fit size align (a + off + n) cs)

pub record Found (size align : ℕ) (m : Bytes) (a p : ℕ) (cs : List Cell) (e : ℕ) (f : Fit)
    : Type 0 where
  pub parts : cs ≡ f.pre ++ free f.size ∷ f.post
  pub before : Tiles m a p f.pre f.at f.at
  pub least : 8 ≤ f.size
  pub held : size_of m f.at ≡ f.size
  pub after : Tiles m (f.at + f.size) (next_of m f.at) f.post e 0
  pub fit : fits size align f.at f.size ≡ true

-- What the loop returns, by what the specification finds.
abbrev pub Outcome : (fuel size align pv p a e : ℕ) → Bytes → List Cell → Option Fit → Type 0
Outcome fuel size align pv p a e m cs none =
    find_block fuel size align pv p m ≡ some (last_free a pv cs, 0)
Outcome fuel size align pv p a e m cs (some f) =
    Found size align m a p cs e f
    × (find_block fuel size align pv p m ≡ some (last_free a pv f.pre, f.at))

module _ (size k : ℕ) (m : Bytes) (e : ℕ) where
  abbrev align : ℕ
  align = 2 ^ k

  behind_free :
      (fuel pv a s : ℕ) (cs : List Cell) (o : Option Fit)
      → 8 ≤ s
      → size_of m a ≡ s
      → find_block (suc fuel) size align pv a m ≡ find_block fuel size align a (next_of m a) m
      → Outcome fuel size align a (next_of m a) (a + s) e m cs o
      → Outcome (suc fuel) size align pv a a e m (free s ∷ cs) (behind (free s) o)
  behind_free fuel pv a s cs none least held step h = step ∙ h
  behind_free fuel pv a s cs (some f) least held step h =
      let d = h.0 in
      (
        record {
          parts = ap (λ xs. free s ∷ xs) d.parts;
          before = (refl, least, held, d.before);
          least = d.least;
          held = d.held;
          after = d.after;
          fit = d.fit;
        },
        step ∙ h.1,
      )

  behind_used :
      (fuel pv p a off n : ℕ) (cs : List Cell) (o : Option Fit)
      → 9 ≤ n
      → size_of m (a + off) ≡ n
      → next_of m (a + off) ≡ off
      → Outcome fuel size align pv p (a + off + n) e m cs o
      → Outcome fuel size align pv p a e m (used off n ∷ cs) (behind (used off n) o)
  behind_used fuel pv p a off n cs none least held start h = h
  behind_used fuel pv p a off n cs (some f) least held start h =
      let d = h.0 in
      (
        record {
          parts = ap (λ xs. used off n ∷ xs) d.parts;
          before = (least, held, start, d.before);
          least = d.least;
          held = d.held;
          after = d.after;
          fit = d.fit;
        },
        h.1,
      )

  module _ (small : k < 32) (pos : 0 < size) (top : e < 2 ^ 32) where
    -- With more fuel than there are cells the loop ends, at the first cell that fits.
    pub find_block-first_fit :
        (fuel pv p a : ℕ) (cs : List Cell)
        → 0 < a
        → length cs < fuel
        → Tiles m a p cs e 0
        → Outcome fuel size align pv p a e m cs (first_fit size align a cs)
    unfolding find_block first_fit
    find_block-first_fit zero pv p a cs start lt t = absurd (omega arith)
    find_block-first_fit (suc fuel) pv p a [] start lt t = ground arith
    find_block-first_fit (suc fuel) pv p a (free s ∷ cs) start lt t =
        let below = Tiles-le m (a + s) (next_of m a) cs e 0 t.3 in
        let test = aligned_size-fits m k a s size small (omega arith) t.1 start t.2 pos in
        let ih =
          find_block-first_fit fuel a (next_of m a) (a + s) cs (omega arith) (omega arith) t.3 in
        let there = ==_of_gt a 0 start in
        rw t.0 (elim (Bool-cases (fits size align a s)) [
          | inl fit ↦ rw fit (
            record {
              parts = refl;
              before = (refl, refl);
              least = t.1;
              held = t.2;
              after = t.3;
              fit = fit;
            },
            rw (there, test, fit) refl,
          )
          | inr miss ↦ rw miss (
              behind_free fuel pv a s cs (first_fit size align (a + s) cs) t.1 t.2
                (rw (there, test, miss) refl) ih)
        ])
    find_block-first_fit (suc fuel) pv p a (used off n ∷ cs) start lt t =
        behind_used (suc fuel) pv p a off n cs (first_fit size align (a + off + n) cs) t.0 t.1 t.2
          (find_block-first_fit (suc fuel) pv p (a + off + n) cs (omega arith) (omega arith) t.3)
