-- ===== src/Heap/Alloc.antt =====
-- What `memalloc_aligned` does to the row of cells, and the parts of the proof that it does so.
pub mod After
pub mod Before
pub mod Refines
use usbloader.Common.{ℕ, ◌+◌, ◌-◌, List, ◌∷◌, ◌++◌, leb, if◌then◌else◌}
use usbloader.Heap.Align.{round_up}
use usbloader.Heap.Find.{Fit}
use usbloader.Heap.Layout.{Cell, free, used}

-- Where the used cell of a payload of `size` bytes at `p` ends, in a free cell that ends at `end`:
-- space too small for a free block goes to the used cell.
abbrev pub cell_end : (size p end : ℕ) → ℕ
cell_end size p end = if leb 8 (end - (p + size)) then p + size else end

abbrev pub cells_after : (size p end : ℕ) → List Cell → List Cell
cells_after size p end post =
    if leb 8 (end - (p + size)) then free (end - (p + size)) ∷ post else post

-- The cells that take the place of a free cell at `b`, up to the address `z`.
abbrev pub cells_before : (b p z : ℕ) → List Cell → List Cell
cells_before b p z rest =
    if leb 8 (p - b - 8)
    then free (p - b - 8) ∷ used 0 (z + 8 - p) ∷ rest
    else used (p - b - 8) (z + 8 - p) ∷ rest

unfoldable pub cut : (size p : ℕ) → Fit → List Cell
cut size p f =
    f.pre
    ++ cells_before f.at p (cell_end size p (f.at + f.size))
        (cells_after size p (f.at + f.size) f.post)
