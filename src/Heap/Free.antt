-- ===== src/Heap/Free.antt =====
-- What `memfree` does to the row of cells, and the proof that it does so.
pub mod Cells
pub mod Merge
pub mod Refines
use usbloader.Common.{ℕ, ◌+◌, List, [], ◌∷◌}
use usbloader.Heap.Layout.{Cell, free, used}

-- A free cell of `s` bytes in front of `post`, merged with a free cell there.
abbrev pub absorb : ℕ → List Cell → List Cell
absorb s [] = free s ∷ []
absorb s (free t ∷ post) = free (s + t) ∷ post
absorb s (used off n ∷ post) = free s ∷ used off n ∷ post

-- A free cell of `s` bytes between `pre` and `post`, merged with the free cells on both sides.
abbrev pub put_free : List Cell → ℕ → List Cell → List Cell
put_free [] s post = absorb s post
put_free (free x ∷ []) s post = absorb (x + s) post
put_free (free x ∷ c ∷ pre) s post = free x ∷ put_free (c ∷ pre) s post
put_free (used off n ∷ pre) s post = used off n ∷ put_free pre s post
