-- ===== src/Heap/Contents/Lent.antt =====
-- A block that is taken from the heap, written to, and given back.
use usbloader.Common.{ℕ, ◌+◌, ◌≤◌, ◌≡◌, ◌⊎◌, inl, inr, some, arith, List}
use usbloader.Memory.{Bytes, Agree}
use usbloader.Heap.{Heap, memfree}
use usbloader.Heap.Layout.{Cell, IsHeap}
use usbloader.Heap.Owners.{Added, holder_write-IsHeap}
use usbloader.Heap.Payloads.{payloads}
use usbloader.Heap.Promise.{HasPayloads, memfree-HasPayloads}
use usbloader.Heap.Reach.{enough, enough-lt}
use usbloader.Heap.Contents.Calls.{Untouched, Untouched-trans, memfree-Untouched}
use usbloader.Heap.Contents.Holders.{holder_write-Untouched}

-- What its holder writes is not seen by the holders of the others, and neither is its release.
pub given_back-HasPayloads :
    {lo hi : ℕ} {h : Heap} {cs : List Cell} (size p room : ℕ) (ps : List (ℕ × ℕ)) (m : Bytes)
    → IsHeap lo hi h cs
    → Added p room ps (payloads lo cs)
    → size ≤ room
    → ((x y : ℕ) → (p + size ≤ x) ⊎ (y ≤ p) → Agree x y h.bytes m)
    → (h' : Heap) × (memfree (enough lo hi) p (record h { bytes = m }) ≡ some h')
      × (HasPayloads lo hi h' ps × Untouched ps h.bytes h'.bytes)
given_back-HasPayloads {lo} {hi} {h} {cs} size p room ps m heap added fits same =
    let u_2 =
      holder_write-Untouched p room ps m heap added
        (λ x y far. same x y (ground (arith, far, fits))) in
    let written =
      holder_write-IsHeap p room ps m heap added (same lo p (inr (omega arith)))
        (same (p + room) hi (inl (omega (arith, fits)))) in
    let (h', freed, kept) =
      memfree-HasPayloads (enough lo hi) p room ps written (enough-lt written) added in
    let u_3 = memfree-Untouched (enough lo hi) p room ps written (enough-lt written) added freed in
    (h', freed, (kept, Untouched-trans ps h.bytes m h'.bytes u_2 u_3))
