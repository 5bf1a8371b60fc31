-- ===== src/Heap/Tests.antt =====
-- Runs of the allocator on a heap of 256 bytes, and its theorems at them.
use usbloader.Common.{ℕ, ◌+◌, ◌^◌, ◌≡◌, refl, Option, none, some, List, [], ◌∷◌, arith}
use usbloader.Common.Words.{add32, sub32}
use usbloader.Memory.{load32, store32}
use usbloader.Heap.{
  Heap, init_memory, align_ptr, aligned_mem_start, aligned_size, can_merge, coalesce_blocks,
  merge_both, merge_left, merge_right, find_block, split_after, split_before, place,
  memalloc_aligned, find_neighbours, release, memfree, memalloc,
}
use usbloader.Heap.Alloc.Refines.{Refines, allocate, memalloc_aligned-allocate}
use usbloader.Heap.Contents.Calls.{Untouched, memalloc_aligned-Untouched, memfree-Untouched}
use usbloader.Heap.Free.Refines.{memfree-put_free}
use usbloader.Heap.Layout.{Cell, free, used, IsHeap}
use usbloader.Heap.Payloads.{payloads}
use usbloader.Heap.Promise.{
  Allocated, HasPayloads, NoRoom, memalloc_aligned-Allocated, memalloc_aligned-null,
  memfree-HasPayloads,
}
use usbloader.Heap.Reach.{
  Reach, Valid, start, next, alloc, init_memory-IsHeap, Reach-Valid, memalloc_aligned-total, enough,
  enough-lt,
}
use usbloader.Heap.RoundTrip.{memfree-memalloc_aligned}

abbrev blank : Heap
blank = record { head = 0; bytes = λ x. 0 }

abbrev one_cell : List Cell
one_cell = free 256 ∷ []

fresh : Heap
unfolding init_memory add32 sub32 store32 load32
fresh = init_memory 64 320 blank

fresh-IsHeap : IsHeap 64 320 fresh one_cell
unfolding fresh
fresh-IsHeap = init_memory-IsHeap 64 320 blank (omega arith) (omega arith) (omega arith)

abbrev heap_of : Option (ℕ × Heap) → Heap
heap_of none = blank
heap_of (some (p, h)) = h

abbrev heap_of_free : Option Heap → Heap
heap_of_free none = blank
heap_of_free (some h) = h

abbrev pointer_of : Option (ℕ × Heap) → ℕ
pointer_of none = 0
pointer_of (some (p, h)) = p

-- The allocator, open for evaluation.
run : ℕ → ℕ → Heap → Option (ℕ × Heap)
unfolding memalloc_aligned memalloc find_block place aligned_mem_start aligned_size align_ptr
    split_after split_before coalesce_blocks can_merge merge_both merge_left merge_right add32 sub32
    store32 load32 find_neighbours release memfree fresh
run size align h = memalloc_aligned 300 size align h

-- A block of 5 bytes aligned to 64 leaves 56 free bytes in front of its header.
run_aligned : pointer_of (run 5 64 fresh) ≡ 128
unfolding run
run_aligned = refl

run_head : (heap_of (run 5 64 fresh)).head ≡ 64
unfolding run
run_head = refl

run_small : pointer_of (run 1 4 fresh) ≡ 72
unfolding run
run_small = refl

run_too_large : pointer_of (run 256 4 fresh) ≡ 0
unfolding run
run_too_large = refl

served : memalloc_aligned 300 5 (2 ^ 6) fresh ≡ some (128, heap_of (run 5 64 fresh))
unfolding run
served = refl

memfree-memalloc_aligned_example :
    (h₂ : Heap) × (memfree 300 128 (heap_of (run 5 64 fresh)) ≡ some h₂) × IsHeap 64 320 h₂ one_cell
memfree-memalloc_aligned_example =
    memfree-memalloc_aligned 6 5 300 128 (heap_of (run 5 64 fresh)) fresh-IsHeap (omega arith)
      (omega arith) (omega arith) served (omega arith)

abbrev held : Heap
held = heap_of (run 5 64 fresh)

memalloc_aligned-allocate_example :
    Refines 64 320 fresh (allocate 5 (2 ^ 6) 64 one_cell) (memalloc_aligned 300 5 (2 ^ 6) fresh)
memalloc_aligned-allocate_example =
    memalloc_aligned-allocate fresh-IsHeap 6 5 (omega arith) (omega arith) 300 (omega arith)

-- The heap with the payload at 128.
allocated : Allocated 64 320 5 (2 ^ 6) 128 held (payloads 64 one_cell)
allocated =
    memalloc_aligned-Allocated 6 5 300 128 held fresh-IsHeap (omega arith) (omega arith)
      (omega arith) served (omega arith)

memalloc_aligned-Allocated_example : Allocated 64 320 5 (2 ^ 6) 128 held (payloads 64 one_cell)
memalloc_aligned-Allocated_example =
    memalloc_aligned-Allocated 6 5 300 128 held fresh-IsHeap (omega arith) (omega arith)
      (omega arith) served (omega arith)

refused : memalloc_aligned 300 256 (2 ^ 2) fresh ≡ some (0, fresh)
unfolding run
refused = refl

memalloc_aligned-null_example : NoRoom 256 (2 ^ 2) 64 one_cell × (fresh ≡ fresh)
memalloc_aligned-null_example =
    memalloc_aligned-null 2 256 300 0 fresh fresh-IsHeap (omega arith) (omega arith) (omega arith)
      refused refl

memfree-HasPayloads_example :
    (h' : Heap) × (memfree 300 128 held ≡ some h') × HasPayloads 64 320 h' (payloads 64 one_cell)
memfree-HasPayloads_example =
    memfree-HasPayloads 300 128 allocated.room (payloads 64 one_cell) allocated.heap
      (omega (arith, enough-lt allocated.heap)) allocated.added

reached : Reach 64 320 held
unfolding run
reached = next (start blank) (alloc 5 6 128 (omega arith) refl)

Reach-Valid_example : Valid 64 320 held
Reach-Valid_example = Reach-Valid (omega arith) (omega arith) (omega arith) reached

memalloc_aligned-total_example :
    (r : ℕ × Heap) × (memalloc_aligned (enough 64 320) 24 (2 ^ 3) held ≡ some r)
memalloc_aligned-total_example =
    memalloc_aligned-total 24 3 (record { cells = allocated.cells; heap = allocated.heap })
      (omega arith)

held-IsHeap : IsHeap 64 320 held (free 56 ∷ used 0 13 ∷ free 187 ∷ [])
unfolding run
held-IsHeap = record {
  start = omega arith;
  top = omega arith;
  tiles =
      (refl, omega arith, refl, (omega arith, refl, refl, (refl, omega arith, refl, (refl, refl))));
  coalesced = (tt, (tt, tt));
}

memfree-put_free_example :
    (h' : Heap) × (memfree 2 (64 + 56 + 0 + 8) held ≡ some h') × IsHeap 64 320 h' (free 256 ∷ [])
memfree-put_free_example =
    memfree-put_free (free 56 ∷ []) (free 187 ∷ []) 0 13 2 held-IsHeap (omega arith)

-- A second payload, in front of the one at 128.
abbrev held_cells : List Cell
held_cells = free 56 ∷ used 0 13 ∷ free 187 ∷ []

abbrev two : Heap
two = heap_of (run 24 8 held)

second : memalloc_aligned 300 24 (2 ^ 3) held ≡ some (72, two)
unfolding run
second = refl

second_given : Allocated 64 320 24 (2 ^ 3) 72 two (payloads 64 held_cells)
second_given =
    memalloc_aligned-Allocated 3 24 300 72 two held-IsHeap (omega arith) (omega arith) (omega arith)
      second (omega arith)

memalloc_aligned-Untouched_example : Untouched (payloads 64 held_cells) held.bytes two.bytes
memalloc_aligned-Untouched_example =
    memalloc_aligned-Untouched 3 24 300 72 two held-IsHeap (omega arith) (omega arith) second
      (omega arith)

freed : memfree 300 72 two ≡ some (heap_of_free (memfree 300 72 two))
unfolding run memfree
freed = refl

memfree-Untouched_example :
    Untouched (payloads 64 held_cells) two.bytes (heap_of_free (memfree 300 72 two)).bytes
memfree-Untouched_example =
    memfree-Untouched 300 72 second_given.room (payloads 64 held_cells) second_given.heap
      (omega (arith, enough-lt second_given.heap)) second_given.added freed
