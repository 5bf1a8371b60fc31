-- ===== src/Heap/Sample.antt =====
-- Heaps to try the allocator's clients on, with one free cell: one of 4096 bytes, one of 16384.
use usbloader.Common.{ℕ, Option, none, some, [], ◌∷◌, arith}
use usbloader.Common.Words.{add32, sub32}
use usbloader.Memory.{load32, store32}
use usbloader.Heap.{
  Heap, init_memory, align_ptr, aligned_mem_start, aligned_size, can_merge, coalesce_blocks,
  merge_both, merge_left, merge_right, find_block, split_after, split_before, place,
  memalloc_aligned, find_neighbours, release, memfree, memalloc,
}
use usbloader.Heap.Layout.{free, IsHeap}
use usbloader.Heap.Reach.{init_memory-IsHeap}

abbrev pub blank_heap : Heap
blank_heap = record { head = 0; bytes = λ x. 0 }

-- The allocator, open for evaluation.
unfoldable pub sample : Heap
unfolding init_memory memalloc_aligned memalloc find_block place aligned_mem_start aligned_size
    align_ptr split_after split_before coalesce_blocks can_merge merge_both merge_left merge_right
    add32 sub32 store32 load32 find_neighbours release memfree
sample = init_memory 65536 69632 blank_heap

pub sample-IsHeap : IsHeap 65536 69632 sample (free 4096 ∷ [])
unfolding sample
sample-IsHeap = init_memory-IsHeap 65536 69632 blank_heap (omega arith) (omega arith) (omega arith)

abbrev pub heap_of : Option (ℕ × Heap) → Heap
heap_of none = blank_heap
heap_of (some (p, h)) = h

-- A heap of 16384 bytes.
unfoldable pub wide : Heap
unfolding init_memory memalloc_aligned memalloc find_block place aligned_mem_start aligned_size
    align_ptr split_after split_before coalesce_blocks can_merge merge_both merge_left merge_right
    add32 sub32 store32 load32 find_neighbours release memfree
wide = init_memory 65536 81920 blank_heap

pub wide-IsHeap : IsHeap 65536 81920 wide (free 16384 ∷ [])
unfolding wide
wide-IsHeap = init_memory-IsHeap 65536 81920 blank_heap (omega arith) (omega arith) (omega arith)
