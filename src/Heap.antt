-- ===== src/Heap.antt =====
-- mem/mem.c: the first-fit allocator. A heap is the variable `free_block_head` and the bytes of
-- memory; a `struct free_block` at address `b` has `size` at `b` and `next` at `b + 4`, a
-- `struct block_header` has `size` at its address and `start_off` four bytes on. Pointers and
-- `uint32_t` are numbers with the wrap-around of 32 bits.
pub mod Align
pub mod Find
pub mod Alloc
pub mod Free
pub mod Payloads
pub mod RoundTrip
pub mod Reach
pub mod Owners
pub mod Contents
pub mod Sample
pub mod Promise
mod Tests
pub mod Layout
use usbloader.Common.{
  ℕ, zero, suc, ◌+◌, ◌-◌, ◌^◌, Bool, ◌&&◌, ◌||◌, not, Option, none, some, ltb, leb, ◌==◌,
  if◌then◌else◌, bit_and,
}
use usbloader.Common.Words.{add32, sub32}
use usbloader.Memory.{Bytes, load32, store32}

pub record Heap : Type 0 where
  pub head : ℕ
  pub bytes : Bytes

abbrev pub sizeof_free_block : ℕ
sizeof_free_block = 8

abbrev pub sizeof_block_header : ℕ
sizeof_block_header = 8

-- `b->size` and `b->next`, for a header `b->size` and `b->start_off`
abbrev pub size_of : Bytes → ℕ → ℕ
size_of m b = load32 m b

abbrev pub next_of : Bytes → ℕ → ℕ
next_of m b = load32 m (b + 4)

abbrev pub set_size : ℕ → ℕ → Heap → Heap
set_size b v h = record h { bytes = store32 h.bytes b v }

abbrev pub set_next : ℕ → ℕ → Heap → Heap
set_next b v h = record h { bytes = store32 h.bytes (b + 4) v }

-- `heap_start` and `heap_end` are symbols of the linker script
pub init_memory : (heap_start heap_end : ℕ) → Heap → Heap
init_memory heap_start heap_end h =
    set_next heap_start 0
      (set_size heap_start (sub32 heap_end heap_start) (record h { head = heap_start }))

-- `~((uintptr_t)align - 1)` is the complement in 32 bits
pub align_ptr : ℕ → ℕ → ℕ
align_ptr ptr align = bit_and (add32 ptr (sub32 align 1)) (2 ^ 32 - 1 - sub32 align 1)

pub aligned_mem_start : ℕ → ℕ → ℕ
aligned_mem_start block align = align_ptr (add32 block sizeof_block_header) align

pub aligned_size : Bytes → ℕ → ℕ → ℕ
aligned_size m block align =
    let lost = sub32 (aligned_mem_start block align) block in
    if ltb (size_of m block) lost then 0 else sub32 (size_of m block) lost

pub can_merge : Bytes → ℕ → ℕ → Bool
can_merge m a b = add32 a (size_of m a) == b

-- A `struct free_block **`: a local variable, or a pointer stored in memory.
pub data Slot : Type 0 where
  var : ℕ → Slot
  at : ℕ → Slot

abbrev pub deref : Slot → Bytes → ℕ
deref (var p) m = p
deref (at a) m = load32 m a

-- The call's three pointers and the memory, as the callee leaves them.
pub record Blocks : Type 0 where
  pub prev : ℕ
  pub middle : ℕ
  pub next : Slot
  pub bytes : Bytes

abbrev pub clear_next : Blocks → Blocks
clear_next s = elim (s.next) [
  | var p ↦ record s { next = var 0 }
  | at a ↦ record s { bytes = store32 s.bytes a 0 }
]

merge_both : Blocks → Blocks
merge_both s =
    let m₁ = store32 s.bytes (s.prev + 4) (next_of s.bytes (deref s.next s.bytes)) in
    let m₂ =
      store32 m₁ s.prev
        (add32 (size_of m₁ s.prev) (add32 (size_of m₁ s.middle) (size_of m₁ (deref s.next m₁)))) in
    clear_next (record s { middle = 0; bytes = m₂ })

merge_left : Blocks → Blocks
merge_left s =
    let m₁ = store32 s.bytes s.prev (add32 (size_of s.bytes s.prev) (size_of s.bytes s.middle)) in
    record s { middle = 0; bytes = store32 m₁ (s.prev + 4) (deref s.next m₁) }

merge_right : Blocks → Blocks
merge_right s =
    let m₁ = store32 s.bytes (s.middle + 4) (next_of s.bytes (deref s.next s.bytes)) in
    let m₂ = store32 m₁ s.middle (add32 (size_of m₁ s.middle) (size_of m₁ (deref s.next m₁))) in
    clear_next (record s { bytes = m₂ })

pub coalesce_blocks : Blocks → Blocks
coalesce_blocks s =
    let left = not (s.prev == 0) && can_merge s.bytes s.prev s.middle in
    let right =
      not (deref s.next s.bytes == 0) && can_merge s.bytes s.middle (deref s.next s.bytes) in
    if left && right
    then merge_both s
    else if left
    then merge_left s
    else if right
    then merge_right s
    else s

-- `prev->next`, or `free_block_head` where `prev` is NULL
abbrev pub get_link : ℕ → Heap → ℕ
get_link prev h = if prev == 0 then h.head else next_of h.bytes prev

abbrev pub set_link : ℕ → ℕ → Heap → Heap
set_link prev v h = if prev == 0 then record h { head = v } else set_next prev v h

-- The loop of `memalloc_aligned`: the block found and the one before it, `curr` 0 at the end of the
-- list. `none` is fuel that ran out.
pub find_block : ℕ → (size align prev curr : ℕ) → Bytes → Option (ℕ × ℕ)
find_block zero size align prev curr m = none
find_block (suc fuel) size align prev curr m =
    let rest = find_block fuel size align curr (next_of m curr) m in
    if not (curr == 0) && ltb (aligned_size m curr align) size then rest else some (prev, curr)

-- The part of the block after the allocation: a new free block, or space that the allocation
-- takes. The result has `new_header_size`.
pub split_after : (size prev curr new_mem : ℕ) → Heap → ℕ × Heap
split_after size prev curr new_mem h =
    let free_after = sub32 (size_of h.bytes curr) (sub32 (add32 new_mem size) curr) in
    let new_header_size = add32 size sizeof_block_header in
    let new_free_blk = add32 (sub32 new_mem sizeof_block_header) new_header_size in
    let next = next_of h.bytes curr in
    if leb sizeof_free_block free_after
    then (
      new_header_size,
      set_link prev new_free_blk (set_next new_free_blk next (set_size new_free_blk free_after h)),
    )
    else (add32 new_header_size free_after, set_link prev next h)

-- The part of the block before the header: a free block again, or space recorded in `start_off`.
pub split_before : (prev curr new_mem : ℕ) → Heap → Heap
split_before prev curr new_mem h =
    let new_header = sub32 new_mem sizeof_block_header in
    let free_before = sub32 (sub32 new_mem curr) sizeof_block_header in
    if leb sizeof_free_block free_before
    then (let h₁ = set_size curr free_before h in
        let h₂ = set_link prev curr (set_next curr (get_link prev h₁) h₁) in
        let s =
          coalesce_blocks
            (record { prev = prev; middle = curr; next = at (curr + 4); bytes = h₂.bytes }) in
        set_next new_header 0 (record h₂ { bytes = s.bytes }))
    else set_next new_header free_before h

pub place : (size prev curr new_mem : ℕ) → Heap → Heap
place size prev curr new_mem h =
    let (new_header_size, h₁) = split_after size prev curr new_mem h in
    set_size (sub32 new_mem sizeof_block_header) new_header_size (split_before prev curr new_mem h₁)

-- NULL is 0.
pub memalloc_aligned : ℕ → (size align : ℕ) → Heap → Option (ℕ × Heap)
memalloc_aligned fuel size align h =
    if size == 0 || align == 0
    then some (0, h)
    else elim (find_block fuel size align 0 h.head h.bytes) [
      | none ↦ none
      | some (prev, curr) ↦
          if curr == 0
          then some (0, h)
          else (let new_mem = aligned_mem_start curr align in
              if new_mem == 0 then some (0, h) else some (new_mem, place size prev curr new_mem h))
    ]

pub memalloc : ℕ → ℕ → Heap → Option (ℕ × Heap)
memalloc fuel size h = memalloc_aligned fuel size 4 h

-- The loop of `memfree`: the free blocks on both sides of `ptr`.
pub find_neighbours : ℕ → (ptr prev curr : ℕ) → Bytes → Option (ℕ × ℕ)
find_neighbours zero ptr prev curr m = none
find_neighbours (suc fuel) ptr prev curr m =
    let rest = find_neighbours fuel ptr curr (next_of m curr) m in
    if not (curr == 0) && ltb curr ptr then rest else some (prev, curr)

pub release : (ptr prev curr : ℕ) → Heap → Heap
release ptr prev curr h =
    let block_start = sub32 ptr sizeof_block_header in
    let size = size_of h.bytes block_start in
    let start_off = next_of h.bytes block_start in
    let new_free_blk = sub32 block_start start_off in
    let h₁ = set_size new_free_blk (add32 size start_off) (set_next new_free_blk curr h) in
    let h₂ = set_link prev new_free_blk h₁ in
    let s =
      coalesce_blocks
        (record { prev = prev; middle = new_free_blk; next = var curr; bytes = h₂.bytes }) in
    record h₂ { bytes = s.bytes }

pub memfree : ℕ → ℕ → Heap → Option Heap
memfree fuel ptr h = if ptr == 0 then some h else elim (find_neighbours fuel ptr 0 h.head h.bytes) [
  | none ↦ none
  | some (prev, curr) ↦ some (release ptr prev curr h)
]
