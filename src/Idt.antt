-- ===== src/Idt.antt =====
-- arch/idt.c: the chains of interrupt handlers. A `struct idt_int_handler *` is a number, NULL is
-- 0; the handlers' code is a parameter, and so is the world that they change.
pub mod Chain
pub mod Dispatch
mod Tests
use usbloader.Common.{
  ℕ, zero, suc, Bool, true, false, ◌||◌, not, Option, none, some, leb, ◌==◌, if◌then◌else◌, update,
}

abbrev pub max_isr_cnt : ℕ
max_isr_cnt = 48

pub record Idt : Type 0 where
  pub int_handlers : ℕ → ℕ  -- the first handler of each interrupt
  pub next : ℕ → ℕ  -- the field `_next` of each handler

-- The loop to the last handler of a chain; `none` is fuel that ran out.
pub last_elem : ℕ → (next : ℕ → ℕ) → ℕ → Option ℕ
last_elem zero next elem = none
last_elem (suc fuel) next elem =
    let rest = last_elem fuel next (next elem) in if not (next elem == 0) then rest else some elem

pub idt_reg_handler : (fuel int_n h : ℕ) → Idt → Option Idt
idt_reg_handler fuel int_n h s =
    if leb max_isr_cnt int_n
    then some s
    else (let cleared = update s.next h 0 in
        if s.int_handlers int_n == 0
        then some (record { int_handlers = update s.int_handlers int_n h; next = cleared })
        else elim (last_elem fuel cleared (s.int_handlers int_n)) [
          | none ↦ none
          | some elem ↦ some (record s { next = update cleared elem h })
        ])

-- What `idt_common_isr` prints: a line, or nothing.
pub data Message : Type 0 where
  silent : Message
  no_handler : ℕ → Message
  not_handled : ℕ → Message

-- The `do` loop over a chain: whether a handler took the interrupt, and the world after the calls.
pub call_chain {ℓ} :
    {W : Type ℓ} (handler : (elem int_n : ℕ) → W → Bool × W)
    → ℕ
    → (next : ℕ → ℕ) → (elem int_n : ℕ) → W
    → Option (Bool × W)
call_chain handler zero next elem int_n w = none
call_chain handler (suc fuel) next elem int_n w =
    let (done, w') = handler elem int_n w in
    let rest = call_chain handler fuel next (next elem) int_n w' in
    if done then some (true, w') else if next elem == 0 then some (false, w') else rest

pub idt_common_isr {ℓ} :
    {W : Type ℓ} (handler : (elem int_n : ℕ) → W → Bool × W)
    → (fuel int_n : ℕ) → Idt
    → W
    → Option (Message × W)
idt_common_isr handler fuel int_n s w =
    if leb max_isr_cnt int_n || s.int_handlers int_n == 0
    then some (no_handler int_n, w)
    else elim (call_chain handler fuel s.next (s.int_handlers int_n) int_n w) [
      | none ↦ none
      | some (done, w') ↦ some (
          if done
          then (silent, w')
          else if int_n == 32
          then (silent, w')
          else (not_handled int_n, w'))
    ]
