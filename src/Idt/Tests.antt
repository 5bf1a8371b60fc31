-- ===== src/Idt/Tests.antt =====
-- Handlers registered at an empty table, and the theorems at them.
use usbloader.Common.{ℕ, ◌≡◌, refl, Bool, some, List, [], ◌∷◌, arith, ◌==◌, update}
use usbloader.Idt.{Idt, Message, idt_reg_handler, idt_common_isr, last_elem, call_chain}
use usbloader.Idt.Chain.{IsIdt, registered, idt_reg_handler-append}
use usbloader.Idt.Dispatch.{answer, idt_common_isr-dispatch}

abbrev empty : Idt
empty = record { int_handlers = λ n. 0; next = λ h. 0 }

abbrev no_chains : ℕ → List ℕ
no_chains n = []

empty-IsIdt : IsIdt empty no_chains
empty-IsIdt = record { chain = λ n lt. refl; apart = λ m n a ne e. refl }

-- The timer's handler 100 at interrupt 32, then another one.
abbrev one : Idt
one = record { int_handlers = update (λ n. 0) 32 100; next = update (λ h. 0) 100 0 }

registered_one : idt_reg_handler 1 32 100 empty ≡ some one
unfolding idt_reg_handler last_elem
registered_one = refl

one-IsIdt : IsIdt one (registered no_chains 32 100)
one-IsIdt =
    let (s, e, idt) =
      idt_reg_handler-append 1 32 100 empty no_chains empty-IsIdt (omega arith) (omega arith)
        (λ n. refl) (omega arith) in
    let same : s ≡ one = cc (e, registered_one) in rw same at idt

idt_reg_handler-append_example :
    (s' : Idt) × (idt_reg_handler 2 32 200 one ≡ some s')
    × IsIdt s' (registered (registered no_chains 32 100) 32 200)
idt_reg_handler-append_example =
    idt_reg_handler-append 2 32 200 one (registered no_chains 32 100) one-IsIdt (omega arith)
      (omega arith) (λ n. ground arith) (omega arith)

abbrev two : Idt
two = record {
  int_handlers = update (λ n. 0) 32 100;
  next = update (update (update (λ h. 0) 100 0) 200 0) 100 200;
}

registered_two : idt_reg_handler 2 32 200 one ≡ some two
unfolding idt_reg_handler last_elem
registered_two = refl

two-IsIdt : IsIdt two (registered (registered no_chains 32 100) 32 200)
two-IsIdt =
    let (s, e, idt) =
      idt_reg_handler-append 2 32 200 one (registered no_chains 32 100) one-IsIdt (omega arith)
        (omega arith) (λ n. ground arith) (omega arith) in
    let same : s ≡ two = cc (e, registered_two) in rw same at idt

-- Handlers that log themselves; the second takes the interrupt.
abbrev logging : (elem int_n : ℕ) → List ℕ → Bool × List ℕ
logging elem int_n log = (elem == 200, elem ∷ log)

logged : idt_common_isr logging 3 32 two [] ≡ some (Message.silent, 200 ∷ 100 ∷ [])
unfolding idt_common_isr call_chain
logged = refl

idt_common_isr-dispatch_example :
    idt_common_isr logging 3 32 two []
    ≡ some (answer logging (registered (registered no_chains 32 100) 32 200 32) 32 [])
idt_common_isr-dispatch_example =
    idt_common_isr-dispatch logging 3 32 two (registered (registered no_chains 32 100) 32 200) []
      two-IsIdt (omega arith) (omega arith)
