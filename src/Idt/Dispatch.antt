-- ===== src/Idt/Dispatch.antt =====
-- What idt_common_isr does with a chain of idt.c as a list.
use usbloader.Common.{
  ℕ, zero, suc, ◌<◌, ◌≡◌, refl, Bool, true, false, ◌||◌, Bool-cases, inl, inr, some, List, [], ◌∷◌,
  arith, leb, ◌==◌, if◌then◌else◌, length,
}
use usbloader.Idt.{
  Idt, Message, silent, no_handler, not_handled, max_isr_cnt, call_chain, idt_common_isr,
}
use usbloader.Idt.Chain.{Chain, IsIdt}

-- What a list of handlers does, in order, until one takes the interrupt.
pub dispatch {ℓ} :
    {W : Type ℓ} (handler : (elem int_n : ℕ) → W → Bool × W) → List ℕ → ℕ → W → Bool × W
dispatch handler [] n w = (false, w)
dispatch handler (x ∷ xs) n w =
    let rest = dispatch handler xs n (handler x n w).1 in
    if (handler x n w).0 then (true, (handler x n w).1) else rest

module _ {ℓ} {W : Type ℓ} (handler : (elem int_n : ℕ) → W → Bool × W) where
  call_chain-dispatch :
      (fuel : ℕ) (next : ℕ → ℕ) (x : ℕ) (xs : List ℕ) (n : ℕ) (w : W)
      → length xs < fuel
      → Chain next (next x) xs
      → call_chain handler fuel next x n w ≡ some (dispatch handler (x ∷ xs) n w)
  unfolding call_chain dispatch
  call_chain-dispatch zero next x xs n w lt c = absurd (omega arith)
  call_chain-dispatch (suc fuel) next x [] n w lt c = rw c (ground arith)
  call_chain-dispatch (suc fuel) next x (y ∷ ys) n w lt c =
      let rest : Chain next (next y) ys = c.3 in
      let ih = call_chain-dispatch fuel next y ys n (handler x n w).1 (omega arith) rest in
      let set : (y == 0) ≡ false = ground arith in
      rw (c.0, set)
        (elim (Bool-cases (handler x n w).0) [ inl done ↦ rw done refl | inr more ↦ rw more ih ])

  -- The message and the world that a list of handlers leaves.
  abbrev pub answer : List ℕ → ℕ → W → Message × W
  answer [] n w = (no_handler n, w)
  answer (x ∷ xs) n w =
      let r = dispatch handler (x ∷ xs) n w in
      (if r.0 || n == 32 then silent else not_handled n, r.1)

  -- On chains that are lists of distinct handlers no two of which share one, for an interrupt below
  -- 48 and more fuel than its chain has handlers, idt_common_isr returns: it has called the
  -- handlers of the chain in order up to the first that takes the interrupt, and prints a line only
  -- if there is no handler, or if none takes the interrupt and it is not the timer's.
  pub idt_common_isr-dispatch :
      (fuel n : ℕ) (s : Idt) (chains : ℕ → List ℕ) (w : W)
      → IsIdt s chains
      → n < max_isr_cnt
      → length (chains n) < fuel
      → idt_common_isr handler fuel n s w ≡ some (answer (chains n) n w)
  unfolding idt_common_isr
  idt_common_isr-dispatch fuel n s chains w idt lt enough = run (chains n) (idt.chain n lt) enough
    where
      run :
          (xs : List ℕ)
          → Chain s.next (s.int_handlers n) xs
          → length xs < fuel
          → idt_common_isr handler fuel n s w ≡ some (answer xs n w)
      run [] c enough = rw c (ground arith)
      run (x ∷ xs) c enough =
          let small : leb max_isr_cnt n ≡ false = ground arith in
          let some_first : (x == 0) ≡ false = ground arith in
          let found = call_chain-dispatch fuel s.next x xs n w (omega arith) c.3 in
          rw (small, c.0, some_first, found) (ground arith)
