-- ===== src/Pit/Sleep.antt =====
-- sleep of pit.c returns, after as many timer interrupts as it was asked for.
use usbloader.Common.{
  ℕ, zero, suc, ◌+◌, ◌-◌, ◌≤◌, ◌<◌, ◌≡◌, refl, ◌∙◌, true, false, some, arith, ltb, ◌==◌, Bool-cases,
  inl, inr, if◌then◌else◌,
}
use usbloader.Pit.{Cpu, pit_timer_isr, wait_timer, sleep, timer_int}

module _ {ℓ} {W : Type ℓ} (cpu : Cpu W) where
  -- The devices after `k` halts.
  abbrev pub after : (k : ℕ) → W → W
  after zero w = w
  after (suc k) w = after k (cpu.hlt w).1

  -- The timer interrupts among the first `k`.
  abbrev pub ticks : (k : ℕ) → W → ℕ
  ticks zero w = 0
  ticks (suc k) w = (if (cpu.hlt w).0 == timer_int then 1 else 0) + ticks k (cpu.hlt w).1

  ticks_tick :
      (j : ℕ) (w : W)
      → ((cpu.hlt w).0 == timer_int) ≡ true
      → ticks (suc j) w ≡ 1 + ticks j (cpu.hlt w).1
  ticks_tick j w e = rw e refl

  ticks_other :
      (j : ℕ) (w : W)
      → ((cpu.hlt w).0 == timer_int) ≡ false
      → ticks (suc j) w ≡ ticks j (cpu.hlt w).1
  ticks_other j w e = rw e (omega arith)

  wait_tick :
      (fuel t : ℕ) (w : W)
      → ((cpu.hlt w).0 == timer_int) ≡ true
      → wait_timer cpu (suc fuel) (suc t) w ≡ wait_timer cpu fuel t (cpu.hlt w).1
  unfolding wait_timer pit_timer_isr
  wait_tick fuel t w tick =
      let running : (suc t == 0) ≡ false = ground arith in
      let counting : ltb 0 (suc t) ≡ true = ground arith in
      let less : suc t - 1 ≡ t = omega arith in rw (running, tick, counting, less) refl

  wait_other :
      (fuel t : ℕ) (w : W)
      → ((cpu.hlt w).0 == timer_int) ≡ false
      → wait_timer cpu (suc fuel) (suc t) w ≡ wait_timer cpu fuel (suc t) (cpu.hlt w).1
  unfolding wait_timer
  wait_other fuel t w other =
      let running : (suc t == 0) ≡ false = ground arith in rw (running, other) refl

  wait_timer-returns :
      (k fuel t : ℕ) (w : W)
      → t ≤ ticks k w
      → k < fuel
      → (j : ℕ) × (j ≤ k) × (wait_timer cpu fuel t w ≡ some (0, after j w)) × (ticks j w ≡ t)
  unfolding wait_timer
  wait_timer-returns k zero t w enough lt = absurd (omega arith)
  wait_timer-returns k (suc fuel) zero w enough lt = (0, omega arith, refl, refl)
  wait_timer-returns zero (suc fuel) (suc t) w enough lt = absurd (omega arith)
  wait_timer-returns (suc k) (suc fuel) (suc t) w enough lt =
      elim (Bool-cases ((cpu.hlt w).0 == timer_int)) [
        | inl e ↦
            let left : suc t ≤ 1 + ticks k (cpu.hlt w).1 = rw e at enough in
            let (j, le, call, count) =
              wait_timer-returns k fuel t (cpu.hlt w).1 (omega arith) (omega arith) in
            (
              suc j,
              omega arith,
              wait_tick fuel t w e ∙ call,
              ticks_tick j w e ∙ omega (arith, count),
            )
        | inr ne ↦
            let left : suc t ≤ 0 + ticks k (cpu.hlt w).1 = rw ne at enough in
            let (j, le, call, count) =
              wait_timer-returns k fuel (suc t) (cpu.hlt w).1 (omega arith) (omega arith) in
            (suc j, omega arith, wait_other fuel t w ne ∙ call, ticks_other j w ne ∙ count)
      ]

  -- When at least ms of the first k halts end by the timer's interrupt and the fuel is above k,
  -- sleep returns after at most k halts, of which exactly ms ended by the timer's interrupt, with
  -- the counter at 0.
  pub sleep-returns :
      (k fuel ms : ℕ) (w : W)
      → ms ≤ ticks k w
      → k < fuel
      → (j : ℕ) × (j ≤ k) × (sleep cpu fuel ms w ≡ some (0, after j w)) × (ticks j w ≡ ms)
  unfolding sleep
  sleep-returns k fuel ms w enough lt = wait_timer-returns k fuel ms w enough lt
