-- ===== src/Pit.antt =====
-- arch/pit.c: the millisecond timer. The static timer_ms_left is a number that the timer's
-- interrupt handler lowers; `hlt` waits for an interrupt, whose number the processor decides.
pub mod Sleep
mod Tests
use usbloader.Common.{
  ℕ, zero, suc, ◌+◌, ◌-◌, ◌*◌, ◌/◌, ◌%◌, ◌^◌, Bool, true, false, not, Option, none, some, ltb, ◌==◌,
  if◌then◌else◌, bit_and, bit_or,
}
use usbloader.Io.{Ports}
use usbloader.Idt.{Idt, idt_reg_handler}

abbrev pub pit_counter_0 : ℕ
pit_counter_0 = 0x40

abbrev pub pit_tcw : ℕ
pit_tcw = 0x43

abbrev pub tcw_counter_0 : ℕ
tcw_counter_0 = 0

abbrev pub tcw_rw_lsb_msb : ℕ
tcw_rw_lsb_msb = 3 * 2 ^ 4

abbrev pub tcw_mode_rate_gen : ℕ
tcw_mode_rate_gen = 2 * 2 ^ 1

abbrev pub tcw_binary : ℕ
tcw_binary = 0

abbrev pub pit_1000hz : ℕ
pit_1000hz = 1193

abbrev pub timer_int : ℕ
timer_int = 32

-- Whether the handler takes the interrupt, and the counter.
pub pit_timer_isr : ℕ → Bool × ℕ
pit_timer_isr timer_ms_left =
    if ltb 0 timer_ms_left then (false, timer_ms_left - 1) else (false, timer_ms_left)

-- What a halted processor does with its devices until an interrupt, and which one.
pub record Cpu {ℓ} (W : Type ℓ) : Type ℓ where
  pub hlt : W → ℕ × W

module _ {ℓ} {W : Type ℓ} (cpu : Cpu W) where
  -- The loop of `sleep`; `none` is fuel that ran out.
  pub wait_timer : ℕ → (timer_ms_left : ℕ) → W → Option (ℕ × W)
  wait_timer zero timer_ms_left w = none
  wait_timer (suc fuel) timer_ms_left w =
      let (int_n, w') = cpu.hlt w in
      let timer' = if int_n == timer_int then (pit_timer_isr timer_ms_left).1 else timer_ms_left in
      let rest = wait_timer fuel timer' w' in
      if not (timer_ms_left == 0) then rest else some (timer_ms_left, w)

  pub sleep : ℕ → (ms : ℕ) → W → Option (ℕ × W)
  sleep fuel ms w = wait_timer fuel ms w

-- The handler `int_h` of the timer joins its interrupt's chain, then the counter is programmed.
pub pit_init {ℓ} : {W : Type ℓ} → Ports W → (fuel int_h : ℕ) → Idt → W → Option (Idt × W)
pit_init ports fuel int_h idt w =
    let divisor = pit_1000hz in
    elim (idt_reg_handler fuel timer_int int_h idt) [
      | none ↦ none
      | some idt' ↦
          let tcw =
            bit_or (bit_or (bit_or tcw_counter_0 tcw_rw_lsb_msb) tcw_mode_rate_gen) tcw_binary in
          let w_1 = ports.outb pit_tcw tcw w in
          let w_2 = ports.outb pit_counter_0 (bit_and divisor 0xff) w_1 in
          some (idt', ports.outb pit_counter_0 (divisor / 2 ^ 8 % 2 ^ 8) w_2)
    ]
