-- ===== src/Pit/Tests.antt =====
-- A processor whose timer interrupts at every other halt, the keyboard in between.
use usbloader.Common.{ℕ, ◌+◌, ◌%◌, ◌≤◌, ◌≡◌, ◌==◌, if◌then◌else◌, some, arith}
use usbloader.Pit.{Cpu, sleep}
use usbloader.Pit.Sleep.{after, ticks, sleep-returns}

abbrev halting : Cpu ℕ
halting = record { hlt = λ n. (if n % 2 == 0 then 33 else 32, n + 1) }

sleep-returns_example :
    (j : ℕ) × (j ≤ 6)
    × (sleep halting 7 3 0 ≡ some (0, after halting j 0))
    × (ticks halting j 0 ≡ 3)
sleep-returns_example = sleep-returns halting 6 7 3 0 (omega arith) (omega arith)
