-- ===== src/Debug/Gates.antt =====
-- What exceptionHandler of gdbstub.c does to the gates of the interrupt table.
use usbloader.Common.{ℕ, ◌+◌, ◌*◌, ◌/◌, ◌%◌, ◌^◌, ◌<◌, ◌||◌, leb, ◌==◌, if◌then◌else◌}
use usbloader.Memory.{Bytes, store16, load16}

-- A gate as the processor reads it: the handler's address, the segment, whether it is present, its
-- privilege, and whether it is a trap gate of 32 bits (or an interrupt gate).
pub record Gate : Type 0 where
  pub offset : ℕ
  pub segment : ℕ
  pub flags : ℕ

pub gate_at : (table n : ℕ) → Bytes → Gate
gate_at table n m =
    let g = table + 8 * n in
    record {
      offset = load16 m g + 65536 * load16 m (g + 6);
      segment = load16 m (g + 2);
      flags = load16 m (g + 4);
    }

-- The flags of a present gate at the highest privilege: an interrupt gate for the non-maskable
-- interrupt and the interrupts behind the exceptions, a trap gate for the others.
abbrev pub flags_of : ℕ → ℕ
flags_of n = 32768 + (if n == 2 || leb 32 n then 3584 else 3840)

module _ (table n address : ℕ) (m : Bytes) (fits : table + 8 * n + 8 < 2 ^ 32)
    (word : address < 2 ^ 32) where
  abbrev g : ℕ
  g = table + 8 * n

  abbrev written_1 : Bytes
  written_1 = store16 m (g + 6) (address / 65536)

  abbrev written_2 : Bytes
  written_2 = store16 written_1 g (address % 65536)

  abbrev written_3 : Bytes
  written_3 = store16 written_2 (g + 4) (flags_of n)
