-- ===== src/Io.antt =====
-- drivers/io/io.h: the port instructions, over the state `W` of the devices that they change. What
-- the devices do is a parameter.
use usbloader.Common.{ℕ}

pub record Ports {ℓ} (W : Type ℓ) : Type ℓ where
  pub outl : (port value : ℕ) → W → W
  pub outw : (port value : ℕ) → W → W
  pub outb : (port value : ℕ) → W → W
  pub inl : (port : ℕ) → W → ℕ × W
  pub inw : (port : ℕ) → W → ℕ × W
  pub inb : (port : ℕ) → W → ℕ × W
