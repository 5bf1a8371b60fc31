-- ===== src/Uhci/Registers.antt =====
-- drivers/usb/uhci.c: the controller's registers, its reset and its ports. The parameter `sleep` is
-- that of Pit.antt, as what it does to the devices.
pub mod Reset
mod Tests
use usbloader.Common.{
  ℕ, zero, suc, ◌+◌, ◌-◌, ◌*◌, ◌/◌, ◌%◌, ◌^◌, Bool, true, false, not, ltb, ◌==◌, if◌then◌else◌,
  bit_and, bit_or, List, [], ◌∷◌,
}
use usbloader.Io.{Ports}
use usbloader.Console.{Console}

abbrev pub usbcmd : ℕ
usbcmd = 0x00

abbrev pub usbsts : ℕ
usbsts = 0x02

abbrev pub usbintr : ℕ
usbintr = 0x04

abbrev pub frbaseadd : ℕ
frbaseadd = 0x08

abbrev pub portsc1 : ℕ
portsc1 = 0x10

abbrev pub portsc2 : ℕ
portsc2 = 0x12

abbrev pub usbcmd_global_reset : ℕ
usbcmd_global_reset = 2 ^ 2

abbrev pub usbcmd_hc_reset : ℕ
usbcmd_hc_reset = 2 ^ 1

abbrev pub portsc_reset : ℕ
portsc_reset = 2 ^ 9

abbrev pub portsc_port_detect : ℕ
portsc_port_detect = 2 ^ 7

abbrev pub portsc_port_enable : ℕ
portsc_port_enable = 2 ^ 2

abbrev pub portsc_connect_status_chg : ℕ
portsc_connect_status_chg = 2 ^ 1

-- The port's low speed bit.
abbrev pub portsc_low_speed : ℕ → ℕ
portsc_low_speed reg = bit_and reg (2 ^ 8) / 2 ^ 8

-- `struct uhci_dev`; the pointers are numbers.
pub record UhciDev : Type 0 where
  pub iobase : ℕ
  pub frame_list_base : ℕ
  pub portnum : ℕ
  pub pci_dev : ℕ
  pub qh1ms : ℕ

-- `ports`
abbrev pub port_regs : List ℕ
port_regs = portsc1 ∷ portsc2 ∷ []

module _ {ℓ} {W : Type ℓ} (ports : Ports W) where
  abbrev pub uhci_read_32 : UhciDev → (reg : ℕ) → W → ℕ × W
  uhci_read_32 dev reg w = ports.inl (dev.iobase + reg) w

  abbrev pub uhci_read_16 : UhciDev → (reg : ℕ) → W → ℕ × W
  uhci_read_16 dev reg w = ports.inw (dev.iobase + reg) w

  abbrev pub uhci_read_8 : UhciDev → (reg : ℕ) → W → ℕ × W
  uhci_read_8 dev reg w = ports.inb (dev.iobase + reg) w

  abbrev pub uhci_write_32 : UhciDev → (reg value : ℕ) → W → W
  uhci_write_32 dev reg value w = ports.outl (dev.iobase + reg) value w

  abbrev pub uhci_write_16 : UhciDev → (reg value : ℕ) → W → W
  uhci_write_16 dev reg value w = ports.outw (dev.iobase + reg) value w

  abbrev pub uhci_write_8 : UhciDev → (reg value : ℕ) → W → W
  uhci_write_8 dev reg value w = ports.outb (dev.iobase + reg) value w

  -- The ports that show a device, over the registers of a list.
  pub count_ports : List ℕ → UhciDev → (port_num : ℕ) → W → ℕ × W
  count_ports [] dev port_num w = (port_num, w)
  count_ports (reg ∷ regs) dev port_num w =
      let (portsc, w') = uhci_read_16 dev reg w in
      count_ports regs dev
        (if not (bit_and portsc portsc_port_detect == 0) then (port_num + 1) % 2 ^ 8 else port_num)
        w'

  pub uhci_find_ports : UhciDev → W → ℕ × W
  uhci_find_ports dev w = count_ports port_regs dev 0 w

  module _ (sleep : (ms : ℕ) → W → W) where
    -- The loop that waits for the reset bit, with `timeout` rounds left: what is left of them.
    unfoldable pub wait_reset : UhciDev → (timeout : ℕ) → W → ℕ × W
    wait_reset dev zero w = (0, w)
    wait_reset dev (suc timeout) w =
        let (cmd, w') = uhci_read_16 dev usbcmd w in
        let rest = wait_reset dev timeout (sleep 10 w') in
        if not (bit_and cmd usbcmd_hc_reset == 0) then rest else (suc timeout, w')

    unfoldable pub uhci_reset : UhciDev → W → ℕ × W
    uhci_reset dev w =
        let w_1 = uhci_write_16 dev usbcmd usbcmd_global_reset w in
        let w_2 = uhci_write_16 dev usbcmd 0 (sleep 20 w_1) in
        let w_3 = uhci_write_16 dev usbcmd usbcmd_hc_reset w_2 in
        let (timeout, w_4) = wait_reset dev 100 w_3 in (if ltb 0 timeout then 0 else 1, w_4)

    -- The loop that waits for the enable bit, with `timeout` rounds left.
    pub wait_enable : UhciDev → (port timeout : ℕ) → W → ℕ × W
    wait_enable dev port zero w = (0, w)
    wait_enable dev port (suc timeout) w =
        let (portsc, w') = uhci_read_16 dev port (sleep 10 w) in
        let rest = wait_enable dev port timeout w' in
        if not (bit_and portsc portsc_port_enable == 0) then (suc timeout, w') else rest

    pub uhci_enable_device_on_port : Console W → UhciDev → (port : ℕ) → W → Bool × W
    uhci_enable_device_on_port console dev port w =
        let (portsc, w_1) = uhci_read_16 dev port w in
        let regval = bit_and portsc (2 ^ 16 - 1 - portsc_connect_status_chg) in
        let w_2 = sleep 100 (uhci_write_16 dev port (bit_or regval portsc_reset) w_1) in
        let w_3 =
          sleep 50 (uhci_write_16 dev port (bit_and regval (2 ^ 16 - 1 - portsc_reset)) w_2) in
        let w_4 = uhci_write_16 dev port (bit_or regval portsc_port_enable) w_3 in
        let (timeout, w_5) = wait_enable dev port 10 w_4 in
        if timeout == 0
        then (let w_6 = console.print "UHCI device bringup timed out on port " w_5 in
            let w_7 = console.print "\n" (console.print_number port 16 w_6) in
            (false, console.print_pci_dev dev.pci_dev w_7))
        else (let (regval', w_6) = uhci_read_16 dev port w_5 in
            (true, uhci_write_16 dev port regval' w_6))
