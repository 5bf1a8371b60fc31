-- ===== src/Uhci/Registers/Tests.antt =====
-- A controller whose reset bit is clear at the third reading, and one that never answers.
use usbloader.Common.{ℕ, ◌+◌, ◌≡◌, ltb, if◌then◌else◌}
use usbloader.Io.{Ports}
use usbloader.Uhci.Registers.{UhciDev, uhci_reset}
use usbloader.Uhci.Registers.Reset.{answers, uhci_reset-answers}

abbrev answering : (slow : ℕ) → Ports ℕ
answering slow = record {
  outl = λ port value w. w;
  outw = λ port value w. w;
  outb = λ port value w. w;
  inl = λ port w. (0, w);
  inw = λ port w. (if ltb w slow then 2 else 0, w + 1);
  inb = λ port w. (0, w);
}

abbrev silent : Ports ℕ
silent = record (answering 0) { inw = λ port w. (0xffff, w) }

abbrev controller : UhciDev
controller = record { iobase = 0xc000; frame_list_base = 0; portnum = 2; pci_dev = 0; qh1ms = 0 }

uhci_reset-answers_example : (uhci_reset (answering 2) (λ ms w. w) controller 0).0 ≡ 0
unfolding answers
uhci_reset-answers_example = uhci_reset-answers (answering 2) (λ ms w. w) controller 0

-- The controller that never answers.
reset_silent : (uhci_reset silent (λ ms w. w) controller 0).0 ≡ 1
unfolding answers
reset_silent = uhci_reset-answers silent (λ ms w. w) controller 0
