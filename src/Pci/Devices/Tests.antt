-- ===== src/Pci/Devices/Tests.antt =====
-- Functions behind ports that read the same number everywhere, and drivers that count their calls.
use usbloader.Common.{ℕ, ◌+◌, ◌≡◌, refl, true, false, [], ◌∷◌, ◌++◌}
use usbloader.Io.{Ports}
use usbloader.Pci.{pci_read_8, pci_read_16}
use usbloader.Pci.Devices.{
  Store, Driver, read_common, read_rest, read_function, pci_enumerate_devices,
}
use usbloader.Pci.Devices.Offers.{
  none_left, refuses, pointer_of, found_of, read_function-taken, read_function-Refused, read_pairs,
  pci_enumerate_devices-pairs,
}

abbrev constant_ports : ℕ → Ports ℕ
constant_ports n = record {
  outl = λ port value w. w;
  outw = λ port value w. w;
  outb = λ port value w. w;
  inl = λ port w. (n, w);
  inw = λ port w. (n, w);
  inb = λ port w. (n, w);
}

abbrev counting_store : Store ℕ
counting_store = record { memalloc = λ size w. (256, w); memfree = λ ptr w. w + 1000 }

abbrev refusing : Driver ℕ
refusing f w = (false, w + 1)

abbrev taking : Driver ℕ
taking f w = (true, w + 10)

read_function-taken_example :
    read_function (constant_ports 1) counting_store ((refusing ∷ []) ++ taking ∷ []) 0 3 0 5
    ≡ (taking (found_of (constant_ports 1) counting_store 0 3 0 5) 6).1
unfolding read_common read_rest pci_read_8 pci_read_16
read_function-taken_example =
    read_function-taken (constant_ports 1) counting_store 0 3 0 (refusing ∷ []) [] taking 5 6 refl
      (refuses refl none_left) refl

read_function-Refused_example :
    read_function (constant_ports 1) counting_store (refusing ∷ []) 0 3 0 5
    ≡ counting_store.memfree (pointer_of (constant_ports 1) counting_store 0 3 0 5) 6
unfolding read_common read_rest pci_read_8 pci_read_16
read_function-Refused_example =
    read_function-Refused (constant_ports 1) counting_store 0 3 0 (refusing ∷ []) 5 6 refl
      (refuses refl none_left)

pci_enumerate_devices-pairs_example :
    pci_enumerate_devices (constant_ports 255) counting_store (taking ∷ []) 5
    ≡ read_pairs (constant_ports 255) counting_store (taking ∷ []) 8192 0 5
pci_enumerate_devices-pairs_example =
    pci_enumerate_devices-pairs (constant_ports 255) counting_store (taking ∷ []) 5
