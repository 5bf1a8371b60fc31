-- ===== src/Uhci/Init/Tests.antt =====
-- A controller whose registers do not answer.
use usbloader.Common.{◌^◌, inl, ◌≡◌, refl, false, some, arith, [], ◌∷◌}
use usbloader.Memory.{load32}
use usbloader.Heap.{Heap, memalloc, memalloc_aligned}
use usbloader.Heap.Contents.Holders.{Added-Among}
use usbloader.Heap.Contents.Calls.{Untouched}
use usbloader.Heap.Layout.{free}
use usbloader.Heap.Payloads.{payloads}
use usbloader.Heap.Promise.{HasPayloads, Allocated, memalloc_aligned-Allocated}
use usbloader.Heap.Reach.{enough, enough-lt}
use usbloader.Heap.Sample.{sample, sample-IsHeap, wide, wide-IsHeap, heap_of}
use usbloader.Io.{Ports}
use usbloader.Console.{Console}
use usbloader.Pci.Devices.{Found, Type00}
use usbloader.Uhci.Init.{is_uhci_device}
use usbloader.Uhci.Init.Device.{Platform, pci_dev_init_cb, uhci_init_frame_list}
use usbloader.Uhci.Init.FrameList.{Listed, uhci_init_frame_list-Listed}
use usbloader.Uhci.Init.Refused.{Silent, mastered, pci_dev_init_cb-HasPayloads}
use usbloader.Uhci.Requests.{Machine, bytes_of}

abbrev bridge : Type00
bridge = record {
  bar = 0 ∷ 0 ∷ 0 ∷ 0 ∷ 0xc001 ∷ 0 ∷ [];
  cardbus_cis = 0;
  subsystem_vid = 0;
  subsystem_id = 0;
  rom_base_addr = 0;
  interrupt_line = 11;
  interrupt_pin = 4;
  min_grant = 0;
  max_latency = 0;
}

abbrev no_ports : Ports (Machine (Unit {0}))
no_ports = record {
  outl = λ port v s. s;
  outw = λ port v s. s;
  outb = λ port v s. s;
  inl = λ port s. (0xffffffff, s);
  inw = λ port s. (0xffff, s);
  inb = λ port s. (0xff, s);
}

abbrev no_console : Console (Machine (Unit {0}))
no_console = record { print = λ t s. s; print_number = λ v b s. s; print_pci_dev = λ d s. s }

abbrev platform : Platform (Unit {0})
platform = record {
  ports = no_ports;
  sleep = λ ms s. s;
  console = no_console;
  print_buffer = λ b s. s;
  hlt = λ s. s;
  reg_handler = λ n h s. s;
  uhci_isr = 4096;
  callback = 4160;
  done = 90000;
  desc_len = 90004;
  unread = bridge;
}

platform-Silent : Silent platform
platform-Silent = record {
  outl_kept = λ port v s. refl;
  outw_kept = λ port v s. refl;
  inw_kept = λ port s. refl;
  sleep_kept = λ ms s. refl;
  print_kept = λ t s. refl;
  print_pci_dev_kept = λ d s. refl;
  busy = λ port s. refl;
}

abbrev found : Found
found = record {
  pointer = 65544;
  dev = record { bus = 0; device = 1; func = 2 };
  header = record {
    vendor_id = 0x8086;
    device_id = 0x7112;
    command = 1;
    status = 0;
    rev_id = 1;
    prog_if = 0;
    subclass = 3;
    class_code = 12;
    cache_line_size = 0;
    latency_timer = 0;
    header_type = 0;
    bist = 0;
    type00 = some bridge;
  };
}

-- The sample heap with the `struct pci_dev`.
abbrev with_pci_dev : Heap
with_pci_dev = heap_of (memalloc_aligned (enough 65536 69632) 68 4 sample)

pci_dev_call : memalloc_aligned (enough 65536 69632) 68 (2 ^ 2) sample ≡ some (65544, with_pci_dev)
unfolding sample
pci_dev_call = refl

pci_dev_given :
    Allocated 65536 69632 68 (2 ^ 2) 65544 with_pci_dev (payloads 65536 (free 4096 ∷ []))
pci_dev_given =
    memalloc_aligned-Allocated 2 68 (enough 65536 69632) 65544 with_pci_dev sample-IsHeap
      (omega arith) (omega arith) (enough-lt sample-IsHeap) pci_dev_call (λ e. absurd (omega arith))

abbrev machine : Machine (Unit {0})
machine = record { heap = with_pci_dev; pending_queue = 0; world = tt }

abbrev given : Heap
given = heap_of (memalloc (enough 65536 69632) 20 with_pci_dev)

controller_call : memalloc (enough 65536 69632) 20 with_pci_dev ≡ some (65620, given)
unfolding sample
controller_call = refl

pci_dev_init_cb-HasPayloads_example :
    (s' : Machine (Unit {0})) × (pci_dev_init_cb platform (enough 65536 69632) 2 found machine
      ≡ some (false, s'))
    × (HasPayloads 65536 69632 s'.heap (payloads 65536 pci_dev_given.cells)
        × Untouched
            (payloads 65536 pci_dev_given.cells)
            (mastered found (bytes_of machine))
            (bytes_of s'))
unfolding is_uhci_device
pci_dev_init_cb-HasPayloads_example =
    pci_dev_init_cb-HasPayloads platform platform-Silent 2 pci_dev_given.room found machine 65620
      given pci_dev_given.heap
      (Added-Among 65544 pci_dev_given.room (payloads 65536 (free 4096 ∷ []))
        (payloads 65536 pci_dev_given.cells) pci_dev_given.added)
      pci_dev_given.enough controller_call (λ e. absurd (omega arith))

-- The driver's structure for the controller.
abbrev with_dev : Heap
with_dev = heap_of (memalloc_aligned (enough 65536 81920) 20 4 wide)

dev_call : memalloc_aligned (enough 65536 81920) 20 (2 ^ 2) wide ≡ some (65544, with_dev)
unfolding wide
dev_call = refl

dev_given : Allocated 65536 81920 20 (2 ^ 2) 65544 with_dev (payloads 65536 (free 16384 ∷ []))
dev_given =
    memalloc_aligned-Allocated 2 20 (enough 65536 81920) 65544 with_dev wide-IsHeap (omega arith)
      (omega arith) (enough-lt wide-IsHeap) dev_call (λ e. absurd (omega arith))

abbrev with_list : Heap
with_list = heap_of (memalloc_aligned (enough 65536 81920) 4096 4096 with_dev)

list_call : memalloc_aligned (enough 65536 81920) 4096 4096 with_dev ≡ some (69632, with_list)
unfolding wide
list_call = refl

abbrev with_queue : Heap
with_queue = heap_of (memalloc_aligned (enough 65536 81920) 8 16 with_list)

queue_call : memalloc_aligned (enough 65536 81920) 8 16 with_list ≡ some (65584, with_queue)
unfolding wide
queue_call = refl

abbrev initialised : Machine (Unit {0})
initialised = record { heap = with_dev; pending_queue = 0; world = tt }

base_zero : load32 with_dev.bytes 65548 ≡ 0
unfolding wide
base_zero = refl

uhci_init_frame_list-Listed_example :
    (s' : Machine (Unit {0})) × (uhci_init_frame_list platform
        (enough 65536 81920)
        2
        65544
        initialised
      ≡ some (tt, s'))
    × Listed 65536 81920 65544 69632 65584 (payloads 65536 dev_given.cells) s'.heap
uhci_init_frame_list-Listed_example =
    uhci_init_frame_list-Listed platform 2 65544 dev_given.room 69632 65584 initialised with_list
      with_queue dev_given.heap
      (Added-Among 65544 dev_given.room (payloads 65536 (free 16384 ∷ []))
        (payloads 65536 dev_given.cells) dev_given.added)
      dev_given.enough (inl (omega (arith, base_zero))) list_call (λ e. absurd (omega arith))
      queue_call (λ e. absurd (omega arith))
