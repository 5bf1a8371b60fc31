-- ===== src/Uhci/Requests/Tests.antt =====
-- A request to a device at address 0, with a controller that completes each transfer at once and the
-- handlers of the driver.
use usbloader.Common.{ℕ, ◌+◌, ◌*◌, ◌≡◌, inl, List}
use usbloader.Memory.{Bytes, store8, store32}
use usbloader.Heap.{Heap, memalloc, memalloc_aligned}
use usbloader.Heap.Layout.{Cell}
use usbloader.Heap.Reach.{enough}
use usbloader.Heap.Sample.{sample, heap_of}
use usbloader.Uhci.{UsbDevice, td_pid_in, td_pid_out}
use usbloader.Uhci.Control.{write_request, count_td, packet_size, write_control}
use usbloader.Uhci.Requests.{Machine, bytes_of, read_usb_device}
use usbloader.Io.{Ports}
use usbloader.Console.{Console}
use usbloader.Uhci.Registers.{UhciDev}
use usbloader.Uhci.Queue.{entry_last}
use usbloader.Uhci.Requests.Ending.{Queued}
use usbloader.Uhci.Interrupt.{halt}
use usbloader.Common.{◌-◌}
use usbloader.Uhci.Requests.Steps.{get_descriptor}

abbrev lo : ℕ
lo = 65536

abbrev hi : ℕ
hi = 69632

abbrev fuel : ℕ
fuel = enough lo hi

-- The controller's queue, and the byte that is set at the end of a transfer.
abbrev queue : ℕ
queue = 65552

abbrev done : ℕ
done = 90000

abbrev callback : ℕ
callback = 12345

-- The descriptor at `last` is no longer active, and the queue has no element.
abbrev retired : (last : ℕ) → Bytes → Bytes
retired last m = store32 (store32 m (last + 4) 0) (queue + 4) 1

-- A controller that completes a transfer before the next interrupt.
abbrev retire : Machine (Unit {0}) → Machine (Unit {0})
retire s = record s {
  heap = record (s.heap) { bytes = retired (entry_last (bytes_of s) s.pending_queue) (bytes_of s) };
}

abbrev uhci_ports : Ports (Unit {0})
uhci_ports = record {
  outl = λ port v w. w;
  outw = λ port v w. w;
  outb = λ port v w. w;
  inl = λ port w. (1, w);
  inw = λ port w. (1, w);
  inb = λ port w. (1, w);
}

abbrev quiet_console : Console (Unit {0})
quiet_console = record { print = λ t w. w; print_number = λ v b w. w; print_pci_dev = λ d w. w }

abbrev controller : UhciDev
controller = record {
  iobase = 0xc000;
  frame_list_base = 0;
  portnum = 2;
  pci_dev = 0;
  qh1ms = queue;
}

module _ (te td cnt : ℕ) (cells : List Cell) (s : Machine (Unit {0}))
    (q : Queued lo hi queue done callback te td cnt cells s) where
  abbrev m : Bytes
  m = bytes_of s

  abbrev last : ℕ
  last = td + 32 * (cnt - 1)

abbrev Working : (n te td cnt : ℕ) → List Cell → Machine (Unit {0}) → Type 0
Working n te td cnt cells s = (n ≡ 0) × Queued lo hi queue done callback te td cnt cells s

-- The sample heap with the controller's queue, which is empty.
abbrev with_queue : Heap
with_queue = heap_of (memalloc_aligned fuel 8 16 sample)

abbrev start_heap : Heap
start_heap = record with_queue { bytes = store32 with_queue.bytes (queue + 4) 1 }

abbrev start : Machine (Unit {0})
start = record { heap = start_heap; pending_queue = 0; world = tt }

abbrev udev : ℕ
udev = 80000

abbrev request_heap : Heap
request_heap = heap_of (memalloc fuel 8 start_heap)

abbrev device : UsbDevice
device = read_usb_device udev start_heap.bytes

abbrev requested : Heap
requested = record request_heap {
  bytes = write_request 65568 (get_descriptor 8) request_heap.bytes;
}

abbrev td_heap : Heap
td_heap = heap_of (memalloc_aligned fuel 96 16 requested)

abbrev created_heap : Heap
created_heap = record td_heap {
  bytes =
      write_control 65584 device (count_td 8 (packet_size device)) 65568 td_pid_in td_pid_out
        (udev + 2) td_heap.bytes;
}

abbrev entry_heap : Heap
entry_heap =
    heap_of (memalloc fuel 20 (record created_heap { bytes = store8 created_heap.bytes done 0 }))

abbrev hlt : Machine (Unit {0}) → Machine (Unit {0})
hlt = halt uhci_ports quiet_console fuel callback controller retire
