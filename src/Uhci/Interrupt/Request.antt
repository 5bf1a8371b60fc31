-- ===== src/Uhci/Interrupt/Request.antt =====
-- uhci_read_dev_desc of uhci.c with the interrupt's handlers of the driver.
use usbloader.Common.{ℕ, ◌^◌, ◌≤◌, ◌<◌, ◌≡◌, ◌≢◌, ◌⊎◌, Bool, some, List}
use usbloader.Heap.{Heap, memalloc}
use usbloader.Heap.Contents.Holders.{Among}
use usbloader.Heap.Layout.{Cell, IsHeap}
use usbloader.Heap.Payloads.{payloads}
use usbloader.Heap.Reach.{enough}
use usbloader.Uhci.{UsbDevice}
use usbloader.Uhci.Control.{sizeof_device_request, count_td, packet_size}
use usbloader.Uhci.Control.Kept.{}
use usbloader.Uhci.Control.Ready.{}
use usbloader.Uhci.Requests.{Machine, bytes_of, read_usb_device}
use usbloader.Uhci.Requests.Entry.{Idle}
use usbloader.Io.{Ports}
use usbloader.Console.{Console}
use usbloader.Uhci.Registers.{UhciDev}
use usbloader.Uhci.Interrupt.{halt}
use usbloader.Uhci.Requests.Steps.{length_of}

module _ {ℓ} {W : Type ℓ} (ports : Ports W) (console : Console W)
    (controller : Machine W → Machine W) (hc : UhciDev)
    (Working : (n te td cnt : ℕ) → List Cell → Machine W → Type 0)
    (lo hi queue done rounds halts callback udev dev_desc dr td te qn : ℕ) (maxpkg : Bool)
    (s : Machine W) (cs : List Cell) (h_1 h_3 h_4 h_5 : Heap) (outside : (done < lo) ⊎ (hi ≤ done))
    (done_word : done < 2 ^ 32) (buf_word : dev_desc < 2 ^ 32) (heap : IsHeap lo hi s.heap cs)
    (callback_word : callback < 2 ^ 32) (idle : Idle queue s) (queue_fits : 8 ≤ qn)
    (queue_held : Among queue qn (payloads lo cs))
    (call_1 : memalloc (enough lo hi) sizeof_device_request s.heap ≡ some (dr, h_1))
    (dr_set : dr ≢ 0) where
  abbrev dev : UsbDevice
  dev = read_usb_device udev (bytes_of s)

  abbrev cnt : ℕ
  cnt = count_td (length_of maxpkg) (packet_size dev)

  abbrev hlt : Machine W → Machine W
  hlt = halt ports console (enough lo hi) callback hc controller
