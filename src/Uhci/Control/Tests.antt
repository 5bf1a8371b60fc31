-- ===== src/Uhci/Control/Tests.antt =====
-- A transfer of 18 bytes from a device with packets of 8, in the sample heap.
use usbloader.Common.{ℕ, ◌+◌, ◌*◌, ◌≡◌, ◌^◌, refl, true, some, arith, [], ◌∷◌}
use usbloader.Memory.{store8}
use usbloader.Heap.{Heap, memalloc, memalloc_aligned}
use usbloader.Heap.Layout.{free}
use usbloader.Heap.Payloads.{payloads}
use usbloader.Heap.Reach.{enough}
use usbloader.Heap.Sample.{sample, sample-IsHeap, heap_of}
use usbloader.Uhci.{UsbDevice, DeviceDescriptor, DeviceRequest, sizeof_td, td_pid_in, td_pid_out}
use usbloader.Uhci.Control.{
  write_request, count_td, packet_size, sizeof_device_request, uhci_create_td_control,
  standard_request,
}
use usbloader.Uhci.Control.Described.{Described, uhci_create_td_control-Described}

abbrev no_descriptor : DeviceDescriptor
no_descriptor = record {
  length = 0;
  desc_type = 0;
  bcd_usb = 0;
  device_class = 0;
  device_sub_class = 0;
  device_protocol = 0;
  max_packet_size = 8;
  vendor_id = 0;
  product_id = 0;
  bcd_device = 0;
  manufacturer_idx = 0;
  product_idx = 0;
  serial_number_idx = 0;
  configurations_num = 0;
}

abbrev keyboard : UsbDevice
keyboard = record { low_speed = true; addr = 1; dev_desc = no_descriptor; conf_desc = 0 }

abbrev get_descriptor : DeviceRequest
get_descriptor = standard_request 128 6 256 0 18

abbrev after_request : Heap
after_request = heap_of (memalloc (enough 65536 69632) 8 sample)

served_request :
    memalloc (enough 65536 69632) sizeof_device_request sample ≡ some (65544, after_request)
unfolding sample
served_request = refl

abbrev requested : Heap
requested = record after_request { bytes = write_request 65544 get_descriptor after_request.bytes }

abbrev after_td : Heap
after_td = heap_of (memalloc_aligned (enough 65536 69632) 160 16 requested)

served_td :
    memalloc_aligned
      (enough 65536 69632)
      (sizeof_td * count_td 18 (packet_size keyboard))
      (2 ^ 4)
      requested
    ≡ some (65568, after_td)
unfolding sample write_request count_td packet_size store8
served_td = refl

uhci_create_td_control-Described_example :
    (packets : ℕ) × (h' : Heap) × (uhci_create_td_control
        (enough 65536 69632)
        keyboard
        get_descriptor
        td_pid_in
        td_pid_out
        90000
        sample
      ≡ some ((packets + 2, 65568), h'))
    × Described 65536 69632 keyboard get_descriptor packets 65544 65568 td_pid_in td_pid_out 90000
        (payloads 65536 (free 4096 ∷ []))
        h'
uhci_create_td_control-Described_example =
    uhci_create_td_control-Described keyboard get_descriptor td_pid_in td_pid_out 90000 65544 65568
      sample-IsHeap (omega arith) (omega arith) (omega arith) (omega arith) served_request
      (omega arith) served_td (omega arith)
