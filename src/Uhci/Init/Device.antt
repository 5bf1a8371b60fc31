-- ===== src/Uhci/Init/Device.antt =====
-- pci_dev_init_cb of uhci.c, and the parts that it consists of.
use usbloader.Common.{
  ℕ, ◌+◌, ◌-◌, ◌*◌, ◌/◌, ◌%◌, ◌^◌, Bool, true, false, not, ltb, ◌==◌, if◌then◌else◌, Option, none,
  some, List, [], ◌∷◌, bit_and, bit_or,
}
use Prim.Native.String.{String}
use usbloader.Memory.{Bytes, store8, store16, store32, load32}
use usbloader.Io.{Ports}
use usbloader.Console.{Console}
use usbloader.Heap.{memalloc, memalloc_aligned, memfree}
use usbloader.Pci.{pci_write_16}
use usbloader.Pci.Devices.{Found, Type00, Driver, pci_register_driver}
use usbloader.Screen.Number.{wstr_to_str}
use usbloader.Uhci.Queue.{flp_ptr}
use usbloader.Uhci.Registers.{
  uhci_read_16, uhci_write_16, uhci_write_32, uhci_reset, uhci_find_ports,
  uhci_enable_device_on_port, usbintr, usbcmd, frbaseadd, port_regs, portsc_connect_status_chg,
  portsc_low_speed,
}
use usbloader.Uhci.Requests.{
  Machine, bytes_of, with_bytes, Act, ◌>>=◌, pure, on_heap, release, modify, dev_desc_field,
  uhci_read_dev_desc, uhci_read_dev_desc_maxpkg, uhci_set_device_address, uhci_read_string_desc,
}
use usbloader.Uhci.Init.{
  frame_list_size, frame_list_align, frbaseadd_ptr, flp_qh, flp_term, hoff_uhci_legsup,
  hoff_command, command_field, cmd_busmaster_mask, usbbase_bar_idx, usbintr_all,
  usbcmd_max_pkt_size, usbcmd_run, sizeof_uhci_dev, sizeof_queue_head, sizeof_int_handler,
  sizeof_usb_device, read_uhci_dev, fill_list, is_uhci_device, bar_at, perform, ask, get, zero_out,
}

-- What the driver is built on: the ports, the pauses, the text output with the text of a buffer in
-- memory, the interrupts that are waited for, and the registration of a handler. `uhci_isr` is its
-- address, `callback` that of `uhci_callback_trans_end`, and `done` and `desc_len` those of local
-- variables of the requests. `unread` is what a header that is not of type 0 has in its place.
pub record Platform {ℓ} (W : Type ℓ) : Type ℓ where
  pub ports : Ports (Machine W)
  pub sleep : (ms : ℕ) → Machine W → Machine W
  pub console : Console (Machine W)
  pub print_buffer : (buf : ℕ) → Machine W → Machine W
  pub hlt : Machine W → Machine W
  pub reg_handler : (int_n h : ℕ) → Machine W → Machine W
  pub uhci_isr : ℕ
  pub callback : ℕ
  pub done : ℕ
  pub desc_len : ℕ
  pub unread : Type00

-- `(uint8_t)((sdesc->length - 2u) / 2u + 1u)`
pub buffer_length : ℕ → ℕ
buffer_length length = ((length + (2 ^ 32 - 2)) % 2 ^ 32 / 2 + 1) % 2 ^ 8

module _ {ℓ} {W : Type ℓ} (p : Platform W) (fuel halts : ℕ) where
  abbrev pub say : String → Act W (Unit {0})
  say text = perform (p.console.print text)

  abbrev pub say_number : (value base : ℕ) → Act W (Unit {0})
  say_number value base = perform (p.console.print_number value base)

  unfoldable pub uhci_init_frame_list : (dev : ℕ) → Act W (Unit {0})
  uhci_init_frame_list dev = do
    flist ← on_heap (memalloc_aligned fuel (4 * frame_list_size) frame_list_align)
    qh1ms ← on_heap (memalloc_aligned fuel sizeof_queue_head 16)
    _ ← modify (λ m. store32 (store32 m qh1ms flp_term) (qh1ms + 4) flp_term)
    _ ← modify (λ m. store32 m (dev + 16) qh1ms)
    _ ← modify (fill_list frame_list_size flist (bit_or (flp_ptr qh1ms) flp_qh))
    _ ← modify (λ m. store32 m (load32 m (dev + 4)) (frbaseadd_ptr flist))
    perform (λ s.
        uhci_write_32 p.ports (read_uhci_dev dev (bytes_of s)) frbaseadd (frbaseadd_ptr flist) s)

  -- The port's register, read through the `struct uhci_dev` at `dev`.
  abbrev pub read_port : (dev reg : ℕ) → Act W ℕ
  read_port dev reg = ask (λ s. uhci_read_16 p.ports (read_uhci_dev dev (bytes_of s)) reg s)

  abbrev pub enable_port : (dev reg : ℕ) → Act W Bool
  enable_port dev reg = ask (λ s.
      uhci_enable_device_on_port p.ports p.sleep p.console (read_uhci_dev dev (bytes_of s)) reg s)

  -- A string descriptor is read and printed; `failed` and `separator` are what is printed around.
  pub print_string_desc :
      (dev udev : ℕ) (index : Bytes → ℕ) (sdesc : ℕ) (failed separator : String) → Act W (Unit {0})
  print_string_desc dev udev index sdesc failed separator = do
    i ← get index
    queue ← get (λ m. load32 m (dev + 16))
    (result, sdesc') ←
        uhci_read_string_desc p.hlt fuel halts p.callback queue p.done p.desc_len udev i sdesc
    _ ← if result then pure tt else say failed
    length ← get (λ m. m sdesc')
    buf ← on_heap (memalloc fuel (buffer_length length))
    _ ← zero_out fuel buf (buffer_length length)
    _ ← modify (λ m.
        wstr_to_str (sdesc' + 2) ((m sdesc' + (2 ^ 32 - 2)) % 2 ^ 32) buf (buffer_length length) m)
    _ ← perform (p.print_buffer buf)
    _ ← say separator
    _ ← release (memfree fuel buf)
    release (memfree fuel sdesc')

  -- The message for a failed request, after which the device is given up.
  abbrev pub give_up : (udev : ℕ) → String → Act W (Unit {0})
  give_up udev message = do _ ← say message; release (memfree fuel udev)

  abbrev pub queue_of : (dev : ℕ) → Act W ℕ
  queue_of dev = get (λ m. load32 m (dev + 16))

  -- The device has an address: its descriptor, and the names of its maker and of itself.
  pub describe_device : (dev udev : ℕ) → Act W (Unit {0})
  describe_device dev udev = do
    queue ← queue_of dev
    known ← uhci_read_dev_desc p.hlt fuel halts p.callback queue p.done udev (dev_desc_field udev)
    if known
        then (do
          _ ←
              print_string_desc dev udev (λ m. m (dev_desc_field udev + 14)) 0
                "uhci_read_string_desc mfg FAIL" ": "
          print_string_desc dev udev (λ m. m (dev_desc_field udev + 15)) 0
              "uhci_read_string_desc prod FAIL" "\n")
        else give_up udev "Failed to retrive device descriptor"

  -- The packet size is known: the port is reset again, and the device gets its address.
  pub address_device : (dev reg i udev : ℕ) → Act W (Unit {0})
  address_device dev reg i udev = do
    enabled ← enable_port dev reg
    if enabled
        then (do
          queue ← queue_of dev
          addressed ← uhci_set_device_address p.hlt fuel halts p.callback queue p.done udev (i + 1)
          if addressed
              then describe_device dev udev
              else give_up udev "Failed to set device address")
        else say "Device enablement failed 2"

  -- The body of the loop over the ports, when the port shows a change.
  pub connect_device : (dev reg i : ℕ) → Act W (Unit {0})
  connect_device dev reg i = do
    _ ← say "CONNECT STATUS CHANGE detected on port "
    _ ← say_number i 10
    _ ← say "\n"
    _ ← say "LO: "
    portsc ← read_port dev reg
    _ ← say_number (portsc_low_speed portsc) 16
    _ ← say "\n"
    enabled ← enable_port dev reg
    if enabled
        then (do
          udev ← on_heap (memalloc fuel sizeof_usb_device)
          _ ← zero_out fuel udev sizeof_usb_device
          portsc' ← read_port dev reg
          _ ← modify (λ m. store8 m udev (portsc_low_speed portsc'))
          queue ← queue_of dev
          known ←
              uhci_read_dev_desc_maxpkg p.hlt fuel halts p.callback queue p.done udev
                (dev_desc_field udev)
          if known
              then address_device dev reg i udev
              else give_up udev "Failed to retrive initial device descriptor")
        else say "Device enablement failed"

  -- The loop over the ports from `i` on, while `i` is below the number that `uhci_find_ports`
  -- counted, which is at most that of the registers.
  pub init_ports : (regs : List ℕ) (dev i : ℕ) → Act W (Unit {0})
  init_ports [] dev i = pure tt
  init_ports (reg ∷ regs) dev i = do
    portnum ← get (λ m. m (dev + 8))
    if ltb i portnum
        then (do
          portsc ← read_port dev reg
          _ ←
              if not (bit_and portsc portsc_connect_status_chg == 0)
              then connect_device dev reg i
              else (do _ ← say "Inactive port: "; _ ← say_number i 10; say "\n")
          init_ports regs dev (i + 1))
        else pure tt

  -- After the reset: the frame list, the interrupts, and the devices at the ports.
  pub start_controller : (dev interrupt_line : ℕ) → Act W (Unit {0})
  start_controller dev interrupt_line = do
    _ ← uhci_init_frame_list dev
    portnum ← ask (λ s. uhci_find_ports p.ports (read_uhci_dev dev (bytes_of s)) s)
    _ ← modify (λ m. store8 m (dev + 8) portnum)
    _ ← perform (λ s. uhci_write_16 p.ports (read_uhci_dev dev (bytes_of s)) usbintr usbintr_all s)
    _ ← perform (λ s.
        uhci_write_16 p.ports (read_uhci_dev dev (bytes_of s)) usbcmd
          (bit_or usbcmd_max_pkt_size usbcmd_run) s)
    _ ← say "UHCI init OK\n"
    _ ← say "UHCI INT line: "
    _ ← say_number interrupt_line 10
    _ ← say "\n"
    h ← on_heap (memalloc fuel sizeof_int_handler)
    _ ← modify (λ m. store32 (store32 m h p.uhci_isr) (h + 4) dev)
    _ ← perform (p.reg_handler ((interrupt_line + 32) % 2 ^ 8) h)
    _ ← say "UHCI portnum: "
    shown ← get (λ m. m (dev + 8))
    _ ← say_number shown 10
    _ ← say "\n"
    init_ports port_regs dev 0

  -- The header's field `command` gets the bit, in memory and at the device.
  unfoldable pub enable_busmaster : Found → Act W (Unit {0})
  enable_busmaster f = perform (λ s.
      if bit_and f.header.command cmd_busmaster_mask == 0
      then (let command = bit_or f.header.command cmd_busmaster_mask in
          pci_write_16 p.ports f.dev hoff_command command
            (with_bytes (λ m. store16 m (command_field f.pointer) command) s))
      else s)

  abbrev pub type00_of : Found → Type00
  type00_of f = elim f.header.type00 [ none ↦ p.unread | some t ↦ t ]

  -- Memory for the controller, its device and its ports' base, up to the answer of the reset.
  unfoldable pub reset_controller : Found → Act W (ℕ × ℕ)
  reset_controller f = do
    dev ← on_heap (memalloc fuel sizeof_uhci_dev)
    _ ← modify (λ m. store32 m (dev + 12) f.pointer)
    _ ← say "UHCI found\n"
    _ ← perform (pci_write_16 p.ports f.dev hoff_uhci_legsup 0x2000)
    _ ← enable_busmaster f
    _ ← modify (λ m. store16 m dev (bit_and (bar_at (type00_of f).bar usbbase_bar_idx) 0xfffe))
    failed ← ask (λ s. uhci_reset p.ports p.sleep (read_uhci_dev dev (bytes_of s)) s)
    pure (dev, failed)

  unfoldable pub pci_dev_init_cb : Found → Act W Bool
  pci_dev_init_cb f = if not (is_uhci_device f.header) then pure false else (do
    (dev, failed) ← reset_controller f
    if not (failed == 0)
        then (do
          _ ← say "UHCI reset timed out\n"
          _ ← perform (p.console.print_pci_dev f.pointer)
          _ ← release (memfree fuel dev)
          pure false)
        else (do _ ← start_controller dev (type00_of f).interrupt_line; pure true))

  -- The driver, on a machine of which `none` is one that ran out of fuel.
  pub uhci_init : List (Driver (Option (Machine W))) → List (Driver (Option (Machine W)))
  uhci_init drivers =
      let init : Driver (Option (Machine W)) = λ f state. elim state [
        | none ↦ (false, none)
        | some s ↦ elim (pci_dev_init_cb f s) [
          | none ↦ (false, none)
          | some (taken, s') ↦ (taken, some s')
        ]
      ] in
      pci_register_driver init drivers
