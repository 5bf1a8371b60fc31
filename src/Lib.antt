-- ===== src/Lib.antt =====
-- USBLoader is a boot loader. Its first stage (boot/stage1.asm) loads the second, a 32-bit
-- program in C: boot/stage2.c starts the screen, the timer, the serial line and the heap, then the
-- USB driver and the enumeration of PCI. The drivers take memory from the allocator (mem/mem.c),
-- reach the devices through port instructions (drivers/io/io.h) and PCI configuration space
-- (drivers/pci/pci21.c), and get interrupts from the handlers' chains (arch/idt.c).
--
-- Memory.antt: the machine's memory, a function from addresses to bytes, with 32-bit fields in
-- little-endian order. A pointer is a number; NULL is 0.
--
-- Heap.antt: mem/mem.c. The bounds and the free list's head are the record `Heap`, and the
-- blocks' headers are in memory, where the code reads and writes them. init_memory, memalloc,
-- memalloc_aligned, memfree, coalesce_blocks, aligned_size, aligned_mem_start, align_ptr and
-- can_merge keep their names. The loops of memalloc_aligned and memfree are `find_block` and
-- `find_neighbours`; what follows a loop is `place` (with `split_after` and `split_before`) and
-- `release`. Pointer arithmetic wraps at 32 bits. coalesce_blocks takes pointers to the link
-- fields as `Slot`s: the static head or a field in memory, so that a write through one is read
-- through another. The loops run on fuel, one step for each free block; the bytes of the heap
-- plus one are enough, since a free block has 8 bytes or more.
--   Heap/Layout.antt: a heap as a row of adjacent cells, free or used, that tiles it.
--   Heap/Find.antt: the first-fit search. Heap/Alloc, Heap/Free: allocation and release.
--   Heap/Payloads.antt, Heap/Promise.antt: what the holders of payloads see.
--   Heap/Owners.antt: what is added to the payloads, and writes into one of them.
--   Heap/Contents.antt: the bytes of the payloads under the writes of an allocation and a release.
--   Heap/Sample.antt: a heap that the tests of several files use.
--   Heap/Reach.antt: sequences of allocations, frees and writes from an initial heap.
--
-- Copy.antt: memcopy, memfill and scopy of mem/mem.c, their loops `copy_up`, `fill_up` and
-- `copy_chars` on fuel above the number of bytes. A copy goes upwards, so that regions may overlap
-- when the destination does not lie behind the source.
--
-- Idt.antt: arch/idt.c. The record `Idt` holds the static table int_handlers and the field _next
-- of each handler; idt_reg_handler and idt_common_isr keep their names, and their loops are
-- `last_elem` and `call_chain`, on fuel above the length of a chain. The handlers' code is a
-- parameter over a state of its own: a handler that registers another while it runs is not
-- modelled. What idt_common_isr prints is a `Message`.
--
-- Pci.antt: drivers/pci/pci21.c, get_pci_dev_addr and the six accesses pci_read_8 to
-- pci_write_32. Pci/Mechanism.antt states what a chipset with configuration mechanism #1 does at
-- the two ports and takes the registers of the functions as a parameter.
--
-- Screen.antt: drivers/display/print.c. The static curs_row and curs_col are fields of the record
-- `Screen`, beside the memory that holds the VGA text; the loops of screen_scroll are `move_up`
-- and `blank`, on the number of bytes and of places left, and the loop of print_string is
-- `put_all`, on the characters before the NUL. The display controller's behaviour at its two
-- ports is stated in Screen/Device.antt.
--   Screen/Number.antt: itoa and wstr_to_str. The loops of itoa are `convert`, on fuel above the
--   number of digits in base 2, and `invert`; an int is the data type ℤ.
--   Screen/PciText.antt: itoa_once and print_pci_dev.
--
-- Pci/Devices.antt: the enumeration of pci21.c, pci_enumerate_devices to pci_read_device, and the
-- registered drivers. The loop over the functions is `read_functions`, its body `read_function`,
-- and `offer` calls the drivers in turn. A device's header is the record `PciHeader`. The
-- allocator's calls, the drivers' init functions and the accesses are parameters over a state.
--
-- Uhci.antt: drivers/usb/uhci.c, the driver of the USB host controller. Structures that the
-- controller reads are in memory, the others are records.
--   Uhci/Control.antt: uhci_create_td_control, which takes a request and descriptors from the
--   heap and fills them in, and uhci_delete_td_control. Uhci/Control/Described.antt has the fields
--   of the UHCI and USB specifications.
--   Uhci/Registers.antt: the register accesses, the reset and the ports. `sleep` is a parameter.
--   Uhci/Queue.antt: the pending transfers. The static pending_queue is a field of `Queue`, the
--   entries are in memory. uhci_schedule_queue is `enqueue`, then `attach`; the loop of uhci_isr
--   is `run_queue`, and the handlers that it calls are a parameter that takes the queue and the
--   rest of the state. The walks run on fuel, one step for each entry or descriptor.
--   Uhci/Requests.antt: uhci_read_dev_desc and the other requests, as actions on the record
--   `Machine`: the heap with the memory, the pending queue and the rest of the machine. What the
--   requests have in common is `run_transfer`. The parameter `hlt` is the processor's hlt with the
--   interrupt handlers that run before it continues; uhci_wait_entry_complete runs on fuel that
--   counts halts. Uhci/Requests/Ending.antt states that what is queued ends, `Controller`.
--   Uhci/Interrupt.antt: the halt as the controller's work and then uhci_isr, with
--   uhci_callback_trans_end as the handler that it calls; the way of the interrupt through
--   arch/idt.c is not followed again. The controller is a parameter; what is relied on is
--   `Completes` of Uhci/Interrupt/Ends.antt, which derives `Controller` from it.
--   Uhci/Init.antt: the frame list and the status of a descriptor; Uhci/Init/Device.antt:
--   pci_dev_init_cb, cut at its loop and at the places where a device is given up, and uhci_init.
--   What it is built on is the record `Platform`.
--
-- Pit.antt: arch/pit.c. sleep waits in `wait_timer`; `hlt` is a parameter of the processor that
-- tells, for each halt, which interrupt ended it. The fuel counts halts.
--
-- Serial.antt: drivers/serial/serial.c. The waits `wait_ready` and `wait_fifo` count readings of the
-- line's status, the second on fuel. Serial/Line.antt states what a UART does at its ports.
--
-- Debug.antt: utils/gdbstub.c, which connects the debugger's stub to COM1 and to the gates of the
-- interrupt table. The table's address is a parameter.
--
-- Console.antt: the functions that the drivers print with, as parameters.
--
-- Io.antt: drivers/io/io.h, the port instructions as a record of functions.
--
-- Common.antt: the names that all files share. Common/Words.antt is 32-bit arithmetic,
-- Common/Bits.antt the masks and the disjunctions of disjoint fields.
--
-- Not modelled: idt_set and idt_get of arch/idt.c, one instruction each; utils/i386-stub.c, a
-- copy of GDB's stub; the assembly of boot/; boot/stage2.c, which calls the initialisations in turn;
-- and the tests (test/, mem/mem_test.c).
pub mod Common
pub mod Memory
pub mod Io
pub mod Console
pub mod Heap
pub mod Copy
pub mod Idt
pub mod Pit
pub mod Serial
pub mod Debug
pub mod Pci
pub mod Screen
pub mod Uhci
