-- ===== src/Debug/Tests.antt =====
-- The gates of the page fault and of the one before it, in a table of zeros.
use usbloader.Memory.{Bytes}

abbrev zeros : Bytes
zeros x = 0
