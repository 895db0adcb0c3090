-- ===== src/Lib.antt =====
-- Verification library of EfesOS, a 32-bit kernel: models of its components over native numbers, with
-- the theorems that make them correct.
--
-- A definition stands for the C function or type of its name; a prefix that repeats the component's
-- name (`ipc_`, `pmm_`, `ahci_irq_state_`) is dropped. A call that changes memory is a function from the
-- state before to its result with the state after. Unsigned arithmetic keeps its wrap-around (`add32`,
-- `sub32`, `add64`, `% 2 ^ w`), a shift is a product or a quotient by a power of two, and a pointer that
-- may be null is an `Option`.
--
-- The parts and the files that model them:
--
-- Base (helpers): Boolean tests, lists and C arrays over native numbers, the laws of bit operations
--   (Base/Bits), bitmaps of 32-bit words (Base/Bitmap), wrap-around and masks (Base/Words).
-- Ipc (kernel/ipc.c, kernel/ipc.h): the ring of messages. Ipc/Fifo is the list of messages that the ring
--   stands for and what each call means on it; Ipc/Slots and Ipc/Inv relate slots to positions and keep
--   the ring well formed; Ipc/Refine and Ipc/Purge are the refinements. `head`, `tail` and `count` are
--   the C variables.
-- BootInfo (include/boot_info.h, memory/e820.c): the record that the loader passes, its validation and
--   the two passes over its memory map, whose callbacks are function arguments.
-- Pmm (memory/pmm.c): the allocator of physical blocks, a client of BootInfo: `pmm_init` validates the
--   record and gives the passes its own callbacks. A bitmap is a function from word indices to words.
--   Pmm/Passes and Pmm/Init follow initialisation, Pmm/Count relates the counters to the bitmaps,
--   Pmm/Inv is the invariant, Pmm/Alloc and Pmm/User the calls, Pmm/Protect what a claim protects. The linker's symbols for the kernel
--   image are arguments of `init`.
-- Hpet (drivers/hpet_time.c): division and multiplication without library calls, the conversion of ticks
--   and the extension of a 32-bit counter.
-- Rtc (drivers/rtc_time.c): the decoding of the clock's registers. Rtc/Encode describes what a clock
--   shows, independently of the decoder.
-- BlockDevice (drivers/block_device.c): the layer between a file system and a disk driver. The driver's
--   functions are arguments: they act on a world of their own, of any type.
-- Ahci (drivers/ahci_irq_state.c, drivers/ahci_recovery_state.c, drivers/ahci_layout.c,
--   drivers/ahci_device_table.c, and one loop of drivers/ahci.c): the interrupts of a command, the resets
--   after an error with the loop that runs them (Ahci/Recovery/Loop), the command structures and the
--   table of disks, a client of BlockDevice. Interleavings of the interrupt handler with the polling
--   code are sequences of calls.
-- Ata (drivers/ata_irq_state.c, drivers/ata_dma.c): the interrupts of the older channel and its
--   transfers.
-- Journal (fs/journal.c): the log on a disk. Journal has the fields, the checksum and the superblock,
--   Journal/Record the form of a record, Journal/Log the scan and the replay, Journal/Append the next
--   sequence number and the append in two writes. The callbacks are arguments: they act on a disk of any
--   type, and the consumer of the records on a state of any type. Their null checks are not modelled.
--   The disk of the theorems on an append (Journal/Append/Atomic) writes a sector whole or not at all,
--   and a write that fails may have happened. A replay's second pass has its own answers of the reading
--   callback, which may fail where the first pass has read.
-- Ramfs (fs/ramfs.c, fs/ramfs.h): the files in memory, a consumer of the journal's records. Ramfs/Texts
--   reads texts as lists of bytes, Ramfs/Directory is the directory that the table stands for and what
--   each call means on it, Ramfs/Invariant keeps it well formed, Ramfs/Table, Ramfs/Refine, Ramfs/Remove
--   and Ramfs/Run relate the two, Ramfs/Apply and Ramfs/Replay apply journal entries.
--
-- Scheduler (process/scheduler.c): the tasks and the choice of the next one. Scheduler/Stack has the
--   kernel stacks, Scheduler/Switch the switch of tasks and the end of a user task, Scheduler/Add new
--   tasks. Scheduler/Machine is the interface to paging, blocks, the process table and memory; the queue
--   of messages is the one of Ipc. Scheduler/Choice, Scheduler/Ending, Scheduler/Purging and
--   Scheduler/Identity have the proofs.
--
-- Fat (fs/fat.c, fs/fat.h): the checks and the layout of a FAT16 volume (fat_mount). Fat/Names has the
--   short names, Fat/Chain the table of clusters and the search for a path, Fat/Files the list of the
--   files and fat_read_file. Fat/Layout and Fat/Mount have the proofs on the layout, Fat/Reading,
--   Fat/Guard, Fat/Contents and Fat/Complete those on fat_read_file.
--
-- Loops over a range are recursion on the rounds left, of which the range has exactly as many as the
-- source's condition allows. `purge_from` takes the number of messages as fuel: each round passes or
-- removes one. `string_equals` has 32 rounds, the size of a file's name: one of the two texts always
-- ends within them where a valid name is compared. `divide_from` has the 64 rounds of the source, and
-- `multiply_from` has 32: each halves the 32-bit factor, which is zero after 32. `schedule_from_frame`
-- has fuel for two rounds, of which the second follows a fault and cannot fault again. `recover` of
-- Ahci/Recovery/Loop has three tests of the source's condition as fuel, which two resets can use at
-- most. `scan_chain` and `read_chain` have the rounds that the source's guards allow: the number of
-- clusters.
--
-- Not modelled: self-tests, inline assembly, device registers and polling, saving and restoring the
-- interrupt flag around a call (a call is atomic here), the packed layout of structures in memory, and
-- the parts of the kernel that no file above names.
pub mod Ahci
pub mod Ata
pub mod Base
pub mod BlockDevice
pub mod BootInfo
pub mod Fat
pub mod Hpet
pub mod Ipc
pub mod Journal
pub mod Pmm
pub mod Ramfs
pub mod Rtc
pub mod Scheduler
