-- ===== src/Lib.antt =====
-- Vesper, a RISC-V kernel in Rust, modelled by shallow embedding.
--
-- Parts and files. The page-frame allocator hands out runs of pages; the scratch buffers of the file
-- system and the stacks of processes come from it. The Minix 3 reader mounts a device, reads inodes and
-- copies files, over the block driver. The process table spawns threads, and the timer tick and the
-- `exit` call ask it for the next one. Every trap comes to one handler: the timer tick, the calls, the
-- faults, and the external interrupts, which the interrupt controller hands out and takes back. The
-- UART's interrupt is echoed, that of a block device completes its requests. At boot the bus is
-- searched for devices by accesses that may fault, and their interrupts are let through.
--   PageFrame: src/mm/alloc/page_frame.rs; `init`, `allocate`, `zallocate` and `deallocate` on a `Heap`, which
--     holds the linker's bounds, `ALLOC_START` and the descriptor table as a list of bytes. Its
--     Segments is the abstract view: free pages and whole runs. Its Grants is a more abstract one, of
--     the runs that callers hold, with the calls as steps. Its Fresh says that a page handed out is one
--     that nobody holds.
--   TrapFrame: src/arch/riscv64/trap_frame.rs.
--   Process: src/process/process.rs and src/process/table.rs; `spawn_kernel` on a `Kernel`, `schedule` and
--     `exit_current` on a `Table`. Where the code returns a pointer to a frame the model has its slot.
--   Bytes: little-endian fields of a structure that is read from a buffer.
--   Minix: src/fs/minix3; its Fs has `mount` and `read_inode`, its File `read_file`, whose closure and
--     four loops are one function each. Content says independently which byte a file has at an
--     offset.
--   Mmio: a device, as what a read of an address answers and what a read or a write changes.
--   Uart: src/drivers/uart/mod.rs over such a device; Line says what is relied on of the hardware.
--   Plic: src/drivers/plic/mod.rs; Context says what is relied on of claims and completions, and Enable of the
--     enable word, the priorities and the threshold.
--   Escape: `echo_uart` of src/arch/riscv64/trap.rs, in Grammar the input's reading with look-ahead, and in
--     Console the echo between the two lines of the UART.
--   Trap: `m_trap` and `handle_external` of src/arch/riscv64/trap.rs on a `Machine`, which holds the statics and
--     the devices. The result of a trap is that of Syscall: where to go on, and in which slot.
--   Bus: src/drivers/virtio/bus.rs and the set-up in device.rs, over a bus whose accesses may fault; such an
--     access is a trap of `m_trap`, which has to go on behind it. A step of the set-up has a result, or the
--     set-up gives up; Refused is about the latter.
--   Boot: of src/boot/entry.rs `map_section`, in its Kernel the page table that `kinit` builds from the
--     symbols of src/linker/mod.rs, and what `kinit` does to the interrupt controller, and
--     `make_satp_sv39` of src/arch/riscv64/paging.rs. Its Listing is the probe of the file system,
--     `test_minix3`, with src/fs/minix3/dir_entry.rs. Its Loading is `test_elf`, for any inode, and its Disk the
--     read of the first disk in `skmain`.
--   Sv39: src/mm/paging/sv39/types.rs and map.rs; `map`, `unmap`, `v2p` and `id_map_range` on a `Space` of memory
--     and heap. An entry is its 64-bit pattern and a table the address of its first entry. Its Tree is the
--     invariant: each table has one place below the root, and its page is one that the heap has handed
--     out. Link, Grow, Grown, Ensure and Way follow `map` down to the last table, Write adds the leaf, and Refine
--     is the abstract view, a translation of pages that `map` updates. Drop and Shrink follow `unmap`, which
--     takes one table out of the tree after another. Isolation has a page beside the tables.
--   Elf: src/exec/elf.rs; `parse` and `program_headers` on a file image as a list of bytes.
--   Syscall: src/process/syscall.rs; `do_syscall` over the file reader and the process table.
--   Virtio: of src/drivers/virtio/device.rs `alloc_desc_chain`, `free_desc_chain` and the three descriptors
--     that `block_op` links. Its Device has `block_op`, `pending` and `pending_by_irq`: the rings and the
--     memory are shared with the hardware, which works before each look of the polling driver at the used
--     ring and before each at the status.
--   Prelude: tests, lists over the native numbers, bit operations, outcomes that may panic.
--
-- Conventions. `Outcome` is a result or a panic. A machine word is a natural number; where the code
-- wraps, `% 2 ^ w` is written out, and an addition of 64-bit addresses or times wraps, as the
-- subtraction that gives a virtio slot does. Most loops are over lists or counters.
--
-- Fuel. The walk of `free_desc_chain` takes the number of descriptors that it may visit; three are enough
-- for a chain of `block_op`, and `pending` allows as many as the ring has. The rounds of `pending` are
-- the distance of two 16-bit indices, so they need no fuel. The poll of `block_op` takes fuel for its
-- rounds, more than the steps in which the hardware writes the status. The UART waits for its transmitter with
-- fuel for the reads of the status, more than the reads for which the transmitter is busy.
--
-- Assumptions. The driver under the file system is a parameter: a function of the device, the size, the
-- offset and the heap, which it leaves as it was. Theorems about it say which bytes it serves while a
-- page is left for its request. The hardware is a parameter of the drivers, too: Uart.Line,
-- Plic.Context, Plic.Enable, Virtio.Device.Idle, Trap.Disk, Bus.Setup and Bus.Refused state what is
-- relied on, and the tests have a device that behaves in this way.
--
-- Not modelled. Assembly, CSR accesses and output formatting; the rest of the boot sequence, which calls
-- the parts in order and prints what they return; the values of the linker's symbols, which are
-- parameters. A fault of the file reader stands for a run that is not described any further, be it an
-- overflow that checks would refuse or a copy out of bounds. The alignment of the casts of the executable's
-- headers is not modelled, nor an interrupt that arrives while `block_op` polls, nor the types of the
-- interrupt controller's registers: a write of a byte or a word is one of a number.
pub mod Prelude
pub mod PageFrame
pub mod Plic
pub mod Trap
pub mod TrapFrame
pub mod Process
pub mod Boot
pub mod Bus
pub mod Bytes
pub mod Minix
pub mod Escape
pub mod Elf
pub mod Syscall
pub mod Sv39
pub mod Virtio
pub mod Mmio
pub mod Uart
