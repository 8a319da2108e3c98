-- ===== src/Lib.antt =====
-- MiniVisorPi is a small type 1 hypervisor for AArch64 (QEMU and Raspberry Pi 4). This library models the
-- parts of it that decide: the virtual interrupt controller, the virtual UART, the FAT32 reader and
-- writer, the memory allocator, Stage 2 paging, the scheduler of virtual CPUs, the virtual
-- block device, the guest's traps and its PSCI calls.
--
-- The parts and their files:
-- VgicLr: src/vgic_lr.rs. create_list_register_entry packs an entry of a GICv2 List Register (GICH_LR).
-- ListRegisters: src/vgic.rs, add_virtual_interrupt, and the GICH accessors of src/drivers/gicv2.rs. The
--   state is the record Gich: the List Registers of the pCPU that runs the code, their number, the
--   end-of-interrupt status and the overflow counter. Distributor code calls it to inject an entry.
-- GicDistributor: src/mmio/gicv2.rs, the virtual Distributor of a VM. The record GicDistributorMmio has
--   the source's fields; Registers has the accessors, Trigger has trigger_interrupt_to and retrigger,
--   Inject has inject_interrupt_handler and inject_pending_for_current_cpu, Mmio has the guest's reads
--   and writes. Platform joins a Distributor, the List Registers of the running pCPU and the SGIs sent
--   to other pCPUs, as a list. The result of get_current_cpu_target is an argument.
-- Vgic: src/vgic.rs, maintenance_interrupt_handler, over ListRegisters and GicDistributor.
-- Pl011: src/mmio/pl011.rs, the virtual UART, which triggers its interrupt in a Distributor. Printing on
--   the physical console is a list of bytes that an operation returns (Pl011/Console).
-- Fat32: src/fat32.rs. Directory has search_file, Gather the inner loops of read and write, Read and Write
--   the operations, Walk the hint on the cluster chain. A transfer is a record of what the device
--   moves and of the bytes that go from or to the caller's buffer; whether the device and the page allocator succeed are arguments.
-- MemoryAllocator: src/memory_allocator.rs. Entries are references by index into a pool; operations are
--   written in a state monad whose results are a value, an error, a panic, or fuel that ran out.
--   FreeList, Used, Free and Allocate have the operations, Alignment the arithmetic.
-- VirtioBlk: src/mmio/virtio_blk.rs, the virtual block device, over memory as a function from an address
--   to its byte. Queue has the rings, Operation the requests, in a state monad with early returns,
--   Registers the guest's reads and writes. The transfer of the file system is a parameter.
-- GuestMemory: src/guest_memory.rs, the address of a byte of the guest's RAM.
-- Paging: src/paging.rs. Descriptors are words; Map has the walk that fills the tables, over memory as a
--   function from the address of a descriptor to its value, with the page allocator as a parameter;
--   Setup has VTCR_EL2, new tables and the mapping of a range. Reached has the states of a walk by its
--   writes, Complete where it ends, Progress that it keeps to both.
-- Vm: src/vm.rs. The record Pcpu is what a physical CPU holds of its virtual CPU, Machines the list of
--   VMs; the registers of a guest that a switch does not save are in one field. An Arc<VM> is a place in that list, from which VMs are never removed. Mmio dispatches accesses
--   to devices, Context saves and restores, Schedule has the yield at WFI and the switch at CPU_OFF,
--   Boot the end of create_vm. Turns, OnTurn, Queue and Yielded have the lemmas, RoundRobin and Resumed the
--   theorems on the order of the turns and on what a vCPU finds at its turn.
-- Exception: src/exception.rs, the decoding of a trap and the emulation of an access to a device, which
--   goes through Vm/Mmio, and the handler of WFI, which goes through Vm/Schedule.
-- Psci: src/psci.rs, error codes and firmware calls, with the firmware as a parameter.
-- Smp: the pCPUs that src/main.rs parks, and the guest's CPU_ON, CPU_OFF and other calls. A parked pCPU
--   is its place in the list of all that were ever parked, since the list of those available and the
--   loop that the pCPU waits in share it. Attended and Lifecycle have the steps of all pCPUs, with the
--   place at which each one waits.
-- Prelude: lists, bits and Boolean tests on the native numbers. Tests: runs at concrete inputs.
--
-- Conventions. An access outside an array panics: in the interrupt controller an operation is an Option,
-- none for a panic. Words are numbers, and their wrap-around is written out. An arithmetic overflow
-- panics in the models of the allocator, of paging and of guest addresses, as in a build with overflow
-- checks, and wraps in that of FAT32, as in one without. Locks are not modelled: an operation runs under the lock that the source takes.
--
-- Fuel. The loop of write over a set-enable or set-pending register takes at most 32 rounds for a 32-bit
-- value and has fuel 64; the theorem on writes shows that it is enough. The inner loops of FAT32 have
-- the length plus one, enough since each round adds a byte or more, as the theorem on reads shows; the
-- outer loop takes its fuel as an argument, any positive number in the theorem on reads. Walks of the
-- allocator's chain and free lists have the size of the pool, 64, and the calls of define_free_memory
-- 128.
--
-- The walk that fills the tables is by recursion on the levels that are left and on the descriptors that
-- are left in a table, without fuel. The loops over requests and descriptors of the block device take
-- their fuel as an argument: a guest can make them endless, as a theorem shows.
--
-- Not modelled: the hardware drivers, boot and exception entry, the device tree, the other virtio
-- devices, the ELF loader, locks and the host console. They are assembly, volatile device access or
-- printing, or components that stand beside those modelled here. In src/fat32.rs mounting and list_files
-- are left out, in src/mmio/pl011.rs the statistics counters, in src/vm.rs the loading of images and the
-- set-up of EL2 registers, in src/paging.rs the maintenance of the TLB.
pub mod Prelude
pub mod VgicLr
pub mod ListRegisters
pub mod GicDistributor
pub mod Vgic
pub mod Pl011
pub mod Fat32
pub mod MemoryAllocator
pub mod GuestMemory
pub mod Paging
pub mod Vm
pub mod Exception
pub mod Psci
pub mod Smp
pub mod VirtioBlk
pub mod Tests
