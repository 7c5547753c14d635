-- ===== src/Lib.antt =====
-- A verification library of the emulator's deterministic core: checked arithmetic, the event
-- scheduler, the table of open files, the kernel's waitable objects, the handles to them, the
-- cooperative thread scheduler, the processor that it switches, with its instruction decoder
-- and executors, the guest's heaps, and the guest's physical and virtual memory.
--
-- * Common (libs/common/include/xblob/common/error.hpp, result.hpp, safe_math.hpp):
--   `ErrorCode`, `Result`, and `CheckedAdd`, `CheckedSub`, `CheckedMul` and `RangeInBounds` in
--   Common/SafeMath, over the largest value of the unsigned type.
-- * Core/Scheduler (libs/core/src/scheduler.cpp): `DeterministicScheduler`. The priority queue
--   is the list of events in the order in which they leave it; a callback is a parameter that
--   answers with the requests it makes of the scheduler. `RunUntil` is `run_until`, its two
--   loops are `run_loop`, by recursion on the events that may still fire and on the queue, and
--   `drain`.
-- * Vfs/HandleTable (libs/vfs/src/vfs_handle_table.cpp, vfs_types.hpp): `VfsHandleTable`, slots
--   with a generation of 16 bits that every close advances.
-- * Kernel/Sync (libs/kernel/src/sync_objects.cpp, kernel_time.cpp): `EventObject`,
--   `MutexObject`, `SemaphoreObject` and `TimerObject`. The counts of a semaphore are words of
--   32 bits in two's complement. Their sum in `Release` overflows a signed type, which C++
--   leaves undefined, for counts near 2 ^ 31; it is read as wrapping, as the usual targets
--   compile it.
-- * Kernel/Handles (libs/kernel/src/sync_objects.cpp, types.hpp): `HandleTable`, which finds
--   those objects by handle; the waits of the kernel's calls go through it. An index is cut to
--   16 bits and the number of an object to 32, as in the source; what a handle finds is stated
--   for tables in which both fit.
-- * Kernel/Threads (libs/kernel/src/thread_scheduler.cpp): `ThreadScheduler`. It saves and
--   loads the register file of Cpu/Registers (libs/cpu/include/xblob/cpu/registers.hpp), and
--   takes threads whose wait has timed out from the objects through Kernel/Handles.
--   `ScheduleNext` is public and does not look at the current thread: called while a thread
--   runs it leaves two threads running, so that it is a step of its own only while none runs,
--   as where the other calls use it.
-- * Cpu/Flags (libs/cpu/include/xblob/cpu/flags.hpp, and the conditions of instruction.hpp),
--   Cpu/Instruction (operand.hpp, instruction.hpp) and Cpu/Decoder (libs/cpu/src/decoder.cpp
--   with the headers decoder_*.hpp and instruction_stream.hpp beside it): the arithmetic flags,
--   operands and the instruction decoder. The memory that the source takes as a template
--   parameter is the record `MemoryType`. The loop over the prefixes has 16 rounds of fuel; the
--   stream ends after 15 bytes.
-- * Cpu/Executor (libs/cpu/src/executor_*.cpp): what each instruction does to the registers and
--   the memory, and the gates of interrupts. Signed numbers are in two's complement, and a trap
--   handler of the host is a parameter.
-- * Cpu/Processor (libs/cpu/src/cpu.cpp): `Cpu`, which joins the decoder and the executors.
--   `RunWithBudget` is a recursion on the instructions that are left of its budget, so that it
--   needs no fuel.
-- * Kernel/Heap (libs/kernel/src/guest_heap.cpp): `GuestHeap` and, in Kernel/Heap/Manager,
--   `GuestHeapManager`. The searches of `Allocate` and `AllocateAligned` are `first_fit` and
--   `aligned_fit`; a size is rounded up on 64 bits, so that one within the alignment of 2 ^ 64
--   is rounded to 0, which the statement on `Allocate` excludes; the copy that `ReAllocate`
--   makes through guest memory is returned as a request.
-- * Memory/Region and Memory/AddressSpace (libs/memory/src/ram.cpp, address_space.cpp, and the
--   headers region.hpp, permission.hpp and mmio.hpp): `Ram`, `Region` and `AddressSpace`. The
--   callbacks of the devices are a parameter that maps a device's state, an offset and a width
--   to a new state and a result.
-- * Memory/Virtual (libs/memory/src/virtual_memory.cpp): `VirtualMemory`, which walks page
--   tables in an address space and caches what it finds; its reads, writes and fetches are in
--   Memory/Virtual/Access.
--
-- Words are native numbers with the wrap of each operation written out (Prelude/Words). Every
-- loop of the modelled code but that over the prefixes of an instruction is a structural
-- recursion. A call that may fail after it has changed something is a function from a state to
-- a state and a result (Common/Stateful). Where a method returns a pointer to an object, the
-- model returns the object's value.
--
-- Not modelled: the call handlers of the kernel, its registry and file services, the devices,
-- the parsers of executables and disc images, and host input and output. Callbacks of the event
-- scheduler that run the scheduler themselves are left out.
pub mod Prelude
pub mod Common
pub mod Core
pub mod Vfs
pub mod Cpu
pub mod Kernel
pub mod Memory
