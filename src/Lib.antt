-- ===== src/Lib.antt =====
-- Nyaux, a kernel in Rust: its data structures and services as functions on explicit state.
--
-- Parts and files (paths from the repository's root):
--   Lists      kernel/src/util/lists/mod.rs. Nodes: memory and field access. Lists: the operations,
--              under their names in the source. Segments, Unlink, Shape: what a chain of nodes is.
--              Push, Pop, Walk: the operations on it. Refinement: sequences of operations against a
--              deque. Arcs: the list of counted references, with its accounts. Arcs.Boxes: the
--              list of boxes against it.
--   Scheduler  kernel/src/scheduler/mod.rs, with `context_switch` of kernel/src/arch/x86_64/mod.rs.
--              The run queue is the list of Lists.Arcs. RoundRobin and Fairness: `sched_yield`.
--   Interrupts X86: the stubs and the handler of kernel/src/arch/x86_64/idt/mod.rs, over the scheduler,
--              and `Prepare_thread` of kernel/src/arch/x86_64/mod.rs. Resume, Timer, Start: what an
--              interrupt goes on with. Boot: `thread::new` and `sched_init` of
--              kernel/src/scheduler/mod.rs. Tables: the gates and segment descriptors of the same file and of
--              kernel/src/arch/x86_64/gdt/mod.rs. Timers: kernel/src/arch/x86_64/lapic/mod.rs and
--              kernel/src/arch/x86_64/hpet/mod.rs.
--   Memory     Align: `align_up`, `align_down` of kernel/src/main.rs. Regions: `Pagemap` of
--              kernel/src/memory/vmm/mod.rs, its region list as a list, its calls of the page tables
--              and for its nodes recorded, and taken to succeed. Pages: the free list of kernel/src/memory/pmm/mod.rs.
--              Slab: kernel/src/memory/slab.rs. Made, Taking, Giving: new slabs, allocation in one slab,
--              giving back. Serving: allocation along the slabs of a cache. Classes: the choice of a cache.
--              Global: kernel/src/memory/mod.rs, over the slabs and the regions.
--   Vfs        kernel/src/vfs/mod.rs over kernel/src/vfs/ramfs.rs. Files: `read` and `write` of a file.
--              Names: directory entries. Paths: lookups. Mounts: `mount` and `unmount`.
--              Ustar: one archive entry, kernel/src/vfs/ustar.rs.
--   Locks      `SpinLock` of kernel/src/util/mod.rs: each access is a step of one cpu, and the cpus step
--              in any order. Exclusion: who has the lock. Interrupts: the interrupt flags.
--              Once and Readers: `Once` and `RWSpinLock` of the same file, in the same way.
--   Paging     the page tables over memory by words and the free pages. RiscV:
--              kernel/src/arch/risc_v/pt/mod.rs. X86: kernel/src/arch/x86_64/pt/mod.rs. Format: what the
--              two share; its Links, Walk and Mapping follow one walk through well-formed tables, and
--              RiscV.Mapping and X86.Mapping are instances of it. Flags: the bits of an entry. Hardware: the
--              processor's view, against which the mappings are stated.
--   Pci        kernel/src/pci/mod.rs. Access: registers. Names: the tables of names. Scan: the bus scan;
--              Pushed: what it pushes by its own tests, Seen: by the bytes of the devices.
--              Bars: `pci_map_bar`, over `vmm_alloc_with_phys` of Memory.Regions.
--   Virtio     kernel/src/virtio/mod.rs. Chains and Pool: descriptors and their free list; Release: giving
--              chains back. Queue: the rings, and one command. Ring: the available ring as a queue.
--   Acpi       kernel/src/uacpi/mod.rs. Memory: the memory callbacks, over Memory.Global, and
--              the mapping callbacks, over the regions alone. Devices: the
--              handles, the configuration space through Pci, and the ports.
--   Errno      the error numbers of kernel/src/util/mod.rs.
--   Base       numbers, lists, tests, and runs that may fault, shared by all.
--
-- State is passed explicitly. A run is an `Option`: `none` is a panic, an `unwrap` of a failure, or an
-- access through an invalid pointer. Machine words wrap where they are written. A pointer walk takes
-- fuel, and its theorems ask for fuel above the number of items, which is enough; the bus scan takes
-- fuel for its depth, and 256 less the number of the bus is enough,
-- giving a chain back takes fuel for the length of the chain, an allocation of a small object fuel
-- for one slab more than its cache has, and a wait for a time as many readings as it takes.
--
-- Not modelled: assembly, but for the stubs of the interrupts; what device registers do by themselves;
-- the third-party crates, the generated ABI bindings, and printing; the set-up code that only calls
-- these, as the boot order, `vmm_init`, `pci_init` and the set-up of the GPU; the traps and the context
-- switch of RISC-V, which are assembly for an older interface of the scheduler; the callbacks for uACPI
-- that answer a constant.
pub mod Acpi
pub mod Base
pub mod Errno
pub mod Interrupts
pub mod Lists
pub mod Locks
pub mod Memory
pub mod Paging
pub mod Pci
pub mod Scheduler
pub mod Vfs
pub mod Virtio
