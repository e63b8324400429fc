-- ===== src/Lib.antt =====
-- The core of GGMK, a microkernel in C: its rings, the queues of tasks built on them, the allocators,
-- the modules whose handlers run the tasks, and the workers that take them.
--
-- A task (`gmk_task_t`, include/ggmk/types.h) enters by `_gmk_enqueue` or `_gmk_yield`
-- (src/enqueue.c), which put it in the local queue of a worker (src/sched_lq.c, an SPSC ring), in the
-- ready queue (src/sched_rq.c, four MPMC rings by priority) or in the overflow bucket (an MPMC ring). A
-- worker (src/worker.c) takes it from there and hands it to the handler of its type (src/module.c). A
-- task sent on a channel (src/chan.c) waits in the channel's ring, or goes to a subscriber's queue.
--
--   Base, Bits: numbers, lists, masks and wrap-around that the parts share.
--   Platform: `gmk_is_power_of_two` and `gmk_next_pow2` of include/ggmk/platform.h.
--   Rc, Task: the results of include/ggmk/error.h and the task record.
--   Fifo: the bounded queue that the rings are compared with.
--   Spsc: src/ring_spsc.c; `push`, `pop` and so on are `gmk_ring_spsc_push`, `gmk_ring_spsc_pop`.
--   Spsc/Threads has one producer and one consumer interleaved step by step.
--   Mpmc: src/ring_mpmc.c, run by one thread; Mpmc/Threads has any number of threads, interleaved step by
--   step. It takes fewer than 2 ^ 31 accesses, since the code compares counters by the sign of a difference.
--   Sched/Lq, Sched/Rq, Sched/Evq, Sched/Enqueue: src/sched_lq.c, src/sched_rq.c, src/sched_evq.c,
--   src/enqueue.c. The event queue is a binary heap, and Sched/Boot sets all queues up (src/sched.c).
--   Alloc/Bump, Alloc/Slab, Alloc/Block: src/alloc_bump.c, src/alloc_slab.c, src/alloc_block.c;
--   Alloc/Unified: src/alloc.c and src/alloc_arena.c. Addresses are numbers.
--   Metrics, Trace: the counters of src/metrics.c, and the rings of events of src/trace.c, an SPSC ring for
--   each tenant.
--   Worker: src/worker.c. Worker/Round is a round of `gmk_worker_loop`, `gather` its search for a task,
--   Worker/Dispatch what it does with it, Worker/Due what it does with due events, Worker/Pool the pool.
--   Boot: `gmk_submit` and `gmk_tick_advance` of src/boot.c.
--   Machine/Memops: arch/x86_64/memops.c; memory is a function from addresses to bytes.
--   Machine/Pmm: arch/x86_64/pmm.c, the bitmap of physical pages as a list of 64-bit words.
--   Machine/Paging: arch/x86_64/paging.c, the page tables by their physical addresses.
--   Machine/Vmm: arch/x86_64/vmm.c, the kernel heap over Machine/Pmm and Machine/Paging.
--   Machine/BootAlloc: arch/x86_64/boot_alloc.c, with the memory as a function from addresses to bytes.
--   Machine/Serial, Machine/Cli: `kprintf` of arch/x86_64/serial.c as the bytes that it writes, and the line
--   editor and the parser of arch/x86_64/cli.c, with the code of the commands as an argument.
--   Spinlock: include/ggmk/arch/spinlock.h, with the accesses of its threads interleaved.
--   Module: src/module.c, with the handlers' code as an argument.
--   Chan: src/chan.c. Chan/Drain and Chan/Emit are `gmk_chan_drain` and `gmk_chan_emit`; Chan/Flow says
--   what a P2P channel does to lists of tasks.
--
-- Counters are natural numbers with the wrap-around at 2 ^ 32 written out. Memory that an operation
-- gets from outside is an argument. The retry loops of src/ring_mpmc.c run on a list that says of each
-- round whether its weak compare-and-swap fails spuriously; a call that is still in the loop at the end
-- of the list is `none`, and a list with a round that does not fail spuriously is enough to return.
--
-- Not modelled: the start and the halt of the kernel (src/boot.c), which set up and release parts that keep
-- pointers to one another, where the models of the parts stand each for itself; the rest of hal/, arch/ and
-- drivers/, which read and write ports, device registers and control registers whose behaviour is the
-- hardware's; and the tests. Memory accesses are taken to be sequentially consistent.
pub mod Base
pub mod Boot
pub mod Bits
pub mod Platform
pub mod Rc
pub mod Fifo
pub mod Spsc
pub mod Mpmc
pub mod Task
pub mod Sched
pub mod Spinlock
pub mod Alloc
pub mod Metrics
pub mod Trace
pub mod Module
pub mod Machine
pub mod Worker
pub mod Chan
