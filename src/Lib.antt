-- ===== src/Lib.antt =====
-- OrbitRTOS: a model of its kernel, and what the kernel's code guarantees.
--
-- The program simulates a small real-time operating system for a satellite. Its parts:
--   * tasks (include/kernel/task.h, src/kernel/task.c): the table task_list, creation and deletion,
--     priorities, suspension, delays and periods;
--   * the scheduler (include/kernel/scheduler.h, src/kernel/scheduler.c): 16 ready lists,
--     blocked_list and suspended_list, the choice of the next task under four policies, context
--     switches, the system tick, the scheduler lock;
--   * contexts (src/kernel/context.c): critical sections, and setjmp and longjmp;
--   * IPC (include/kernel/ipc.h, src/kernel/ipc.c): semaphores, mutexes, queues and event groups, whose
--     calls block and wake tasks through the scheduler;
--   * the demonstration (src/kernel/main.c), and headers of drivers, logging, time and lists.
--
-- Base is what all files share. Kernel is the data: one record for each struct and for the static
-- variables of each file; a Sys is all of it, with the heap of task_t. Every operation takes a Sys and
-- gives a Sys and its result: 0 and -1 are the Status success and failure. 32-bit counters wrap.
--
-- Which file models which part:
--   * Context: src/kernel/context.c;
--   * Scheduler/Select: scheduler_get_next_task; Scheduler/Blocking: scheduler_add_task,
--     scheduler_remove_task, scheduler_block_task, scheduler_unblock_task and
--     scheduler_update_task_state; Scheduler/Switch: scheduler_context_switch, scheduler_start,
--     scheduler_stop, scheduler_lock, scheduler_unlock and scheduler_init; Scheduler/Tick:
--     scheduler_tick, scheduler_check_deadlines, the statistics and the policy;
--   * Task/Table: task_create, task_init, task_delete and task_get_by_name; Task/Control: the rest of
--     src/kernel/task.c;
--   * Ipc/Objects: what the objects of src/kernel/ipc.c share, above all the doubly linked lists of
--     waiting tasks; Ipc/Semaphore, Ipc/Mutex and Ipc/EventGroup: the operations on these;
--     Ipc/Buffers and Ipc/Queue: message queues, with the abstract queue in Ipc/Queue/Fifo and the
--     refinement in Ipc/Queue/Client; Ipc/Waiting: the waiting lists of all of them;
--   * Satellite: src/kernel/main.c: the command handler and the rounds of the tasks for telemetry,
--     attitude, payload and housekeeping; Satellite/Environment: update_environment and the thermal
--     task; Satellite/Monitor: the display and the monitor task; Satellite/Start: main; Satellite/Launch,
--     Objects, Crew, Orders and Takeoff: what main sets up, step by step;
--   * Calls: sequences of kernel calls as an indexed data type, and what all of them keep;
--   * Floats: C floats; Kernel/Texts: the functions *_to_string;
--   * Tests: the theorems at a concrete scheduler, and runs.
--
-- The linked lists of include/utils/list.h have no implementation in the repository. They are
-- functions of the record Env on sequences of tasks, and Kernel/Lists states what theorems assume of
-- them. ListLaws: with memory list_append adds at the tail, and list_remove refuses what the list does
-- not hold. ListOutcomes: each call takes place and returns 0, or is refused and leaves the list. The
-- scheduler passes a task_t where list_remove expects a node; no theorem assumes that such a removal
-- succeeds, and RefusesTasks, that it never does, is what Scheduler/Select/Turns is about. What
-- happens between a context switch and the return to the task that made it is Env's function
-- `resumed`; a theorem that depends on it names what it assumes of the other tasks.
--
-- The bytes of messages and of the queues' buffers are the field `memory`. The code writes the address
-- of a queue or an event group to block_object and then reads it as a message or as flags; what it finds
-- there depends on the layout of the structs, which is a part of Env.
--
-- Bounds and fuel: loops over the tables recurse on the number of rounds left. The loops over
-- the waiting tasks of an object follow pointers and take fuel; for a waiting list that
-- ends, fuel for one more than its tasks is enough.
--
-- Floats are their bits, with the processor's operations as the record FloatOps and the IEEE 754 facts that
-- proofs use as the record FloatLaws. The time and timer modules, of which the repository has headers
-- only, and the layout of a command are parameters in the record Platform; time_get_ticks is the field
-- `clock`.
--
-- Not modelled: logging, the UART, signals and the format of what is printed; jump buffers and stacks
-- beyond their bounds; free(). include/utils/list.h, include/kernel/time.h, include/drivers/time.h,
-- include/drivers/uart.h and include/utils/logger.h declare functions that the repository does not hold.
pub mod Base
pub mod Calls
pub mod Context
pub mod Floats
pub mod Ipc
pub mod Kernel
pub mod Satellite
pub mod Scheduler
pub mod Task
pub mod Tests
