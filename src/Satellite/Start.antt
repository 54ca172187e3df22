-- ===== src/Satellite/Start.antt =====
-- src/kernel/main.c: main, from the start of the kernel's parts on. What malloc returns is a parameter.
use Prim.Native.String.{String}
use orbit_rtos.Base.{ℕ, Bool, ◌&&◌, if◌then◌else◌, Option, some, is_some}
use orbit_rtos.Kernel.{Sys, Env, by_priority, default_stack_size}
use orbit_rtos.Kernel.Texts.{codes}
use orbit_rtos.Context.{context_init}
use orbit_rtos.Scheduler.Switch.{scheduler_init, scheduler_start, Start}
use orbit_rtos.Task.Table.{task_init, task_create, task_get_by_name}
use orbit_rtos.Task.Control.{task_set_periodic}
use orbit_rtos.Ipc.Objects.{ipc_init}
use orbit_rtos.Ipc.Buffers.{memcpy}
use orbit_rtos.Ipc.Semaphore.{semaphore_create}
use orbit_rtos.Ipc.Mutex.{mutex_create}
use orbit_rtos.Ipc.Queue.{queue_create, queue_send}
use orbit_rtos.Ipc.EventGroup.{event_group_create}
use orbit_rtos.Satellite.{
  mode_normal, Command, deploy_solar_panel, set_mode, Shared, Platform, satellite_init,
}

-- What malloc returns for task_create's calls, of which the idle task's is number 0, and for the queue; the
-- addresses of the tasks' functions; and the address of main's variable cmd.
pub record Boot : Type 0 where
  pub task_memory : ℕ → Option ℕ
  pub stack_memory : ℕ → Option ℕ
  pub allocated : ℕ → Bool
  pub func : ℕ → ℕ
  pub malloc : ℕ → Option ℕ
  pub cmd : ℕ

-- The kernel's parts, in main's order; no result is looked at.
unfoldable pub init_kernel : Env → Platform → Boot → Sys → Sys
init_kernel e p b s =
    let s1 = p.timer_init (context_init s).0 in
    let s2 = (task_init e (b.func 0) (b.task_memory 0) (b.stack_memory 0) (b.allocated 0) s1).0 in
    p.time_init (ipc_init (scheduler_init e by_priority s2).0).0

abbrev pub main_queue : Env → Platform → Boot → Sys → Sys × Option ℕ
main_queue e p b s = queue_create e b.malloc (some (codes "commands")) p.command_size 10 s

-- The four objects, or NULL for one.
unfoldable pub create_objects : Env → Platform → Boot → Sys → Sys × Shared
create_objects e p b s =
    let (s1, sem) = semaphore_create (some (codes "telemetry")) 1 1 s in
    let (s2, queue) = main_queue e p b s1 in
    let (s3, events) = event_group_create (some (codes "events")) s2 in
    let (s4, lock) = mutex_create (some (codes "resource")) s3 in
    (
      s4,
      record {
        telemetry_sem = sem;
        command_queue = queue;
        system_events = events;
        resource_mutex = lock;
      },
    )

abbrev pub all_created : Shared → Bool
all_created h =
    is_some h.telemetry_sem
    && is_some h.command_queue
    && is_some h.system_events
    && is_some h.resource_mutex

abbrev pub main_task : Env → Boot → (k : ℕ) → String → (priority : ℕ) → Sys → Sys
main_task e b k name priority s =
    (task_create e (some (codes name)) priority (some (b.func k)) 0 default_stack_size
      (b.task_memory k) (b.stack_memory k) (b.allocated k) s).0

-- The seven tasks; no result is looked at.
unfoldable pub create_tasks : Env → Boot → Sys → Sys
create_tasks e b s =
    let s1 = main_task e b 1 "telemetry" 2 s in
    let s2 = main_task e b 2 "attitude" 1 s1 in
    let s3 = main_task e b 3 "thermal" 1 s2 in
    let s4 = main_task e b 4 "command" 0 s3 in
    let s5 = main_task e b 5 "housekeep" 3 s4 in
    let s6 = main_task e b 6 "payload" 2 s5 in main_task e b 7 "monitor" 4 s6

-- A task that is found becomes periodic; NULL is refused by task_set_periodic as by main's test.
abbrev pub set_period : Platform → String → (period deadline : ℕ) → Sys → Sys
set_period p name period deadline s =
    (task_set_periodic (task_get_by_name (some (codes name)) s) (p.time_ms_to_ticks period)
      (p.time_ms_to_ticks deadline) s).0

unfoldable pub set_periods : Platform → Sys → Sys
set_periods p s = set_period p "housekeep" 10000 9500 (set_period p "telemetry" 5000 4800 s)

-- The command is written to cmd, and sent; the result is not looked at.
unfoldable pub send_command : Env → Platform → Shared → (cmd : ℕ) → Command → Sys → Sys
send_command e p h cmd c s =
    (queue_send e h.command_queue (some cmd) 0 (memcpy cmd p.command_size (p.command_byte c) s)).0

abbrev pub deploy_order : (clock : ℕ) → Command
deploy_order clock = record { type = deploy_solar_panel; parameter = 0; timestamp = clock }

abbrev pub mode_order : (clock : ℕ) → Command
mode_order clock = record { type = set_mode; parameter = mode_normal; timestamp = clock }

unfoldable pub send_orders : Env → Platform → Shared → (cmd : ℕ) → Sys → Sys
unfolding send_command
send_orders e p h cmd s =
    let s' = send_command e p h cmd (deploy_order s.clock) s in
    send_command e p h cmd (mode_order s'.clock) s'

-- main returns -1 for want of an object, or with 0 if the scheduler does not take over.
pub data Outcome : Type 0 where
  not_created : Sys → Outcome
  left : Start → Outcome

-- From the objects to the start of the scheduler.
unfoldable pub before_start : Env → Platform → Boot → Shared → Sys → Sys
before_start e p b h s =
    send_orders e p h b.cmd (set_periods p (create_tasks e b (satellite_init p.floats s)))

unfoldable pub main : Env → Platform → Boot → Sys → Outcome
main e p b s =
    let (s', h) = create_objects e p b (init_kernel e p b s) in
    if all_created h then left (scheduler_start e (before_start e p b h s')) else not_created s'
