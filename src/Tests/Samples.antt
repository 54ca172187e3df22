-- ===== src/Tests/Samples.antt =====
-- The concrete lists, tasks and states of the tests.
use orbit_rtos.Base.{
  ◌≡◌, inl, inr, Bool-cases, false, ℕ, refl, false, ◌==◌, if◌then◌else◌, Option, none, some, List,
  [], ◌∷◌, ◌++◌, count, contains, erase, arith,
}
use orbit_rtos.Kernel.{
  Sys, Env, Task, TaskState, ready, running, blocked, suspended, terminated, delay, by_priority,
  active, success, failure, Semaphore, Queue, EventGroup, Mutex,
}
use orbit_rtos.Kernel.Lists.{ListLaws, ListOutcomes}
use orbit_rtos.Context.Critical.{IsNested}
use orbit_rtos.Scheduler.Blocking.Placement.{IsPlaced, IsUnlisted}
use orbit_rtos.Scheduler.Switch.{zero_stats}
use orbit_rtos.Scheduler.Switch.Running.{IsConsistent}
use orbit_rtos.Scheduler.Switch.Rely.{Rely}
use orbit_rtos.Task.Table.{new_task}
use orbit_rtos.Task.Table.Slots.{IsCounted, used}

-- Lists that find tasks by their address, with memory, and a processor that comes back at once.
abbrev pub env : Env
env = record {
  list_init = λ l. ([], success);
  list_append = λ l t. (l ++ t ∷ [], success);
  list_remove = λ l t. (erase t l, if contains t l then success else failure);
  resumed = λ from to s. s;
  address = λ o. 0x1000;
  object_bytes = λ o s i. 0;
  overwrite = λ o n src s. s;
  size_mod = 0x1_0000_0000;
}

erase-absent : (t : ℕ) (l : List ℕ) → contains t l ≡ false → erase t l ≡ l
unfolding contains erase
erase-absent t [] h = refl
erase-absent t (x ∷ l) h = ground (arith, erase-absent t l)

-- The same with a list_remove that refuses what is not a node.
abbrev pub refusing : Env
refusing = record env { list_remove = λ l t. (l, failure) }

pub env-ListLaws : ListLaws env
env-ListLaws = record {
  init_lem = λ l. refl;
  append_lem = λ l t. refl;
  absent_lem = λ l t absent. ground (arith, erase-absent t l);
}

pub refusing-ListLaws : ListLaws refusing
refusing-ListLaws = record {
  init_lem = λ l. refl;
  append_lem = λ l t. refl;
  absent_lem = λ l t absent. refl;
}

pub env-ListOutcomes : ListOutcomes env
env-ListOutcomes = record {
  append_cases = λ l t. inl refl;
  remove_cases = λ l t. elim (Bool-cases (contains t l)) [
    | inl held ↦ inl (rw held refl)
    | inr absent ↦ inr (ground (arith, erase-absent t l))
  ];
}

pub env-Rely : Rely env
env-Rely = λ from to s v. v

abbrev pub in_state : TaskState → ℕ → Task
in_state st p =
    record (new_task (97 ∷ p ∷ []) p 0 0
      (record { stack_ptr = none; stack_base = 0; stack_size = 0 })) { state = st }

-- Task 1 runs, 2 and 3 are ready, 4 waits until tick 5, 6 is suspended and 9 is the idle task.
abbrev pub tasks : ℕ → Task
tasks t =
    if t == 1
    then in_state running 2
    else if t == 2
    then in_state ready 3
    else if t == 3
    then record (in_state ready 3) { period = 20; deadline = 20; absolute_deadline = 30 }
    else if t == 4
    then record (in_state blocked 1) { block_reason = delay; delay_until = 5 }
    else if t == 6
    then in_state suspended 4
    else if t == 9
    then in_state ready 15
    else in_state terminated 0

abbrev pub lists : ℕ → List ℕ
lists p = if p == 3 then 2 ∷ 3 ∷ [] else if p == 15 then 9 ∷ [] else []

abbrev pub slots : ℕ → Option ℕ
slots i =
    if i == 0
    then some 9
    else if i == 1
    then some 1
    else if i == 2
    then some 2
    else if i == 3
    then some 3
    else if i == 4
    then some 4
    else if i == 5
    then some 6
    else none

abbrev pub no_semaphore : Semaphore
no_semaphore = record { count = 0; max_count = 4; waiting_tasks = none; name = [] }

abbrev pub no_mutex : Mutex
no_mutex = record { locked = false; owner = none; waiting_tasks = none; name = [] }

abbrev pub no_queue : Queue
no_queue = record {
  buffer = 1000;
  msg_size = 2;
  capacity = 2;
  count = 0;
  head = 0;
  tail = 0;
  waiting_send = none;
  waiting_recv = none;
  name = [];
}

abbrev pub no_group : EventGroup
no_group = record { flags = 0; waiting_tasks = none; name = [] }

abbrev pub sample : Sys
sample = record {
  heap = tasks;
  memory = λ a. a;
  table = record { slots = slots; task_count = 6; current_task = some 1; idle_task = some 9 };
  sched = record {
    scheduler_state = active;
    current_policy = by_priority;
    ready_lists = lists;
    blocked_list = 4 ∷ [];
    suspended_list = 6 ∷ [];
    stats = zero_stats;
    lock_count = 0;
  };
  critical = record { section_count = 0; prev_intr_state = 0 };
  ipc = record {
    semaphores = λ i. no_semaphore;
    semaphore_used = λ i. i == 0;
    mutexes = λ i. no_mutex;
    mutex_used = λ i. false;
    queues = λ i. no_queue;
    queue_used = λ i. false;
    event_groups = λ i. no_group;
    event_group_used = λ i. false;
  };
  satellite = record {
    mode = 1;
    orbit_position = 0;
    battery_level = 800;
    temperature = 25000;
    solar_panels_deployed = false;
    payload_active = false;
    uptime = 0;
    command_count = 0;
    telemetry_packets = 0;
  };
  clock = 40;
}

pub sample-IsPlaced : (t : ℕ) → IsPlaced sample t
unfolding count
sample-IsPlaced t = record {
  in_ready = λ p. ground arith;
  in_blocked = ground arith;
  in_suspended = ground arith;
}

pub sample-IsConsistent : IsConsistent sample
sample-IsConsistent = record {
  idle_ready = λ i h. ground arith;
  only_current = λ u h. ground arith;
}

pub sample-IsCounted : IsCounted sample
unfolding used
sample-IsCounted = record { counted = refl }

pub sample-IsNested : IsNested sample
sample-IsNested = record { has_room = omega arith; masked = λ h. absurd (omega arith) }

pub new-IsUnlisted : IsUnlisted sample 7
unfolding count
new-IsUnlisted = record { in_ready = λ p. ground arith; in_blocked = refl; in_suspended = refl }
