-- ===== src/Satellite/Rounds.antt =====
-- A round of the command handler, with a command in the queue and nobody in its way.
use orbit_rtos.Base.{
  ℕ, suc, ◌≡◌, ◌≢◌, refl, ◌∙◌, ap, sym, false, true, ◌==◌, if◌then◌else◌, Option, none, some, List,
  [], ◌∷◌, add32, arith,
}
use Prim.Native.Nat.{bit_or}
use orbit_rtos.Kernel.{Sys, Env, Satellite, max_timeout}
use orbit_rtos.Context.Critical.{IsNested}
use orbit_rtos.Scheduler.Switch.{scheduler_context_switch}
use orbit_rtos.Ipc.Buffers.{take_message}
use orbit_rtos.Ipc.Mutex.{set_mutex}
use orbit_rtos.Ipc.Mutex.Exclusion.{lock_free, unlock_alone}
use orbit_rtos.Ipc.EventGroup.{set_flags}
use orbit_rtos.Ipc.EventGroup.Flags.{set_flags-alone}
use orbit_rtos.Ipc.Queue.Slots.{bytes}
use orbit_rtos.Ipc.Queue.Contents.{contents}
use orbit_rtos.Ipc.Queue.Client.{nothing_held}
use orbit_rtos.Ipc.Queue.Serving.{Serves, held, take-held, receive_some}
use orbit_rtos.Satellite.{
  Shared, Platform, set_satellite, event_command_received, count_command, process_command,
  set_event, finish_command, and_then, handle_command, after_receive, command_handler_round,
}
use orbit_rtos.Satellite.Commands.{obey, process-obey}

-- Task `c` runs, with its own priority, and nobody has the mutex or waits for it or for events.
pub record IsCalm (c mutex_index group : ℕ) (s : Sys) : Type 0 where
  pub nested : IsNested s
  pub current : s.table.current_task ≡ some c
  pub own_priority : (s.heap c).priority ≡ (s.heap c).original_priority
  pub unlocked : (s.ipc.mutexes mutex_index).locked ≡ false
  pub no_locker : (s.ipc.mutexes mutex_index).waiting_tasks ≡ none
  pub no_listener : (s.ipc.event_groups group).waiting_tasks ≡ none

-- The satellite after one more command.
unfoldable pub counted : Satellite → Satellite
counted v = record v { command_count = add32 v.command_count 1 }

abbrev pub shared : (sem : Option ℕ) (queue group mutex_index : ℕ) → Shared
shared sem queue group mutex_index = record {
  telemetry_sem = sem;
  command_queue = some queue;
  system_events = some group;
  resource_mutex = some mutex_index;
}

-- The command, with the mutex.
handled :
    (e : Env) (p : Platform) (fuel c i g q cmd : ℕ) (sem : Option ℕ) (s : Sys)
    → IsCalm c i g s
    → s.satellite.payload_active ≡ false
    → let order = p.read_command (bytes s.memory cmd p.command_size) in
      let previous = (s.ipc.event_groups g).flags in
      (s' : Sys) × (handle_command e p (suc fuel) (shared sem q g i) cmd s
        ≡ some (
            if previous == bit_or previous event_command_received
            then s'
            else (scheduler_context_switch e s').0))
      × (s'.satellite ≡ counted (obey order.type order.parameter s.satellite))
      × (s'.memory ≡ s.memory)
      × (s'.ipc.queues ≡ s.ipc.queues)
      × ((s'.ipc.mutexes i).locked ≡ false)
      × ((s'.ipc.event_groups g).flags ≡ bit_or previous event_command_received)
unfolding handle_command finish_command count_command set_event counted
handled e p fuel c i g q cmd sem s v off =
    let h = shared sem q g i in
    let order = p.read_command (bytes s.memory cmd p.command_size) in
    let previous = (s.ipc.event_groups g).flags in
    let s1 = set_mutex s i (record (s.ipc.mutexes i) { locked = true; owner = some c }) in
    let lock = lock_free e i max_timeout c s v.nested v.current v.unlocked in
    let obeyed = process-obey e (suc fuel) h order.type order.parameter s1 off in
    let s2 = count_command (set_satellite s1 (obey order.type order.parameter s.satellite)) in
    let nested2 : IsNested s2 = record { has_room = v.nested.has_room; masked = v.nested.masked } in
    let unlock =
      unlock_alone e (suc fuel) i c s2 nested2 v.current (ground arith) (ground arith)
        (ground (arith, v.no_locker)) v.own_priority in
    let s3 = set_mutex s2 i (record (s2.ipc.mutexes i) { locked = false; owner = none }) in
    let nested3 : IsNested s3 = record { has_room = v.nested.has_room; masked = v.nested.masked } in
    let flags = set_flags-alone e fuel g event_command_received s3 nested3 v.no_listener in
    let s4 = set_flags s3 g (bit_or previous event_command_received) in
    (
      s4,
      ap
            (λ x.
              let order = p.read_command (bytes x.0.memory cmd p.command_size) in
              finish_command e (suc fuel) h
                (process_command e (suc fuel) h order.type order.parameter x.0))
            lock
          ∙ ap (finish_command e (suc fuel) h) obeyed
          ∙ ap (λ o. and_then o (set_event e (suc fuel) h event_command_received)) unlock
          ∙ ap (λ o. and_then o some) flags,
      refl,
      refl,
      refl,
      ground arith,
      ground arith,
    )

take-IsCalm :
    (e : Env) (c i g q cmd : ℕ) (s : Sys) → IsCalm c i g s → IsCalm c i g (take_message e q cmd s)
unfolding take_message
take-IsCalm e c i g q cmd s v = record {
  nested = record { has_room = v.nested.has_room; masked = v.nested.masked };
  current = v.current;
  own_priority = v.own_priority;
  unlocked = v.unlocked;
  no_locker = v.no_locker;
  no_listener = v.no_listener;
}

take-kept :
    (e : Env) (g q cmd : ℕ) (s : Sys)
    → let s' = take_message e q cmd s in
      (s'.satellite ≡ s.satellite) × (s'.ipc.event_groups g ≡ s.ipc.event_groups g)
unfolding take_message
take-kept e g q cmd s = (refl, refl)

no_cons : (m : List ℕ) (rest : List (List ℕ)) → [] ≢ m ∷ rest
no_cons m rest h = cc

cons_parts :
    (a : List ℕ) (l : List (List ℕ)) (b : List ℕ) (m : List (List ℕ))
    → a ∷ l ≡ b ∷ m
    → (a ≡ b) × (l ≡ m)
cons_parts a l b m h = (cc, cc)

-- The command handler, which runs with its own priority, finds a command in a queue of commands
-- that is in order and for which nobody waits, with the mutex free and nobody waiting for it or
-- for events, and with the payload off; the command's buffer is not in the queue's, and critical
-- sections nest. Then its round ends: the command was the oldest one, it is obeyed and counted,
-- the other commands stay in the queue, the mutex is free again and the event that a command was
-- received is set; and control is given up if that event was not set before.
pub command_handler_round_lem :
    (e : Env) (p : Platform) (fuel c i g q cmd : ℕ) (sem : Option ℕ) (m : List ℕ)
    (rest : List (List ℕ)) (s : Sys)
    → IsCalm c i g s
    → Serves e q cmd s
    → (s.ipc.queues q).msg_size ≡ p.command_size
    → held s q ≡ m ∷ rest
    → s.satellite.payload_active ≡ false
    → let order = p.read_command m in
      let previous = (s.ipc.event_groups g).flags in
      (s' : Sys) × (command_handler_round e p (suc fuel) (shared sem q g i) cmd s
        ≡ some (
            if previous == bit_or previous event_command_received
            then s'
            else (scheduler_context_switch e s').0))
      × (s'.satellite ≡ counted (obey order.type order.parameter s.satellite))
      × (held s' q ≡ rest)
      × ((s'.ipc.mutexes i).locked ≡ false)
      × ((s'.ipc.event_groups g).flags ≡ bit_or previous event_command_received)
unfolding command_handler_round
command_handler_round_lem e p fuel c i g q cmd sem m rest s v serves sized holds off =
    let ne : (s.ipc.queues q).count ≢ 0 = λ z. no_cons m rest (sym (nothing_held s q z) ∙ holds) in
    let s1 = take_message e q cmd s in
    let received = receive_some e q cmd max_timeout s serves ne in
    let parts = sym (take-held e q cmd s serves ne) ∙ holds in
    let (kept, groups) = take-kept e g q cmd s in
    let before = ap (λ x. x.flags) groups in
    let read : bytes s1.memory cmd p.command_size ≡ m =
      ap (bytes s1.memory cmd) (sym sized) ∙ (cons_parts _ _ m rest parts).0 in
    let (s', run, satellite, memory, queues, free, flags) =
      handled e p fuel c i g q cmd sem s1 (take-IsCalm e c i g q cmd s v)
        (ap (λ x. x.payload_active) kept ∙ off) in
    (
      s',
      ap (after_receive e p (suc fuel) (shared sem q g i) cmd) received
          ∙ run
          ∙ ap
              (λ f. some (
                if f == bit_or f event_command_received
                then s'
                else (scheduler_context_switch e s').0))
              before,
      satellite ∙ rw (kept, read) refl,
      rw (memory) (ap (λ x. contents (x q) s1.memory) queues) ∙ (cons_parts _ _ m rest parts).1,
      free,
      flags ∙ ap (λ f. bit_or f event_command_received) before,
    )
