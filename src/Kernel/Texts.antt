-- ===== src/Kernel/Texts.antt =====
-- The texts that the code shows: task_state_to_string of src/kernel/task.c and
-- scheduler_policy_to_string of src/kernel/scheduler.c. A name is a text's characters.
use Prim.Native.Char.{code}
use Prim.Native.String.{String}
use orbit_rtos.Base.{ℕ, List, [], ◌∷◌}
use orbit_rtos.Kernel.{
  TaskState, ready, running, blocked, suspended, terminated, Policy, by_priority, round_robin, edf,
  rms, other,
}

abbrev pub codes : String → List ℕ
codes String.[] = []
codes (String.◌∷◌ c s) = code c ∷ codes s

unfoldable pub task_state_to_string : TaskState → String
task_state_to_string ready = "READY"
task_state_to_string running = "RUNNING"
task_state_to_string blocked = "BLOCKED"
task_state_to_string suspended = "SUSPENDED"
task_state_to_string terminated = "TERMINATED"

unfoldable pub scheduler_policy_to_string : Policy → String
scheduler_policy_to_string by_priority = "Priority"
scheduler_policy_to_string round_robin = "Round Robin"
scheduler_policy_to_string edf = "Earliest Deadline First"
scheduler_policy_to_string rms = "Rate Monotonic"
scheduler_policy_to_string (other n) = "Unknown"
