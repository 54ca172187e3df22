-- ===== src/Satellite/Orders.antt =====
-- The commands that main puts into the queue, and the command handler's reading of them.
use orbit_rtos.Base.{
  ℕ, ◌+◌, ◌-◌, ◌≤◌, ◌<◌, ◌≡◌, refl, ◌∙◌, sym, ap, subst, some, List, [], ◌∷◌, ◌++◌, leb, arith,
  false,
}
use orbit_rtos.Kernel.{Sys, Env}
use orbit_rtos.Ipc.Buffers.{memcpy, bytes_at, put_message}
use orbit_rtos.Ipc.Queue.{queue_send}
use orbit_rtos.Ipc.Queue.Slots.{bytes, bytes-cong}
use orbit_rtos.Ipc.Queue.Contents.{copied-contents, put-fields}
use orbit_rtos.Ipc.Queue.Serving.{Serves, held, send_closed, put-Serves, put-held}
use orbit_rtos.Satellite.{Command, Shared, Platform}
use orbit_rtos.Satellite.Start.{send_command, deploy_order, mode_order, send_orders}

-- The bytes of a command.
abbrev pub image : Platform → Command → List ℕ
image p c = bytes (p.command_byte c) 0 p.command_size

-- The queue has room for `n` commands.
pub record Takes (e : Env) (p : Platform) (i cmd n : ℕ) (s : Sys) : Type 0 where
  pub serves : Serves e i cmd s
  pub sized : (s.ipc.queues i).msg_size ≡ p.command_size
  pub room : (s.ipc.queues i).count + n ≤ (s.ipc.queues i).capacity

put_message-frame :
    (e : Env) (i msg : ℕ) (s : Sys)
    → let s' = put_message e i (bytes_at s msg) s in
      s' ≡ record s { memory = s'.memory; ipc = s'.ipc }
unfolding put_message
put_message-frame e i msg s = refl

module _ (e : Env) (p : Platform) (i cmd : ℕ) (c : Command) (s : Sys) where
  abbrev written : Sys
  written = memcpy cmd p.command_size (p.command_byte c) s

  written-Serves : Serves e i cmd s → Serves e i cmd written
  written-Serves v = record {
    valid = v.valid;
    no_sender = v.no_sender;
    no_receiver = v.no_receiver;
    apart = v.apart;
    nested = record { has_room = v.nested.has_room; masked = v.nested.masked };
  }

  written-bytes : bytes written.memory cmd p.command_size ≡ image p c
  written-bytes = bytes-cong written.memory (p.command_byte c) cmd 0 p.command_size (λ k l.
      let back : cmd + k - cmd ≡ k = omega arith in ground (arith, ap (p.command_byte c) back))

  written-held :
      Serves e i cmd s → (s.ipc.queues i).msg_size ≡ p.command_size → held written i ≡ held s i
  written-held v sized =
      ap (λ n. held (memcpy cmd n (p.command_byte c) s) i) (sym sized)
      ∙ copied-contents e (s.ipc.queues i) s.memory (p.command_byte c) cmd v.valid v.apart

  pub send_command_lem :
      (h : Shared) (n : ℕ)
      → h.command_queue ≡ some i
      → Takes e p i cmd (n + 1) s
      → let s' = send_command e p h cmd c s in
        Takes e p i cmd n s'
        × (held s' i ≡ held s i ++ image p c ∷ [])
        × (s' ≡ record s { memory = s'.memory; ipc = s'.ipc })
  unfolding send_command
  send_command_lem h n queue v =
      let serves = written-Serves v.serves in
      let l : (s.ipc.queues i).count < (s.ipc.queues i).capacity = omega (arith, v.room) in
      let full : leb (s.ipc.queues i).capacity (s.ipc.queues i).count ≡ false = ground arith in
      let s' = put_message e i (bytes_at written cmd) written in
      let sent : send_command e p h cmd c s ≡ s' =
        ap (λ o. (queue_send e o (some cmd) 0 written).0) queue
        ∙ ap (λ x. x.0) (send_closed e i cmd written serves)
        ∙ rw full refl in
      let (serves', same) = put-Serves e i cmd (bytes_at written cmd) written serves l in
      let (fields, _) = put-fields e i (bytes_at written cmd) written in
      let grown : Takes e p i cmd n s' = record {
        serves = serves';
        sized = same.size_lem ∙ v.sized;
        room = rw fields (omega (arith, v.room, v.serves.valid.small));
      } in
      let in_order : held s' i ≡ held s i ++ image p c ∷ [] =
        put-held e i cmd written serves l
        ∙ ap (λ n. held written i ++ bytes written.memory cmd n ∷ []) v.sized
        ∙ ap (λ m. held written i ++ m ∷ []) written-bytes
        ∙ ap (λ l. l ++ image p c ∷ []) (written-held v.serves v.sized) in
      subst
        (λ x.
          Takes e p i cmd n x
          × (held x i ≡ held s i ++ image p c ∷ [])
          × (x ≡ record s { memory = x.memory; ipc = x.ipc }))
        (sym sent) (grown, in_order, put_message-frame e i cmd written)

twice : (a b : List ℕ) (l : List (List ℕ)) → (l ++ a ∷ []) ++ b ∷ [] ≡ l ++ a ∷ b ∷ []
twice a b [] = refl
twice a b (x ∷ l) = ap (λ r. x ∷ r) (twice a b l)

-- The two orders of main stand behind what was in the queue.
pub send_orders_lem :
    (e : Env) (p : Platform) (i cmd n : ℕ) (h : Shared) (s : Sys)
    → h.command_queue ≡ some i
    → Takes e p i cmd (n + 2) s
    → let s' = send_orders e p h cmd s in
      Takes e p i cmd n s'
      × (held s' i ≡ held s i ++ image p (deploy_order s.clock) ∷ image p (mode_order s.clock) ∷ [])
      × (s' ≡ record s { memory = s'.memory; ipc = s'.ipc })
unfolding send_orders
send_orders_lem e p i cmd n h s queue v =
    let v' : Takes e p i cmd (n + 1 + 1) s = record {
      serves = v.serves;
      sized = v.sized;
      room = omega (arith, v.room);
    } in
    let (v1, held1, same1) =
      send_command_lem e p i cmd (deploy_order s.clock) s h (n + 1) queue v' in
    let s1 = send_command e p h cmd (deploy_order s.clock) s in
    let (v2, held2, same2) = send_command_lem e p i cmd (mode_order s1.clock) s1 h n queue v1 in
    let s2 = send_command e p h cmd (mode_order s1.clock) s1 in
    let clock : s1.clock ≡ s.clock = ap (λ x. x.clock) same1 in
    (
      v2,
      held2
          ∙ ap (λ l. l ++ image p (mode_order s1.clock) ∷ []) held1
          ∙ ap
              (λ k.
                (held s i ++ image p (deploy_order s.clock) ∷ []) ++ image p (mode_order k) ∷ [])
              clock
          ∙ twice (image p (deploy_order s.clock)) (image p (mode_order s.clock)) (held s i),
      same2 ∙ ap {A = Sys} {B = Sys} (λ x. record x { memory = s2.memory; ipc = s2.ipc }) same1,
    )
