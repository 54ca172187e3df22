-- ===== src/Tests/Queues.antt =====
-- The theorems on message queues at a concrete queue, and runs.
use orbit_rtos.Base.{◌≡◌, refl, inl, none, some, List, [], ◌∷◌, arith, update}
use orbit_rtos.Kernel.{Sys, success, failure}
use orbit_rtos.Context.{context_enter_critical, context_exit_critical}
use orbit_rtos.Ipc.Queue.{queue_send, queue_receive, queue_peek}
use orbit_rtos.Ipc.Queue.Fifo.{
  push, pop, peek, Request, send, receive, look, sent, got, answer, answers,
}
use orbit_rtos.Ipc.Queue.Slots.{bytes, messages}
use orbit_rtos.Ipc.Queue.Contents.{contents}
use orbit_rtos.Ipc.Queue.Serving.{Serves, held}
use orbit_rtos.Ipc.Queue.Client.{replies, replies-answers}
use orbit_rtos.Tests.Samples.{env, sample, no_queue, sample-IsNested}

-- A queue with one message, at the end of its buffer; the next one goes to the front of the buffer.
abbrev pub half_full : Sys
half_full = record sample {
  ipc = record (sample.ipc) {
    queues = update sample.ipc.queues 0 (record no_queue { count = 1; head = 1; tail = 0 });
  };
}

pub half_full-Serves : Serves env 0 10 half_full
half_full-Serves = record {
  valid = record {
    head_in = omega arith;
    count_in = omega arith;
    tail_lem = refl;
    sized = omega arith;
    small = omega arith;
    fits = omega arith;
  };
  no_sender = refl;
  no_receiver = refl;
  apart = inl (omega arith);
  nested = record { has_room = sample-IsNested.has_room; masked = sample-IsNested.masked };
}

-- The third message finds the queue full.
abbrev requests : List Request
requests =
    send (7 ∷ 8 ∷ [])
    ∷ send (9 ∷ 9 ∷ [])
    ∷ look
    ∷ receive
    ∷ send (5 ∷ 6 ∷ [])
    ∷ receive
    ∷ receive
    ∷ receive
    ∷ []

replies-answers_example :
    replies env 0 10 2 requests half_full ≡ answers 2 requests (held half_full 0)
replies-answers_example = replies-answers env 0 10 requests half_full half_full-Serves refl

requests-answers :
    answers 2 requests (held half_full 0)
    ≡ sent success
      ∷ sent failure
      ∷ got (some (1002 ∷ 1003 ∷ []))
      ∷ got (some (1002 ∷ 1003 ∷ []))
      ∷ sent success
      ∷ got (some (7 ∷ 8 ∷ []))
      ∷ got (some (5 ∷ 6 ∷ []))
      ∷ got none
      ∷ []
unfolding answers answer push pop peek contents messages bytes
requests-answers = refl

requests-replies : replies env 0 10 2 requests half_full ≡ answers 2 requests (held half_full 0)
unfolding answers answer push pop peek contents messages bytes queue_send queue_receive queue_peek
    context_enter_critical context_exit_critical
requests-replies = refl
