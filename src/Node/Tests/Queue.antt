-- ===== src/Node/Tests/Queue.antt =====
-- The properties of queue.rs at concrete inputs. An item is its weight.
use bitmigo.Prelude.{
  ℕ, ◌+◌, ◌<◌, ◌^◌, ◌%◌, ◌≡◌, ◌↔◌, refl, true, false, List, [], ◌∷◌, ◌++◌, length, arith,
}
use bitmigo.Node.Queue.{
  Inbox, Bounds, queued, blocked, send_round, recv, fits, Jobs, try_push, room,
}
use bitmigo.Node.Queue.Steps.{
  Event, pushed, popped, silent, System, Run, starts, goes_on, sends, wakes, receives, fresh,
}
use bitmigo.Node.Queue.Invariant.{IsSystem, reachable-IsSystem}
use bitmigo.Node.Queue.Order.{pushes, pops, events_fifo}
use bitmigo.Node.Queue.JobRuns.{JobRun, tries_push, reachable-room}

abbrev ten : Bounds
ten = record { max_bytes = 10; max_items = 4 }

-- A weight is a `usize`.
abbrev weight : ℕ → ℕ
weight n = n % 2 ^ 64

weight-small : (n : ℕ) → weight n < 2 ^ 64
weight-small n = omega arith

abbrev holding : ℕ → List ℕ → Inbox ℕ
holding n items = record { items = items; bytes = n; closed = false }

-- An item of 6 goes on, one of 7 waits, the first is received, and the second goes on.
abbrev last_state : System ℕ
last_state = record { inbox = holding 7 (7 ∷ []); waiting = [] }

abbrev events : List (Event ℕ)
events = pushed 6 ∷ silent ∷ popped 6 ∷ pushed 7 ∷ []

sample_history : Run weight ten (fresh weight ten) events last_state
unfolding send_round fits recv
sample_history =
    goes_on
      (goes_on
        (goes_on
          (goes_on starts (sends (holding 0 []) [] 6 true (queued (holding 6 (6 ∷ []))) refl refl))
          (sends (holding 6 (6 ∷ [])) [] 7 true blocked refl refl))
        (receives (holding 6 (6 ∷ [])) (7 ∷ [])))
      (wakes (holding 0 []) [] 7 [] (queued (holding 7 (7 ∷ []))) refl)

reachable-IsSystem_example : IsSystem weight ten last_state
reachable-IsSystem_example =
    reachable-IsSystem weight ten (omega arith) weight-small last_state events sample_history

events_fifo_example : pushes events ≡ pops events ++ last_state.inbox.items
events_fifo_example = events_fifo weight ten last_state events sample_history

abbrev full_inbox : Inbox ℕ
full_inbox = holding 6 (6 ∷ [])

abbrev one_job : Jobs ℕ
one_job = record { queue = 5 ∷ []; closed = false }

job_run : JobRun {J = ℕ} 2 (record { queue = []; closed = false }) one_job
unfolding try_push
job_run = JobRun.goes_on JobRun.starts (tries_push (record { queue = []; closed = false }) 5)

reachable-room_example :
    (length one_job.queue + room 2 one_job ≡ 2)
    × (((try_push 2 one_job 6).0 ≡ true) ↔ ((one_job.closed ≡ false) × (0 < room 2 one_job)))
reachable-room_example = reachable-room 2 one_job 6 job_run
