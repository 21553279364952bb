-- ===== src/Node/Queue/JobRuns.antt =====
-- The runs of `ChainToValidation`, queue.rs.
use bitmigo.Prelude.{
  ℕ, ◌+◌, ◌≤◌, ◌<◌, ◌≡◌, ◌↔◌, Bool, true, false, List, [], ◌∷◌, length, length-append, arith,
}
use bitmigo.Node.Queue.{Jobs, try_push, room, pop_job, discard, stop}

-- What may be done to the queue.
pub data JobStep {J : Type 0} (max_jobs : ℕ) : Jobs J → Jobs J → Type 0 where
  tries_push : (jobs : Jobs J) (job : J) → JobStep max_jobs jobs (try_push max_jobs jobs job).1
  pops : (jobs : Jobs J) → JobStep max_jobs jobs (pop_job max_jobs jobs).1
  discards : (jobs : Jobs J) → JobStep max_jobs jobs (discard max_jobs jobs).1
  stops : (jobs : Jobs J) → JobStep max_jobs jobs (stop max_jobs jobs)

pub data JobRun {J : Type 0} (max_jobs : ℕ) (jobs : Jobs J) : Jobs J → Type 0 where
  starts : JobRun max_jobs jobs jobs
  goes_on : {t u : Jobs J} → JobRun max_jobs jobs t → JobStep max_jobs t u → JobRun max_jobs jobs u

module _ {J : Type 0} (max_jobs : ℕ) where
  pop_queue :
      (queue : List J) (closed : Bool)
      → length queue ≤ max_jobs
      → length (pop_job max_jobs (record { queue = queue; closed = closed })).1.queue ≤ max_jobs
  unfolding pop_job
  pop_queue [] closed h = h
  pop_queue (job ∷ queue) closed h = omega arith

  step_bound :
      {s u : Jobs J} → JobStep max_jobs s u → length s.queue ≤ max_jobs → length u.queue ≤ max_jobs
  unfolding try_push discard
  step_bound (tries_push jobs job) h = ground (arith, length-append jobs.queue (job ∷ []))
  step_bound (pops jobs) h = pop_queue jobs.queue jobs.closed h
  step_bound (discards jobs) h = omega arith
  step_bound (stops jobs) h = h

  run_bound :
      {s u : Jobs J} → JobRun max_jobs s u → length s.queue ≤ max_jobs → length u.queue ≤ max_jobs
  run_bound starts h = h
  run_bound (goes_on r st) h = step_bound st (run_bound r h)

-- In every state that pushes, pops, discards and a close reach from the empty queue, the jobs that
-- wait and the room add up to the bound, and a push succeeds exactly when the queue is open and has
-- room.
pub reachable-room :
    {J : Type 0} (max_jobs : ℕ) (u : Jobs J) (job : J)
    → JobRun max_jobs (record { queue = []; closed = false }) u
    → (length u.queue + room max_jobs u ≡ max_jobs)
      × (((try_push max_jobs u job).0 ≡ true) ↔ ((u.closed ≡ false) × (0 < room max_jobs u)))
unfolding room try_push
reachable-room max_jobs u job r =
    let h : length u.queue ≤ max_jobs = run_bound max_jobs r (omega arith) in
    (omega (arith, h), ground (arith, h))
