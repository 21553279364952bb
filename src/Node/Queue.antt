-- ===== src/Node/Queue.antt =====
-- crates/bitmigo/src/runtime/queue.rs: the two queues, `PeerToChain` and `ChainToValidation`. The
-- lock makes each stretch between two waits one step; what a wait lets other threads do is in the
-- step relation of the child module Steps.
pub mod Steps
pub mod Invariant
pub mod Order
pub mod Progress
pub mod JobRuns
use bitmigo.Prelude.{
  ℕ, ◌+◌, ◌-◌, ◌*◌, ◌^◌, min, Bool, true, false, not, ◌&&◌, ◌||◌, List, [], ◌∷◌, ◌++◌, ltb, leb,
  ◌==◌, if◌then◌else◌, length,
}
use bitmigo.Script.Error.{Outcome, ok, panic, ◌>>=◌, ◌>>◌, check}

abbrev pub peer_to_chain_max_bytes : ℕ
peer_to_chain_max_bytes = 32 * 1024 * 1024

abbrev pub peer_to_chain_max_items : ℕ
peer_to_chain_max_items = 1024

abbrev pub chain_to_validation_max_jobs : ℕ
chain_to_validation_max_jobs = 64

-- `saturating_add` of a `usize`
abbrev pub saturating_add : ℕ → ℕ → ℕ
saturating_add a b = min (a + b) (2 ^ 64 - 1)

-- An item, or none yet, or none any more.
pub data Received (T : Type 0) : Type 0 where
  received : T → Received T
  nothing : Received T
  closed_queue : Received T

pub record Inbox (T : Type 0) : Type 0 where
  pub items : List T
  pub bytes : ℕ
  pub closed : Bool

-- `max_bytes` and `max_items` of `PeerToChain`.
pub record Bounds : Type 0 where
  pub max_bytes : ℕ
  pub max_items : ℕ

-- What a send finds, each time it holds the lock.
pub data Attempt (T : Type 0) : Type 0 where
  queued : Inbox T → Attempt T
  rejected : Attempt T
  blocked : Attempt T

abbrev pub is_none_left : {T : Type 0} → List T → Bool
is_none_left [] = true
is_none_left (x ∷ xs) = false

unfoldable pub with_bounds : {T : Type 0} → Bounds → Outcome (Inbox T)
with_bounds bounds = do
  check (ltb 0 bounds.max_bytes && ltb 0 bounds.max_items)
  ok (record { items = []; bytes = 0; closed = false })

unfoldable pub fits : {T : Type 0} → Inbox T → ℕ → Bounds → Bool
fits inbox weight bounds =
    if leb bounds.max_items (length inbox.items)
    then false
    else is_none_left inbox.items || leb (saturating_add inbox.bytes weight) bounds.max_bytes

module _ {T : Type 0} (byte_len : T → ℕ) (bounds : Bounds) where
  abbrev pub put : Inbox T → T → Inbox T
  put inbox item = record inbox {
    items = inbox.items ++ (item ∷ []);
    bytes = saturating_add inbox.bytes (byte_len item);
  }

  -- The assertions of `send` on the item.
  abbrev pub send_start : T → Outcome (Unit {0})
  send_start item = do check (ltb 0 (byte_len item)); check (leb (byte_len item) bounds.max_bytes)

  -- One look at the queue in the loop of `send`; only a reader may have to wait.
  unfoldable pub send_round : Bool → Inbox T → T → Outcome (Attempt T)
  send_round is_reader inbox item =
      if not inbox.closed && not (fits inbox (byte_len item) bounds)
      then (do check is_reader; ok blocked)
      else if inbox.closed
      then ok rejected
      else ok (queued (put inbox item))

  -- Whether the item went on.
  unfoldable pub try_send : Inbox T → T → Bool × Inbox T
  try_send inbox item =
      if inbox.closed || not (fits inbox (byte_len item) bounds)
      then (false, inbox)
      else (true, put inbox item)

  -- From `pop_front` on.
  unfoldable pub recv : Inbox T → Received T × Inbox T
  recv inbox = elim inbox.items [
    | [] ↦ (if inbox.closed then closed_queue else nothing, inbox)
    | item ∷ items ↦
        (received item, record inbox { items = items; bytes = inbox.bytes - byte_len item })
  ]

  abbrev pub close : Inbox T → Inbox T
  close inbox = record inbox { closed = true }

-- `Jobs` of `ChainToValidation`.
pub record Jobs (J : Type 0) : Type 0 where
  pub queue : List J
  pub closed : Bool

unfoldable pub with_bound : {J : Type 0} → ℕ → Outcome (Jobs J)
with_bound max_jobs = do check (ltb 0 max_jobs); ok (record { queue = []; closed = false })

module _ {J : Type 0} (max_jobs : ℕ) where
  unfoldable pub try_push : Jobs J → J → Bool × Jobs J
  try_push jobs job =
      if jobs.closed || leb max_jobs (length jobs.queue)
      then (false, jobs)
      else (true, record jobs { queue = jobs.queue ++ (job ∷ []) })

  unfoldable pub room : Jobs J → ℕ
  room jobs = max_jobs - length jobs.queue

  unfoldable pub pop_job : Jobs J → Received J × Jobs J
  pop_job jobs = elim jobs.queue [
    | [] ↦ (if jobs.closed then closed_queue else nothing, jobs)
    | job ∷ queue ↦ (received job, record jobs { queue = queue })
  ]

  unfoldable pub discard : Jobs J → ℕ × Jobs J
  discard jobs = (length jobs.queue, record jobs { queue = [] })

  abbrev pub stop : Jobs J → Jobs J
  stop jobs = record jobs { closed = true }
