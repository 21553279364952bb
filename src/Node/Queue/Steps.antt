-- ===== src/Node/Queue/Steps.antt =====
-- The runs of `PeerToChain`, queue.rs: any number of senders, blocked ones among them, and one
-- receiver, in any order.
use bitmigo.Prelude.{ℕ, ◌≡◌, Bool, true, false, List, [], ◌∷◌, ◌++◌}
use bitmigo.Script.Error.{ok}
use bitmigo.Node.Queue.{
  Received, received, nothing, closed_queue, Inbox, Bounds, Attempt, queued, rejected, blocked,
  send_start, send_round, try_send, recv, close,
}

-- What a step does to the order of the items.
pub data Event (T : Type 0) : Type 0 where
  pushed : T → Event T
  popped : T → Event T
  silent : Event T

-- The queue, and the items whose senders wait for room.
pub record System (T : Type 0) : Type 0 where
  pub inbox : Inbox T
  pub waiting : List T

abbrev pub push_event : {T : Type 0} → T → Attempt T → Event T
push_event item (queued q) = pushed item
push_event item rejected = silent
push_event item blocked = silent

abbrev pub try_event : {T : Type 0} → T → Bool → Event T
try_event item true = pushed item
try_event item false = silent

abbrev pub pop_event : {T : Type 0} → Received T → Event T
pop_event (received item) = popped item
pop_event nothing = silent
pop_event closed_queue = silent

-- The queue after an attempt.
abbrev pub after : {T : Type 0} → Inbox T → Attempt T → Inbox T
after inbox (queued q) = q
after inbox rejected = inbox
after inbox blocked = inbox

-- An attempt that is blocked leaves its sender waiting.
abbrev pub still_waiting : {T : Type 0} → T → Attempt T → List T
still_waiting item (queued q) = []
still_waiting item rejected = []
still_waiting item blocked = item ∷ []

module _ {T : Type 0} (byte_len : T → ℕ) (bounds : Bounds) where
  -- A send looks for the first time; a waiting sender looks again; and the other operations.
  pub data Step : System T → Event T → System T → Type 0 where
    sends :
        (inbox : Inbox T) (waiting : List T) (item : T) (is_reader : Bool) (a : Attempt T)
        → send_start byte_len bounds item ≡ ok tt
        → send_round byte_len bounds is_reader inbox item ≡ ok a
        → Step
            (record { inbox = inbox; waiting = waiting })
            (push_event item a)
            (record { inbox = after inbox a; waiting = waiting ++ still_waiting item a })
    wakes :
        (inbox : Inbox T) (before : List T) (item : T) (others : List T) (a : Attempt T)
        → send_round byte_len bounds true inbox item ≡ ok a
        → Step
            (record { inbox = inbox; waiting = before ++ (item ∷ others) })
            (push_event item a)
            (record { inbox = after inbox a; waiting = before ++ (still_waiting item a ++ others) })
    tries :
        (inbox : Inbox T) (waiting : List T) (item : T)
        → Step
            (record { inbox = inbox; waiting = waiting })
            (try_event item (try_send byte_len bounds inbox item).0)
            (record { inbox = (try_send byte_len bounds inbox item).1; waiting = waiting })
    receives :
        (inbox : Inbox T) (waiting : List T)
        → Step
            (record { inbox = inbox; waiting = waiting })
            (pop_event (recv byte_len bounds inbox).0)
            (record { inbox = (recv byte_len bounds inbox).1; waiting = waiting })
    closes :
        (inbox : Inbox T) (waiting : List T)
        → Step
            (record { inbox = inbox; waiting = waiting })
            silent
            (record { inbox = close byte_len bounds inbox; waiting = waiting })

  -- A run, with its events in order.
  pub data Run (s : System T) : List (Event T) → System T → Type 0 where
    starts : Run s [] s
    goes_on :
        {events : List (Event T)} {t u : System T} {event : Event T}
        → Run s events t
        → Step t event u
        → Run s (events ++ (event ∷ [])) u

  abbrev pub fresh : System T
  fresh = record { inbox = record { items = []; bytes = 0; closed = false }; waiting = [] }
