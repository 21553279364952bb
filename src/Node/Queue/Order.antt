-- ===== src/Node/Queue/Order.antt =====
-- `PeerToChain` of queue.rs is a first-in first-out queue that loses nothing.
use bitmigo.Prelude.{◌≡◌, refl, sym, Bool, true, List, [], ◌∷◌, ◌++◌, append_assoc, arith, ℕ}
use mathlib.Core.Path.{subst}
use mathlib.Core.List.{append-nil}
use bitmigo.Script.Error.{Outcome, ok}
use bitmigo.Node.Queue.{Inbox, Bounds, Attempt, send_round, try_send, recv}
use bitmigo.Node.Queue.Steps.{
  Event, pushed, popped, silent, System, push_event, try_event, pop_event, after, Step, sends,
  wakes, tries, receives, closes, Run, starts, goes_on, fresh,
}

-- The items that went on, and those that came off, in order.
abbrev pub pushes : {T : Type 0} → List (Event T) → List T
pushes [] = []
pushes (pushed x ∷ events) = x ∷ pushes events
pushes (popped x ∷ events) = pushes events
pushes (silent ∷ events) = pushes events

abbrev pub pops : {T : Type 0} → List (Event T) → List T
pops [] = []
pops (pushed x ∷ events) = pops events
pops (popped x ∷ events) = x ∷ pops events
pops (silent ∷ events) = pops events

pushes-append : {T : Type 0} (xs ys : List (Event T)) → pushes (xs ++ ys) ≡ pushes xs ++ pushes ys
pushes-append [] ys = refl
pushes-append (pushed x ∷ xs) ys = rw (pushes-append xs ys)
pushes-append (popped x ∷ xs) ys = pushes-append xs ys
pushes-append (silent ∷ xs) ys = pushes-append xs ys

pops-append : {T : Type 0} (xs ys : List (Event T)) → pops (xs ++ ys) ≡ pops xs ++ pops ys
pops-append [] ys = refl
pops-append (pushed x ∷ xs) ys = pops-append xs ys
pops-append (popped x ∷ xs) ys = rw (pops-append xs ys)
pops-append (silent ∷ xs) ys = pops-append xs ys

-- What one event does to the list of items: it takes the first off, or adds one at the end.
abbrev Moves : {T : Type 0} → List T → Event T → List T → Type 0
Moves xs e ys = xs ++ pushes (e ∷ []) ≡ pops (e ∷ []) ++ ys

module _ {T : Type 0} (byte_len : T → ℕ) (bounds : Bounds) where
  abbrev RoundMoves : Inbox T → T → Outcome (Attempt T) → Type 0
  RoundMoves q item (ok a) = Moves q.items (push_event item a) (after q a).items
  RoundMoves q item other = Unit

  round_items :
      (is_reader : Bool) (q : Inbox T) (item : T) (a : Attempt T)
      → send_round byte_len bounds is_reader q item ≡ ok a
      → Moves q.items (push_event item a) (after q a).items
  unfolding send_round
  round_items is_reader q item a e =
      let any : RoundMoves q item (send_round byte_len bounds is_reader q item) =
        ground (arith, append-nil q.items) in
      subst (RoundMoves q item) e any

  try_items :
      (q : Inbox T) (item : T)
      → Moves q.items
          (try_event item (try_send byte_len bounds q item).0)
          (try_send byte_len bounds q item).1.items
  unfolding try_send
  try_items q item = ground (arith, append-nil q.items)

  recv_items :
      (q : Inbox T)
      → Moves q.items (pop_event (recv byte_len bounds q).0) (recv byte_len bounds q).1.items
  unfolding recv
  recv_items q = ground (arith, append-nil q.items)

  items_after :
      {s u : System T} {e : Event T}
      → Step byte_len bounds s e u
      → Moves s.inbox.items e u.inbox.items
  items_after (sends q waiting item is_reader a h r) = round_items is_reader q item a r
  items_after (wakes q before item others a r) = round_items true q item a r
  items_after (tries q waiting item) = try_items q item
  items_after (receives q waiting) = recv_items q
  items_after (closes q waiting) = append-nil q.items

  items_along :
      {s u : System T} {events : List (Event T)}
      → Run byte_len bounds s events u
      → s.inbox.items ++ pushes events ≡ pops events ++ u.inbox.items
  items_along {s = s} starts = append-nil s.inbox.items
  items_along {s = s} {u = u} (goes_on {events = events} {t = t} {event = e} r st) = rw (
    pushes-append events (e ∷ []),
    pops-append events (e ∷ []),
    sym (append_assoc s.inbox.items (pushes events) (pushes (e ∷ []))),
    items_along r,
    append_assoc (pops events) t.inbox.items (pushes (e ∷ [])),
    items_after st,
    append_assoc (pops events) (pops (e ∷ [])) u.inbox.items,
  )

-- On every run from the new queue, what was received, followed by what is in the queue, is what was
-- sent, in the order it went on: nothing is lost, doubled or overtaken, waiting senders included.
pub events_fifo :
    {T : Type 0} (byte_len : T → ℕ) (bounds : Bounds) (u : System T) (events : List (Event T))
    → Run byte_len bounds (fresh byte_len bounds) events u
    → pushes events ≡ pops events ++ u.inbox.items
events_fifo byte_len bounds u events r = items_along byte_len bounds r
