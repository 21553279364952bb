-- ===== src/Node/Queue/Invariant.antt =====
-- `PeerToChain` of queue.rs: what holds in every state that a run reaches.
use bitmigo.Prelude.{
  ℕ, ◌+◌, ◌-◌, ◌≤◌, ◌<◌, ◌^◌, ◌≡◌, refl, ap, ◌⊎◌, inl, inr, Bool, true, List, [], ◌∷◌, ◌++◌, length,
  length-append, arith,
}
use mathlib.Core.Path.{subst}
use bitmigo.Script.Error.{Outcome, ok}
use bitmigo.Node.Queue.{
  Inbox, Bounds, Attempt, queued, rejected, blocked, saturating_add, fits, put, send_round,
  try_send, recv,
}
use bitmigo.Node.Queue.Steps.{
  Event, System, after, still_waiting, Step, sends, wakes, tries, receives, closes, Run, starts,
  goes_on, fresh,
}

module _ {T : Type 0} (byte_len : T → ℕ) (bounds : Bounds) where
  abbrev pub total : List T → ℕ
  total [] = 0
  total (item ∷ items) = byte_len item + total items

  abbrev pub AllFit : List T → Type 0
  AllFit [] = Unit
  AllFit (item ∷ items) = (byte_len item ≤ bounds.max_bytes) × AllFit items

  -- The invariant: the bytes are accounted for, and the bounds hold, where one item may be larger
  -- than the queue, which only `try_send` lets in; whoever waits has an item that fits.
  pub record IsSystem (s : System T) : Type 0 where
    pub bytes_ok : s.inbox.bytes ≡ total s.inbox.items
    pub bound_ok : (s.inbox.bytes ≤ bounds.max_bytes) ⊎ (length s.inbox.items ≤ 1)
    pub items_ok : length s.inbox.items ≤ bounds.max_items
    pub waiting_ok : AllFit s.waiting

  total-append : (xs ys : List T) → total (xs ++ ys) ≡ total xs + total ys
  total-append [] ys = omega arith
  total-append (x ∷ xs) ys = omega (arith, total-append xs ys)

  AllFit-append : (xs ys : List T) → AllFit xs → AllFit ys → AllFit (xs ++ ys)
  AllFit-append [] ys h k = k
  AllFit-append (x ∷ xs) ys h k = (h.0, AllFit-append xs ys h.1 k)

  AllFit-split : (xs ys : List T) → AllFit (xs ++ ys) → AllFit xs × AllFit ys
  AllFit-split [] ys h = (tt, h)
  AllFit-split (x ∷ xs) ys h = ((h.0, (AllFit-split xs ys h.1).0), (AllFit-split xs ys h.1).1)

  -- The three conditions on the queue itself.
  abbrev IsInbox : Inbox T → Type 0
  IsInbox q =
      (q.bytes ≡ total q.items)
      × ((q.bytes ≤ bounds.max_bytes) ⊎ (length q.items ≤ 1))
      × (length q.items ≤ bounds.max_items)

  module _ (small : bounds.max_bytes < 2 ^ 64 - 1)
      (sizes : (item : T) → byte_len item < 2 ^ 64) where
    put_items :
        (items : List T) (bytes : ℕ) (closed : Bool) (item : T)
        → IsInbox (record { items = items; bytes = bytes; closed = closed })
        → fits (record { items = items; bytes = bytes; closed = closed }) (byte_len item) bounds
          ≡ true
        → IsInbox
            (put byte_len bounds (record { items = items; bytes = bytes; closed = closed }) item)
    unfolding fits
    put_items [] bytes closed item h f =
        (omega (arith, h.0, sizes item), inr (omega arith), ground (arith, f))
    put_items (x ∷ xs) bytes closed item h f =
        let weighed : saturating_add bytes (byte_len item) ≤ bounds.max_bytes = ground (arith, f) in
        let counted : length (x ∷ xs) < bounds.max_items = ground (arith, f) in
        (
          omega (arith, h.0, total-append (x ∷ xs) (item ∷ [])),
          inl weighed,
          omega (arith, length-append (x ∷ xs) (item ∷ [])),
        )

    put-IsInbox :
        (q : Inbox T) (item : T)
        → IsInbox q
        → fits q (byte_len item) bounds ≡ true
        → IsInbox (put byte_len bounds q item)
    put-IsInbox q item h f = put_items q.items q.bytes q.closed item h f

    unfoldable result_inbox : Inbox T → Outcome (Attempt T) → Inbox T
    result_inbox q (ok a) = after q a
    result_inbox q other = q

    round-IsInbox :
        (is_reader : Bool) (q : Inbox T) (item : T) (a : Attempt T)
        → IsInbox q
        → send_round byte_len bounds is_reader q item ≡ ok a
        → IsInbox (after q a)
    unfolding send_round result_inbox
    round-IsInbox is_reader q item a h e =
        let any : IsInbox (result_inbox q (send_round byte_len bounds is_reader q item)) =
          ground (arith, put-IsInbox q item h) in
        subst IsInbox (ap (result_inbox q) e) any

    try-IsInbox : (q : Inbox T) (item : T) → IsInbox q → IsInbox (try_send byte_len bounds q item).1
    unfolding try_send
    try-IsInbox q item h = ground (arith, put-IsInbox q item h)

    recv_items :
        (items : List T) (bytes : ℕ) (closed : Bool)
        → IsInbox (record { items = items; bytes = bytes; closed = closed })
        → IsInbox
            (recv byte_len bounds (record { items = items; bytes = bytes; closed = closed })).1
    unfolding recv
    recv_items [] bytes closed h = h
    recv_items (x ∷ xs) bytes closed (e, inl b, c) =
        (omega (arith, e), inl (omega arith), omega arith)
    recv_items (x ∷ xs) bytes closed (e, inr b, c) =
        (omega (arith, e), inr (omega arith), omega arith)

    recv-IsInbox : (q : Inbox T) → IsInbox q → IsInbox (recv byte_len bounds q).1
    recv-IsInbox q h = recv_items q.items q.bytes q.closed h

    still_waiting-AllFit :
        (item : T) (a : Attempt T)
        → byte_len item ≤ bounds.max_bytes
        → AllFit (still_waiting item a)
    still_waiting-AllFit item (queued q) h = tt
    still_waiting-AllFit item rejected h = tt
    still_waiting-AllFit item blocked h = (h, tt)

    system :
        (inbox : Inbox T) (waiting : List T)
        → IsInbox inbox
        → AllFit waiting
        → IsSystem (record { inbox = inbox; waiting = waiting })
    system inbox waiting h k = record {
      bytes_ok = h.0;
      bound_ok = h.1;
      items_ok = h.2;
      waiting_ok = k;
    }

    inbox_of : {s : System T} → IsSystem s → IsInbox s.inbox
    inbox_of h = (h.bytes_ok, h.bound_ok, h.items_ok)

    pub Step-IsSystem :
        {s u : System T} {e : Event T} → Step byte_len bounds s e u → IsSystem s → IsSystem u
    Step-IsSystem (sends q waiting item is_reader a h r) s =
        system (after q a) _ (round-IsInbox is_reader q item a (inbox_of s) r) (
          AllFit-append waiting (still_waiting item a) s.waiting_ok
            (still_waiting-AllFit item a (ground (arith, h))))
    Step-IsSystem (wakes q before item others a r) s =
        let (first, rest) = AllFit-split before (item ∷ others) s.waiting_ok in
        system (after q a) _ (round-IsInbox true q item a (inbox_of s) r) (
          AllFit-append before (still_waiting item a ++ others) first (
            AllFit-append (still_waiting item a) others (still_waiting-AllFit item a rest.0)
              rest.1))
    Step-IsSystem (tries q waiting item) s =
        system _ waiting (try-IsInbox q item (inbox_of s)) s.waiting_ok
    Step-IsSystem (receives q waiting) s =
        system _ waiting (recv-IsInbox q (inbox_of s)) s.waiting_ok
    Step-IsSystem (closes q waiting) s = system _ waiting (inbox_of s) s.waiting_ok

    Run-IsSystem :
        {s u : System T} {events : List (Event T)}
        → IsSystem s
        → Run byte_len bounds s events u
        → IsSystem u
    Run-IsSystem h starts = h
    Run-IsSystem h (goes_on r st) = Step-IsSystem st (Run-IsSystem h r)

-- In every state that a run from the new queue reaches, whatever the order of the sends, the waits,
-- the tries, the receives and the close: the byte count is the sum of the items' weights, there are
-- `max_items` items at most, and `max_bytes` bytes unless a single item is larger, and whoever
-- waits has an item that fits. The bound is below the largest `usize`, and a weight is a `usize`.
pub reachable-IsSystem :
    {T : Type 0} (byte_len : T → ℕ) (bounds : Bounds)
    → bounds.max_bytes < 2 ^ 64 - 1
    → ((item : T) → byte_len item < 2 ^ 64)
    → (u : System T) (events : List (Event T))
    → Run byte_len bounds (fresh byte_len bounds) events u
    → IsSystem byte_len bounds u
reachable-IsSystem byte_len bounds small sizes u events r =
    Run-IsSystem byte_len bounds small sizes
      (record {
        bytes_ok = refl;
        bound_ok = inl (omega arith);
        items_ok = omega arith;
        waiting_ok = tt;
      })
      r
