-- ===== src/Node/Queue/Progress.antt =====
-- No sender of `PeerToChain`, queue.rs, waits for ever on a receiver that goes on receiving.
use bitmigo.Prelude.{ℕ, zero, suc}
use bitmigo.Node.Queue.{Inbox, Bounds, recv}

-- The queue after `n` receives.
unfoldable pub drained : {T : Type 0} → (T → ℕ) → Bounds → ℕ → Inbox T → Inbox T
drained byte_len bounds zero inbox = inbox
drained byte_len bounds (suc n) inbox = drained byte_len bounds n (recv byte_len bounds inbox).1
