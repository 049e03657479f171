-- ===== src/Examples/Dispatch.antt =====
-- Subscriptions and their snapshots (db/subscription.rs, db/mod.rs, db/snapshot_batch.rs). A filter
-- is a number that it matches.
use mathlib.Core.List.{Perm}
use searchnos_db.Prelude.{
  ℕ, ◌≤◌, min, Bool, ltb, ◌==◌, List, [], ◌∷◌, ◌++◌, length, ◌≡◌, ◌⊎◌, refl, arith,
}
use searchnos_db.Subscription.{
  SubscriptionManager, Operation, registered, new_manager, broadcast_packet, apply_operations,
}
use searchnos_db.Subscription.Broadcast.{AreDistinct, reached, receivers, broadcast_packet-reached}
use searchnos_db.Subscription.Identifiers.{apply_operations-AreDistinct}
use searchnos_db.Snapshot.{
  DispatcherMessage, enqueue, worker_completed, shutdown, split_pending, run_dispatcher,
  dispatch_messages, new_dispatcher,
}
use searchnos_db.Snapshot.Batches.{IsBalanced, split_pending-IsBalanced}
use searchnos_db.Snapshot.Delivery.{sent_requests, requests, run_dispatcher-accounts}

-- Only the subscription with the identifier 1 takes the event.
abbrev takes : ℕ → Bool
takes id = ltb id 2

abbrev matches_seven : ℕ → Bool
matches_seven filter = filter == 7

abbrev operations : List (Operation ℕ)
operations = registered (7 ∷ []) ∷ registered (7 ∷ 8 ∷ []) ∷ registered (8 ∷ []) ∷ []

abbrev manager : SubscriptionManager ℕ
manager = record {
  next_id = 4;
  entries =
      record { id = 1; filters = 7 ∷ [] }
      ∷ record { id = 2; filters = 7 ∷ 8 ∷ [] }
      ∷ record { id = 3; filters = 8 ∷ [] }
      ∷ [];
  capacity = 16;
}

manager-AreDistinct : AreDistinct 4 manager.entries
manager-AreDistinct =
    (omega arith, (refl, (refl, tt)), (omega arith, (refl, tt), (omega arith, tt, tt)))

broadcast_packet-reached_example :
    ((broadcast_packet takes matches_seven manager).0
      ≡ receivers matches_seven takes manager.entries)
    × ((broadcast_packet takes matches_seven manager).1.entries
        ≡ reached matches_seven takes manager.entries)
broadcast_packet-reached_example =
    broadcast_packet-reached matches_seven takes 4 manager manager-AreDistinct

apply_operations-AreDistinct_example :
    AreDistinct
      (apply_operations operations (new_manager 16)).next_id
      (apply_operations operations (new_manager 16)).entries
apply_operations-AreDistinct_example = apply_operations-AreDistinct 16 operations (omega arith)

abbrev ten_requests : List ℕ
ten_requests = 0 ∷ 1 ∷ 2 ∷ 3 ∷ 4 ∷ 5 ∷ 6 ∷ 7 ∷ 8 ∷ 9 ∷ []

split_pending-IsBalanced_example :
    (q : ℕ) × ((length ten_requests ≡ 0) ⊎ (1 ≤ q))
    × IsBalanced q (min (length ten_requests) 4) ten_requests (split_pending ten_requests 4)
split_pending-IsBalanced_example = split_pending-IsBalanced ten_requests 4 (omega arith)

abbrev messages : List (DispatcherMessage ℕ)
messages = enqueue 7 ∷ enqueue 8 ∷ worker_completed 0 ∷ enqueue 9 ∷ shutdown ∷ []

run_dispatcher-accounts_example :
    (others : List ℕ) × (sent_requests (run_dispatcher takes 2 messages).0 ++ others
      ≡ requests messages)
    × Perm others (
        (run_dispatcher takes 2 messages).1
        ++ requests (dispatch_messages takes 2 messages (new_dispatcher 2)).unread)
run_dispatcher-accounts_example = run_dispatcher-accounts takes 2 messages (omega arith)
