-- ===== src/Snapshot.antt =====
-- The dispatcher of db/snapshot_batch.rs, which spreads the stored results that new subscriptions
-- ask for over worker threads. Its messages come as a list, and what it sends is kept in the
-- state, with the worker. Whether a worker still receives is a parameter, by its index. The end of
-- a `Vec` that `push` and `pop` work on is the head of the list.
pub mod Batches
pub mod Delivery
use searchnos_db.Prelude.{
  ℕ, zero, suc, ◌+◌, ◌-◌, ◌/◌, min, Bool, true, false, ◌&&◌, Option, none, some, List, [], ◌∷◌,
  ◌++◌, length, take, drop,
}

-- `enum DispatcherMessage`
pub data DispatcherMessage {ℓ} (A : Type ℓ) : Type ℓ where
  enqueue : A → DispatcherMessage A
  worker_completed : ℕ → DispatcherMessage A
  shutdown : DispatcherMessage A

-- `pending`, `ready_batches` and `idle_workers` of `run_dispatcher`, and what was sent.
pub record Dispatcher {ℓ} (A : Type ℓ) : Type ℓ where
  pub pending : List A
  pub ready_batches : List (List A)
  pub idle_workers : List ℕ
  pub sent : List (ℕ × List A)

-- `(0..worker_count).rev()`, the end first
unfoldable pub all_workers : ℕ → ℕ → List ℕ
all_workers first zero = []
all_workers first (suc n) = first ∷ all_workers (first + 1) n

-- `pending.len().div_ceil(remaining_batches)`
abbrev pub div_ceil : ℕ → ℕ → ℕ
div_ceil n k = (n + (k - 1)) / k

abbrev pub is_empty {κ} : {B : Type κ} → List B → Bool
is_empty [] = true
is_empty (x ∷ xs) = false

abbrev pub concat {ℓ} : {A : Type ℓ} → List (List A) → List A
concat [] = []
concat (batch ∷ batches) = batch ++ concat batches

abbrev pub or_none {ℓ} : {A : Type ℓ} → Option (List A) → List A
or_none none = []
or_none (some batch) = batch

-- What a run leaves: the state, the batch that could not be sent, and the unread messages.
pub record Finished {ℓ} (A : Type ℓ) : Type ℓ where
  pub state : Dispatcher A
  pub failed_batch : Option (List A)
  pub unread : List (DispatcherMessage A)

module _ {ℓ} {A : Type ℓ} where
  -- The loop of `split_pending`, by the number of batches that remain: the batches, and what is
  -- left pending.
  unfoldable pub split_batches : ℕ → List A → List (List A) × List A
  split_batches zero pending = ([], pending)
  split_batches (suc n) pending =
      let batch_size = div_ceil (length pending) (suc n) in
      let (batches, left) = split_batches n (drop batch_size pending) in
      (take batch_size pending ∷ batches, left)

  -- `split_pending`
  unfoldable pub split_pending : List A → ℕ → List (List A) × List A
  split_pending pending max_batches = split_batches (min (length pending) max_batches) pending

  -- `handle_dispatcher_message`: whether to stop, and the state.
  unfoldable pub handle_dispatcher_message :
      DispatcherMessage A → Dispatcher A → Bool × Dispatcher A
  handle_dispatcher_message (DispatcherMessage.enqueue request) s =
      (false, record s { pending = s.pending ++ request ∷ [] })
  handle_dispatcher_message (DispatcherMessage.worker_completed worker) s =
      (false, record s { idle_workers = worker ∷ s.idle_workers })
  handle_dispatcher_message DispatcherMessage.shutdown s = (true, s)

  -- The state after `ready_batches.extend(split_pending(...))`.
  unfoldable pub make_ready : ℕ → Dispatcher A → Dispatcher A
  make_ready worker_count s =
      let (batches, left) = split_pending s.pending worker_count in
      record s { pending = left; ready_batches = s.ready_batches ++ batches }

  abbrev pub new_dispatcher : ℕ → Dispatcher A
  new_dispatcher worker_count = record {
    pending = [];
    ready_batches = [];
    idle_workers = all_workers 0 worker_count;
    sent = [];
  }

  -- How a round of the loop of `run_dispatcher` ends: it breaks on a request to stop, or on a
  -- batch that could not be sent, and goes on otherwise.
  abbrev pub finish_or :
      Bool
      → Dispatcher A
      → Dispatcher A
      → Option (List A)
      → List (DispatcherMessage A)
      → Finished A
      → Finished A
  finish_or true handled dispatched failed messages rest = record {
    state = handled;
    failed_batch = none;
    unread = messages;
  }
  finish_or false handled dispatched (some batch) messages rest = record {
    state = dispatched;
    failed_batch = some batch;
    unread = messages;
  }
  finish_or false handled dispatched none messages rest = rest

  module _ (receives : ℕ → Bool) where
    -- The loop of `dispatch_ready_batches`, on the batches: the idle workers and the batches that
    -- are left, what was sent, and the batch whose worker does not receive.
    unfoldable pub send_ready :
        List ℕ
        → List (List A)
        → List (ℕ × List A)
        → (List ℕ × List (List A) × List (ℕ × List A)) × Option (List A)
    send_ready idle [] sent = ((idle, [], sent), none)
    send_ready [] (batch ∷ ready) sent = (([], batch ∷ ready, sent), none)
    send_ready (worker ∷ idle) (batch ∷ ready) sent = elim (receives worker) [
      | true ↦ send_ready idle ready (sent ++ (worker, batch) ∷ [])
      | false ↦ ((worker ∷ idle, ready, sent), some batch)
    ]

    -- `dispatch_ready_batches`
    unfoldable pub dispatch_ready_batches : Dispatcher A → Dispatcher A × Option (List A)
    dispatch_ready_batches s =
        let (left, failed) = send_ready s.idle_workers s.ready_batches s.sent in
        (record s { idle_workers = left.0; ready_batches = left.1; sent = left.2 }, failed)

    -- The second part of `dispatch_available`.
    unfoldable pub dispatch_more : ℕ → Dispatcher A → Dispatcher A × Option (List A)
    dispatch_more worker_count s = elim (is_empty s.idle_workers) [
      | true ↦ (s, none)
      | false ↦ elim (is_empty s.ready_batches) [
        | true ↦ dispatch_ready_batches (make_ready worker_count s)
        | false ↦ (s, none)
      ]
    ]

    abbrev pub unless_failed : ℕ → Dispatcher A × Option (List A) → Dispatcher A × Option (List A)
    unless_failed worker_count (s, some failed) = (s, some failed)
    unless_failed worker_count (s, none) = dispatch_more worker_count s

    -- `dispatch_available`
    unfoldable pub dispatch_available : ℕ → Dispatcher A → Dispatcher A × Option (List A)
    dispatch_available worker_count s = unless_failed worker_count (dispatch_ready_batches s)

    -- The loop of `run_dispatcher`. It ends also when there is no sender left.
    unfoldable pub dispatch_messages : ℕ → List (DispatcherMessage A) → Dispatcher A → Finished A
    dispatch_messages worker_count [] s = record { state = s; failed_batch = none; unread = [] }
    dispatch_messages worker_count (message ∷ messages) s =
        let (stop, handled) = handle_dispatcher_message message s in
        let (dispatched, failed) = dispatch_available worker_count handled in
        let rest = dispatch_messages worker_count messages dispatched in
        finish_or stop handled dispatched failed messages rest

    -- `run_dispatcher`: what is sent, and what is unregistered, in order.
    unfoldable pub run_dispatcher : ℕ → List (DispatcherMessage A) → List (ℕ × List A) × List A
    run_dispatcher worker_count messages =
        let f = dispatch_messages worker_count messages (new_dispatcher worker_count) in
        (f.state.sent, or_none f.failed_batch ++ (f.state.pending ++ concat f.state.ready_batches))
