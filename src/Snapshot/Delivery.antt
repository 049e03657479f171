-- ===== src/Snapshot/Delivery.antt =====
-- The dispatcher keeps the requests in their order and loses none.
use mathlib.Core.List.{Perm, perm_append_comm, append_assoc, append-nil}
use mathlib.Core.List.Perm
use searchnos_db.Prelude.{
  ℕ, ◌≤◌, Bool, true, false, Option, none, some, List, [], ◌∷◌, ◌++◌, ◌≡◌, inl, inr, refl, sym, ap,
  ◌∙◌, Bool-cases,
}
use searchnos_db.Snapshot.{
  DispatcherMessage, enqueue, worker_completed, shutdown, Dispatcher, split_pending,
  handle_dispatcher_message, send_ready, dispatch_ready_batches, make_ready, dispatch_more,
  dispatch_available, unless_failed, Finished, dispatch_messages, new_dispatcher, run_dispatcher,
  concat, or_none, is_empty, finish_or,
}
use searchnos_db.Snapshot.Batches.{split_pending-IsBalanced}

module _ {ℓ} {A : Type ℓ} where
  -- The requests in batches that were sent.
  unfoldable pub sent_requests : List (ℕ × List A) → List A
  sent_requests [] = []
  sent_requests ((worker, batch) ∷ sent) = batch ++ sent_requests sent

  -- The requests of messages.
  unfoldable pub requests : List (DispatcherMessage A) → List A
  requests [] = []
  requests (enqueue request ∷ messages) = request ∷ requests messages
  requests (worker_completed worker ∷ messages) = requests messages
  requests (shutdown ∷ messages) = requests messages

  -- All requests that the dispatcher has taken: those sent, a batch that could not be sent, those
  -- in batches, and those that are pending.
  abbrev pub taken : Dispatcher A → Option (List A) → List A
  taken s failed = sent_requests s.sent ++ (or_none failed ++ (concat s.ready_batches ++ s.pending))

  sent_requests-append :
      (sent : List (ℕ × List A)) (worker : ℕ) (batch : List A)
      → sent_requests (sent ++ (worker, batch) ∷ []) ≡ sent_requests sent ++ batch
  unfolding sent_requests
  sent_requests-append [] worker batch = append-nil batch
  sent_requests-append ((w, b) ∷ sent) worker batch =
      rw (sent_requests-append sent worker batch) (sym (append_assoc b (sent_requests sent) batch))

  concat-append : (xs ys : List (List A)) → concat (xs ++ ys) ≡ concat xs ++ concat ys
  concat-append [] ys = refl
  concat-append (x ∷ xs) ys =
      rw (concat-append xs ys) (sym (append_assoc x (concat xs) (concat ys)))

  module _ (receives : ℕ → Bool) where
    send_ready-keeps :
        (idle : List ℕ) (ready : List (List A)) (sent : List (ℕ × List A)) (pending : List A)
        → let (left, failed) = send_ready receives idle ready sent in
          sent_requests left.2 ++ (or_none failed ++ (concat left.1 ++ pending))
          ≡ sent_requests sent ++ (concat ready ++ pending)
    unfolding send_ready
    send_ready-keeps idle [] sent pending = refl
    send_ready-keeps [] (batch ∷ ready) sent pending = refl
    send_ready-keeps (worker ∷ idle) (batch ∷ ready) sent pending =
        elim (Bool-cases (receives worker)) [
          | inl awake ↦
              rw (awake, send_ready)
                (send_ready-keeps idle ready (sent ++ (worker, batch) ∷ []) pending
                  ∙ rw (sent_requests-append sent worker batch) (simp append_assoc))
          | inr closed ↦
              rw (closed, send_ready)
                (ap (λ l. sent_requests sent ++ l)
                  (sym (append_assoc batch (concat ready) pending)))
        ]

    dispatch_ready_batches-keeps :
        (s : Dispatcher A)
        → let (t, failed) = dispatch_ready_batches receives s in taken t failed ≡ taken s none
    unfolding dispatch_ready_batches
    dispatch_ready_batches-keeps s =
        send_ready-keeps s.idle_workers s.ready_batches s.sent s.pending

    make_ready-keeps :
        (worker_count : ℕ) (s : Dispatcher A)
        → 1 ≤ worker_count
        → taken (make_ready worker_count s) none ≡ taken s none
    unfolding make_ready
    make_ready-keeps worker_count s h =
        let (q, some_each, balanced) = split_pending-IsBalanced s.pending worker_count h in
        let (batches, left) = split_pending s.pending worker_count in
        let whole : concat batches ++ left ≡ s.pending =
          ap (λ l. concat batches ++ l) balanced.none_left
          ∙ append-nil (concat batches)
          ∙ balanced.all_batched in
        ap (λ l. sent_requests s.sent ++ l)
          (ap (λ l. l ++ left) (concat-append s.ready_batches batches)
            ∙ append_assoc (concat s.ready_batches) (concat batches) left
            ∙ ap (λ l. concat s.ready_batches ++ l) whole)

    dispatch_more-keeps :
        (worker_count : ℕ) (s : Dispatcher A)
        → 1 ≤ worker_count
        → let (t, failed) = dispatch_more receives worker_count s in taken t failed ≡ taken s none
    unfolding dispatch_more
    dispatch_more-keeps worker_count s h = elim (Bool-cases (is_empty s.idle_workers)) [
      | inl none_idle ↦ rw (none_idle, dispatch_more) refl
      | inr some_idle ↦ elim (Bool-cases (is_empty s.ready_batches)) [
        | inl none_ready ↦
            rw (some_idle, none_ready, dispatch_more)
              (dispatch_ready_batches-keeps (make_ready worker_count s)
                ∙ make_ready-keeps worker_count s h)
        | inr some_ready ↦ rw (some_idle, some_ready, dispatch_more) refl
      ]
    ]

    unless_failed-keeps :
        (worker_count : ℕ) (s : Dispatcher A) (r : Dispatcher A × Option (List A))
        → 1 ≤ worker_count
        → taken r.0 r.1 ≡ taken s none
        → let (t, failed) = unless_failed receives worker_count r in taken t failed ≡ taken s none
    unless_failed-keeps worker_count s (t, some batch) h e = e
    unless_failed-keeps worker_count s (t, none) h e = dispatch_more-keeps worker_count t h ∙ e

    dispatch_available-keeps :
        (worker_count : ℕ) (s : Dispatcher A)
        → 1 ≤ worker_count
        → let (t, failed) = dispatch_available receives worker_count s in
          taken t failed ≡ taken s none
    unfolding dispatch_available
    dispatch_available-keeps worker_count s h =
        unless_failed-keeps worker_count s (dispatch_ready_batches receives s) h
          (dispatch_ready_batches-keeps s)

    handle_dispatcher_message-adds :
        (message : DispatcherMessage A) (s : Dispatcher A)
        → taken (handle_dispatcher_message message s).1 none
          ≡ taken s none ++ requests (message ∷ [])
    unfolding handle_dispatcher_message requests
    handle_dispatcher_message-adds (enqueue request) s = simp append_assoc
    handle_dispatcher_message-adds (worker_completed worker) s = sym (append-nil (taken s none))
    handle_dispatcher_message-adds shutdown s = sym (append-nil (taken s none))

    requests-cons :
        (message : DispatcherMessage A) (messages : List (DispatcherMessage A))
        → requests (message ∷ messages) ≡ requests (message ∷ []) ++ requests messages
    unfolding requests
    requests-cons (enqueue request) messages = refl
    requests-cons (worker_completed worker) messages = refl
    requests-cons shutdown messages = refl

    finish_or-keeps :
        (stop : Bool) (handled dispatched : Dispatcher A) (failed : Option (List A))
        (messages : List (DispatcherMessage A)) (rest : Finished A) (all : List A)
        → taken handled none ++ requests messages ≡ all
        → taken dispatched failed ++ requests messages ≡ all
        → (taken dispatched none ++ requests messages ≡ all
            → taken rest.state rest.failed_batch ++ requests rest.unread ≡ all)
        → let f = finish_or stop handled dispatched failed messages rest in
          taken f.state f.failed_batch ++ requests f.unread ≡ all
    finish_or-keeps true handled dispatched failed messages rest all h d r = h
    finish_or-keeps false handled dispatched (some batch) messages rest all h d r = d
    finish_or-keeps false handled dispatched none messages rest all h d r = r d

    dispatch_messages-keeps :
        (worker_count : ℕ) (messages : List (DispatcherMessage A)) (s : Dispatcher A)
        → 1 ≤ worker_count
        → let f = dispatch_messages receives worker_count messages s in
          taken f.state f.failed_batch ++ requests f.unread ≡ taken s none ++ requests messages
    unfolding dispatch_messages
    dispatch_messages-keeps worker_count [] s h = refl
    dispatch_messages-keeps worker_count (message ∷ messages) s h =
        let adds = handle_dispatcher_message-adds message s in
        let (stop, handled) = handle_dispatcher_message message s in
        let (dispatched, failed) = dispatch_available receives worker_count handled in
        finish_or-keeps stop handled dispatched failed messages
          (dispatch_messages receives worker_count messages dispatched)
          (taken s none ++ requests (message ∷ messages)) (with_rest (taken handled none) adds)
          (with_rest (taken dispatched failed)
            (dispatch_available-keeps worker_count handled h ∙ adds))
          (λ e. dispatch_messages-keeps worker_count messages dispatched h ∙ e)
      where
        with_rest :
            (xs : List A)
            → xs ≡ taken s none ++ requests (message ∷ [])
            → xs ++ requests messages ≡ taken s none ++ requests (message ∷ messages)
        with_rest xs e =
            ap (λ l. l ++ requests messages) e
            ∙ append_assoc (taken s none) (requests (message ∷ [])) (requests messages)
            ∙ ap (λ l. taken s none ++ l) (sym (requests-cons message messages))

    -- The requests that a dispatcher with at least one worker reads are each sent to a worker
    -- once or unregistered once: what it sends, in this order, and then what it unregisters and
    -- the requests of the messages that it did not read, in some order, are the requests of all
    -- messages.
    pub run_dispatcher-accounts :
        (worker_count : ℕ) (messages : List (DispatcherMessage A))
        → 1 ≤ worker_count
        → let (sent, unregistered) = run_dispatcher receives worker_count messages in
          (others : List A) × (sent_requests sent ++ others ≡ requests messages)
          × Perm others (
              unregistered
              ++ requests
                  (dispatch_messages receives worker_count messages
                    (new_dispatcher worker_count)).unread)
    unfolding run_dispatcher sent_requests
    run_dispatcher-accounts worker_count messages h =
        let f = dispatch_messages receives worker_count messages (new_dispatcher worker_count) in
        (
          (or_none f.failed_batch ++ (concat f.state.ready_batches ++ f.state.pending))
              ++ requests f.unread,
          sym (append_assoc (sent_requests f.state.sent) _ (requests f.unread))
              ∙ dispatch_messages-keeps worker_count messages (new_dispatcher worker_count) h,
          Perm.append
              (Perm.append (Perm.refl (or_none f.failed_batch))
                (perm_append_comm (concat f.state.ready_batches) f.state.pending))
              (Perm.refl (requests f.unread)),
        )
