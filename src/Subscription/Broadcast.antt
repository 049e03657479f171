-- ===== src/Subscription/Broadcast.antt =====
-- The identifiers of subscriptions are distinct, so that a broadcast unregisters exactly the
-- subscriptions that it cannot reach.
use searchnos_db.Prelude.{
  ℕ, ◌<◌, Bool, true, false, ◌&&◌, not, ◌==◌, if◌then◌else◌, List, [], ◌∷◌, ◌≡◌, refl, sym, ap, ◌∙◌,
  arith, All, any, ==_iff, Bool-cases, inl, inr,
}
use searchnos_db.Subscription.{
  SubscriptionEntry, SubscriptionManager, retain_others, unregister, wants, matching_ids,
  collect_matching_senders, send_to, broadcast_packet,
}

module _ {ℓ} {Filter : Type ℓ} where
  -- The identifiers are below a bound, and no two entries have the same.
  abbrev pub AreDistinct : ℕ → List (SubscriptionEntry Filter) → Type 0
  AreDistinct bound [] = Unit
  AreDistinct bound (entry ∷ entries) =
      (entry.id < bound)
      × All (λ (other : SubscriptionEntry Filter). (entry.id == other.id) ≡ false) entries
      × AreDistinct bound entries

  -- What a broadcast keeps: the entries that do not want the event, or get it.
  unfoldable pub reached :
      (Filter → Bool)
      → (ℕ → Bool)
      → List (SubscriptionEntry Filter)
      → List (SubscriptionEntry Filter)
  reached matches_filter try_send [] = []
  reached matches_filter try_send (entry ∷ entries) =
      let rest = reached matches_filter try_send entries in
      if wants matches_filter entry && not (try_send entry.id) then rest else entry ∷ rest

  -- The subscriptions that get the event.
  unfoldable pub receivers : (Filter → Bool) → (ℕ → Bool) → List (SubscriptionEntry Filter) → List ℕ
  receivers matches_filter try_send [] = []
  receivers matches_filter try_send (entry ∷ entries) =
      let rest = receivers matches_filter try_send entries in
      if wants matches_filter entry && try_send entry.id then entry.id ∷ rest else rest

  module _ (matches_filter : Filter → Bool) (try_send : ℕ → Bool) where
    -- One of the targets is this identifier, and does not take the event.
    abbrev refused : List ℕ → ℕ → Bool
    refused targets id = any (λ target. id == target && not (try_send target)) targets

    unfoldable keep : List ℕ → List (SubscriptionEntry Filter) → List (SubscriptionEntry Filter)
    keep targets [] = []
    keep targets (entry ∷ entries) =
        let rest = keep targets entries in if refused targets entry.id then rest else entry ∷ rest

    keep_all : (entries : List (SubscriptionEntry Filter)) → keep [] entries ≡ entries
    unfolding keep
    keep_all [] = refl
    keep_all (entry ∷ entries) = ap (λ l. entry ∷ l) (keep_all entries)

    keep-taken :
        (target : ℕ) (targets : List ℕ) (entries : List (SubscriptionEntry Filter))
        → try_send target ≡ true
        → keep (target ∷ targets) entries ≡ keep targets entries
    unfolding keep
    keep-taken target targets [] t = refl
    keep-taken target targets (entry ∷ entries) t =
        ground (arith, keep-taken target targets entries t)

    keep-refused :
        (target : ℕ) (targets : List ℕ) (entries : List (SubscriptionEntry Filter))
        → try_send target ≡ false
        → keep (target ∷ targets) entries ≡ keep targets (retain_others target entries)
    unfolding keep retain_others
    keep-refused target targets [] t = refl
    keep-refused target targets (entry ∷ entries) t =
        ground (arith, keep-refused target targets entries t)

    send_to-keep :
        (targets : List ℕ) (m : SubscriptionManager Filter)
        → (send_to try_send targets m).1.entries ≡ keep targets m.entries
    unfolding send_to unregister
    send_to-keep [] m = sym (keep_all m.entries)
    send_to-keep (target ∷ targets) m = elim (Bool-cases (try_send target)) [
      | inl taken ↦
          rw (taken, send_to)
            (send_to-keep targets m ∙ sym (keep-taken target targets m.entries taken))
      | inr lost ↦
          rw (lost, send_to)
            (send_to-keep targets (unregister target m)
              ∙ sym (keep-refused target targets m.entries lost))
    ]

    -- An entry is no target on account of another.
    refused-others :
        (id : ℕ) (entries : List (SubscriptionEntry Filter))
        → All (λ (other : SubscriptionEntry Filter). (id == other.id) ≡ false) entries
        → refused (matching_ids matches_filter entries) id ≡ false
    unfolding matching_ids
    refused-others id [] h = refl
    refused-others id (entry ∷ entries) h =
        let first = h.0 in
        let ih = refused-others id entries h.1 in
        elim (Bool-cases (wants matches_filter entry)) [
          | inl wanted ↦ rw (wanted, matching_ids) (rw (first) ih)
          | inr other ↦ rw (other, matching_ids) ih
        ]

    keep-fresh :
        (id : ℕ) (targets : List ℕ) (entries : List (SubscriptionEntry Filter))
        → All (λ (other : SubscriptionEntry Filter). (id == other.id) ≡ false) entries
        → keep (id ∷ targets) entries ≡ keep targets entries
    unfolding keep
    keep-fresh id targets [] h = refl
    keep-fresh id targets (entry ∷ entries) h =
        let first = h.0 in ground (arith, keep-fresh id targets entries h.1)

    keep-entry :
        (wanted : Bool) (entry : SubscriptionEntry Filter) (targets : List ℕ)
        (entries rest : List (SubscriptionEntry Filter))
        → refused targets entry.id ≡ false
        → keep (entry.id ∷ targets) entries ≡ keep targets entries
        → keep targets entries ≡ rest
        → keep (if wanted then entry.id ∷ targets else targets) (entry ∷ entries)
          ≡ (if wanted && not (try_send entry.id) then rest else entry ∷ rest)
    unfolding keep
    keep-entry true entry targets entries rest own fresh e =
        ground (arith, ==_iff entry.id entry.id)
    keep-entry false entry targets entries rest own fresh e = rw (own, e) refl

    keep-reached :
        (bound : ℕ) (entries : List (SubscriptionEntry Filter))
        → AreDistinct bound entries
        → keep (matching_ids matches_filter entries) entries
          ≡ reached matches_filter try_send entries
    unfolding matching_ids reached
    keep-reached bound [] d = keep_all []
    keep-reached bound (entry ∷ entries) (below, others, d) =
        keep-entry (wants matches_filter entry) entry (matching_ids matches_filter entries) entries
          (reached matches_filter try_send entries) (refused-others entry.id entries others)
          (keep-fresh entry.id (matching_ids matches_filter entries) entries others)
          (keep-reached bound entries d)

    sent-receivers :
        (entries : List (SubscriptionEntry Filter)) (m : SubscriptionManager Filter)
        → (send_to try_send (matching_ids matches_filter entries) m).0
          ≡ receivers matches_filter try_send entries
    unfolding send_to matching_ids receivers
    sent-receivers [] m = refl
    sent-receivers (entry ∷ entries) m = elim (Bool-cases (wants matches_filter entry)) [
      | inr other ↦ rw (other, matching_ids, receivers) (sent-receivers entries m)
      | inl wanted ↦
          rw (wanted, matching_ids, receivers)
            (rw (sent-receivers entries (if try_send entry.id then m else unregister entry.id m))
              refl)
    ]

    -- A broadcast sends the event to the subscriptions with a filter that matches, or with none,
    -- whose channel takes it, in the order of their registration, and unregisters exactly those
    -- whose channel does not, if the identifiers are distinct.
    pub broadcast_packet-reached :
        (bound : ℕ) (m : SubscriptionManager Filter)
        → AreDistinct bound m.entries
        → ((broadcast_packet try_send matches_filter m).0
            ≡ receivers matches_filter try_send m.entries)
          × ((broadcast_packet try_send matches_filter m).1.entries
              ≡ reached matches_filter try_send m.entries)
    unfolding broadcast_packet collect_matching_senders
    broadcast_packet-reached bound m d = (
      sent-receivers m.entries m,
      send_to-keep (matching_ids matches_filter m.entries) m ∙ keep-reached bound m.entries d,
    )
