-- ===== src/Subscription.antt =====
-- `SubscriptionManager` of db/subscription.rs and `broadcast_packet` of db/mod.rs. A sender of a
-- channel of the crate `tokio` is known by the number of its subscription, which made it; whether
-- `try_send` succeeds on it is a parameter, and what was sent is kept as a list.
pub mod Broadcast
pub mod Identifiers
use searchnos_db.Prelude.{
  ℕ, ◌+◌, ◌%◌, ◌^◌, max, Bool, true, false, ◌||◌, not, ◌==◌, if◌then◌else◌, List, [], ◌∷◌, ◌++◌,
  any,
}

-- `struct SubscriptionEntry`
pub record SubscriptionEntry {ℓ} (Filter : Type ℓ) : Type ℓ where
  pub id : ℕ
  pub filters : List Filter

-- `SubscriptionInner`
pub record SubscriptionManager {ℓ} (Filter : Type ℓ) : Type ℓ where
  pub next_id : ℕ
  pub entries : List (SubscriptionEntry Filter)
  pub capacity : ℕ

-- What happens to a manager, in an order that its mutex gives.
pub data Operation {ℓ} (Filter : Type ℓ) : Type ℓ where
  registered : List Filter → Operation Filter
  unregistered : ℕ → Operation Filter
  broadcast : (Filter → Bool) → (ℕ → Bool) → Operation Filter

module _ {ℓ} {Filter : Type ℓ} where
  -- `SubscriptionManager::new`
  unfoldable pub new_manager : ℕ → SubscriptionManager Filter
  new_manager capacity = record { next_id = 1; entries = []; capacity = max capacity 1 }

  -- `register`: the identifier, and the manager. `fetch_add` wraps.
  unfoldable pub register :
      List Filter → SubscriptionManager Filter → ℕ × SubscriptionManager Filter
  register filters m = (
    m.next_id,
    record m {
      next_id = (m.next_id + 1) % 2 ^ 64;
      entries = m.entries ++ record { id = m.next_id; filters = filters } ∷ [];
    },
  )

  -- `retain(|entry| entry.id != id)`
  unfoldable pub retain_others :
      ℕ → List (SubscriptionEntry Filter) → List (SubscriptionEntry Filter)
  retain_others id [] = []
  retain_others id (entry ∷ entries) =
      let rest = retain_others id entries in if entry.id == id then rest else entry ∷ rest

  -- `unregister`
  unfoldable pub unregister : ℕ → SubscriptionManager Filter → SubscriptionManager Filter
  unregister id m = record m { entries = retain_others id m.entries }

  -- The test of `collect_matching_senders`.
  abbrev pub is_unfiltered : List Filter → Bool
  is_unfiltered [] = true
  is_unfiltered (filter ∷ filters) = false

  abbrev pub wants : (Filter → Bool) → SubscriptionEntry Filter → Bool
  wants matches_filter entry = is_unfiltered entry.filters || any matches_filter entry.filters

  unfoldable pub matching_ids : (Filter → Bool) → List (SubscriptionEntry Filter) → List ℕ
  matching_ids matches_filter [] = []
  matching_ids matches_filter (entry ∷ entries) =
      let rest = matching_ids matches_filter entries in
      if wants matches_filter entry then entry.id ∷ rest else rest

  -- `collect_matching_senders`
  unfoldable pub collect_matching_senders : (Filter → Bool) → SubscriptionManager Filter → List ℕ
  collect_matching_senders matches_filter m = matching_ids matches_filter m.entries

  module _ (try_send : ℕ → Bool) where
    -- The loop of `broadcast_packet`: whom the event was sent to, and the manager.
    unfoldable pub send_to :
        List ℕ → SubscriptionManager Filter → List ℕ × SubscriptionManager Filter
    send_to [] m = ([], m)
    send_to (id ∷ targets) m =
        let (sent, left) = send_to targets (if try_send id then m else unregister id m) in
        (if try_send id then id ∷ sent else sent, left)

    -- `broadcast_packet`, for the filters that match the packet
    unfoldable pub broadcast_packet :
        (Filter → Bool) → SubscriptionManager Filter → List ℕ × SubscriptionManager Filter
    broadcast_packet matches_filter m = send_to (collect_matching_senders matches_filter m) m

  unfoldable pub apply_operation :
      Operation Filter → SubscriptionManager Filter → SubscriptionManager Filter
  apply_operation (registered filters) m = (register filters m).1
  apply_operation (unregistered id) m = unregister id m
  apply_operation (broadcast matches_filter try_send) m =
      (broadcast_packet try_send matches_filter m).1

  unfoldable pub apply_operations :
      List (Operation Filter) → SubscriptionManager Filter → SubscriptionManager Filter
  apply_operations [] m = m
  apply_operations (operation ∷ operations) m =
      apply_operations operations (apply_operation operation m)
