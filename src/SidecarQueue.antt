-- ===== src/SidecarQueue.antt =====
-- storage/sidecar_queue.rs: the queue by which compaction and reindexing take turns at the
-- sidecars, as a step relation. A step is what one thread does while it holds the mutex: a
-- thread that asks for the queue and finds its test true sleeps on the condition variable, and
-- tests again when it is woken, by the end of a guard or for no reason.
pub mod Exclusion
pub mod Progress
use searchnos_db.Prelude.{
  ℕ, ◌+◌, ◌-◌, Bool, true, false, ◌&&◌, ◌||◌, ltb, if◌then◌else◌, List, [], ◌∷◌, ◌++◌, ◌≡◌,
}

-- `enum SidecarUpdateKind`
pub data SidecarUpdateKind : Type 0 where
  compaction reindex : SidecarUpdateKind

-- `struct SidecarUpdateState`
pub record SidecarUpdateState : Type 0 where
  pub active : Bool
  pub pending_compactions : ℕ

-- `SidecarUpdateState::default()`
abbrev pub new_state : SidecarUpdateState
new_state = record { active = false; pending_compactions = 0 }

abbrev pub is_compaction : SidecarUpdateKind → Bool
is_compaction compaction = true
is_compaction reindex = false

-- What `acquire` does before it first tests: a compaction announces itself.
unfoldable pub announce : SidecarUpdateKind → SidecarUpdateState → SidecarUpdateState
announce compaction s = record s { pending_compactions = s.pending_compactions + 1 }
announce reindex s = s

-- The condition of the loop of `acquire`.
unfoldable pub must_wait : SidecarUpdateKind → SidecarUpdateState → Bool
must_wait compaction s = s.active
must_wait reindex s = s.active || ltb 0 s.pending_compactions

-- What `acquire` does behind the loop.
unfoldable pub enter : SidecarUpdateKind → SidecarUpdateState → SidecarUpdateState
enter compaction s = record s { active = true; pending_compactions = s.pending_compactions - 1 }
enter reindex s = record s { active = true }

-- `drop` of the guard
unfoldable pub release : SidecarUpdateState → SidecarUpdateState
release s = record s { active = false }

-- The queue with the threads in `acquire`, those that are about to test and those that sleep on
-- `available`, and the threads that hold a guard.
pub record System : Type 0 where
  pub state : SidecarUpdateState
  pub waiting : List SidecarUpdateKind
  pub sleeping : List SidecarUpdateKind
  pub holding : List SidecarUpdateKind

abbrev pub idle : System
idle = record { state = new_state; waiting = []; sleeping = []; holding = [] }

-- `available.notify_all()`
abbrev pub notify_all : System → System
notify_all s = record s { waiting = s.sleeping ++ s.waiting; sleeping = [] }

pub data Step : System → System → Type 0 where
  -- a thread calls `acquire`; it waits at least until its test is made
  ask :
      (s : System) (kind : SidecarUpdateKind)
      → Step s (record s { state = announce kind s.state; waiting = kind ∷ s.waiting })
  -- a waiting thread tests, and sleeps
  sleep :
      (s : System) (kind : SidecarUpdateKind) (before after : List SidecarUpdateKind)
      → s.waiting ≡ before ++ kind ∷ after
      → must_wait kind s.state ≡ true
      → Step s (record s { waiting = before ++ after; sleeping = kind ∷ s.sleeping })
  -- a sleeping thread wakes up without a notification
  wake :
      (s : System) (kind : SidecarUpdateKind) (before after : List SidecarUpdateKind)
      → s.sleeping ≡ before ++ kind ∷ after
      → Step s (record s { waiting = kind ∷ s.waiting; sleeping = before ++ after })
  -- a waiting thread tests, and leaves the loop
  take :
      (s : System) (kind : SidecarUpdateKind) (before after : List SidecarUpdateKind)
      → s.waiting ≡ before ++ kind ∷ after
      → must_wait kind s.state ≡ false
      → Step s (record s {
        state = enter kind s.state;
        waiting = before ++ after;
        holding = kind ∷ s.holding;
      })
  -- a guard is dropped
  drop_guard :
      (s : System) (kind : SidecarUpdateKind) (before after : List SidecarUpdateKind)
      → s.holding ≡ before ++ kind ∷ after
      → Step s (notify_all (record s { state = release s.state; holding = before ++ after }))

pub data Reach (s : System) : System → Type 0 where
  here : Reach s s
  next : {t u : System} → Reach s t → Step t u → Reach s u
