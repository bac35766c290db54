-- ===== src/Sessions/Tracking.antt =====
-- codebridge/sessions/service.py: what the service keeps in memory. Every method holds the
-- service's lock while it touches it, and does not suspend meanwhile.
pub mod Lookup
pub mod Reads
pub mod Examples
use pycodebridge.Base.{
  ℕ, ltb, ◌==◌, Bool, true, false, not, ◌&&◌, ◌||◌, List, [], ◌∷◌, ◌++◌, Option, none, some, keep,
  any, map, length, drop, if◌then◌else◌, is_some,
}
use pycodebridge.Base.Text.{Text, is_empty, text_eq, starts_with}
use pycodebridge.Base.Dict.{Dict, get, put, pop, has}
use pycodebridge.Routing.Names.{PendingConflict}
use pycodebridge.Routing.Repos.{is_nil}

-- `_active`, `_pending` and `_activity`; a process may be None, times are in ticks.
pub record Tracking (Proc : Type 0) : Type 0 where
  pub active : Dict (Dict (Option Proc))
  pub pending : Dict PendingConflict
  pub activity : Dict (Dict ℕ)

-- `d.get(k, {})`
abbrev pub or_empty {ℓ} : {V : Type ℓ} → Option (Dict V) → Dict V
or_empty none = []
or_empty (some d) = d

-- f"{channel_id}:{session}"
abbrev pub scope_key : Text → Text → Text
scope_key channel_id session = channel_id ++ b':' ∷ session

-- `s <= t` on texts
unfoldable pub text_leb : Text → Text → Bool
text_leb [] t = true
text_leb (c ∷ s) [] = false
text_leb (c ∷ s) (d ∷ t) = ltb c d || (c == d && text_leb s t)

abbrev pub insert : Text → List Text → List Text
insert s [] = s ∷ []
insert s (t ∷ ts) = let rest = insert s ts in if text_leb s t then s ∷ t ∷ ts else t ∷ rest

-- `sorted(names)`
abbrev pub sorted : List Text → List Text
sorted [] = []
sorted (s ∷ ss) = insert s (sorted ss)

-- The first key with a prefix.
unfoldable pub first_key {ℓ} : {V : Type ℓ} → Text → Dict V → Option Text
first_key prefix [] = none
first_key prefix ((k, v) ∷ d) =
    let rest = first_key prefix d in if starts_with prefix k then some k else rest

-- `target[k] = v` for the items of `from` whose key is not in `target`.
unfoldable pub merge {ℓ} : {V : Type ℓ} → Dict V → Dict V → Dict V
merge [] target = target
merge ((k, v) ∷ from) target = merge from (if has k target then target else put k v target)

-- `d.pop(from)`, and its items merged into `d.setdefault(to, {})`, for the value found at `from`.
unfoldable pub move_found {ℓ} :
    {V : Type ℓ} → Text → Text → Dict (Dict V) → Option (Dict V) → Bool × Dict (Dict V)
move_found from to d none = (false, d)
move_found from to d (some items) =
    let popped = pop from d in (true, put to (merge items (or_empty (get to popped))) popped)

-- `inner.pop(k, None)`, and the inner dictionary removed when that leaves it empty.
unfoldable pub drop_found {ℓ} :
    {V : Type ℓ} → Text → Text → Dict (Dict V) → Option (Dict V) → Dict (Dict V)
drop_found channel_id session d none = d
drop_found channel_id session d (some inner) =
    let inner' = pop session inner in
    if is_nil inner' then pop channel_id d else put channel_id inner' d

-- What becomes of the conflict found under a key; the keys of a dict differ, so one is there.
abbrev move_conflict : Text → Option PendingConflict → Dict PendingConflict → Dict PendingConflict
move_conflict target_key none popped = popped
move_conflict target_key (some conflict) popped =
    if has target_key popped then popped else put target_key conflict popped

-- The loop over the keys that `_pending` has at the start of the move.
unfoldable pub move_pending :
    Text → Text → List Text → Dict PendingConflict → Bool × Dict PendingConflict
move_pending from to [] d = (false, d)
move_pending from to (key ∷ ks) d =
    let suffix = drop (length (scope_key from [])) key in
    let moved =
      move_pending from to ks (move_conflict (scope_key to suffix) (get key d) (pop key d)) in
    let skipped = move_pending from to ks d in
    if starts_with (scope_key from []) key then (true, moved.1) else skipped

abbrev shown : (ℕ → Text) → Option ℕ → Option Text
shown iso none = none
shown iso (some ts) = if ts == 0 then none else some (iso ts)

-- A conflict that has not expired.
abbrev fresh_at : ℕ → Option PendingConflict → Option PendingConflict
fresh_at now none = none
fresh_at now (some conflict) = if ltb conflict.expires_at now then none else some conflict

module _ {Proc : Type 0} where
  pub set_active : Tracking Proc → Text → Text → Option Proc → Tracking Proc
  set_active t channel_id session proc = record t {
    active = put channel_id (put session proc (or_empty (get channel_id t.active))) t.active;
  }

  clear_in : Text → Text → Tracking Proc → Option (Dict (Option Proc)) → Tracking Proc
  clear_in channel_id session t none = t
  clear_in channel_id session t (some inner) = record t {
    active = put channel_id (pop session inner) t.active;
  }

  pub clear_active : Tracking Proc → Text → Text → Tracking Proc
  unfolding clear_in
  clear_active t channel_id session = clear_in channel_id session t (get channel_id t.active)

  abbrev flat : Option (Option Proc) → Option Proc
  flat none = none
  flat (some p) = p

  pub get_active : Tracking Proc → Text → Text → Option Proc
  get_active t channel_id session = flat (get session (or_empty (get channel_id t.active)))

  pub has_active : Tracking Proc → Text → Bool
  has_active t channel_id = any (λ e. is_some e.1) (or_empty (get channel_id t.active))

  pub active_sessions : Tracking Proc → Text → List Text
  active_sessions t channel_id =
      sorted (map (λ e. e.0) (keep (λ e. is_some e.1) (or_empty (get channel_id t.active))))

  -- `now` is `time.time()`.
  pub update_activity : Tracking Proc → Text → Text → ℕ → Tracking Proc
  update_activity t channel_id session now = record t {
    activity = put channel_id (put session now (or_empty (get channel_id t.activity))) t.activity;
  }

  -- `iso` formats a time.
  pub get_activity : (ℕ → Text) → Tracking Proc → Text → Text → Option Text
  get_activity iso t channel_id session =
      shown iso (get session (or_empty (get channel_id t.activity)))

  pub set_pending_conflict : Tracking Proc → Text → Text → PendingConflict → Tracking Proc
  set_pending_conflict t channel_id session conflict = record t {
    pending = put (scope_key channel_id session) conflict t.pending;
  }

  -- The key that `consume_pending` takes: that of the session, or the channel's first one.
  abbrev pub pending_key : Tracking Proc → Text → Text → Option Text
  pending_key t channel_id session =
      if is_empty session
      then first_key (scope_key channel_id []) t.pending
      else some (scope_key channel_id session)

  consume_key : Tracking Proc → ℕ → Option Text → Option PendingConflict × Tracking Proc
  consume_key t now none = (none, t)
  consume_key t now (some key) =
      (fresh_at now (get key t.pending), record t { pending = pop key t.pending })

  pub consume_pending : Tracking Proc → Text → Text → ℕ → Option PendingConflict × Tracking Proc
  unfolding consume_key
  consume_pending t channel_id session now = consume_key t now (pending_key t channel_id session)

  -- The first half of `reset_session`.
  unfoldable pub reset_tracked : Tracking Proc → Text → Text → Tracking Proc
  reset_tracked t channel_id session = record {
    active = drop_found channel_id session t.active (get channel_id t.active);
    pending = pop (scope_key channel_id session) t.pending;
    activity = drop_found channel_id session t.activity (get channel_id t.activity);
  }

  -- The first half of `migrate_channel_scope`, behind its guard.
  unfoldable pub migrate_tracked : Tracking Proc → Text → Text → Bool × Tracking Proc
  migrate_tracked t from to =
      let (active_changed, active) = move_found from to t.active (get from t.active) in
      let (activity_changed, activity) = move_found from to t.activity (get from t.activity) in
      let (pending_changed, pending) = move_pending from to (map (λ e. e.0) t.pending) t.pending in
      (
        active_changed || activity_changed || pending_changed,
        record { active = active; pending = pending; activity = activity },
      )
