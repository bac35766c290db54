-- ===== src/Security/Totp.antt =====
-- codebridge/security/totp.py: the lockout limiter, and the search of the time steps around now.
-- A time is a number of ticks, `ticks` of them to a second (the source has floats; a difference
-- that would be negative is written as a sum on the other side). `pyotp` is a parameter.
pub mod Limits
pub mod Expiry
pub mod Window
pub mod Examples
use pycodebridge.Base.{
  ℕ, zero, suc, ◌+◌, ◌-◌, ◌*◌, ◌/◌, Bool, true, false, not, ◌||◌, List, [], ◌∷◌, ◌++◌, Option, none,
  some, max, length, all, ltb, leb, ◌==◌, if◌then◌else◌,
}
use pycodebridge.Base.Text.{Text, strip, split, join}
use pycodebridge.Base.Dict.{Dict, get, put, pop}

pub record LimiterState : Type 0 where
  pub failures : List ℕ
  pub locked_until : ℕ

-- `_LimiterState()`
abbrev pub no_failures : LimiterState
no_failures = record { failures = []; locked_until = 0 }

pub record Limiter : Type 0 where
  pub max_failures : ℕ
  pub window_seconds : ℕ
  pub cooldown_seconds : ℕ
  pub states : Dict LimiterState

-- `TotpAttemptLimiter(...)`; a negative setting is 0 here, as `max(0, …)` makes it.
pub init : ℕ → ℕ → ℕ → Limiter
init max_failures window_seconds cooldown_seconds = record {
  max_failures = max_failures;
  window_seconds = max 1 window_seconds;
  cooldown_seconds = cooldown_seconds;
  states = [];
}

-- `_prune_failures`: `window` is `window_seconds` in ticks.
pub prune_failures : ℕ → ℕ → List ℕ → List ℕ
prune_failures window now [] = []
prune_failures window now (t ∷ failures) =
    let rest = prune_failures window now failures in
    if ltb (t + window) now then rest else t ∷ failures

-- The guard at the head of both methods.
pub switched_off : Limiter → Bool
switched_off l = l.max_failures == 0 || l.cooldown_seconds == 0

-- Seconds, rounded up, and at least one.
pub retry_after : ℕ → ℕ → ℕ
retry_after ticks left = max 1 ((left + (ticks - 1)) / ticks)

-- The state that `setdefault` gives.
abbrev pub or_fresh : Option LimiterState → LimiterState
or_fresh none = no_failures
or_fresh (some state) = state

module _ (ticks : ℕ) where
  check_state : Limiter → Text → ℕ → Option LimiterState → (Bool × ℕ) × Limiter
  check_state l key now none = ((true, 0), l)
  check_state l key now (some state) =
      let failures = prune_failures (l.window_seconds * ticks) now state.failures in
      let pruned = record l { states = put key (record state { failures = failures }) l.states } in
      let dropped = record l { states = pop key l.states } in
      if ltb now state.locked_until
      then ((false, retry_after ticks (state.locked_until - now)), pruned)
      else ((true, 0), (if length failures == 0 then dropped else pruned))

  pub check_allowed : Limiter → Text → ℕ → (Bool × ℕ) × Limiter
  unfolding check_state switched_off
  check_allowed l key now =
      if switched_off l then ((true, 0), l) else check_state l key now (get key l.states)

  pub failed : Limiter → Text → ℕ → LimiterState → ℕ × Limiter
  failed l key now state =
      let failures = prune_failures (l.window_seconds * ticks) now state.failures ++ now ∷ [] in
      let counted = record l { states = put key (record state { failures = failures }) l.states } in
      let locked = record l {
        states =
            put key (record { failures = []; locked_until = now + l.cooldown_seconds * ticks })
              l.states;
      } in
      if ltb (length failures) l.max_failures then (0, counted) else (l.cooldown_seconds, locked)

  pub record_failure : Limiter → Text → ℕ → ℕ × Limiter
  unfolding failed switched_off
  record_failure l key now =
      if switched_off l then (0, l) else failed l key now (or_fresh (get key l.states))

pub record_success : Limiter → Text → Limiter
record_success l key = record l { states = pop key l.states }

-- What `verify_totp` returns, or that `pyotp` raised in `verify`.
pub data Verified : Type 0 where
  matched : ℕ → Verified
  no_match : Verified
  raised : Verified

-- `totp.verify(token, for_time=ts, valid_window=0)`, with the case that it raises.
module _ {Totp : Type 0} (verify : Totp → Text → ℕ → Option Bool) where
  -- The loop from `delta = i - window` on, with `rounds` rounds left.
  pub try_steps : Totp → Text → ℕ → ℕ → ℕ → ℕ → ℕ → Verified
  try_steps totp token period current window zero i = no_match
  try_steps totp token period current window (suc rounds) i =
      let rest = try_steps totp token period current window rounds (i + 1) in
      let step = current + i - window in
      if ltb (current + i) window then rest else elim (verify totp token (step * period)) [
        | none ↦ raised
        | some true ↦ matched step
        | some false ↦ rest
      ]

  pub from_secret : Text → ℕ → ℕ → ℕ → Option Totp → Verified
  unfolding try_steps
  from_secret token period window now none = no_match
  from_secret token period window now (some totp) =
      try_steps totp token period (now / period) window (2 * window + 1) 0

-- `pyotp.TOTP(secret, interval=period)`, with the case that it raises; `str.isdigit` on a
-- character, and `str.upper`.
module _ {Totp : Type 0} (make : Text → ℕ → Option Totp) (verify : Totp → Text → ℕ → Option Bool)
    (is_digit : ℕ → Bool) (upper : Text → Text) where
  -- `now` is in whole seconds, and `period` is positive.
  pub verify_totp : Text → Text → ℕ → ℕ → ℕ → Verified
  unfolding from_secret
  verify_totp code secret period window now =
      let token = strip code in
      if not (length token == 6) || not (all is_digit token)
      then no_match
      else from_secret verify token period window now
          (make (upper (join [] (split (strip secret)))) period)
