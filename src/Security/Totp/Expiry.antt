-- ===== src/Security/Totp/Expiry.antt =====
-- Failures that leave the window, and the end of a lock.
use pycodebridge.Base.{
  ℕ, ◌+◌, ◌*◌, ◌≤◌, ◌<◌, ◌≡◌, refl, ◌∙◌, ap, true, false, inl, inr, List, [], ◌∷◌, ◌++◌, arith,
  some, length, length-append, All, ltb, Bool-cases, lt→ltb, leb, keep, ◌-◌,
}
use pycodebridge.Base.Text.{Text, text_eq_refl}
use pycodebridge.Base.Dict.{get, put, get-put}
use pycodebridge.Security.Totp.{
  Limiter, LimiterState, prune_failures, switched_off, retry_after, check_allowed, check_state,
  record_failure, failed, or_fresh,
}
use pycodebridge.Security.Totp.Limits.{check_locked}

-- The times do not decrease.
unfoldable pub IsRising : List ℕ → Type 0
IsRising [] = Unit
IsRising (t ∷ ts) = All (λ u. t ≤ u) ts × IsRising ts

all_recent :
    (window now t : ℕ) (ts : List ℕ)
    → now ≤ t + window
    → All (λ u. t ≤ u) ts
    → keep (λ u. leb now (u + window)) ts ≡ ts
all_recent window now t [] h a = refl
all_recent window now t (u ∷ ts) h a =
    let rest = all_recent window now t ts h a.1 in ground (arith, a.0)

-- What is dropped at the left end is all that is older than the window.
prune-keep :
    (window now : ℕ) (ts : List ℕ)
    → IsRising ts
    → prune_failures window now ts ≡ keep (λ t. leb now (t + window)) ts
unfolding prune_failures IsRising
prune-keep window now [] r = refl
prune-keep window now (t ∷ ts) r = elim (Bool-cases (ltb (t + window) now)) [
  | inl h ↦ let rest = prune-keep window now ts r.1 in ground arith
  | inr h ↦ let rest = all_recent window now t ts (ground arith) r.0 in ground arith
]

positive : (c t : ℕ) → 0 < c → 0 < t → 0 < c * t
positive c t p q = grind arith

cooldown_positive :
    (ticks : ℕ) (l : Limiter) → 0 < ticks → switched_off l ≡ false → 0 < l.cooldown_seconds * ticks
unfolding switched_off
cooldown_positive ticks l pos off = positive l.cooldown_seconds ticks (ground arith) pos

check_stored :
    (ticks : ℕ) (l : Limiter) (key : Text) (now : ℕ) (s : LimiterState)
    → switched_off l ≡ false
    → get key l.states ≡ some s
    → s.locked_until ≤ now
    → (check_allowed ticks l key now).0.0 ≡ true
check_stored ticks l key now s off e h = rw (check_locked ticks l key now s off e) (ground arith)

after_failed :
    (ticks : ℕ) (l : Limiter) (key : Text) (now : ℕ) (s : LimiterState)
    → switched_off l ≡ false
    → 0 < l.cooldown_seconds * ticks
    → s.locked_until ≤ now
    → let fs = prune_failures (l.window_seconds * ticks) now s.failures in
      (check_allowed ticks (failed ticks l key now s).1 key now).0.0
      ≡ ltb (length fs + 1) l.max_failures
unfolding failed switched_off
after_failed ticks l key now s off pos h =
    let fs = prune_failures (l.window_seconds * ticks) now s.failures in
    let n : length (fs ++ now ∷ []) ≡ length fs + 1 = length-append fs (now ∷ []) in
    let counted : LimiterState = record s { failures = fs ++ now ∷ [] } in
    let locked_now : LimiterState = record {
      failures = [];
      locked_until = now + l.cooldown_seconds * ticks;
    } in
    elim (Bool-cases (ltb (length fs + 1) l.max_failures)) [
      | inl t ↦
          rw (n, t)
            (check_stored ticks (record l { states = put key counted l.states }) key now counted off
              (rw (get-put, text_eq_refl)) h)
      | inr f ↦
          rw (n, f)
            (check_locked ticks (record l { states = put key locked_now l.states }) key now
                locked_now off (rw (get-put, text_eq_refl))
              ∙ ground arith)
    ]

-- A key that is not locked may go on trying after a failure exactly when its failures of the last
-- `window_seconds`, the new one included, are fewer than `max_failures`: older ones do not count.
-- The limiter is not switched off, and the stored failures are in the order of time.
pub record_failure_counts :
    (ticks : ℕ) (l : Limiter) (key : Text) (now : ℕ)
    → 0 < ticks
    → switched_off l ≡ false
    → (or_fresh (get key l.states)).locked_until ≤ now
    → IsRising (or_fresh (get key l.states)).failures
    → let recent =
        keep (λ t. leb now (t + l.window_seconds * ticks)) (or_fresh (get key l.states)).failures in
      (check_allowed ticks (record_failure ticks l key now).1 key now).0.0
      ≡ ltb (length recent + 1) l.max_failures
unfolding record_failure
record_failure_counts ticks l key now pos off h r =
    let s = or_fresh (get key l.states) in
    rw off (
      after_failed ticks l key now s off (cooldown_positive ticks l pos off) h
      ∙ ap (λ fs. ltb (length fs + 1) l.max_failures)
          (prune-keep (l.window_seconds * ticks) now s.failures r))

covers :
    (ticks left : ℕ)
    → 0 < ticks
    → 0 < left
    → (left ≤ retry_after ticks left * ticks) × (retry_after ticks left * ticks < left + ticks)
unfolding retry_after
covers ticks left pos h = grind arith

-- A locked key is refused, and the seconds that it is told to wait reach the end of the lock and go
-- less than a second beyond it. The limiter is not switched off.
pub retry_after_covers :
    (ticks : ℕ) (l : Limiter) (key : Text) (now : ℕ) (s : LimiterState)
    → 0 < ticks
    → switched_off l ≡ false
    → get key l.states ≡ some s
    → now < s.locked_until
    → let r = (check_allowed ticks l key now).0 in
      (r.0 ≡ false)
      × (s.locked_until ≤ now + r.1 * ticks)
      × (now + r.1 * ticks < s.locked_until + ticks)
unfolding check_allowed check_state
retry_after_covers ticks l key now s pos off e h =
    let c = covers ticks (s.locked_until - now) pos (omega arith) in
    rw (off, e, lt→ltb now s.locked_until h) (refl, omega arith, omega arith)
