-- ===== src/Security/Totp/Examples.antt =====
-- Runs of the limiter, and a verifier whose codes are the step times.
use pycodebridge.Base.{
  ℕ, ◌+◌, ◌*◌, ◌/◌, ◌≤◌, ◌<◌, ◌≡◌, ◌≢◌, refl, Bool, false, not, [], ◌∷◌, Option, some, arith, leb,
  keep, length, ltb, ◌==◌, ◌&&◌,
}
use pycodebridge.Base.Text.{Text, str, text_eq, strip, text_eq_iff}
use pycodebridge.Base.Dict.{get}
use pycodebridge.Security.Totp.{
  Limiter, init, switched_off, check_allowed, record_failure, or_fresh, matched, verify_totp,
}
use pycodebridge.Security.Totp.Limits.{lockout, fail_all}
use pycodebridge.Security.Totp.Expiry.{IsRising, record_failure_counts, retry_after_covers}
use pycodebridge.Security.Totp.Window.{IsToken, IsFirst, verify_totp-matched, verify_totp_finds}

-- Three failures within a minute lock a key for five minutes; ten ticks to a second.
abbrev limiter : Limiter
limiter = init 3 60 300

lockout_example :
    let r =
      record_failure 10 (fail_all 10 limiter (str "alice") (100 ∷ 250 ∷ [])) (str "alice") 400 in
    (r.0 ≡ 300) × ((check_allowed 10 r.1 (str "alice") 3399).0.0 ≡ not (ltb 3399 (400 + 300 * 10)))
unfolding init get switched_off
lockout_example =
    lockout 10 limiter (str "alice") 100 (100 ∷ 250 ∷ []) 400 3399 refl refl (omega arith)
      (omega arith) refl

-- Two failures are stored; the first one is out of the window at the time 750.
abbrev failing : Limiter
failing = record {
  max_failures = 3;
  window_seconds = 60;
  cooldown_seconds = 300;
  states = (str "alice", record { failures = 100 ∷ 250 ∷ []; locked_until = 0 }) ∷ [];
}

record_failure_counts_example :
    (check_allowed 10 (record_failure 10 failing (str "alice") 750).1 (str "alice") 750).0.0
    ≡ ltb
        (length (
            keep
              (λ t. leb 750 (t + 60 * 10))
              (or_fresh (get (str "alice") failing.states)).failures)
          + 1)
        3
unfolding get text_eq switched_off IsRising
record_failure_counts_example =
    record_failure_counts 10 failing (str "alice") 750 (omega arith) refl (omega arith)
      (omega arith)

-- Locked until the time 3400.
abbrev locked : Limiter
locked = record {
  max_failures = 3;
  window_seconds = 60;
  cooldown_seconds = 300;
  states = (str "alice", record { failures = []; locked_until = 3400 }) ∷ [];
}

retry_after_covers_example :
    let r = (check_allowed 10 locked (str "alice") 3375).0 in
    (r.0 ≡ false) × (3400 ≤ 3375 + r.1 * 10) × (3375 + r.1 * 10 < 3400 + 10)
unfolding get text_eq switched_off
retry_after_covers_example =
    retry_after_covers 10 locked (str "alice") 3375 (record { failures = []; locked_until = 3400 })
      (omega arith) refl refl (omega arith)

alice_ne_bob : str "alice" ≢ str "bob"
unfolding text_eq
alice_ne_bob e = ground (arith, text_eq_iff (str "alice") (str "bob"))

abbrev make : Text → ℕ → Option (Unit {0})
make secret period = some tt

abbrev verify : Unit {0} → Text → ℕ → Option Bool
verify totp token time = some (text_eq token (str "000090") && time == 90)

abbrev is_digit : ℕ → Bool
is_digit c = leb b'0' c && leb c b'9'

abbrev same_text : Text → Text
same_text s = s

accepted :
    verify_totp make verify is_digit same_text (str " 000090 ") (str "k") 30 1 125 ≡ matched 3
unfolding verify_totp text_eq strip
accepted = refl

verify_totp-matched_example :
    (totp : Unit {0}) × (some tt ≡ some totp)
    × IsToken make verify is_digit same_text (str " 000090 ") (str "k") 30 1 125
    × IsFirst verify totp (strip (str " 000090 ")) 30 (125 / 30) 1 0 3 3
verify_totp-matched_example =
    verify_totp-matched make verify is_digit same_text (str " 000090 ") (str "k") 30 1 125 3
      accepted

verify_totp_finds_example :
    (r : ℕ) × (verify_totp make verify is_digit same_text (str " 000090 ") (str "k") 30 1 125
      ≡ matched r)
unfolding text_eq strip
verify_totp_finds_example =
    verify_totp_finds make verify is_digit same_text (str " 000090 ") (str "k") 30 1 125 tt 3 refl
      (refl, refl) (λ t e. cc) (omega arith) (omega arith) refl
