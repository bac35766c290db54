-- ===== src/Security/Totp/Window.antt =====
-- Which time step `verify_totp` returns.
use pycodebridge.Base.{
  ℕ, zero, suc, ◌+◌, ◌-◌, ◌*◌, ◌/◌, ◌≤◌, ◌<◌, ◌≡◌, ◌≢◌, refl, subst, Bool, true, false, not, ◌||◌,
  inl, inr, [], Option, none, arith, some, length, all, ltb, leb, ◌==◌, Bool-cases, Option-cases,
}
use pycodebridge.Base.Text.{Text, strip, split, join}
use pycodebridge.Security.Totp.{Verified, matched, try_steps, verify_totp}

data Answer (o : Option Bool) : Type 0 where
  threw : o ≡ none → Answer o
  fits : o ≡ some true → Answer o
  differs : o ≡ some false → Answer o

answer : (o : Option Bool) → Answer o
answer none = threw refl
answer (some true) = fits refl
answer (some false) = differs refl

matched_injective : {a b : ℕ} → matched a ≡ matched b → a ≡ b
matched_injective e = cc

module _ {Totp : Type 0} (verify : Totp → Text → ℕ → Option Bool) (totp : Totp) (token : Text)
    (period current window : ℕ) where
  abbrev loop : ℕ → ℕ → Verified
  loop rounds i = try_steps verify totp token period current window rounds i

  -- `s` is the first step, from the round `i` on, whose code is the token.
  pub record IsFirst (i rounds s : ℕ) : Type 0 where
    pub hit : verify totp token (s * period) ≡ some true
    pub after : current + i ≤ s + window
    pub before : s + window < current + i + rounds
    pub earlier :
        (t : ℕ) → t < s → current + i ≤ t + window → verify totp token (t * period) ≡ some false

  skip :
      (rounds i s : ℕ) → current + i < window → IsFirst (i + 1) rounds s → IsFirst i (suc rounds) s
  skip rounds i s h f = record {
    hit = f.hit;
    after = omega (arith, f.after);
    before = omega (arith, f.before);
    earlier = λ t lt ge. f.earlier t lt (omega arith);
  }

  miss :
      (rounds i s : ℕ)
      → window ≤ current + i
      → verify totp token ((current + i - window) * period) ≡ some false
      → IsFirst (i + 1) rounds s
      → IsFirst i (suc rounds) s
  miss rounds i s h v f = record {
    hit = f.hit;
    after = omega (arith, f.after);
    before = omega (arith, f.before);
    earlier = λ t lt ge. elim (Bool-cases (leb (current + (i + 1)) (t + window))) [
      | inl later ↦ f.earlier t lt (ground arith)
      | inr here ↦ rw (at_round t ge here) v
    ];
  }
    where
      at_round :
          (t : ℕ)
          → current + i ≤ t + window
          → leb (current + (i + 1)) (t + window) ≡ false
          → t ≡ current + i - window
      at_round t ge here = ground arith

  first :
      (rounds i : ℕ)
      → window ≤ current + i
      → verify totp token ((current + i - window) * period) ≡ some true
      → IsFirst i (suc rounds) (current + i - window)
  first rounds i h v = record {
    hit = v;
    after = omega arith;
    before = omega arith;
    earlier = λ t lt ge. absurd (omega arith);
  }

  loop-IsFirst : (rounds i s : ℕ) → loop rounds i ≡ matched s → IsFirst i rounds s
  unfolding try_steps
  loop-IsFirst zero i s e = cc
  loop-IsFirst (suc rounds) i s e = elim (Bool-cases (ltb (current + i) window)) [
    | inl t ↦ skip rounds i s (ground arith) (loop-IsFirst rounds (i + 1) s (rw t at e))
    | inr t ↦ elim (answer (verify totp token ((current + i - window) * period))) [
      | threw v ↦ cc (rw (t, v) at e)
      | fits v ↦
          subst (IsFirst i (suc rounds)) (matched_injective (rw (t, v) at e))
            (first rounds i (ground arith) v)
      | differs v ↦
          miss rounds i s (ground arith) v (loop-IsFirst rounds (i + 1) s (rw (t, v) at e))
    ]
  ]

  -- A step of the window whose code is the token is not passed over, unless an earlier one is it.
  loop_finds :
      (rounds i s : ℕ)
      → ((t : ℕ) → verify totp token t ≢ none)
      → current + i ≤ s + window
      → s + window < current + i + rounds
      → verify totp token (s * period) ≡ some true
      → (r : ℕ) × (loop rounds i ≡ matched r)
  unfolding try_steps
  loop_finds zero i s total after before v = absurd (omega arith)
  loop_finds (suc rounds) i s total after before v = elim (Bool-cases (ltb (current + i) window)) [
    | inl t ↦ rw t (loop_finds rounds (i + 1) s total (ground arith) (omega arith) v)
    | inr t ↦ elim (answer (verify totp token ((current + i - window) * period))) [
      | threw u ↦ absurd (total _ u)
      | fits u ↦ rw (t, u) (current + i - window, refl)
      | differs u ↦ rw (t, u) (loop_finds rounds (i + 1) s total (further t u) (omega arith) v)
    ]
  ]
    where
      further :
          ltb (current + i) window ≡ false
          → verify totp token ((current + i - window) * period) ≡ some false
          → current + (i + 1) ≤ s + window
      further t u = elim (Bool-cases (leb (current + (i + 1)) (s + window))) [
        | inl later ↦ ground arith
        | inr here ↦ cc (v, u, at_round here)
      ]
        where
          at_round : leb (current + (i + 1)) (s + window) ≡ false → s ≡ current + i - window
          at_round here = ground arith

module _ {Totp : Type 0} (make : Text → ℕ → Option Totp) (verify : Totp → Text → ℕ → Option Bool)
    (is_digit : ℕ → Bool) (upper : Text → Text) (code secret : Text) (period window now : ℕ) where
  abbrev secret_totp : Option Totp
  secret_totp = make (upper (join [] (split (strip secret)))) period

  abbrev result : Verified
  result = verify_totp make verify is_digit upper code secret period window now

  abbrev pub IsToken : Type 0
  IsToken = (length (strip code) ≡ 6) × (all is_digit (strip code) ≡ true)

  -- A returned step is the first of the steps within `window` of the current one whose code is the
  -- token, and the token is six digits.
  pub verify_totp-matched :
      (s : ℕ)
      → result ≡ matched s
      → (totp : Totp) × (secret_totp ≡ some totp)
        × IsToken
        × IsFirst verify totp (strip code) period (now / period) window 0 (2 * window + 1) s
  unfolding verify_totp
  verify_totp-matched s e =
      elim (Bool-cases (not (length (strip code) == 6) || not (all is_digit (strip code)))) [
        | inl t ↦ cc (rw t at e)
        | inr t ↦ elim (Option-cases secret_totp) [
          | inl u ↦ cc (rw (t, u) at e)
          | inr (totp, u) ↦ (
            totp,
            u,
            ground arith,
            loop-IsFirst verify totp (strip code) period (now / period) window (2 * window + 1) 0 s
                (rw (t, u) at e),
          )
        ]
      ]

  -- A token of six digits that is the code of some step of the window is accepted, if `pyotp` does
  -- not raise.
  pub verify_totp_finds :
      (totp : Totp) (s : ℕ)
      → secret_totp ≡ some totp
      → IsToken
      → ((t : ℕ) → verify totp (strip code) t ≢ none)
      → now / period ≤ s + window
      → s ≤ now / period + window
      → verify totp (strip code) (s * period) ≡ some true
      → (r : ℕ) × (result ≡ matched r)
  unfolding verify_totp
  verify_totp_finds totp s made token total after before v =
      let (r, e) =
        loop_finds verify totp (strip code) period (now / period) window (2 * window + 1) 0 s total
          (omega arith) (omega arith) v in
      (r, rw (guard_passes token, made) e)
    where
      guard_passes :
          IsToken → (not (length (strip code) == 6) || not (all is_digit (strip code))) ≡ false
      guard_passes token = ground arith
