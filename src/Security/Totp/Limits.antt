-- ===== src/Security/Totp/Limits.antt =====
-- When the limiter locks a key, and for how long.
use pycodebridge.Base.{
  ℕ, ◌+◌, ◌*◌, ◌≤◌, ◌<◌, ◌≡◌, ◌≢◌, refl, ◌∙◌, ap, false, not, inl, inr, List, [], ◌∷◌, ◌++◌,
  append_assoc, append-nil, Option, none, arith, some, length, length-append, All, All-append, ltb,
  Bool-cases, lt→ltb,
}
use pycodebridge.Base.Text.{Text, text_eq_refl}
use pycodebridge.Base.Dict.{Dict, get, put, get-put, get-put_ne, get-pop_ne}
use pycodebridge.Security.Totp.{
  Limiter, LimiterState, no_failures, prune_failures, switched_off, check_allowed, check_state,
  record_failure, record_success, failed, or_fresh,
}

le→ltb : (a b : ℕ) → b ≤ a → ltb a b ≡ false
le→ltb a b h = ground arith

-- Nothing is dropped from failures that are all inside the window.
prune-recent :
    (window now : ℕ) (ts : List ℕ)
    → All (λ t. now ≤ t + window) ts
    → prune_failures window now ts ≡ ts
unfolding prune_failures
prune-recent window now [] h = refl
prune-recent window now (t ∷ ts) h = ground arith

-- The failures of one key at the given times.
pub fail_all : ℕ → Limiter → Text → List ℕ → Limiter
fail_all ticks l key [] = l
fail_all ticks l key (t ∷ ts) = fail_all ticks (record_failure ticks l key t).1 key ts

-- The times lie in one window that begins at `lo`.
abbrev pub InWindow : ℕ → ℕ → ℕ → Type 0
InWindow lo window t = (lo ≤ t) × (t ≤ lo + window)

module _ (ticks : ℕ) (key : Text) where
  abbrev of_key : Limiter → LimiterState
  of_key l = or_fresh (get key l.states)

  abbrev with_state : Limiter → LimiterState → Limiter
  with_state l s = record l { states = put key s l.states }

  of_key-with_state : (l : Limiter) (s : LimiterState) → of_key (with_state l s) ≡ s
  of_key-with_state l s = rw (get-put, text_eq_refl)

  window-All :
      (lo window now : ℕ) (ts : List ℕ)
      → All (λ t. lo ≤ t) ts
      → now ≤ lo + window
      → All (λ t. now ≤ t + window) ts
  window-All lo window now [] h k = tt
  window-All lo window now (t ∷ ts) h k = (omega arith, window-All lo window now ts h.1 k)

  counted :
      (l : Limiter) (now lo : ℕ)
      → switched_off l ≡ false
      → All (λ t. lo ≤ t) (of_key l).failures
      → now ≤ lo + l.window_seconds * ticks
      → length (of_key l).failures + 1 < l.max_failures
      → record_failure ticks l key now
        ≡ (0, with_state l (record (of_key l) { failures = (of_key l).failures ++ now ∷ [] }))
  unfolding record_failure
  counted l now lo off h k few =
      rw (off, failed)
        (rw (prune-recent _ now _ (window-All lo _ now _ h k)) (
          rw
            (lt→ltb (length ((of_key l).failures ++ now ∷ [])) l.max_failures
              (omega (arith, length-append (of_key l).failures (now ∷ []))))
            refl))

  locked :
      (l : Limiter) (now lo : ℕ)
      → switched_off l ≡ false
      → All (λ t. lo ≤ t) (of_key l).failures
      → now ≤ lo + l.window_seconds * ticks
      → length (of_key l).failures + 1 ≡ l.max_failures
      → record_failure ticks l key now ≡ (
        l.cooldown_seconds,
        with_state l (record { failures = []; locked_until = now + l.cooldown_seconds * ticks }),
      )
  unfolding record_failure
  locked l now lo off h k full =
      rw (off, failed)
        (rw (prune-recent _ now _ (window-All lo _ now _ h k)) (
          rw
            (le→ltb (length ((of_key l).failures ++ now ∷ [])) l.max_failures
              (omega (arith, length-append (of_key l).failures (now ∷ []))))
            refl))

  -- Below the limit the failures of one window only pile up.
  piled :
      (l : Limiter) (lo : ℕ) (ts : List ℕ)
      → switched_off l ≡ false
      → All (λ t. lo ≤ t) (of_key l).failures
      → All (InWindow lo (l.window_seconds * ticks)) ts
      → length (of_key l).failures + length ts < l.max_failures
      → (d : Dict LimiterState) × (fail_all ticks l key ts ≡ record l { states = d })
        × (or_fresh (get key d) ≡ record (of_key l) { failures = (of_key l).failures ++ ts })
  unfolding fail_all switched_off
  piled l lo [] off h k few = (l.states, refl, rw append-nil)
  piled l lo (t ∷ ts) off h k few =
      let s : LimiterState = record (of_key l) { failures = (of_key l).failures ++ t ∷ [] } in
      let e = of_key-with_state l s in
      let (d, run, q) =
        piled (with_state l s) lo ts off
          (rw e (All-append (λ u. lo ≤ u) (of_key l).failures (t ∷ []) h (k.0.0, tt))) k.1
          (rw e (omega (arith, length-append (of_key l).failures (t ∷ [])))) in
      (
        d,
        rw (counted l t lo off h k.0.1 (omega arith)) run,
        q
            ∙ ap (λ (r : LimiterState). record r { failures = r.failures ++ ts }) e
            ∙ ap (λ u. record (of_key l) { failures = u })
                (append_assoc (of_key l).failures (t ∷ []) ts),
      )

-- Whether the key may try, and the answer to a key that may.
pub check_locked :
    (ticks : ℕ) (l : Limiter) (key : Text) (now : ℕ) (s : LimiterState)
    → switched_off l ≡ false
    → get key l.states ≡ some s
    → (check_allowed ticks l key now).0.0 ≡ not (ltb now s.locked_until)
unfolding check_allowed
check_locked ticks l key now s off e = rw (off, e, check_state) (ground arith)

All-lower : (lo window : ℕ) (ts : List ℕ) → All (InWindow lo window) ts → All (λ t. lo ≤ t) ts
All-lower lo window [] h = tt
All-lower lo window (t ∷ ts) h = (h.0.0, All-lower lo window ts h.1)

-- A key with no history whose failures, `max_failures` of them, lie in one window is refused
-- exactly until the cooldown after the last failure has passed, and the last failure returns the
-- cooldown.
pub lockout :
    (ticks : ℕ) (l : Limiter) (key : Text) (lo : ℕ) (ts : List ℕ) (last now : ℕ)
    → switched_off l ≡ false
    → get key l.states ≡ none
    → All (InWindow lo (l.window_seconds * ticks)) ts
    → InWindow lo (l.window_seconds * ticks) last
    → length ts + 1 ≡ l.max_failures
    → let r = record_failure ticks (fail_all ticks l key ts) key last in
      (r.0 ≡ l.cooldown_seconds)
      × ((check_allowed ticks r.1 key now).0.0 ≡ not (ltb now (last + l.cooldown_seconds * ticks)))
unfolding switched_off
lockout ticks l key lo ts last now off new w wl full =
    let e : or_fresh (get key l.states) ≡ no_failures = ap or_fresh new in
    let (d, run, q) = piled ticks key l lo ts off (rw e tt) w (rw e (omega arith)) in
    let q' : or_fresh (get key d) ≡ record no_failures { failures = ts } =
      q ∙ ap (λ (r : LimiterState). record r { failures = r.failures ++ ts }) e in
    let s : LimiterState = record {
      failures = [];
      locked_until = last + l.cooldown_seconds * ticks;
    } in
    rw run (
      rw
        (locked ticks key (record l { states = d }) last lo off (rw q' (All-lower lo _ ts w)) wl.1
          (rw q' full))
        (
          refl,
          check_locked ticks (record l { states = put key s d }) key now s off
              (rw (get-put, text_eq_refl)),
        ))

module _ (ticks : ℕ) (l : Limiter) (key other : Text) (now : ℕ) (ne : key ≢ other) where
  same_after_failure :
      (s : LimiterState) → get other (failed ticks l key now s).1.states ≡ get other l.states
  unfolding failed
  same_after_failure s =
      elim (Bool-cases (
        ltb (length (prune_failures (l.window_seconds * ticks) now s.failures ++ now ∷ []))
          l.max_failures)) [
            | inl t ↦ rw t (get-put_ne key other ne _ l.states)
            | inr t ↦ rw t (get-put_ne key other ne _ l.states)
          ]

  same_after_check :
      (o : Option LimiterState)
      → get other (check_state ticks l key now o).1.states ≡ get other l.states
  unfolding check_state
  same_after_check none = refl
  same_after_check (some s) =
      let fs = prune_failures (l.window_seconds * ticks) now s.failures in
      ground (
        arith,
        get-put_ne key other ne (record s { failures = fs }) l.states,
        get-pop_ne key other ne l.states,
      )

  -- No operation on one key changes what is stored for another.
  pub other_keys :
      (get other (record_failure ticks l key now).1.states ≡ get other l.states)
      × (get other (check_allowed ticks l key now).1.states ≡ get other l.states)
      × (get other (record_success l key).states ≡ get other l.states)
  unfolding record_failure check_allowed record_success
  other_keys = elim (Bool-cases (switched_off l)) [
    | inl t ↦ rw t (refl, refl, get-pop_ne key other ne l.states)
    | inr t ↦ rw t (
      same_after_failure (or_fresh (get key l.states)),
      same_after_check (get key l.states),
      get-pop_ne key other ne l.states,
    )
  ]
