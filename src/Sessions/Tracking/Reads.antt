-- ===== src/Sessions/Tracking/Reads.antt =====
-- What the tracking methods return after one another.
use pycodebridge.Base.{
  ℕ, ltb, false, not, ◌&&◌, ◌≡◌, refl, ap, sym, arith, inl, inr, ◌⊎◌, List, [], ◌∷◌, Option, none,
  some, keep, any, map, if◌then◌else◌, is_some, Bool-cases, Option-cases, if_intro,
}
use pycodebridge.Base.Text.{Text, text_eq, text_eq_iff, is_empty}
use pycodebridge.Base.Dict.{Dict, get, get-put, get-pop, get-empty, get-put_self, get-pop_self}
use pycodebridge.Routing.Names.{PendingConflict}
use pycodebridge.Routing.Repos.{is_nil}
use pycodebridge.Sessions.Tracking.{
  Tracking, or_empty, sorted, insert, text_leb, set_active, clear_active, clear_in, get_active,
  has_active, active_sessions, set_pending_conflict, consume_pending, consume_key,
}

insert_some : (s : Text) (ts : List Text) → is_nil (insert s ts) ≡ false
insert_some s [] = refl
insert_some s (t ∷ ts) =
    if_intro (λ l. is_nil l ≡ false) (text_leb s t) (s ∷ t ∷ ts) (t ∷ insert s ts) (λ _. refl)
      (λ _. refl)

module _ {Proc : Type 0} where
  -- A process that is tracked is found under its channel and session, no other lookup changes, and
  -- once it is cleared there is none; a clearing changes no other lookup either.
  pub active_lookups :
      (t : Tracking Proc) (c s c' s' : Text) (p : Option Proc)
      → let hit = text_eq c c' && text_eq s s' in
        (get_active (set_active t c s p) c' s' ≡ (if hit then p else get_active t c' s'))
        × (get_active (clear_active t c s) c' s' ≡ (if hit then none else get_active t c' s'))
  unfolding set_active get_active clear_active clear_in
  active_lookups t c s c' s' p = (
    rw get-put (ground (arith, text_eq_iff c c', get-put s s' p (or_empty (get c t.active)))),
    cleared (Option-cases (get c t.active)),
  )
    where
      cleared :
          (get c t.active ≡ none) ⊎ ((d : Dict (Option Proc)) × (get c t.active ≡ some d))
          → get_active (clear_active t c s) c' s'
            ≡ (if text_eq c c' && text_eq s s' then none else get_active t c' s')
      cleared (inl e) = rw e (ground (arith, e, text_eq_iff c c', get-empty {V = Option Proc} s'))
      cleared (inr (d, e)) = rw (e, get-put) (ground (arith, e, text_eq_iff c c', get-pop s s' d))

  any-sorted :
      (d : Dict (Option Proc))
      → any (λ e. is_some e.1) d
        ≡ not (is_nil (sorted (map (λ e. e.0) (keep (λ e. is_some e.1) d))))
  any-sorted [] = refl
  any-sorted (e ∷ d) = elim (Bool-cases (is_some e.1)) [
    | inl t ↦
        rw t (sym (ap not (insert_some e.0 (sorted (map (λ x. x.0) (keep (λ x. is_some x.1) d))))))
    | inr t ↦ rw t (any-sorted d)
  ]

  -- A channel has an active session exactly when the list of its active sessions is not empty.
  pub has_active-sessions :
      (t : Tracking Proc) (channel : Text)
      → has_active t channel ≡ not (is_nil (active_sessions t channel))
  unfolding has_active active_sessions
  has_active-sessions t channel = any-sorted (or_empty (get channel t.active))

  -- A conflict that was stored for a session is handed out once, and not after it expired.
  pub consume_pending_once :
      (t : Tracking Proc) (channel session : Text) (conflict : PendingConflict) (now later : ℕ)
      → is_empty session ≡ false
      → let r =
          consume_pending (set_pending_conflict t channel session conflict) channel session now in
        (r.0 ≡ (if ltb conflict.expires_at now then none else some conflict))
        × ((consume_pending r.1 channel session later).0 ≡ none)
  unfolding consume_pending set_pending_conflict consume_key
  consume_pending_once t channel session conflict now later e =
      rw (e, get-put_self, get-pop_self) (refl, refl)
