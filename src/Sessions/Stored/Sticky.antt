-- ===== src/Sessions/Stored/Sticky.antt =====
-- The sticky selections of users.
use pycodebridge.Base.{
  ◌+◌, false, not, ◌≡◌, refl, ap, ◌∙◌, sym, arith, [], ◌∷◌, Option, none, some, All, keep, length,
  if_intro, subst,
}
use pycodebridge.Base.Text.{Text, text_eq, is_empty}
use pycodebridge.Base.Dict.{Dict, get, get-put_self}
use pycodebridge.Routing.Names.{channel_or_new, normalize_session_default, set_sticky}
use pycodebridge.Routing.Names.Valid.{normalize_session_default-IsSessionName}
use pycodebridge.Sessions.State.{ChannelState, FileState}
use pycodebridge.Sessions.Stored.{
  sticky_in, or_text, current_session_for_user, selected, select_sticky, clear_sticky_session,
  clear_sticky_in,
}

-- A user with an id gets the session that was selected for the user last, under the name that it is
-- stored by, whatever the default is.
pub current-select_sticky :
    (fs : FileState) (user channel session default : Text)
    → is_empty user ≡ false
    → current_session_for_user (select_sticky fs channel user session) user channel default
      ≡ normalize_session_default session
unfolding current_session_for_user select_sticky set_sticky
current-select_sticky fs user channel session default e =
    let named = (normalize_session_default-IsSessionName session).some_chars in
    let ch = channel_or_new (get channel fs.channels) in
    rw (e, get-put_self)
      (ap (λ s. or_text (selected s) (normalize_session_default default))
          (get-put_self user (normalize_session_default session) ch.sticky)
        ∙ ground (arith, named))

module _ (name : Text) where
  keep_counts :
      (d : Dict Text)
      → length (keep (λ e. text_eq e.1 name) d) + length (keep (λ e. not (text_eq e.1 name)) d)
        ≡ length d
  keep_counts [] = refl
  keep_counts (e ∷ d) = ground (arith, keep_counts d)

  keep_clears :
      (d : Dict Text) → All (λ e. text_eq e.1 name ≡ false) (keep (λ e. not (text_eq e.1 name)) d)
  keep_clears [] = tt
  keep_clears (e ∷ d) =
      if_intro (All (λ e. text_eq e.1 name ≡ false)) (not (text_eq e.1 name))
        (e ∷ keep (λ e. not (text_eq e.1 name)) d) (keep (λ e. not (text_eq e.1 name)) d)
        (λ t. (ground (arith, t), keep_clears d)) (λ _. keep_clears d)

  cleared_in :
      (fs : FileState) (channel : Text) (found : Option ChannelState)
      → get channel fs.channels ≡ found
      → let r = clear_sticky_in fs channel name found in
        (r.0 + length (sticky_in r.1 channel) ≡ length (sticky_in fs channel))
        × All (λ e. text_eq e.1 name ≡ false) (sticky_in r.1 channel)
  unfolding clear_sticky_in
  cleared_in fs channel none at =
      let none_there = ap (λ o. (channel_or_new o).sticky) at in
      (omega arith, subst (All (λ e. text_eq e.1 name ≡ false)) (sym none_there) tt)
  cleared_in fs channel (some ch) at =
      let now =
        ap (λ o. (channel_or_new o).sticky)
          (get-put_self channel
            (record ch { sticky = keep (λ e. not (text_eq e.1 name)) ch.sticky }) fs.channels) in
      let before = ap (λ o. (channel_or_new o).sticky) at in
      (
        ap (λ d. length (keep (λ e. text_eq e.1 name) ch.sticky) + length d) now
            ∙ keep_counts ch.sticky
            ∙ ap length (sym before),
        subst (All (λ e. text_eq e.1 name ≡ false)) (sym now) (keep_clears ch.sticky),
      )

-- `clear_sticky_session` leaves no selection of the session in the channel, and returns how many
-- selections fewer there are.
pub clear_sticky_session_counts :
    (fs : FileState) (channel session : Text)
    → let r = clear_sticky_session fs channel session in
      (r.0 + length (sticky_in r.1 channel) ≡ length (sticky_in fs channel))
      × All (λ e. text_eq e.1 (normalize_session_default session) ≡ false) (sticky_in r.1 channel)
unfolding clear_sticky_session
clear_sticky_session_counts fs channel session =
    cleared_in (normalize_session_default session) fs channel (get channel fs.channels) refl
