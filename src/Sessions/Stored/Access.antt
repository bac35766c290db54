-- ===== src/Sessions/Stored/Access.antt =====
-- How a write to one session is seen through the lookups.
use pycodebridge.Base.{◌&&◌, ◌≡◌, refl, inl, inr, Option, none, some, if◌then◌else◌, Bool-cases}
use pycodebridge.Base.Text.{Text, text_eq, text_eq→eq, text_eq_refl}
use pycodebridge.Base.Dict.{get, get-put, get-empty}
use pycodebridge.Routing.Names.{find_session, session_in, channel_or_new}
use pycodebridge.Sessions.State.{SessionState, ChannelState, FileState}
use pycodebridge.Sessions.Stored.{put_session}

session_in-new :
    (session : Text) (ch : Option ChannelState)
    → get session (channel_or_new ch).sessions ≡ session_in session ch
session_in-new session none = get-empty session
session_in-new session (some ch) = refl

pub find-put_session :
    (channel session channel' session' : Text) (sess : SessionState) (fs : FileState)
    → find_session (put_session channel session sess fs) channel' session' ≡ (
        if text_eq channel channel' && text_eq session session'
        then some sess
        else find_session fs channel' session')
unfolding find_session put_session
find-put_session channel session channel' session' sess fs =
    elim (Bool-cases (text_eq channel channel')) [
      | inl t ↦ rw (get-put, t, get-put, session_in-new, text_eq→eq channel channel' t) refl
      | inr t ↦ rw (get-put, t) refl
    ]

pub find-put_session_self :
    (channel session : Text) (sess : SessionState) (fs : FileState)
    → find_session (put_session channel session sess fs) channel session ≡ some sess
find-put_session_self channel session sess fs =
    rw (find-put_session, text_eq_refl, text_eq_refl) refl
