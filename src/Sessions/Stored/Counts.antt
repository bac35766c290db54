-- ===== src/Sessions/Stored/Counts.antt =====
-- How many sessions a channel has after a write to one.
use pycodebridge.Base.{
  ◌+◌, ◌≡◌, refl, arith, [], ◌∷◌, Option, none, some, length, if◌then◌else◌, Bool-cases, inl, inr,
  is_some,
}
use pycodebridge.Base.Text.{Text, text_eq}
use pycodebridge.Base.Dict.{Dict, get, put, has, get-put}
use pycodebridge.Routing.Names.{
  find_session, session_in, count_in, count_active_sessions, session_exists, channel_or_new,
}
use pycodebridge.Sessions.State.{SessionState, ChannelState, FileState}
use pycodebridge.Sessions.Stored.{put_session}

pub length-put {ℓ} :
    {V : Type ℓ} (k : Text) (v : V) (d : Dict V)
    → length (put k v d) ≡ (if has k d then length d else 1 + length d)
unfolding put get
length-put k v [] = omega arith
length-put k v ((j, w) ∷ d) = let rest = length-put k v d in ground arith

in_channel :
    (session : Text) (sess : SessionState) (ch : Option ChannelState)
    → length (put session sess (channel_or_new ch).sessions)
      ≡ (if is_some (session_in session ch) then count_in ch else 1 + count_in ch)
unfolding put
in_channel session sess none = omega arith
in_channel session sess (some ch) = length-put session sess ch.sessions

pub count-put_session :
    (channel session channel' : Text) (sess : SessionState) (fs : FileState)
    → count_active_sessions (put_session channel session sess fs) channel' ≡ (
        if text_eq channel channel'
        then (if session_exists fs channel session
            then count_active_sessions fs channel
            else 1 + count_active_sessions fs channel)
        else count_active_sessions fs channel')
unfolding count_active_sessions put_session session_exists find_session
count-put_session channel session channel' sess fs = elim (Bool-cases (text_eq channel channel')) [
  | inl t ↦ rw (get-put, t) (in_channel session sess (get channel fs.channels))
  | inr t ↦ rw (get-put, t) refl
]
