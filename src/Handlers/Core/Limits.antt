-- ===== src/Handlers/Core/Limits.antt =====
-- The number of sessions of a channel, and the threads of the sessions.
use pycodebridge.Base.{
  ℕ, leb, ◌+◌, ◌≤◌, ◌≡◌, refl, sym, ap, ◌∙◌, arith, Bool, true, false, not, ◌&&◌, [], ◌∷◌, Option,
  none, some, if◌then◌else◌, inl, inr, Bool-cases,
}
use pycodebridge.Base.Text.{Text, text_eq, text_eq→eq, strip, strip_by, lstrip, rstrip}
use pycodebridge.Routing.Names.{
  normalize_session, normalize_session_default, or_default_session, find_session, thread_of,
  count_active_sessions, session_exists, existing_thread,
}
use pycodebridge.Sessions.State.{SessionState, FileState, new_session}
use pycodebridge.Sessions.Stored.{
  put_session, session_or, repo_or_lower, updated, update_state, or_text,
}
use pycodebridge.Sessions.Stored.Access.{find-put_session}
use pycodebridge.Sessions.Stored.Counts.{count-put_session}
use pycodebridge.Handlers.Session.{Settings, Event, Reply, Bridge, max_sessions_per_channel}
use pycodebridge.Handlers.Backends.{model_from_state, effort_from_state}
use pycodebridge.Handlers.Core.{handle_start, handle_resume}
use pycodebridge.Handlers.Core.Outcomes.{
  launched, Started, stays, starts, handle_start-Started, handle_resume_file,
}

module _ (lower : Text → Text) where
  -- The session as it is stored then.
  abbrev pub launched_session :
      Settings → Event → FileState → (repo_name repo_path session thread_id : Text) → SessionState
  launched_session cfg event fs n p session thread =
      let repo = repo_or_lower lower n in
      updated cfg.service event.utc_now repo p thread
        (model_from_state cfg.service fs event.channel_id session)
        (effort_from_state cfg.service fs event.channel_id session)
        (session_or (new_session repo p thread) (find_session fs event.channel_id session))

  pub launched-eq :
      (cfg : Settings) (event : Event) (n p session thread : Text) (fs : FileState)
      → normalize_session_default session ≡ session
      → launched lower cfg event fs n p session thread
        ≡ put_session event.channel_id session (launched_session cfg event fs n p session thread) fs
  unfolding update_state
  launched-eq cfg event n p session thread fs stable = rw stable refl

  room_left :
      (have now : ℕ) (there here : Bool) (count : ℕ)
      → (leb max_sessions_per_channel have && not there) ≡ false
      → (here ≡ true → have ≡ now)
      → now ≤ max_sessions_per_channel
      → (if here then (if there then have else 1 + have) else now) ≤ max_sessions_per_channel
  room_left have now there true count room same few = let e = same refl in ground arith
  room_left have now there false count room same few = few

  -- A write where there is room keeps the limit.
  Started-limit :
      (cfg : Settings) (event : Event) (n p session : Text) (fs fs' : FileState)
      → normalize_session_default session ≡ session
      → Started lower cfg event n p session fs fs'
      → (channel : Text) → count_active_sessions fs channel ≤ max_sessions_per_channel
      → count_active_sessions fs' channel ≤ max_sessions_per_channel
  Started-limit cfg event n p session fs _ stable stays channel few = few
  Started-limit cfg event n p session fs _ stable (starts room empty) channel few =
      rw (launched-eq cfg event n p session (existing_thread fs event.channel_id session) fs stable)
        rw count-put_session
        (room_left (count_active_sessions fs event.channel_id) (count_active_sessions fs channel)
          (session_exists fs event.channel_id session) (text_eq event.channel_id channel) 0 room
          (λ t. ap (count_active_sessions fs) (text_eq→eq event.channel_id channel t)) few)

  -- Started sessions never exceed the limit: a channel with at most three has at most three after
  -- any start that is answered. The session's name is stored as it is.
  pub handle_start_limit :
      {Proc : Type 0} (cfg : Settings) (event : Event) (c c' : Bridge Proc)
      (repo_name repo_path raw session : Text) (reply : Reply)
      → normalize_session raw ≡ some session
      → normalize_session_default session ≡ session
      → handle_start lower cfg event c repo_name repo_path raw ≡ some (reply, c')
      → (channel : Text) → count_active_sessions c.sessions.file channel ≤ max_sessions_per_channel
      → count_active_sessions c'.sessions.file channel ≤ max_sessions_per_channel
  handle_start_limit cfg event c c' n p raw session reply name stable e =
      Started-limit cfg event n p session c.sessions.file c'.sessions.file stable
        (handle_start-Started lower cfg event c c' n p raw session reply name e)

  kept_thread : (thread stored : Text) → thread ≡ stored → or_text thread stored ≡ stored
  kept_thread [] stored e = refl
  kept_thread (c ∷ t) stored e = e

  named :
      (session : Text)
      → normalize_session_default session ≡ session
      → or_default_session session ≡ session
  unfolding normalize_session_default normalize_session strip strip_by lstrip rstrip
  named [] e = cc
  named (c ∷ s) e = refl

  same_place :
      (fs : FileState) (channel session channel' session' : Text)
      → (text_eq channel channel' && text_eq session (or_default_session session')) ≡ true
      → thread_of (find_session fs channel session) ≡ existing_thread fs channel' session'
  unfolding existing_thread
  same_place fs channel session channel' session' t =
      let there : text_eq channel channel' ≡ true = ground arith in
      let here : text_eq session (or_default_session session') ≡ true = ground arith in
      let ec = text_eq→eq channel channel' there in
      let es = text_eq→eq session (or_default_session session') here in cc

  put-thread :
      (fs : FileState) (channel session channel' session' : Text) (sess : SessionState)
      → sess.thread_id ≡ thread_of (find_session fs channel session)
      → existing_thread (put_session channel session sess fs) channel' session'
        ≡ existing_thread fs channel' session'
  unfolding existing_thread
  put-thread fs channel session channel' session' sess e =
      elim (Bool-cases
        (text_eq channel channel' && text_eq session (or_default_session session'))) [
          | inl t ↦ rw (find-put_session, t, e) (same_place fs channel session channel' session' t)
          | inr f ↦ rw (find-put_session, f) refl
        ]

  stored_thread :
      (found : Option SessionState) (repo path thread : Text)
      → thread ≡ thread_of found
      → (session_or (new_session repo path thread) found).thread_id ≡ thread
  stored_thread none repo path thread e = refl
  stored_thread (some sess) repo path thread e = sym e

  launched_session-thread :
      (cfg : Settings) (event : Event) (n p session thread : Text) (fs : FileState)
      → thread ≡ thread_of (find_session fs event.channel_id session)
      → (launched_session cfg event fs n p session thread).thread_id ≡ thread
  unfolding updated
  launched_session-thread cfg event n p session thread fs e =
      let same =
        stored_thread (find_session fs event.channel_id session) (repo_or_lower lower n) p thread
          e in
      kept_thread thread _ (sym same) ∙ same

  pub found_thread :
      (fs : FileState) (channel session : Text)
      → normalize_session_default session ≡ session
      → existing_thread fs channel session ≡ thread_of (find_session fs channel session)
  unfolding existing_thread
  found_thread fs channel session stable = rw (named session stable) refl

  pub launched-threads :
      (cfg : Settings) (event : Event) (n p session : Text) (fs : FileState)
      → normalize_session_default session ≡ session
      → (channel session' : Text)
      → existing_thread
          (launched lower cfg event fs n p session (existing_thread fs event.channel_id session))
          channel
          session'
        ≡ existing_thread fs channel session'
  launched-threads cfg event n p session fs stable channel session' =
      let thread = existing_thread fs event.channel_id session in
      let found = found_thread fs event.channel_id session stable in
      rw (launched-eq cfg event n p session thread fs stable) (
        put-thread fs event.channel_id session channel session'
          (launched_session cfg event fs n p session thread)
          (launched_session-thread cfg event n p session thread fs found ∙ found))

  Started-threads :
      (cfg : Settings) (event : Event) (n p session : Text) (fs fs' : FileState)
      → normalize_session_default session ≡ session
      → Started lower cfg event n p session fs fs'
      → (channel session' : Text)
      → existing_thread fs' channel session' ≡ existing_thread fs channel session'
  Started-threads cfg event n p session fs _ stable stays channel session' = refl
  Started-threads cfg event n p session fs _ stable (starts room empty) channel session' =
      launched-threads cfg event n p session fs stable channel session'

  -- Neither a start nor a resumption that is answered changes the thread of any session of any
  -- channel, whatever else it stores. The session's name is stored as it is.
  pub threads_kept :
      {Proc : Type 0} (age : Text → Option ℕ) (cfg : Settings) (event : Event)
      (c started resumed : Bridge Proc) (repo_name repo_path raw session prompt : Text)
      (skip : Bool) (reply reply' : Reply)
      → normalize_session raw ≡ some session
      → normalize_session_default session ≡ session
      → handle_start lower cfg event c repo_name repo_path raw ≡ some (reply, started)
      → handle_resume lower age cfg event c repo_name repo_path raw prompt skip
        ≡ some (reply', resumed)
      → (channel session' : Text)
      → (existing_thread started.sessions.file channel session'
          ≡ existing_thread c.sessions.file channel session')
        × (existing_thread resumed.sessions.file channel session'
            ≡ existing_thread c.sessions.file channel session')
  threads_kept age cfg event c started resumed n p raw session q skip r r' name stable e e' ch s = (
    Started-threads cfg event n p session c.sessions.file started.sessions.file stable
        (handle_start-Started lower cfg event c started n p raw session r name e) ch s,
    elim (handle_resume_file lower age cfg event c resumed n p raw session q skip r' name e') [
      | inl h ↦ rw h refl
      | inr h ↦ rw h (launched-threads cfg event n p session c.sessions.file stable ch s)
    ],
  )
