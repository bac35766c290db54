-- ===== src/Sessions/Stored/Settings.antt =====
-- What the settings of a session are after the calls that change them.
use pycodebridge.Base.{true, false, ◌≡◌, refl, arith, [], ◌∷◌, some}
use pycodebridge.Base.Text.{Text, text_eq→eq, is_empty}
use pycodebridge.Routing.Names.{
  find_session, normalize_session_default, existing_thread, session_requires_fresh_start,
  or_default_session,
}
use pycodebridge.Routing.Names.Valid.{normalize_session_default-IsSessionName}
use pycodebridge.Sessions.State.{SessionState, FileState, new_session}
use pycodebridge.Sessions.Stored.{
  Config, updated, update_state, override, or_text, session_or, repo_or_lower, clear_session_thread,
  clear_found, session_model, session_reasoning_effort, session_backend, is_dm, set_session_backend,
}
use pycodebridge.Sessions.Stored.Access.{find-put_session_self}

override_falls_back :
    (s given configured : Text)
    → is_empty given ≡ false
    → or_text (override s given configured) configured ≡ given
override_falls_back [] given configured e = ground (arith, e, text_eq→eq given configured)
override_falls_back (c ∷ s) given configured e = ground (arith, e)

module _ (cfg : Config) (fs : FileState) (channel session : Text) where
  abbrev name : Text
  name = normalize_session_default session

  -- Outside the assistant's session, the model that `update_state` was told is the one that the
  -- session has then, whether it was stored or is the configured one.
  pub session_model-update_state :
      (lower : Text → Text) (now repo_name repo_path thread_id model effort : Text)
      → is_empty model ≡ false
      → is_dm cfg name ≡ false
      → session_model cfg
          (update_state lower cfg now fs channel session repo_name repo_path thread_id model effort)
          channel
          session
        ≡ model
  unfolding session_model update_state updated
  session_model-update_state lower now repo_name repo_path thread_id model effort e dm =
      rw (find-put_session_self, dm)
        (override_falls_back
          (session_or (new_session (repo_or_lower lower repo_name) repo_path thread_id)
            (find_session fs channel name)).model
          model cfg.codex_model e)

  or_default_name : or_default_session name ≡ name
  or_default_name = rw ((normalize_session_default-IsSessionName session).some_chars) refl

  -- Outside the assistant's session, the switch of a backend leaves the session with that backend,
  -- without a thread, and with the configured model and reasoning effort.
  pub set_session_backend_resets :
      (backend : Text)
      → is_empty backend ≡ false
      → is_dm cfg name ≡ false
      → let fs' = (set_session_backend fs channel session backend).1 in
        (session_backend cfg fs' channel session ≡ backend)
        × (existing_thread fs' channel name ≡ [])
        × (session_model cfg fs' channel session ≡ cfg.codex_model)
        × (session_reasoning_effort cfg fs' channel session ≡ cfg.codex_effort)
  unfolding set_session_backend session_backend session_model session_reasoning_effort
      existing_thread
  set_session_backend_resets backend e dm =
      rw (or_default_name, find-put_session_self, dm, e) (refl, refl, refl, refl)

  -- A session whose thread was cleared with `fresh_start_required` has no thread to resume and must
  -- start anew; once `update_state` stored a thread for it, it has that thread and need not.
  pub fresh_start_until_thread :
      (lower : Text → Text) (now repo_name repo_path thread_id model effort : Text)
      → (sess : SessionState) → find_session fs channel name ≡ some sess
      → is_empty thread_id ≡ false
      → let fs' = (clear_session_thread fs channel session true).1 in
        let fs'' =
          update_state lower cfg now fs' channel session repo_name repo_path thread_id model
            effort in
        (existing_thread fs' channel name ≡ [])
        × (session_requires_fresh_start fs' channel name ≡ true)
        × (existing_thread fs'' channel name ≡ thread_id)
        × (session_requires_fresh_start fs'' channel name ≡ false)
  unfolding clear_session_thread clear_found update_state updated existing_thread
      session_requires_fresh_start
  fresh_start_until_thread lower now repo_name repo_path thread_id model effort sess at e =
      rw (or_default_name, at, find-put_session_self, find-put_session_self, e)
        (refl, refl, refl, refl)
