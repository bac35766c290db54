-- ===== src/Handlers/Core/Resume.antt =====
-- Resuming a session that is not there.
use pycodebridge.Base.{
  ℕ, ◌+◌, ◌≡◌, refl, ◌∙◌, Bool, true, false, Option, none, some, Option-cases, inl, inr, is_some,
}
use pycodebridge.Base.Text.{Text, text_eq_refl}
use pycodebridge.Routing.Names.{
  normalize_session, normalize_session_default, find_session, count_active_sessions, session_exists,
  existing_thread,
}
use pycodebridge.Sessions.State.{FileState}
use pycodebridge.Sessions.Stored.Counts.{count-put_session}
use pycodebridge.Sessions.Queue.Manager
use pycodebridge.Handlers.Session.{Settings, Event, Reply, Bridge, Run, start_args, starting}
use pycodebridge.Handlers.Backends.{model_from_state, effort_from_state, has_backend}
use pycodebridge.Handlers.Core.{launch, resume_plan, resume_checked, handle_resume}
use pycodebridge.Handlers.Core.Outcomes.{bound}
use pycodebridge.Handlers.Core.Limits.{launched-eq, found_thread}

missing :
    (fs : FileState) (channel session : Text)
    → session_exists fs channel session ≡ false
    → find_session fs channel session ≡ none
unfolding session_exists
missing fs channel session e = elim (Option-cases (find_session fs channel session)) [
  | inl h ↦ h
  | inr (sess, h) ↦ let there : is_some (find_session fs channel session) ≡ true = (rw h refl) in cc
]

-- It is started, not resumed.
planned_start :
    (lower : Text → Text) (fs : FileState) (channel session p q model effort : Text)
    → normalize_session_default session ≡ session
    → session_exists fs channel session ≡ false
    → resume_plan fs channel session p (existing_thread fs channel session) q model effort
      ≡ (start_args p q model effort, starting)
planned_start lower fs channel session p q model effort stable new =
    rw (found_thread lower fs channel session stable, missing fs channel session new, new) refl

module _ {Proc : Type 0} (lower : Text → Text) (age : Text → Option ℕ) where
  -- A resumption of a session that is not there.
  resumed_new :
      (cfg : Settings) (event : Event) (c : Bridge Proc) (n p raw session q : Text) (skip : Bool)
      → normalize_session raw ≡ some session
      → cfg.session_isolation ≡ true
      → has_backend lower cfg.service c.sessions.file event.channel_id session ≡ true
      → session_exists c.sessions.file event.channel_id session ≡ false
      → handle_resume lower age cfg event c n p raw q skip
        ≡ resume_checked lower cfg event c n p session q none
  unfolding handle_resume
  resumed_new cfg event c n p raw session q skip name iso hb new =
      bound (normalize_session raw) _ session name
      ∙ (rw (iso, missing c.sessions.file event.channel_id session new) refl)

  -- Resuming a session that is not there is answered, however many sessions the channel has: one more
  -- is stored then, and a job is queued for it that starts the agent in the repository with the
  -- prompt. Sessions are isolated, so no other one makes the repository busy; the backend can be
  -- built, and the session's name is stored as it is.
  pub resume_adds_session :
      (cfg : Settings) (event : Event) (c : Bridge Proc)
      (repo_name repo_path raw session prompt : Text) (skip : Bool)
      → normalize_session raw ≡ some session
      → normalize_session_default session ≡ session
      → cfg.session_isolation ≡ true
      → has_backend lower cfg.service c.sessions.file event.channel_id session ≡ true
      → session_exists c.sessions.file event.channel_id session ≡ false
      → let model = model_from_state cfg.service c.sessions.file event.channel_id session in
        let effort = effort_from_state cfg.service c.sessions.file event.channel_id session in
        let run : Run = record {
          repo_name = repo_name;
          repo_path = repo_path;
          session = session;
          model = model;
          effort = effort;
          args = start_args repo_path prompt model effort;
        } in
        (answer : Reply × Bridge Proc) × ((handle_resume lower age cfg event c repo_name repo_path
              raw prompt skip
            ≡ some answer)
          × (count_active_sessions answer.1.sessions.file event.channel_id
              ≡ 1 + count_active_sessions c.sessions.file event.channel_id)
          × (answer.1.queue
              ≡ (Manager.enqueue c.queue event.channel_id session run event.loop_now).1))
  resume_adds_session cfg event c n p raw session q skip name stable iso hb new =
      let fs = c.sessions.file in
      let thread = existing_thread fs event.channel_id session in
      let model = model_from_state cfg.service fs event.channel_id session in
      let effort = effort_from_state cfg.service fs event.channel_id session in
      let plan = resume_plan fs event.channel_id session p thread q model effort in
      (
        launch lower cfg event c n p session thread model effort plan.0 plan.1,
        (
          resumed_new cfg event c n p raw session q skip name iso hb new ∙ (rw hb refl),
          rw (launched-eq lower cfg event n p session thread fs stable)
              (rw (count-put_session, text_eq_refl, new) refl),
          rw (planned_start lower fs event.channel_id session p q model effort stable new) refl,
        ),
      )
