-- ===== src/Sessions/Service/Examples.antt =====
-- The session service at work; a process is a number.
use pycodebridge.Base.Integers.{pos}
use pycodebridge.Base.{ℕ, ◌&&◌, ◌≡◌, refl, [], ◌∷◌, none, some, if◌then◌else◌}
use pycodebridge.Base.Text.{str, text_eq}
use pycodebridge.Base.Dict.{get}
use pycodebridge.Routing.Names.{find_session, session_exists}
use pycodebridge.Sessions.State.{new_session}
use pycodebridge.Sessions.Tracking.{scope_key}
use pycodebridge.Sessions.Tracking.Lookup.{lookup, moved_at}
use pycodebridge.Sessions.Service.{Service, reset_session, migrate_channel_scope}
use pycodebridge.Sessions.Service.Moves.{
  reset_session_exact, migrate_channel_scope_moves, find_sticky,
}

-- Two channels that both have a session called work.
abbrev service : Service ℕ
service = record {
  file = record {
    version = pos 1;
    channels =
        (
          str "c",
          record {
            sessions =
                (str "work", new_session (str "repo") (str "/code/repo") (str "t1"))
                ∷ (str "new", new_session (str "repo") (str "/code/repo") (str "t2"))
                ∷ [];
            sticky = (str "u", str "work") ∷ [];
          },
        )
        ∷ (
          str "c1",
          record {
            sessions = (str "work", new_session (str "repo") (str "/code/repo") (str "t3")) ∷ [];
            sticky = [];
          },
        )
        ∷ [];
    dm_bindings = [];
    runtime_options_global = [];
    runtime_options_channels = [];
  };
  tracked = record {
    active = (str "c", (str "work", some 7) ∷ []) ∷ [];
    pending = [];
    activity = (str "c", (str "work", 100) ∷ []) ∷ [];
  };
}

reset_session_exact_example :
    let r = reset_session service (str "c") (str "work") in
    let hit = text_eq (str "c") (str "c") && text_eq (str "work") (str "new") in
    (r.0 ≡ session_exists service.file (str "c") (str "work"))
    × (find_session r.1.file (str "c") (str "new")
        ≡ (if hit then none else find_session service.file (str "c") (str "new")))
    × (lookup r.1.tracked.active (str "c") (str "new")
        ≡ (if hit then none else lookup service.tracked.active (str "c") (str "new")))
    × (lookup r.1.tracked.activity (str "c") (str "new")
        ≡ (if hit then none else lookup service.tracked.activity (str "c") (str "new")))
    × (get (str "c:new") r.1.tracked.pending ≡ (
        if text_eq (scope_key (str "c") (str "work")) (str "c:new")
        then none
        else get (str "c:new") service.tracked.pending))
reset_session_exact_example =
    reset_session_exact service (str "c") (str "work") (str "c") (str "new") (str "c:new")

migrate_channel_scope_moves_example :
    let s' = (migrate_channel_scope service (str "c") (str "c1")).1 in
    (find_session s'.file (str "c1") (str "new")
      ≡ moved_at (str "c") (str "c1") (find_session service.file) (str "c1") (str "new"))
    × (find_sticky s'.file (str "c1") (str "new")
        ≡ moved_at (str "c") (str "c1") (find_sticky service.file) (str "c1") (str "new"))
    × (lookup s'.tracked.active (str "c1") (str "new")
        ≡ moved_at (str "c") (str "c1") (lookup service.tracked.active) (str "c1") (str "new"))
    × (lookup s'.tracked.activity (str "c1") (str "new")
        ≡ moved_at (str "c") (str "c1") (lookup service.tracked.activity) (str "c1") (str "new"))
migrate_channel_scope_moves_example =
    migrate_channel_scope_moves service (str "c") (str "c1") (str "c1") (str "new") refl refl
      (λ e. cc)
