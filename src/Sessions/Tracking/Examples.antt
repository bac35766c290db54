-- ===== src/Sessions/Tracking/Examples.antt =====
-- The tracking of processes and conflicts at work; a process is a number.
use pycodebridge.Base.{ℕ, ltb, ◌≡◌, refl, [], ◌∷◌, none, some, if◌then◌else◌}
use pycodebridge.Base.Text.{str}
use pycodebridge.Routing.Names.{PendingConflict}
use pycodebridge.Sessions.Tracking.{Tracking, set_pending_conflict, consume_pending}
use pycodebridge.Sessions.Tracking.Reads.{consume_pending_once}

abbrev tracked : Tracking ℕ
tracked = record {
  active = (str "c", (str "work", some 7) ∷ (str "done", none) ∷ []) ∷ [];
  pending = [];
  activity = (str "c", (str "work", 100) ∷ []) ∷ [];
}

abbrev conflict : PendingConflict
conflict = record {
  repo_name = str "repo";
  session = str "work";
  thread_id = str "t1";
  user_id = str "u";
  expires_at = 300;
  reason = str "start_conflict";
  prompt = [];
}

consume_pending_once_example :
    let r =
      consume_pending
        (set_pending_conflict tracked (str "c") (str "work") conflict)
        (str "c")
        (str "work")
        200 in
    (r.0 ≡ (if ltb 300 200 then none else some conflict))
    × ((consume_pending r.1 (str "c") (str "work") 201).0 ≡ none)
consume_pending_once_example =
    consume_pending_once tracked (str "c") (str "work") conflict 200 201 refl
