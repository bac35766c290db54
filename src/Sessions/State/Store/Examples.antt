-- ===== src/Sessions/State/Store/Examples.antt =====
-- A store at work: an update, a load that the cache answers, and a write by another process.
use pycodebridge.Base.{ℕ, ◌≡◌, arith, Option, none, some, List, [], ◌∷◌, map}
use pycodebridge.Base.Integers.{ℤ}
use pycodebridge.Base.Text.{Text}
use pycodebridge.Base.Json.{Json}
use pycodebridge.Sessions.State.{FileState}
use pycodebridge.Sessions.State.Json.RoundTrip.{IsStored}
use pycodebridge.Sessions.State.Store.{Stamp, new_store, empty_file}
use pycodebridge.Sessions.State.Store.Refines.{
  Op, loads, updates, replaced, removed, replay, run, AreValid, run_refines,
}

abbrev same : Text → Text
same s = s

abbrev no_text : Json → Text
no_text v = []

abbrev no_int : Text → Option ℤ
no_int t = none

-- A mutator that unbinds every user.
abbrev unbind : FileState → FileState
unbind fs = record fs { dm_bindings = [] }

unbind-IsStored :
    (fs : FileState) → IsStored same no_text no_int fs → IsStored same no_text no_int (unbind fs)
unbind-IsStored fs v = record {
  channels = v.channels;
  channel_ids = v.channel_ids;
  bindings = tt;
  users = tt;
  global = v.global;
  scopes = v.scopes;
  scope_ids = v.scope_ids;
}

empty-IsStored : IsStored same no_text no_int empty_file
empty-IsStored = record {
  channels = tt;
  channel_ids = tt;
  bindings = tt;
  users = tt;
  global = record { values = tt; keys = tt };
  scopes = tt;
  scope_ids = tt;
}

abbrev at : ℕ → Stamp
at n = record { mtime_ns = n; size = 100 }

abbrev ops : List Op
ops =
    loads
    ∷ updates unbind (at 3)
    ∷ loads
    ∷ replaced empty_file (at 5)
    ∷ loads
    ∷ removed
    ∷ loads
    ∷ []

ops_valid : AreValid same no_text no_int 0 ops
ops_valid = (omega arith, unbind-IsStored, (omega arith, empty-IsStored, tt))

run_refines_example : run same no_text no_int ops new_store none ≡ map some (replay ops empty_file)
run_refines_example = run_refines same no_text no_int ops ops_valid
