-- ===== src/Sessions/State/Json/Examples.antt =====
-- A state that is written and read.
use pycodebridge.Base.{◌≡◌, refl, false, Option, none, some, [], ◌∷◌}
use pycodebridge.Base.Integers.{ℤ, pos}
use pycodebridge.Base.Text.{Text, str, text_eq, strip, is_name_char, lower_char}
use pycodebridge.Base.Json.{Json}
use pycodebridge.Util.Path.{normalize_repo_name, is_name, chomp}
use pycodebridge.Routing.Repos.{repo_key}
use pycodebridge.Sessions.State.{FileState, new_session, number, flag}
use pycodebridge.Sessions.State.Values.{normalize_option, int_of, parse_bool}
use pycodebridge.Sessions.State.Json.{read_state, to_dict}
use pycodebridge.Sessions.State.Json.RoundTrip.{IsStored, read-to_dict}

abbrev same : Text → Text
same s = s

abbrev no_text : Json → Text
no_text v = []

abbrev no_int : Text → Option ℤ
no_int t = none

abbrev file : FileState
file = record {
  version = pos 1;
  channels =
      (
        str "c",
        record {
          sessions = (str "work", new_session (str "repo") (str "/code/repo") (str "t1")) ∷ [];
          sticky = (str "u", str "work") ∷ [];
        },
      )
      ∷ (str "d", record { sessions = []; sticky = [] })
      ∷ [];
  dm_bindings = (str "u", str "repo") ∷ [];
  runtime_options_global = (str "run_heartbeat_seconds", number 60) ∷ [];
  runtime_options_channels = (str "c", (str "show_reasoning_details", flag false) ∷ []) ∷ [];
}

pub file-IsStored : IsStored same no_text no_int file
unfolding repo_key normalize_repo_name is_name chomp is_name_char lower_char strip text_eq
    normalize_option int_of parse_bool
file-IsStored = record {
  channels = (
    record { names = (refl, tt); sessions = (tt, tt); sticky = (tt, tt) },
    (record { names = tt; sessions = tt; sticky = tt }, tt),
  );
  channel_ids = ((refl, tt), (tt, tt));
  bindings = ((refl, refl), tt);
  users = (tt, tt);
  global = record { values = (refl, tt); keys = (tt, tt) };
  scopes = ((record { values = (refl, tt); keys = (tt, tt) }, refl), tt);
  scope_ids = (tt, tt);
}

read-to_dict_example : read_state same no_text no_int (to_dict same no_text no_int file) ≡ some file
read-to_dict_example = read-to_dict same no_text no_int file file-IsStored
