-- ===== src/Commands/Parse/Examples.antt =====
-- The parsers of command tails at work.
use pycodebridge.Base.{◌≡◌, ◌++◌, Option, some}
use pycodebridge.Base.Integers.{ℤ, pos}
use pycodebridge.Base.Text.{Text, str}
use pycodebridge.Base.Text.Words.{dense}
use pycodebridge.Commands.Parse.{parse_session_and_prompt}
use pycodebridge.Commands.Parse.Tails.{parse_session_and_prompt_keeps}

parse_session_and_prompt_keeps_example :
    dense (parse_session_and_prompt (str " work  fix it ")).0
      ++ dense (parse_session_and_prompt (str " work  fix it ")).1
    ≡ dense (str " work  fix it ")
parse_session_and_prompt_keeps_example = parse_session_and_prompt_keeps (str " work  fix it ")

abbrev seventy : Text → Option ℤ
seventy s = some (pos 70)
