-- ===== src/Commands/Parse.antt =====
-- codebridge/commands/parse.py: the tails of commands.
pub mod Tails
pub mod Examples
use pycodebridge.Base.{
  ℕ, leb, ltb, ◌==◌, Bool, true, false, List, [], ◌∷◌, Option, none, some, any, drop, length,
  if◌then◌else◌,
}
use pycodebridge.Base.Integers.{ℤ, pos, negsuc}
use pycodebridge.Base.Text.{Text, str, text_eq, is_empty, strip, split, starts_with}

session_prompt : Text → List Text → Text × Text
session_prompt rest [] = ([], [])
session_prompt rest (field ∷ []) = ([], field)
session_prompt rest (session ∷ field ∷ fields) = (session, strip (drop (length session) rest))

unfoldable pub parse_session_and_prompt : Text → Text × Text
unfolding session_prompt
parse_session_and_prompt rest =
    let rest' = strip rest in
    if is_empty rest' then ([], []) else session_prompt rest' (split rest')

abbrev valid_choices : List Text
valid_choices =
    str "resume"
    ∷ str "replace"
    ∷ str "continue"
    ∷ str "cont"
    ∷ str "new"
    ∷ str "start"
    ∷ str "compact"
    ∷ str "summary"
    ∷ []

-- `lower` is `str.lower`.
abbrev choice : (Text → Text) → List Text → Text × Text
choice lower [] = ([], [])
choice lower (part ∷ []) = (part, [])
choice lower (part ∷ second ∷ parts) =
    if any (text_eq (lower second)) valid_choices then (second, part) else (part, [])

unfoldable pub parse_choose : (Text → Text) → Text → Text × Text
parse_choose lower rest = choice lower (split rest)

abbrev or_zero : Option ℤ → ℤ
or_zero none = pos 0
or_zero (some n) = n

-- The bounds on a log count.
abbrev pub bounded : Option ℤ → ℕ
bounded none = 5
bounded (some (negsuc n)) = 5
bounded (some (pos n)) = if n == 0 then 5 else if ltb 50 n then 50 else n

-- `int(text)`, with the case that it raises.
module _ (int_of : Text → Option ℤ) where
  abbrev limit_of : List Text → ℤ
  limit_of [] = pos 0
  limit_of (part ∷ parts) = or_zero (int_of part)

  abbrev session_limit : Text → List Text → Option ℤ → Text × ℤ
  session_limit session parts (some n) = ([], n)
  session_limit session parts none = (session, limit_of parts)

  abbrev session_or_limit : List Text → Text × ℤ
  session_or_limit [] = ([], pos 0)
  session_or_limit (part ∷ parts) = session_limit part parts (int_of part)

  unfoldable pub parse_session_or_limit : Text → Text × ℤ
  parse_session_or_limit rest =
      let rest' = strip rest in
      if is_empty rest' then ([], pos 0) else session_or_limit (split rest')

  abbrev first_int : List Text → Option ℤ
  first_int [] = none
  first_int (arg ∷ args) = int_of arg

  unfoldable pub parse_log_count : List Text → ℕ
  parse_log_count args = bounded (first_int args)

abbrev session_id : List Text → Text × Text
session_id [] = ([], [])
session_id (part ∷ []) = ([], part)
session_id (session ∷ id ∷ parts) = (session, id)

unfoldable pub parse_session_and_id : Text → Text × Text
parse_session_and_id rest =
    if is_empty (strip rest) then ([], []) else session_id (split (strip rest))

unfoldable pub parse_session_quit_alias : List Text → Text
parse_session_quit_alias [] = []
parse_session_quit_alias (field ∷ []) = []
parse_session_quit_alias (session ∷ field ∷ fields) =
    if text_eq field (str "/quit") then session else []

abbrev slash_prompt : Text → List Text → Text × Text
slash_prompt raw [] = ([], [])
slash_prompt raw (field ∷ []) = ([], [])
slash_prompt raw (session ∷ field ∷ fields) =
    if starts_with (str "/") field then (session, strip (drop (length session) raw)) else ([], [])

unfoldable pub parse_session_slash_prompt : Text → Text × Text
parse_session_slash_prompt cmdline =
    let raw = strip cmdline in
    if is_empty raw
    then ([], [])
    else if starts_with (str "/") raw
    then (str "default", raw)
    else slash_prompt raw (split raw)
