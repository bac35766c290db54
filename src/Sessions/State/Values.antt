-- ===== src/Sessions/State/Values.antt =====
-- The values of a state file: codebridge/sessions/state.py and `parse_bool` of
-- codebridge/util/coerce.py. `none` is what the source does not read.
use pycodebridge.Base.{
  leb, zero, suc, Bool, true, false, ◌&&◌, List, [], ◌∷◌, Option, none, some, any, if◌then◌else◌,
}
use pycodebridge.Base.Integers.{ℤ, pos}
use pycodebridge.Base.Options.{◌>>=◌}
use pycodebridge.Base.Text.{Text, str, text_eq, is_empty, strip}
use pycodebridge.Base.Dict.{Dict, put}
use pycodebridge.Base.Json.{Json, bool, num, text, obj, entries, truthy}
use pycodebridge.Routing.Repos.{repo_key}
use pycodebridge.Sessions.State.{OptionValue, number, flag}

-- `for k, v in items: …; out[k] = …`, where an item may be skipped.
unfoldable pub collect {ℓ κ} :
    {A : Type ℓ} {B : Type κ} → (Text → A → Option B) → List (Text × A) → Dict B → Dict B
collect f [] out = out
collect f ((k, v) ∷ rest) out = elim (f k v) [
  | none ↦ collect f rest out
  | some b ↦ collect f rest (put k b out)
]

-- The same, where an item may raise.
unfoldable pub collect_all {ℓ κ} :
    {A : Type ℓ} {B : Type κ} → (A → Option B) → List (Text × A) → Dict B → Option (Dict B)
collect_all f [] out = some out
collect_all f ((k, v) ∷ rest) out = do b ← f v; collect_all f rest (put k b out)

-- What the source calls dict or takes as an empty one: `v or {}`.
unfoldable pub dict_or_empty : Json → Option (Dict Json)
dict_or_empty (obj fs) = some (entries fs)
dict_or_empty v = if truthy v then none else some []

unfoldable pub dict_of : Json → Option (Dict Json)
dict_of (obj fs) = some (entries fs)
dict_of v = none

-- `d.get(key, {}) or {}`
abbrev pub dict_at : Option Json → Option (Dict Json)
dict_at none = some []
dict_at (some v) = dict_or_empty v

unfoldable pub text_of : Json → Option Text
text_of (text t) = some t
text_of v = none

-- `s.get(key, "")`
abbrev pub text_at : Option Json → Option Text
text_at none = some []
text_at (some v) = text_of v

abbrev pub is_truthy : Option Json → Bool
is_truthy none = false
is_truthy (some v) = truthy v

-- `values if isinstance(values, dict) else {}`
unfoldable pub dict_or_none : Json → Dict Json
dict_or_none (obj fs) = entries fs
dict_or_none v = []

-- The bounds on a number of seconds.
abbrev pub in_range : Option ℤ → Option OptionValue
in_range (some (pos n)) = if leb 1 n && leb n 86400 then some (number n) else none
in_range _ = none

abbrev pub flag_of : Option Bool → Option OptionValue
flag_of none = none
flag_of (some b) = some (flag b)

-- `str.lower`, `str(v)` for a value that is no text, and `int(t)` on a text, which may raise.
module _ (lower : Text → Text) (str_of : Json → Text) (int_of_text : Text → Option ℤ) where
  -- `parse_bool` of codebridge/util/coerce.py; `none`: it raises.
  unfoldable pub parse_bool : Json → Option Bool
  parse_bool (bool b) = some b
  parse_bool (num (pos zero)) = some false
  parse_bool (num (pos (suc zero))) = some true
  parse_bool (text t) =
      let token = lower (strip t) in
      if any (text_eq token) (str "1" ∷ str "true" ∷ str "yes" ∷ str "on" ∷ [])
      then some true
      else if any (text_eq token) (str "0" ∷ str "false" ∷ str "no" ∷ str "off" ∷ [])
      then some false
      else none
  parse_bool v = none

  -- int(v)
  unfoldable pub int_of : Json → Option ℤ
  int_of (num z) = some z
  int_of (bool b) = some (pos (if b then 1 else 0))
  int_of (text t) = int_of_text t
  int_of v = none

  -- `_normalize_runtime_option_value`
  unfoldable pub normalize_option : Text → Json → Option OptionValue
  normalize_option key v =
      let token = strip key in
      if any (text_eq token) (str "run_heartbeat_seconds" ∷ str "run_completion_min_seconds" ∷ [])
      then in_range (int_of v)
      else if text_eq token (str "show_reasoning_details")
      then flag_of (parse_bool v)
      else none

  -- `_normalize_repo_name`: `str(value or "")` first.
  unfoldable pub normalize_value : Json → Text
  normalize_value (text t) = repo_key lower t
  normalize_value v = if truthy v then repo_key lower (str_of v) else []

  abbrev pub value_at : Option Json → Text
  value_at none = []
  value_at (some v) = normalize_value v

  abbrev pub some_name : Text → Option Text
  some_name name = if is_empty name then none else some name

  -- The options of one scope, normalised.
  unfoldable pub normalize_options : Dict Json → Dict OptionValue
  normalize_options d = collect normalize_option d []
