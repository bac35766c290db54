-- ===== src/Dispatch/Parser/Examples.antt =====
-- A message for two agents.
use pycodebridge.Base.{ℕ, ◌≡◌, refl, Bool, true, false, [], ◌∷◌, some}
use pycodebridge.Base.Text.{
  str, text_eq, is_space, is_name_char, lower_char, strip, strip_by, lstrip, rstrip,
}
use pycodebridge.Dispatch.Parser.{
  DispatchSpec, is_known, is_letter, letters, ends_word, match_at, scan, strip_known_mentions,
  collect_agents, parse_dispatch,
}
use pycodebridge.Dispatch.Parser.Valid.{IsDispatch, parse_dispatch-IsDispatch}

abbrev ascii_only : ℕ → Bool
ascii_only c = false

abbrev spec : DispatchSpec
spec = record {
  agents = str "claude" ∷ str "codex" ∷ [];
  prompt = str "fix the tests, !";
  is_orchestrated = true;
  is_fanout = true;
  raw = str "@Claude @codex fix the tests, @codex!";
}

parsed : parse_dispatch ascii_only (str "@Claude @codex fix the tests, @codex!") ≡ some spec
unfolding parse_dispatch scan collect_agents strip_known_mentions is_known is_letter letters
    ends_word match_at text_eq is_space is_name_char lower_char strip strip_by lstrip rstrip
parsed = refl

parse_dispatch-IsDispatch_example : IsDispatch spec
parse_dispatch-IsDispatch_example =
    parse_dispatch-IsDispatch ascii_only (str "@Claude @codex fix the tests, @codex!") spec parsed
