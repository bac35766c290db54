-- ===== src/Dispatch/Parser.antt =====
-- codebridge/dispatch/parser.py: the agents that a message mentions.
pub mod Valid
pub mod Examples
use pycodebridge.Base.{
  ℕ, zero, suc, leb, ltb, ◌==◌, Bool, true, false, not, ◌&&◌, ◌||◌, List, [], ◌∷◌, ◌++◌, Option,
  none, some, any, map, length, drop, if◌then◌else◌,
}
use pycodebridge.Base.Text.{Text, str, text_eq, is_empty, is_space, is_name_char, lower_char, strip}

pub record DispatchSpec : Type 0 where
  pub agents : List Text
  pub prompt : Text
  pub is_orchestrated : Bool
  pub is_fanout : Bool
  pub raw : Text

-- A message in pieces: characters, and the matches of `_MENTION_RE`.
pub data Piece : Type 0 where
  plain : ℕ → Piece
  mention : Text → Piece

pub is_known : Text → Bool
is_known agent = any (text_eq agent) (str "codex" ∷ str "claude" ∷ str "gemini" ∷ [])

-- `str.lower` on ASCII letters
abbrev pub lower : Text → Text
lower word = map lower_char word

is_letter : ℕ → Bool
is_letter c = (leb b'A' c && leb c b'Z') || (leb b'a' c && leb c b'z')

letters : Text → Text
letters [] = []
letters (c ∷ s) = let rest = letters s in if is_letter c then c ∷ rest else []

-- `_MENTION_RE.findall`
abbrev pub mentions : List Piece → List Text
mentions [] = []
mentions (plain c ∷ pieces) = mentions pieces
mentions (mention word ∷ pieces) = word ∷ mentions pieces

-- `_MENTION_RE.sub`
abbrev without_known : List Piece → Text
without_known [] = []
without_known (plain c ∷ pieces) = c ∷ without_known pieces
without_known (mention word ∷ pieces) =
    let rest = without_known pieces in if is_known (lower word) then rest else b'@' ∷ word ++ rest

-- `_WHITESPACE_RE.sub(" ", text)`, and whether the character before was a space
abbrev collapse : Bool → Text → Text
collapse in_space [] = []
collapse in_space (c ∷ s) =
    let rest = collapse (is_space c) s in
    if not (is_space c) then c ∷ rest else if in_space then rest else b' ' ∷ rest

-- The loop over the tokens; `seen` has the agents.
unfoldable pub collect_agents : List Text → List Text → List Text
collect_agents [] agents = agents
collect_agents (token ∷ tokens) agents =
    let agent = lower token in
    let added =
      (if is_known agent && not (any (text_eq agent) agents)
        then agents ++ agent ∷ []
        else agents) in
    collect_agents tokens added

-- `is_word` is `\w`.
module _ (is_word : ℕ → Bool) where
  -- `\b(?![A-Za-z0-9._-])` behind a letter
  ends_word : Text → Bool
  ends_word [] = true
  ends_word (c ∷ s) = not (is_name_char c || is_word c)

  -- `@([A-Za-z]+)\b(?![A-Za-z0-9._-])`: only all the letters can match, since within them is no `\b`.
  pub match_at : ℕ → Text → Option Text
  match_at c s =
      let word = letters s in
      if c == b'@' && not (is_empty word) && ends_word (drop (length word) s)
      then some word
      else none

  -- The pieces, with the characters still to skip of a match, and whether a match may begin here.
  unfoldable pub scan : ℕ → Bool → Text → List Piece
  scan skipped free [] = []
  scan (suc skipped) free (c ∷ s) = scan skipped (not (is_name_char c)) s
  scan zero free (c ∷ s) = elim (if free then match_at c s else none) [
    | none ↦ plain c ∷ scan 0 (not (is_name_char c)) s
    | some word ↦ mention word ∷ scan (length word) (not (is_name_char c)) s
  ]

  pub strip_known_mentions : Text → Text
  strip_known_mentions text = strip (collapse false (without_known (scan 0 true text)))

  abbrev pub spec_of : Text → List Text → Option DispatchSpec
  spec_of raw [] = none
  spec_of raw (a ∷ agents) = some (record {
    agents = a ∷ agents;
    prompt = strip_known_mentions raw;
    is_orchestrated =
        any (λ x. text_eq x (str "claude")) (a ∷ agents) && ltb 1 (length (a ∷ agents));
    is_fanout = ltb 1 (length (a ∷ agents));
    raw = raw;
  })

  unfoldable pub parse_dispatch : Text → Option DispatchSpec
  parse_dispatch message = spec_of message (collect_agents (mentions (scan 0 true message)) [])
