-- ===== src/Commands/Shortcuts.antt =====
-- codebridge/commands/shortcuts.py: the short forms of commands that begin with `!`.
use pycodebridge.Base.{
  Bool, false, not, ◌&&◌, ◌||◌, List, [], ◌∷◌, ◌++◌, Option, none, some, any, map, drop, length,
  if◌then◌else◌,
}
use pycodebridge.Base.Text.{Text, str, text_eq, is_empty, is_space, strip, split, starts_with}
use pycodebridge.Base.Text.Words.{head_of}

abbrev space : Text
space = str " "

-- `s.split(maxsplit=1)` on a stripped text: its first word, and what follows it.
abbrev first_word : Text → Text
first_word s = head_of (split s)

abbrev tail_of : Text → Text
tail_of s = strip (drop (length (first_word s)) s)

-- `!s:<session> <text>` and `!a:<session> <text>` behind the colon
abbrev targeted : Text → Text → Text
targeted cmd after =
    if is_empty after || is_empty (tail_of after)
    then cmd
    else cmd ++ space ++ strip (first_word after) ++ str " -- " ++ tail_of after

-- Is the third character a space?
abbrev third_is_space : Text → Bool
third_is_space (a ∷ b ∷ c ∷ s) = is_space c
third_is_space _ = false

-- The aliases in their order.
alias_of : Text → Text → List (Text × Text) → Option Text
alias_of raw lower [] = none
alias_of raw lower ((bang, cmd) ∷ aliases) =
    let rest = alias_of raw lower aliases in
    if text_eq lower bang || starts_with (bang ++ space) lower
    then some (strip (cmd ++ space ++ strip (drop (length bang) raw)))
    else rest

-- The known commands; `to_lower` is `str.lower`.
abbrev known_command : (Text → Text) → List Text → Text → Text
known_command to_lower known after_bang =
    let token = to_lower (strip (first_word after_bang)) in
    let tail = tail_of after_bang in
    if is_empty after_bang || not (any (text_eq token) (map to_lower known))
    then []
    else if is_empty tail
    then token
    else token ++ space ++ tail

abbrev or_known : Option Text → Text → Text
or_known none known = known
or_known (some text) known = text

-- A text that begins with `!`, and its lower case.
abbrev expand : (Text → Text) → List Text → List (Text × Text) → Text → Text → Text
expand to_lower known aliases raw lower =
    if starts_with (str "!s:") lower
    then targeted (str "steer") (strip (drop 3 raw))
    else if starts_with (str "!a:") lower
    then targeted (str "answer") (strip (drop 3 raw))
    else if text_eq lower (str "!s")
    then str "steer"
    else if starts_with (str "!s") lower && third_is_space raw
    then strip (str "steer " ++ strip (drop 2 raw))
    else if text_eq lower (str "!a")
    then str "answer"
    else if starts_with (str "!a") lower && third_is_space raw
    then strip (str "answer " ++ strip (drop 2 raw))
    else if text_eq lower (str "!cont") || text_eq lower (str "!continue")
    then str "choose continue"
    else if text_eq lower (str "!new")
    then str "choose new"
    else if text_eq lower (str "!compact") || text_eq lower (str "!cpt")
    then str "choose compact"
    else or_known (alias_of raw lower aliases) (known_command to_lower known (strip (drop 1 raw)))

unfoldable pub normalize_bang_shortcut :
    (Text → Text) → Text → List Text → List (Text × Text) → Text
unfolding alias_of
normalize_bang_shortcut to_lower content known aliases =
    let raw = strip content in
    if starts_with (str "!") raw then expand to_lower known aliases raw (to_lower raw) else []
