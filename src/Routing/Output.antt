-- ===== src/Routing/Output.antt =====
-- codebridge/routing/helpers.py: flags, clone URLs and trimmed output.
pub mod Bounds
pub mod Examples
use pycodebridge.Base.{
  ℕ, ◌-◌, ltb, leb, ◌==◌, Bool, true, false, not, ◌&&◌, ◌||◌, List, [], ◌∷◌, ◌++◌, Option, none,
  some, any, all, take, drop, length, if◌then◌else◌,
}
use pycodebridge.Base.Text.{
  Text, str, text_eq, is_empty, is_name_char, strip, strip_by, rstrip, split_on, join, starts_with,
}
use pycodebridge.Base.Text.Words.{head_of}

abbrev pub newline : ℕ
newline = b'\n'

abbrev pub truncated : Text
truncated = str "...(truncated)"

-- `"\n".join(lines)` behind the limit on lines.
abbrev pub limit_lines : ℕ → List Text → Text
limit_lines max_lines lines =
    join (newline ∷ [])
      (if ltb max_lines (length lines) then take max_lines lines ++ truncated ∷ [] else lines)

unfoldable pub trim_output : Text → ℕ → ℕ → Text
trim_output text max_lines max_bytes =
    let joined = limit_lines max_lines (split_on newline text) in
    if ltb max_bytes (length joined) then take max_bytes joined ++ newline ∷ truncated else joined

abbrev forbidden_flags : List Text
forbidden_flags =
    str "-f" ∷ str "--force" ∷ str "--force-with-lease" ∷ str "--rebase" ∷ str "--squash" ∷ []

pub has_forbidden_flags : List Text → Bool
has_forbidden_flags args = any (λ a. any (text_eq a) forbidden_flags) args

abbrev unsafe_flags : List Text
unsafe_flags =
    str "--git-dir"
    ∷ str "--work-tree"
    ∷ str "-c"
    ∷ str "--config-env"
    ∷ str "--exec-path"
    ∷ str "--upload-pack"
    ∷ str "--receive-pack"
    ∷ str "--upload-archive"
    ∷ str "--namespace"
    ∷ []

-- A long flag without what follows its first `=`.
abbrev bare_flag : Text → Text
bare_flag a =
    if starts_with (str "--") a && any (λ c. c == b'=') a then head_of (split_on b'=' a) else a

unfoldable pub find_unsafe_git_flag : List Text → Option Text
find_unsafe_git_flag [] = none
find_unsafe_git_flag (a ∷ args) =
    let rest = find_unsafe_git_flag args in
    let flag = bare_flag a in
    if starts_with (str "-C") flag
    then some (str "-C")
    else if any (text_eq flag) unsafe_flags
    then some flag
    else rest

-- The path without a `.git` at its end.
abbrev without_git : Text → Text
without_git path =
    let rest = length path - 4 in
    if leb 4 (length path) && text_eq (drop rest path) (str ".git") then take rest path else path

abbrev pub https_url : List Text → Option Text
https_url [] = none
https_url (owner ∷ []) = none
https_url (owner ∷ repo ∷ parts) =
    if is_empty owner || is_empty repo
    then none
    else some (str "https://github.com/" ++ owner ++ str "/" ++ repo ++ str ".git")

-- The case that it raises is `none`.
unfoldable pub normalize_github_path : Text → Option Text
normalize_github_path path =
    https_url (split_on b'/' (without_git (strip_by (λ c. c == b'/') (strip path))))

-- The part after a prefix that is there.
abbrev behind : Text → Text → Text
behind prefix s = drop (length prefix) s

abbrev pub from_https : Text → Option Text
from_https raw =
    if starts_with (str "https://github.com/") raw
    then normalize_github_path (behind (str "https://github.com/") raw)
    else if starts_with (str "https://www.github.com/") raw
    then normalize_github_path (behind (str "https://www.github.com/") raw)
    else none

-- The URL with `https://` in front of a bare host.
abbrev with_scheme : Text → Text
with_scheme raw =
    if starts_with (str "github.com/") raw || starts_with (str "www.github.com/") raw
    then str "https://" ++ raw
    else raw

abbrev pub clone_url : Text → Option Text
clone_url raw =
    if starts_with (str "git@github.com:") raw
    then normalize_github_path (behind (str "git@github.com:") raw)
    else from_https (with_scheme raw)

unfoldable pub parse_github_clone_url : Text → Option Text
parse_github_clone_url raw = if is_empty (strip raw) then none else clone_url (strip raw)
