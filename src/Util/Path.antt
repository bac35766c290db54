-- ===== src/Util/Path.antt =====
-- codebridge/util/path.py: the names of repositories. The functions on the file system are left out.
use pycodebridge.Base.{◌==◌, Bool, not, ◌&&◌, [], ◌∷◌, Option, none, some, map, all, if◌then◌else◌}
use pycodebridge.Base.Text.{Text, is_empty, is_name_char, lower_char}

-- What `$` leaves out of account: one newline at the end.
unfoldable pub chomp : Text → Text
chomp [] = []
chomp (c ∷ []) = if c == b'\n' then [] else c ∷ []
chomp (c ∷ d ∷ s) = c ∷ chomp (d ∷ s)

-- `re.match(r"^[A-Za-z0-9._-]+$", s)`
unfoldable pub is_name : Text → Bool
unfolding chomp is_name_char
is_name s = not (is_empty (chomp s)) && all is_name_char (chomp s)

-- The case that it raises is `none`. A name that matches is ASCII, where `lower` is `lower_char`.
unfoldable pub normalize_repo_name : Text → Option Text
unfolding is_name lower_char
normalize_repo_name repo_name = if is_name repo_name then some (map lower_char repo_name) else none
