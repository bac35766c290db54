-- ===== src/Routing/Output/Bounds.antt =====
-- The length of trimmed output, and the URLs that come out of the parser.
use pycodebridge.Base.{
  ℕ, ◌+◌, ◌≤◌, ◌==◌, ltb, ◌≡◌, refl, arith, true, false, ◌||◌, List, [], ◌∷◌, ◌++◌, Option, none,
  some, length, take, length-append, length-take, if◌then◌else◌, if_intro, Bool, any,
}
use pycodebridge.Base.Text.{
  Text, str, is_empty, starts_with, starts_with-append, split_on, strip, strip_by, join-split_on,
}
use pycodebridge.Routing.Output.{
  newline, truncated, limit_lines, trim_output, https_url, normalize_github_path,
  parse_github_clone_url, without_git, behind, from_https, with_scheme, clone_url,
}

-- Trimmed output has at most `max_bytes` characters and the 15 of the note that it was cut.
pub length-trim_output_le :
    (text : Text) (max_lines max_bytes : ℕ)
    → length (trim_output text max_lines max_bytes) ≤ max_bytes + 15
unfolding trim_output
length-trim_output_le text max_lines max_bytes =
    let joined = limit_lines max_lines (split_on newline text) in
    if_intro (λ t. length t ≤ max_bytes + 15) (ltb max_bytes (length joined))
      (take max_bytes joined ++ newline ∷ truncated) joined
      (λ t. omega (
        arith,
        length-append (take max_bytes joined) (newline ∷ truncated),
        length-take max_bytes joined,
      ))
      (λ f. ground (arith, f))

-- A text within both limits is not changed.
pub trim_output_same :
    (text : Text) (max_lines max_bytes : ℕ)
    → length (split_on newline text) ≤ max_lines
    → length text ≤ max_bytes
    → trim_output text max_lines max_bytes ≡ text
unfolding trim_output
trim_output_same text max_lines max_bytes l b =
    let lines : ltb max_lines (length (split_on newline text)) ≡ false = ground (arith, l) in
    let chars : ltb max_bytes (length text) ≡ false = ground (arith, b) in
    rw (lines, join-split_on, chars) refl

-- The forms in which a text names a repository of the host.
abbrev host_forms : List Text
host_forms =
    str "git@github.com:"
    ∷ str "https://github.com/"
    ∷ str "https://www.github.com/"
    ∷ str "github.com/"
    ∷ str "www.github.com/"
    ∷ []

unfoldable pub names_host : Text → Bool
names_host raw = any (λ form. starts_with form raw) host_forms

-- A URL that is given for `raw` is one of the host, and `raw` names the host.
unfoldable pub IsHostUrl : Text → Option Text → Type 0
IsHostUrl raw none = Unit
IsHostUrl raw (some url) =
    (starts_with (str "https://github.com/") url ≡ true) × (names_host raw ≡ true)

none-IsHostUrl : (raw : Text) → IsHostUrl raw none
unfolding IsHostUrl
none-IsHostUrl raw = tt

module _ (raw : Text) where
  https_url-IsHostUrl :
      names_host raw ≡ true → (parts : List Text) → IsHostUrl raw (https_url parts)
  unfolding IsHostUrl
  https_url-IsHostUrl named [] = tt
  https_url-IsHostUrl named (owner ∷ []) = tt
  https_url-IsHostUrl named (owner ∷ repo ∷ parts) =
      if_intro (IsHostUrl raw) (is_empty owner || is_empty repo) none _ (λ _. tt)
        (λ _. (starts_with-append (str "https://github.com/") _, named))

  normalize_github_path-IsHostUrl :
      names_host raw ≡ true → (path : Text) → IsHostUrl raw (normalize_github_path path)
  unfolding normalize_github_path
  normalize_github_path-IsHostUrl named path =
      https_url-IsHostUrl named
        (split_on b'/' (without_git (strip_by (λ c. c == b'/') (strip path))))

  either :
      (starts_with (str "github.com/") raw || starts_with (str "www.github.com/") raw) ≡ true
      → names_host raw ≡ true
  unfolding names_host
  either t = ground (arith, t)

  by_ssh : starts_with (str "git@github.com:") raw ≡ true → names_host raw ≡ true
  unfolding names_host
  by_ssh t = ground (arith, t)

  by_host : starts_with (str "https://github.com/") raw ≡ true → names_host raw ≡ true
  unfolding names_host
  by_host t = ground (arith, t)

  by_www : starts_with (str "https://www.github.com/") raw ≡ true → names_host raw ≡ true
  unfolding names_host
  by_www t = ground (arith, t)

  from_https-IsHostUrl :
      (s : Text)
      → (starts_with (str "https://github.com/") s ≡ true → names_host raw ≡ true)
      → (starts_with (str "https://www.github.com/") s ≡ true → names_host raw ≡ true)
      → IsHostUrl raw (from_https s)
  from_https-IsHostUrl s g h =
      let bare = behind (str "https://www.github.com/") s in
      if_intro (IsHostUrl raw) (starts_with (str "https://github.com/") s)
        (normalize_github_path (behind (str "https://github.com/") s))
        (if starts_with (str "https://www.github.com/") s then normalize_github_path bare else none)
        (λ t. normalize_github_path-IsHostUrl (g t) (behind (str "https://github.com/") s))
        (λ _.
          if_intro (IsHostUrl raw) (starts_with (str "https://www.github.com/") s)
            (normalize_github_path bare) none (λ t. normalize_github_path-IsHostUrl (h t) bare)
            (λ _. none-IsHostUrl raw))

  with_scheme-IsHostUrl : IsHostUrl raw (from_https (with_scheme raw))
  with_scheme-IsHostUrl =
      if_intro (λ s. IsHostUrl raw (from_https s))
        (starts_with (str "github.com/") raw || starts_with (str "www.github.com/") raw)
        (str "https://" ++ raw) raw (λ t. from_https-IsHostUrl _ (λ _. either t) (λ _. either t))
        (λ _. from_https-IsHostUrl raw by_host by_www)

  clone_url-IsHostUrl : IsHostUrl raw (clone_url raw)
  clone_url-IsHostUrl =
      if_intro (IsHostUrl raw) (starts_with (str "git@github.com:") raw)
        (normalize_github_path (behind (str "git@github.com:") raw)) (from_https (with_scheme raw))
        (λ t. normalize_github_path-IsHostUrl (by_ssh t) (behind (str "git@github.com:") raw))
        (λ _. with_scheme-IsHostUrl)

-- Every URL that `parse_github_clone_url` returns begins with https://github.com/, and is returned
-- only for a text that names the host: without the spaces around it, it begins with
-- git@github.com:, with https://github.com/ or with https://www.github.com/, or with one of the
-- latter two without https://.
pub parse_github_clone_url-IsHostUrl :
    (raw : Text) → IsHostUrl (strip raw) (parse_github_clone_url raw)
unfolding parse_github_clone_url
parse_github_clone_url-IsHostUrl raw =
    if_intro (IsHostUrl (strip raw)) (is_empty (strip raw)) none (clone_url (strip raw))
      (λ _. none-IsHostUrl (strip raw)) (λ _. clone_url-IsHostUrl (strip raw))
