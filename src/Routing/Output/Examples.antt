-- ===== src/Routing/Output/Examples.antt =====
-- Trimmed output and clone URLs at work.
use pycodebridge.Base.{◌≤◌, arith, length}
use pycodebridge.Base.Text.{str, strip, split_on}
use pycodebridge.Routing.Output.{newline, parse_github_clone_url}
use pycodebridge.Routing.Output.Bounds.{IsHostUrl, parse_github_clone_url-IsHostUrl}

one_line : length (split_on newline (str "one")) ≤ 3
unfolding split_on
one_line = omega arith

parse_github_clone_url-IsHostUrl_example :
    IsHostUrl
      (strip (str " git@github.com:a/b.git"))
      (parse_github_clone_url (str " git@github.com:a/b.git"))
parse_github_clone_url-IsHostUrl_example =
    parse_github_clone_url-IsHostUrl (str " git@github.com:a/b.git")
