-- ===== src/Commands/Parse/Tails.antt =====
-- What the parsers of command tails make of a text.
use pycodebridge.Base.{
  ℕ, ◌≤◌, ◌≡◌, refl, sym, ap, ◌∙◌, arith, List, [], ◌∷◌, ◌++◌, Option, none, some, drop, length,
  keep-append, append-nil, if◌then◌else◌, not, false,
}
use pycodebridge.Base.Integers.{ℤ, pos, negsuc}
use pycodebridge.Base.Text.{Text, is_empty, is_space, strip, split}
use pycodebridge.Base.Text.Words.{
  dense, dense-strip, dense-split, concat, head_of, split-head, strip_head,
}
use pycodebridge.Commands.Parse.{
  parse_session_and_prompt, session_prompt, parse_log_count, bounded, first_int,
}

bounded_within : (n : Option ℤ) → (1 ≤ bounded n) × (bounded n ≤ 50)
bounded_within none = (omega arith, omega arith)
bounded_within (some (negsuc n)) = (omega arith, omega arith)
bounded_within (some (pos n)) = (ground arith, ground arith)

-- Whatever the arguments are and however `int` reads them, a log count lies between 1 and 50.
pub parse_log_count-bounds :
    (int_of : Text → Option ℤ) (args : List Text)
    → (1 ≤ parse_log_count int_of args) × (parse_log_count int_of args ≤ 50)
unfolding parse_log_count
parse_log_count-bounds int_of args = bounded_within (first_int int_of args)

session_prompt-dense :
    (raw : Text) (ws : List Text)
    → split raw ≡ ws
    → head_of ws ++ drop (length (head_of ws)) raw ≡ raw
    → dense (session_prompt raw ws).0 ++ dense (session_prompt raw ws).1 ≡ dense raw
unfolding session_prompt
session_prompt-dense raw [] e h = ap (λ w. dense (concat w)) (sym e) ∙ dense-split raw
session_prompt-dense raw (w ∷ []) e h =
    ap dense (sym (append-nil w)) ∙ ap (λ x. dense (concat x)) (sym e) ∙ dense-split raw
session_prompt-dense raw (w ∷ f ∷ fs) e h =
    ap (λ x. dense w ++ x) (dense-strip (drop (length w) raw))
    ∙ sym (keep-append (λ c. not (is_space c)) w (drop (length w) raw))
    ∙ ap dense h

stripped :
    (raw : Text)
    → ((c : ℕ) (t : Text) → raw ≡ c ∷ t → is_space c ≡ false)
    → let r = if is_empty raw then ([], []) else session_prompt raw (split raw) in
      dense r.0 ++ dense r.1 ≡ dense raw
stripped [] h = refl
stripped (c ∷ s) h = session_prompt-dense (c ∷ s) (split (c ∷ s)) refl (split-head c s (h c s refl))

-- The session name and the prompt that a command's tail is taken apart into hold, in this order, all
-- characters of the tail but spaces.
pub parse_session_and_prompt_keeps :
    (rest : Text)
    → dense (parse_session_and_prompt rest).0 ++ dense (parse_session_and_prompt rest).1
      ≡ dense rest
unfolding parse_session_and_prompt
parse_session_and_prompt_keeps rest = stripped (strip rest) (strip_head rest) ∙ dense-strip rest
