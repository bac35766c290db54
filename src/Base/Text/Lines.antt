-- ===== src/Base/Text/Lines.antt =====
-- `str.splitlines`.
use Prim.Native.Nat.{ℕ}
use mathlib.Core.Bool.{Bool, false, ◌&&◌, ◌||◌}
use mathlib.Core.List.{List, [], ◌∷◌, ◌++◌}
use pycodebridge.Base.Tests.{leb, ◌==◌, if◌then◌else◌}
use pycodebridge.Base.Text.{Text, emit}

-- The characters at which a line ends.
abbrev is_break : ℕ → Bool
is_break c = (leb 10 c && leb c 13) || (leb 28 c && leb c 30) || c == 133 || c == 8232 || c == 8233

-- `cr`: the character before was a carriage return; `cur` is the line so far.
lines_loop : Bool → Text → Text → List Text
lines_loop cr cur [] = emit cur []
lines_loop cr cur (c ∷ s) =
    let skipped = lines_loop false cur s in
    let closed = cur ∷ lines_loop (c == 13) [] s in
    let going = lines_loop false (cur ++ c ∷ []) s in
    if cr && c == 10 then skipped else if is_break c then closed else going

unfoldable pub splitlines : Text → List Text
unfolding lines_loop
splitlines = lines_loop false []
