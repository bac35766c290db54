-- ===== src/Util/Chunk/Examples.antt =====
-- Chunks of short texts.
use pycodebridge.Base.{◌≡◌, refl, All, [], ◌∷◌, arith, replicate}
use pycodebridge.Base.Text.{Text, str, split_on, join}
use pycodebridge.Util.Chunk.{
  Chunking, start, newline, flush, put_piece, hard_break, make_room, add_line, add_lines,
  chunk_text,
}
use pycodebridge.Util.Chunk.Bounds.{Fits, chunk_text-Fits}
use pycodebridge.Util.Chunk.Loop.{While, hard_break_terminates}
use pycodebridge.Util.Chunk.Content.{visible, visible_all, visible-chunk_text, chunk_text-newlines}

abbrev three_lines : Text
three_lines = str "ab\ncdefgh\ni"

three_lines-chunk_text : chunk_text three_lines 4 ≡ str "ab" ∷ str "cdef" ∷ str "gh" ∷ str "i" ∷ []
unfolding chunk_text add_lines add_line make_room hard_break put_piece flush split_on join
three_lines-chunk_text = refl

chunk_text-Fits_example : All (Fits 4) (chunk_text three_lines 4)
chunk_text-Fits_example = chunk_text-Fits three_lines 4 (omega arith)

visible-chunk_text_example : visible_all (chunk_text three_lines 4) ≡ visible three_lines
visible-chunk_text_example = visible-chunk_text three_lines 4

chunk_text-newlines_example : chunk_text (replicate 5 newline) 2 ≡ replicate 5 newline ∷ []
chunk_text-newlines_example = chunk_text-newlines 5 2

hard_break_terminates_example :
    While 2 (str "abcde") start (hard_break 5 2 (str "abcde") start)
    × ((last : Chunking)
        → While 2 (str "abcde") start last
        → last ≡ hard_break 5 2 (str "abcde") start)
hard_break_terminates_example = hard_break_terminates 2 (str "abcde") start (omega arith)
