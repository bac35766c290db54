-- ===== src/Util/Chunk/Loop.antt =====
-- The inner loop of `chunk_text`: `while start < line_len`.
use pycodebridge.Base.{ℕ, zero, suc, ◌≤◌, ◌≡◌, refl, arith, [], ◌∷◌, length, length-drop, drop}
use pycodebridge.Base.Text.{Text}
use pycodebridge.Util.Chunk.{Chunking, put_piece, hard_break}

module _ (max_len : ℕ) where
  -- `While rest st last`: from `st`, with `rest` still to come of the line, the loop ends in `last`.
  pub data While : Text → Chunking → Chunking → Type 0 where
    ends : {st : Chunking} → While [] st st
    turns :
        {c : ℕ} {rest : Text} {st last : Chunking}
        → While (drop max_len (c ∷ rest)) (put_piece max_len (c ∷ rest) st) last
        → While (c ∷ rest) st last

  hard_break-While :
      (fuel : ℕ) (rest : Text) (st : Chunking)
      → 1 ≤ max_len
      → length rest ≤ fuel
      → While rest st (hard_break fuel max_len rest st)
  unfolding hard_break
  hard_break-While zero [] st pos enough = ends
  hard_break-While zero (c ∷ rest) st pos enough = absurd (omega arith)
  hard_break-While (suc fuel) [] st pos enough = ends
  hard_break-While (suc fuel) (c ∷ rest) st pos enough = turns (
      hard_break-While fuel (drop max_len (c ∷ rest)) (put_piece max_len (c ∷ rest) st) pos
        (let left = length-drop max_len (c ∷ rest) in omega arith))

  While-unique :
      (rest : Text) (st one other : Chunking)
      → While rest st one
      → While rest st other
      → one ≡ other
  While-unique _ _ _ _ ends ends = refl
  While-unique _ _ _ _ (turns {c} {rest} {st} {last} w) (turns v) =
      While-unique (drop max_len (c ∷ rest)) (put_piece max_len (c ∷ rest) st) last _ w v

  -- The loop ends for a positive limit, and always in the state that the bounded loop reaches with
  -- the line's length as fuel.
  pub hard_break_terminates :
      (line : Text) (st : Chunking)
      → 1 ≤ max_len
      → While line st (hard_break (length line) max_len line st)
        × ((last : Chunking) → While line st last → last ≡ hard_break (length line) max_len line st)
  hard_break_terminates line st pos =
      let run = hard_break-While (length line) line st pos (omega arith) in
      (run, λ last w. While-unique line st last (hard_break (length line) max_len line st) w run)
