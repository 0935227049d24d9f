-- ===== src/Ui/Lines.antt =====
-- What the loop over a stream reads: the text, with an end of line added if the last line has none.
use dropbox_ufrgs_sisop.Text.{getline}
use dropbox_ufrgs_sisop.Ui.{read_lines, read_streams, Screen}
use dropbox_ufrgs_sisop.Prelude.{
  ℕ, zero, suc, ◌≤◌, ◌≡◌, refl, [], ◌∷◌, ◌++◌, ◌==◌, if◌then◌else◌, some, arith, length,
  append_assoc, append-nil, sym, ap, ◌∙◌,
}
use dropbox_ufrgs_sisop.Bytes.{Bytes}

-- A text whose last line has its end.
unfoldable pub ended : Bytes → Bytes
ended [] = []
ended (c ∷ []) = if c == b'\n' then c ∷ [] else c ∷ b'\n' ∷ []
ended (c ∷ d ∷ s) = c ∷ ended (d ∷ s)

-- What is left after the first line.
getline-ended :
    (c : ℕ) (s : Bytes)
    → (ended (c ∷ s) ≡ (getline (c ∷ s)).0 ++ b'\n' ∷ ended (getline (c ∷ s)).1)
      × (length (getline (c ∷ s)).1 ≤ length s)
unfolding ended
getline-ended c [] = ground arith
getline-ended c (d ∷ s) = ground (arith, getline-ended d s)

read_lines-ended :
    (fuel : ℕ) (acc s : Bytes) → length s ≤ fuel → read_lines fuel acc s ≡ some (acc ++ ended s)
unfolding read_lines ended
read_lines-ended fuel acc [] enough = ap some (sym (append-nil acc))
read_lines-ended zero acc (c ∷ s) enough = absurd (omega arith)
read_lines-ended (suc fuel) acc (c ∷ s) enough =
    let (line, rest) = getline (c ∷ s) in
    let (first, fewer) = getline-ended c s in
    read_lines-ended fuel (acc ++ (line ++ b'\n' ∷ [])) rest (omega (arith, fewer))
    ∙ ap some (
        append_assoc acc (line ++ b'\n' ∷ []) (ended rest)
        ∙ ap (◌++◌ acc) (append_assoc line (b'\n' ∷ []) (ended rest) ∙ sym first))

-- The two loops read each stream to its end.
pub read_streams-ended :
    (s : Screen) → read_streams s ≡ some (ended s.frame_stream ++ ended s.log_stream)
unfolding read_streams
read_streams-ended s =
    rw (read_lines-ended (length s.frame_stream) [] s.frame_stream (omega arith), read_streams)
      (read_lines-ended (length s.log_stream) (ended s.frame_stream) s.log_stream (omega arith))

pub ended_append : (s t : Bytes) → ended s ≡ s → ended (s ++ t) ≡ s ++ ended t
unfolding ended
ended_append [] t h = refl
ended_append (c ∷ []) [] h = h
ended_append (c ∷ []) (d ∷ t) h = refl
ended_append (c ∷ d ∷ s) t h = ap (◌∷◌ c) (ended_append (d ∷ s) t cc)

ended_cons : (c d : ℕ) (s : Bytes) → ended (c ∷ ended (d ∷ s)) ≡ c ∷ ended (ended (d ∷ s))
unfolding ended
ended_cons c d [] = ground arith
ended_cons c d (e ∷ s) = refl

pub ended_twice : (s : Bytes) → ended (ended s) ≡ ended s
unfolding ended
ended_twice [] = refl
ended_twice (c ∷ []) = ground arith
ended_twice (c ∷ d ∷ s) = ended_cons c d s ∙ ap (◌∷◌ c) (ended_twice (d ∷ s))

pub ended_line : (line : Bytes) → ended (line ++ b'\n' ∷ []) ≡ line ++ b'\n' ∷ []
unfolding ended
ended_line [] = refl
ended_line (c ∷ []) = refl
ended_line (c ∷ d ∷ line) = ap (◌∷◌ c) (ended_line (d ∷ line))
