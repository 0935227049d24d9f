-- ===== src/Text.antt =====
-- What the source uses of `std::string` and of the streams of the C++ library: a text cut at the
-- first or the last occurrence of a byte, and lines.
pub mod Tokens
pub mod Numbers
use Prim.Native.String.{String}
use Prim.Native.Char.{code as char_code}
use dropbox_ufrgs_sisop.Prelude.{
  ℕ, zero, suc, ◌+◌, ◌-◌, ◌*◌, ◌≤◌, ◌≡◌, ◌≢◌, refl, Bool, ◌&&◌, ◌||◌, [], ◌∷◌, ◌++◌, Option, none,
  some, arith, length, take, drop, leb, ◌==◌, if◌then◌else◌, false, Bool-cases, ltb, true, ◌<◌, ◌∙◌,
  ap, inl, ◌/◌, inr, ◌%◌, take-length-append,
}
use dropbox_ufrgs_sisop.Prelude.Int.{ℤ, pos, negsuc}
use dropbox_ufrgs_sisop.Bytes.{Bytes, NoNul}
use mathlib.Core.Option

-- `s.find(c)`; `none` is `npos`.
unfoldable pub find : ℕ → Bytes → Option ℕ
find c [] = none
find c (b ∷ s) = if b == c then some 0 else Option.map suc (find c s)

-- `s.rfind(c)`
unfoldable pub rfind : ℕ → Bytes → Option ℕ
rfind c [] = none
rfind c (b ∷ s) = elim (rfind c s) [
  | some i ↦ some (suc i)
  | none ↦ if b == c then some 0 else none
]

-- `s.substr(0, i)`, where `npos` stands for the whole text
abbrev pub before : Option ℕ → Bytes → Bytes
before none s = s
before (some i) s = take i s

-- `s.substr(i + 1, _)` up to the end, where `npos + 1` is 0
abbrev pub after : Option ℕ → Bytes → Bytes
after none s = s
after (some i) s = drop (suc i) s

abbrev pub Without : ℕ → Bytes → Type 0
Without c [] = Unit
Without c (b ∷ s) = (b ≢ c) × Without c s

pub find-append : (c : ℕ) (s t : Bytes) → Without c s → find c (s ++ c ∷ t) ≡ some (length s)
unfolding find
find-append c [] t h = ground arith
find-append c (b ∷ s) t h = ground (arith, find-append c s t h.1)

pub find-Without : (c : ℕ) (s : Bytes) → Without c s → find c s ≡ none
unfolding find
find-Without c [] h = refl
find-Without c (b ∷ s) h = ground (arith, find-Without c s h.1)

-- A text cut at its first separator.
pub before-find :
    (c : ℕ) (s t : Bytes) → Without c s → before (find c (s ++ c ∷ t)) (s ++ c ∷ t) ≡ s
before-find c s t h = rw (find-append c s t h) (take-length-append s (c ∷ t))

drop_one : (c : ℕ) (s t : Bytes) → drop (suc (length s)) (s ++ c ∷ t) ≡ t
drop_one c [] t = refl
drop_one c (b ∷ s) t = drop_one c s t

pub after-find : (c : ℕ) (s t : Bytes) → Without c s → after (find c (s ++ c ∷ t)) (s ++ c ∷ t) ≡ t
after-find c s t h = rw (find-append c s t h) (drop_one c s t)

pub rfind-Without : (c : ℕ) (s : Bytes) → Without c s → rfind c s ≡ none
unfolding rfind
rfind-Without c [] h = refl
rfind-Without c (b ∷ s) h = ground (arith, rfind-Without c s h.1)

pub rfind-append : (c : ℕ) (s t : Bytes) → Without c t → rfind c (s ++ c ∷ t) ≡ some (length s)
unfolding rfind
rfind-append c [] t h = ground (arith, rfind-Without c t h)
rfind-append c (b ∷ s) t h = ground (arith, rfind-append c s t h)

-- The bytes of a literal.
abbrev pub text : String → Bytes
text String.[] = []
text (String.◌∷◌ c s) = char_code c ∷ text s

-- `std::getline` on a stream: the line without its end, and what is left.
abbrev pub getline : Bytes → Bytes × Bytes
getline [] = ([], [])
getline (c ∷ s) = let (line, rest) = getline s in if c == b'\n' then ([], s) else (c ∷ line, rest)

pub getline-append :
    (line rest : Bytes) → Without b'\n' line → getline (line ++ b'\n' ∷ rest) ≡ (line, rest)
getline-append [] rest h = refl
getline-append (c ∷ line) rest h = ground (arith, getline-append line rest h.1)
