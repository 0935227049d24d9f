-- ===== src/Text/Numbers.antt =====
-- Decimal numbers: `atoi`, `std::stoi` and `std::to_string`.
use dropbox_ufrgs_sisop.Prelude.{
  ℕ, zero, suc, ◌+◌, ◌-◌, ◌*◌, ◌≤◌, ◌≡◌, refl, Bool, ◌&&◌, ◌||◌, [], ◌∷◌, Option, none, some, arith,
  length, leb, ◌==◌, if◌then◌else◌, false, Bool-cases, ltb, true, ◌<◌, ◌∙◌, ap, inl, ◌/◌, inr, ◌%◌,
}
use dropbox_ufrgs_sisop.Prelude.Int.{ℤ, pos, negsuc}
use dropbox_ufrgs_sisop.Bytes.{Bytes, NoNul}
use dropbox_ufrgs_sisop.Text.{Without}

abbrev pub is_digit : ℕ → Bool
is_digit c = leb b'0' c && leb c b'9'

-- The number that the leading digits spell, after the digits read so far.
digits_value : ℕ → Bytes → ℕ
digits_value n [] = n
digits_value n (c ∷ s) =
    let rest = digits_value (n * 10 + (c - b'0')) s in if is_digit c then rest else n

skip_blanks : Bytes → Bytes
skip_blanks [] = []
skip_blanks (c ∷ s) = if c == b' ' || leb 9 c && leb c 13 then skip_blanks s else c ∷ s

minus : ℕ → ℤ
minus zero = pos 0
minus (suc n) = negsuc n

signed_value : Bytes → ℤ
signed_value [] = pos 0
signed_value (c ∷ s) =
    if c == b'-'
    then minus (digits_value 0 s)
    else if c == b'+'
    then pos (digits_value 0 s)
    else pos (digits_value 0 (c ∷ s))

-- `atoi`, where the number fits an `int`
unfoldable pub atoi : Bytes → ℤ
unfolding digits_value skip_blanks minus signed_value
atoi s = signed_value (skip_blanks s)

starts_digit : Bytes → Bool
starts_digit [] = false
starts_digit (c ∷ s) = is_digit c

has_number : Bytes → Bool
has_number [] = false
has_number (c ∷ s) = is_digit c || (c == b'-' || c == b'+') && starts_digit s

-- `std::stoi`, where the number fits an `int`; `none` where there is no number and it throws
unfoldable pub stoi : Bytes → Option ℤ
unfolding skip_blanks starts_digit has_number
stoi s = if has_number (skip_blanks s) then some (atoi s) else none

-- The digits of a number, before what stands behind them. The fuel is more than the number.
digits : ℕ → ℕ → Bytes → Bytes
digits zero n rest = rest
digits (suc fuel) n rest = elim (ltb n 10) [
  | true ↦ (b'0' + n) ∷ rest
  | false ↦ digits fuel (n / 10) ((b'0' + n % 10) ∷ rest)
]

-- `std::to_string` of an `int`
unfoldable pub to_string : ℤ → Bytes
unfolding digits
to_string (pos n) = digits (suc n) n []
to_string (negsuc n) = b'-' ∷ digits (suc (suc n)) (suc n) []

digits_last :
    (fuel n : ℕ) (rest : Bytes) → ltb n 10 ≡ true → digits (suc fuel) n rest ≡ (b'0' + n) ∷ rest
unfolding digits
digits_last fuel n rest small = rw (small, digits) refl

digits_more :
    (fuel n : ℕ) (rest : Bytes)
    → ltb n 10 ≡ false
    → digits (suc fuel) n rest ≡ digits fuel (n / 10) ((b'0' + n % 10) ∷ rest)
unfolding digits
digits_more fuel n rest great = rw (great, digits) refl

digits_value-digits :
    (fuel n : ℕ) (rest : Bytes)
    → n < fuel
    → digits_value 0 (digits fuel n rest) ≡ digits_value n rest
unfolding digits digits_value
digits_value-digits zero n rest h = absurd (omega (arith, h))
digits_value-digits (suc fuel) n rest h = elim (Bool-cases (ltb n 10)) [
  | inl small ↦ rw (digits_last fuel n rest small) (ground arith)
  | inr great ↦
      rw (digits_more fuel n rest great)
        (digits_value-digits fuel (n / 10) _ (ground arith) ∙ ground arith)
]

starts_digit-digits :
    (fuel n : ℕ) (rest : Bytes) → n < fuel → starts_digit (digits fuel n rest) ≡ true
unfolding digits starts_digit
starts_digit-digits zero n rest h = absurd (omega (arith, h))
starts_digit-digits (suc fuel) n rest h = elim (Bool-cases (ltb n 10)) [
  | inl small ↦ rw (digits_last fuel n rest small) (ground arith)
  | inr great ↦
      rw (digits_more fuel n rest great) (starts_digit-digits fuel (n / 10) _ (ground arith))
]

atoi-starts_digit : (s : Bytes) → starts_digit s ≡ true → atoi s ≡ pos (digits_value 0 s)
unfolding atoi skip_blanks signed_value starts_digit
atoi-starts_digit [] h = absurd cc
atoi-starts_digit (c ∷ s) h = ground arith

first : (s : Bytes) → starts_digit s ≡ true → (c : ℕ) × (t : Bytes) × (s ≡ c ∷ t)
unfolding starts_digit
first [] h = absurd cc
first (c ∷ s) h = (c, s, refl)

-- A number that is not negative is read back.
pub atoi-to_string : (n : ℕ) → atoi (to_string (pos n)) ≡ pos n
unfolding to_string digits_value
atoi-to_string n =
    atoi-starts_digit (digits (suc n) n []) (starts_digit-digits (suc n) n [] (omega arith))
    ∙ ap pos (digits_value-digits (suc n) n [] (omega arith))

stoi-starts_digit : (s : Bytes) → starts_digit s ≡ true → stoi s ≡ some (atoi s)
unfolding stoi skip_blanks has_number starts_digit
stoi-starts_digit [] h = absurd cc
stoi-starts_digit (c ∷ s) h = ground arith

pub stoi-to_string : (n : ℕ) → stoi (to_string (pos n)) ≡ some (pos n)
unfolding to_string
stoi-to_string n =
    stoi-starts_digit (digits (suc n) n []) (starts_digit-digits (suc n) n [] (omega arith))
    ∙ ap some (atoi-to_string n)

Without-digits :
    (c fuel n : ℕ) (rest : Bytes)
    → is_digit c ≡ false
    → Without c rest
    → Without c (digits fuel n rest)
unfolding digits
Without-digits c zero n rest other h = h
Without-digits c (suc fuel) n rest other h = elim (Bool-cases (ltb n 10)) [
  | inl small ↦ rw (digits_last fuel n rest small) (ground arith, h)
  | inr great ↦
      rw (digits_more fuel n rest great) (Without-digits c fuel (n / 10) _ other (ground arith, h))
]

-- A number has no bytes but digits, and a sign.
pub Without-to_string : (c n : ℕ) → is_digit c ≡ false → Without c (to_string (pos n))
unfolding to_string
Without-to_string c n other = Without-digits c (suc n) n [] other tt

Without-NoNul : (s : Bytes) → Without 0 s → NoNul s
Without-NoNul [] h = tt
Without-NoNul (b ∷ s) h = (h.0, Without-NoNul s h.1)

pub to_string-NoNul : (n : ℕ) → NoNul (to_string (pos n))
to_string-NoNul n = Without-NoNul (to_string (pos n)) (Without-to_string 0 n refl)

-- It has a first digit.
pub to_string-first : (n : ℕ) → (c : ℕ) × (s : Bytes) × (to_string (pos n) ≡ c ∷ s)
unfolding to_string
to_string-first n = first (digits (suc n) n []) (starts_digit-digits (suc n) n [] (omega arith))

length-digits : (fuel n : ℕ) (rest : Bytes) → length (digits fuel n rest) ≤ fuel + length rest
unfolding digits
length-digits zero n rest = omega arith
length-digits (suc fuel) n rest = elim (Bool-cases (ltb n 10)) [
  | inl small ↦ rw (digits_last fuel n rest small) (omega arith)
  | inr great ↦
      rw (digits_more fuel n rest great)
        (omega (arith, length-digits fuel (n / 10) ((b'0' + n % 10) ∷ rest)))
]

pub length-to_string : (n : ℕ) → length (to_string (pos n)) ≤ suc n
unfolding to_string
length-to_string n = omega (arith, length-digits (suc n) n [])
