-- ===== src/Bytes.antt =====
-- Bytes in memory: little-endian numbers, C strings and `memcpy`, as the wire formats of the
-- program use them (x86-64).
use native.Mathlib.Nat.{pow-suc}
use mathlib.Core.Option
use dropbox_ufrgs_sisop.Prelude.{
  ◌≢◌, ◌++◌, Option, none, some, if◌then◌else◌, ◌==◌, ℕ, zero, suc, ◌+◌, ◌*◌, ◌/◌, ◌%◌, ◌^◌, ◌<◌,
  ◌≡◌, refl, List, [], ◌∷◌, ◌++◌, Option, none, some, arith, length, if◌then◌else◌, ◌==◌, Bool,
  true, false, ◌&&◌, ltb, ◌||◌, Bool-cases, inl, inr,
}

abbrev pub Bytes : Type 0
Bytes = List ℕ

-- The `k` bytes of a number in memory.
abbrev pub le_bytes : ℕ → ℕ → Bytes
le_bytes zero v = []
le_bytes (suc k) v = v % 256 ∷ le_bytes k (v / 256)

abbrev pub of_le : Bytes → ℕ
of_le [] = 0
of_le (b ∷ bs) = b + 256 * of_le bs

pub length-le_bytes : (k v : ℕ) → length (le_bytes k v) ≡ k
length-le_bytes zero v = refl
length-le_bytes (suc k) v = omega (arith, length-le_bytes k (v / 256))

pub of_le-le_bytes : (k v : ℕ) → v < 256 ^ k → of_le (le_bytes k v) ≡ v
of_le-le_bytes zero v h = omega arith
of_le-le_bytes (suc k) v h =
    omega (arith, of_le-le_bytes k (v / 256) (omega (arith, pow-suc 256 k)))

-- The C string that begins at a block: its bytes up to the first NUL. Without one the program reads
-- past the end of the block, which is undefined.
abbrev pub c_string : Bytes → Option Bytes
c_string [] = none
c_string (b ∷ bs) = if b == 0 then some [] else Option.map (◌∷◌ b) (c_string bs)

-- Whether a block holds a NUL.
abbrev pub has_nul : Bytes → Bool
has_nul [] = false
has_nul (b ∷ bs) = b == 0 || has_nul bs

-- A C string can be read from a block exactly if the block holds a NUL.
pub c_string-has_nul : (bs : Bytes) → has_nul bs ≡ true → (text : Bytes) × (c_string bs ≡ some text)
c_string-has_nul [] h = absurd cc
c_string-has_nul (b ∷ bs) h = elim (Bool-cases (b == 0)) [
  | inl nul ↦ ([], rw nul refl)
  | inr other ↦
      let (text, e) = c_string-has_nul bs (rw (← h) (rw other refl)) in
      (b ∷ text, rw (other, e) refl)
]

pub c_string_unended : (bs : Bytes) → has_nul bs ≡ false → c_string bs ≡ none
c_string_unended [] h = refl
c_string_unended (b ∷ bs) h = elim (Bool-cases (b == 0)) [
  | inl nul ↦ absurd (ground (arith, h, nul))
  | inr other ↦ rw (other, c_string_unended bs (rw (← h) (rw other refl))) refl
]

-- `std::string::c_str`, as C sees it. The string ends with a NUL of its own.
abbrev pub c_str : Bytes → Bytes
c_str [] = []
c_str (b ∷ bs) = if b == 0 then [] else b ∷ c_str bs

abbrev pub NoNul : Bytes → Type 0
NoNul [] = Unit
NoNul (b ∷ bs) = (b ≢ 0) × NoNul bs

pub NoNul-append : (s t : Bytes) → NoNul s → NoNul t → NoNul (s ++ t)
NoNul-append [] t h k = k
NoNul-append (b ∷ s) t h k = (h.0, NoNul-append s t h.1 k)

pub c_string-append : (s rest : Bytes) → NoNul s → c_string (s ++ 0 ∷ rest) ≡ some s
c_string-append [] rest h = refl
c_string-append (b ∷ s) rest h = ground (arith, c_string-append s rest h.1)

pub c_str-NoNul : (s : Bytes) → NoNul s → c_str s ≡ s
c_str-NoNul [] h = refl
c_str-NoNul (b ∷ s) h = ground (arith, c_str-NoNul s h.1)

-- `==` and `<` of `std::string`
abbrev pub bytes_eq : Bytes → Bytes → Bool
bytes_eq [] [] = true
bytes_eq (a ∷ s) (b ∷ t) = a == b && bytes_eq s t
bytes_eq _ _ = false

abbrev pub bytes_lt : Bytes → Bytes → Bool
bytes_lt [] [] = false
bytes_lt [] (b ∷ t) = true
bytes_lt (a ∷ s) [] = false
bytes_lt (a ∷ s) (b ∷ t) = ltb a b || a == b && bytes_lt s t

pub bytes_eq-eq : (s t : Bytes) → bytes_eq s t ≡ true → s ≡ t
bytes_eq-eq [] [] h = refl
bytes_eq-eq [] (b ∷ t) h = cc
bytes_eq-eq (a ∷ s) [] h = cc
bytes_eq-eq (a ∷ s) (b ∷ t) h = ground (arith, bytes_eq-eq s t)

pub bytes_eq_self : (s : Bytes) → bytes_eq s s ≡ true
bytes_eq_self [] = refl
bytes_eq_self (a ∷ s) = ground (arith, bytes_eq_self s)
