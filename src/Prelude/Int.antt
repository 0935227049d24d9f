-- ===== src/Prelude/Int.antt =====
-- Signed integers: what the source keeps in an `int` that may be -1.
use native.Mathlib.Nat.{mod-eq_of_lt}
use dropbox_ufrgs_sisop.Prelude.{
  ℕ, ◌+◌, ◌-◌, ◌^◌, zero, suc, Bool, true, false, ◌==◌, ltb, if◌then◌else◌, ◌<◌, ◌%◌, ◌≡◌, arith,
  ◌≤◌,
}

-- `negsuc n` is -(n + 1).
pub data ℤ : Type 0 where
  pos : ℕ → ℤ
  negsuc : ℕ → ℤ

infix 50 ◌==ℤ◌
abbrev pub ◌==ℤ◌ : ℤ → ℤ → Bool
◌==ℤ◌ (pos a) (pos b) = a == b
◌==ℤ◌ (negsuc a) (negsuc b) = a == b
◌==ℤ◌ _ _ = false

abbrev pub is_negative : ℤ → Bool
is_negative (pos n) = false
is_negative (negsuc n) = true

-- The conversion to an unsigned type of `w` bits, which C makes where a signed operand meets an
-- unsigned one of that width.
abbrev pub to_unsigned : ℕ → ℤ → ℕ
to_unsigned w (pos n) = n
to_unsigned w (negsuc n) = 2 ^ w - 1 - n

-- a + n
abbrev pub add_ℕ : ℤ → ℕ → ℤ
add_ℕ (pos a) n = pos (a + n)
add_ℕ (negsuc zero) zero = negsuc zero
add_ℕ (negsuc zero) (suc n) = pos n
add_ℕ (negsuc (suc a)) zero = negsuc (suc a)
add_ℕ (negsuc (suc a)) (suc n) = add_ℕ (negsuc a) n

-- The conversion of an `uint32_t` to `int`.
abbrev pub to_int : ℕ → ℤ
to_int n = if ltb n (2 ^ 31) then pos n else negsuc (2 ^ 32 - 1 - n)

-- Whether an `int` holds the number.
abbrev pub is_int : ℤ → Bool
is_int (pos n) = ltb n (2 ^ 31)
is_int (negsuc n) = ltb n (2 ^ 31)

-- The conversion of an `ssize_t` to `int`.
abbrev pub narrow : ℤ → ℤ
narrow (pos n) = to_int (n % 2 ^ 32)
narrow (negsuc n) = let m = n % 2 ^ 32 in if ltb m (2 ^ 31) then negsuc m else pos (2 ^ 32 - 1 - m)

-- a - 1
abbrev pub pred_ℤ : ℤ → ℤ
pred_ℤ (pos zero) = negsuc 0
pred_ℤ (pos (suc n)) = pos n
pred_ℤ (negsuc n) = negsuc (suc n)

abbrev pub ltb_ℤ : ℤ → ℤ → Bool
ltb_ℤ (pos a) (pos b) = ltb a b
ltb_ℤ (pos a) (negsuc b) = false
ltb_ℤ (negsuc a) (pos b) = true
ltb_ℤ (negsuc a) (negsuc b) = ltb b a

-- An `uint32_t` that went through an `int` is the same.
pub to_unsigned-to_int : (n : ℕ) → n < 2 ^ 32 → to_unsigned 32 (to_int (n % 2 ^ 32)) ≡ n
to_unsigned-to_int n h = rw (mod-eq_of_lt h) (ground arith)

to_int-is_int : (n : ℕ) → n < 2 ^ 32 → is_int (to_int n) ≡ true
to_int-is_int n h = ground arith

-- What has been narrowed is an `int`.
pub narrow-is_int : (n : ℤ) → is_int (narrow n) ≡ true
narrow-is_int (pos n) = to_int-is_int (n % 2 ^ 32) (omega arith)
narrow-is_int (negsuc n) = ground arith

-- No `int` is, as an unsigned number of 64 bits, one of 2 ^ 31 to 2 ^ 63.
pub is_int-large :
    (n : ℤ) (m : ℕ) → is_int n ≡ true → 2 ^ 31 ≤ m → m < 2 ^ 63 → (to_unsigned 64 n == m) ≡ false
is_int-large (pos n) m h low high = ground arith
is_int-large (negsuc n) m h low high = ground arith
