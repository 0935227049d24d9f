-- ===== src/Text/Tokens.antt =====
-- `strtok` of the C library.
use dropbox_ufrgs_sisop.Prelude.{
  ℕ, ◌≡◌, ◌==◌, if◌then◌else◌, [], ◌∷◌, Option, none, some, false, arith, refl,
}
use dropbox_ufrgs_sisop.Bytes.{Bytes}
use dropbox_ufrgs_sisop.Text.{find, before, after, Without, find-Without}

-- What is left behind a token.
abbrev pub rest_of : Option ℕ → Bytes → Bytes
rest_of none s = []
rest_of (some i) s = after (some i) s

-- The first token of a text, behind the separators that it starts with, and what is left behind the
-- separator that ends it.
unfoldable pub strtok : ℕ → Bytes → Option (Bytes × Bytes)
strtok c [] = none
strtok c (b ∷ s) =
    let rest = strtok c s in
    if b == c
    then rest
    else some (before (find c (b ∷ s)) (b ∷ s), rest_of (find c (b ∷ s)) (b ∷ s))

-- A text without a separator is one token.
pub strtok-Without : (c b : ℕ) (s : Bytes) → Without c (b ∷ s) → strtok c (b ∷ s) ≡ some (b ∷ s, [])
unfolding strtok
strtok-Without c b s h =
    let other : (b == c) ≡ false = ground (arith, h.0) in
    rw other (rw (find-Without c (b ∷ s) h) refl)
