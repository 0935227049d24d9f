-- ===== src/FileManager/Listing.antt =====
-- A listing made, and taken apart.
use dropbox_ufrgs_sisop.Prelude.Int.{pos}
use dropbox_ufrgs_sisop.Text.{Without, getline, text, getline-append}
use dropbox_ufrgs_sisop.Os.{Os, DirEntry, Stat}
use dropbox_ufrgs_sisop.Bytes.{Bytes}
use dropbox_ufrgs_sisop.Prelude.{
  zero, true, false, none, some, append_assoc, sym, ap, ◌∙◌, ℕ, ◌≡◌, refl, List, some, ◌++◌, ◌∷◌,
  [], ◌+◌, length, Option, arith, append-nil, Bool-cases, inl, suc, ◌≢◌, ◌≤◌, inr, length-append,
  ◌*◌, ◌<◌,
}
use dropbox_ufrgs_sisop.FileManager.{
  list_directory, list_entries, time_text, next_name, listed, stat_into, listing_names, names,
}

-- One line of text with its end.
abbrev pub IsLine : Bytes → Type 0
IsLine t = (line : Bytes) × (t ≡ line ++ b'\n' ∷ []) × Without b'\n' line

-- The names of the regular files.
abbrev pub regular_names : List DirEntry → List Bytes
regular_names [] = []
regular_names (ent ∷ entries) = elim ent.is_regular [
  | true ↦ ent.d_name ∷ regular_names entries
  | false ↦ regular_names entries
]

-- No name holds an end of line.
abbrev pub PlainNames : List DirEntry → Type 0
PlainNames [] = Unit
PlainNames (ent ∷ entries) = Without b'\n' ent.d_name × PlainNames entries

-- `count` regular files, and `out`, from here on
module _ (os : Os) (s : os.State) where
  -- The lines of all entries, without those before them.
  abbrev entry_lines : List DirEntry → Stat → Bytes
  entry_lines [] attr = []
  entry_lines (ent ∷ entries) attr = elim ent.is_regular [
    | true ↦
        listed os ent.d_name (stat_into os s ent.d_name attr)
        ++ entry_lines entries (stat_into os s ent.d_name attr)
    | false ↦ entry_lines entries attr
  ]

  list_entries-entry_lines :
      (entries : List DirEntry) (attr : Stat) (count : ℕ) (out : Bytes)
      → list_entries os s entries attr count out
        ≡ (count + length (regular_names entries), out ++ entry_lines entries attr)
  unfolding list_entries
  list_entries-entry_lines [] attr count out =
      ap (λ k. (k, out)) (omega arith) ∙ ap (λ t. (count + 0, t)) (sym (append-nil out))
  list_entries-entry_lines (ent ∷ entries) attr count out = elim (Bool-cases ent.is_regular) [
    | inl regular ↦
        let found = stat_into os s ent.d_name attr in
        rw (regular, list_entries)
          (list_entries-entry_lines entries found (count + 1) (out ++ listed os ent.d_name found)
            ∙ pair (omega arith) (append_assoc out (listed os ent.d_name found) _))
    | inr other ↦ rw (other, list_entries) (list_entries-entry_lines entries attr count out)
  ]
    where
      pair : {k l : ℕ} {t u : Bytes} → k ≡ l → t ≡ u → ◌≡◌ {A = ℕ × Bytes} (k, t) (l, u)
      pair p q = λ i. (p i, q i)

Without-append : (c : ℕ) (s t : Bytes) → Without c s → Without c t → Without c (s ++ t)
Without-append c [] t h k = k
Without-append c (b ∷ s) t h k = (h.0, Without-append c s t h.1 k)

getline-line :
    (label t rest : Bytes)
    → Without b'\n' label
    → IsLine t
    → (line : Bytes) × (getline (label ++ (t ++ rest)) ≡ (line, rest))
getline-line label t rest h (line, e, plain) = (
  label ++ line,
  ap (λ t. getline (label ++ (t ++ rest))) e
      ∙ ap (λ t. getline (label ++ t)) (append_assoc line (b'\n' ∷ []) rest)
      ∙ ap getline (sym (append_assoc label line (b'\n' ∷ rest)))
      ∙ getline-append (label ++ line) rest (Without-append b'\n' label line h plain),
)

next_name-of :
    (l₀ l₁ l₂ l₃ l₄ s₀ s₁ s₂ s₃ s₄ s₅ : Bytes)
    → getline s₀ ≡ (l₀, s₁)
    → getline s₁ ≡ (l₁, s₂)
    → getline s₂ ≡ (l₂, s₃)
    → getline s₃ ≡ (l₃, s₄)
    → getline s₄ ≡ (l₄, s₅)
    → next_name s₀ ≡ (l₀, s₅)
unfolding next_name
next_name-of l₀ l₁ l₂ l₃ l₄ s₀ s₁ s₂ s₃ s₄ s₅ e₀ e₁ e₂ e₃ e₄ = cc

time_text-IsLine :
    (os : Os)
    → ((n : ℕ) (t : Bytes) → os.ctime n ≡ some t → IsLine t)
    → (n : ℕ) → IsLine (time_text os n)
time_text-IsLine os lines n = go (os.ctime n) refl
  where
    go :
        (o : Option Bytes) → os.ctime n ≡ o → IsLine (elim o [ none ↦ b'\n' ∷ [] | some tmp ↦ tmp ])
    go none e = ([], refl, tt)
    go (some t) e = lines n t e

listed-append :
    (os : Os) (name rest : Bytes) (attr : Stat)
    → listed os name attr ++ rest
      ≡ name
        ++ (b'\n'
            ∷ (text "\tCreated  at "
                ++ (time_text os attr.st_ctim
                    ++ (text "\tModified at "
                        ++ (time_text os attr.st_mtim
                            ++ (text "\tAccessed at "
                                ++ (time_text os attr.st_atim ++ (b'\n' ∷ rest))))))))
listed-append os name rest attr = simp append_assoc

names-nil : (fuel : ℕ) → names fuel [] ≡ []
unfolding names
names-nil zero = refl
names-nil (suc fuel) = refl

names-next :
    (fuel : ℕ) (s : Bytes)
    → 0 < length s
    → names (suc fuel) s ≡ (next_name s).0 ∷ names fuel (next_name s).1
unfolding names
names-next fuel [] h = absurd (omega arith)
names-next fuel (c ∷ s) h = refl

length-listed : (os : Os) (name : Bytes) (attr : Stat) → 14 ≤ length (listed os name attr)
length-listed os name attr = omega (arith, length-append name _)

length-entry_lines :
    (os : Os) (s : os.State) (entries : List DirEntry) (attr : Stat)
    → 14 * length (regular_names entries) ≤ length (entry_lines os s entries attr)
length-entry_lines os s [] attr = omega arith
length-entry_lines os s (ent ∷ entries) attr = elim (Bool-cases ent.is_regular) [
  | inl regular ↦
      let found = stat_into os s ent.d_name attr in
      rw regular (
        omega (
          arith,
          length-listed os ent.d_name found,
          length-append (listed os ent.d_name found) (entry_lines os s entries found),
          length-entry_lines os s entries found,
        ))
  | inr other ↦ rw other (length-entry_lines os s entries attr)
]

nil_of_length {ℓ} : {A : Type ℓ} {xs : List A} → length xs ≤ 0 → xs ≡ []
nil_of_length {xs = []} h = refl
nil_of_length {xs = x ∷ xs} h = absurd (omega arith)

pos_of_ne_nil {ℓ} : {A : Type ℓ} {xs : List A} → xs ≢ [] → 0 < length xs
pos_of_ne_nil {xs = []} h = absurd (h refl)
pos_of_ne_nil {xs = x ∷ xs} h = omega arith

two_parts : {s t : Bytes} {x : Bytes × Bytes} → x ≡ (s, t) → (x.0 ≡ s) × (x.1 ≡ t)
two_parts e = (ap (λ x. x.0) e, ap (λ x. x.1) e)

module _ (os : Os) (lines : (n : ℕ) (t : Bytes) → os.ctime n ≡ some t → IsLine t) where
  -- The five lines of a file are read back as its name.
  next_name-listed :
      (name rest : Bytes) (attr : Stat)
      → Without b'\n' name
      → next_name (listed os name attr ++ rest) ≡ (name, rest)
  next_name-listed name rest attr plain =
      let c = time_text os attr.st_ctim in
      let m = time_text os attr.st_mtim in
      let a = time_text os attr.st_atim in
      let end = a ++ (b'\n' ∷ rest) in
      let more = m ++ (text "\tAccessed at " ++ end) in
      let (l₁, e₁) =
        getline-line (text "\tCreated  at ") c (text "\tModified at " ++ more) (omega arith)
          (time_text-IsLine os lines attr.st_ctim) in
      let (l₂, e₂) =
        getline-line (text "\tModified at ") m (text "\tAccessed at " ++ end) (omega arith)
          (time_text-IsLine os lines attr.st_mtim) in
      let (l₃, e₃) =
        getline-line (text "\tAccessed at ") a (b'\n' ∷ rest) (omega arith)
          (time_text-IsLine os lines attr.st_atim) in
      ap next_name (listed-append os name rest attr)
      ∙ next_name-of name l₁ l₂ l₃ [] _ _ _ _ _ rest (getline-append name _ plain) e₁ e₂ e₃ refl

  names-entry_lines :
      (s : os.State) (fuel : ℕ) (entries : List DirEntry) (attr : Stat)
      → PlainNames entries
      → length (regular_names entries) ≤ fuel
      → names fuel (entry_lines os s entries attr) ≡ regular_names entries
  unfolding names
  names-entry_lines s fuel [] attr p h = names-nil fuel
  names-entry_lines s zero (ent ∷ entries) attr p h = sym (nil_of_length (omega arith))
  names-entry_lines s (suc fuel) (ent ∷ entries) attr p h = elim (Bool-cases ent.is_regular) [
    | inl regular ↦
        let found = stat_into os s ent.d_name attr in
        let rest = entry_lines os s entries found in
        let (first, left) = two_parts (next_name-listed ent.d_name rest found p.0) in
        let size : 0 < length (listed os ent.d_name found ++ rest) = omega (
          arith,
          length-listed os ent.d_name found,
          length-append (listed os ent.d_name found) rest,
        ) in
        rw regular (
          names-next fuel (listed os ent.d_name found ++ rest) size
          ∙ ap (λ x. x ∷ names fuel (next_name (listed os ent.d_name found ++ rest)).1) first
          ∙ ap (λ t. ent.d_name ∷ names fuel t) left
          ∙ ap (◌∷◌ ent.d_name)
              (names-entry_lines s fuel entries found p.1 (omega (arith, rw regular at h))))
    | inr other ↦
        rw other (names-entry_lines s (suc fuel) entries attr p.1 (omega (arith, rw other at h)))
  ]

  -- Listing a directory whose names are plain, into an empty text, counts its regular files, if a
  -- time is one line of text and there is such a file; and the loops over the listing then find
  -- exactly the names of these, in their order.
  pub listing_names-list_directory :
      (s : os.State) (path : Bytes) (entries : List DirEntry)
      → os.read_dir s path ≡ some entries
      → PlainNames entries
      → regular_names entries ≢ []
      → ((list_directory os path [] s).0 ≡ pos (length (regular_names entries)))
        × (listing_names (list_directory os path [] s).1 ≡ regular_names entries)
  unfolding list_directory listing_names
  listing_names-list_directory s path entries found plain some_file =
      let attr = os.stat_garbage s in
      let found_lines = entry_lines os s entries attr in
      let some_line : 0 < length (regular_names entries) = pos_of_ne_nil some_file in
      let size = length-entry_lines os s entries attr in
      let parsed : names (suc (length found_lines)) found_lines ≡ regular_names entries =
        names-entry_lines s (suc (length found_lines)) entries attr plain (omega (arith, size)) in
      rw (found, list_directory, list_entries-entry_lines)
        (ap pos (omega arith), ground (arith, size, parsed))
