-- ===== src/FileManager.antt =====
-- `commons/file_manager/file_manager.cpp`: directories made and listed, and the loops that take a
-- listing apart again (`Manager::sync_files` of the server, `packet_listener` of the client).
pub mod Listing
use dropbox_ufrgs_sisop.Prelude.{
  Bool, true, false, ℕ, zero, suc, ◌+◌, List, [], ◌∷◌, ◌++◌, Option, none, some, length, ltb, ◌==◌,
  if◌then◌else◌,
}
use dropbox_ufrgs_sisop.Prelude.Int.{ℤ, pos, negsuc}
use dropbox_ufrgs_sisop.Prelude.Outcome.{done, M}
use dropbox_ufrgs_sisop.Bytes.{Bytes}
use dropbox_ufrgs_sisop.Text.{text, getline}
use dropbox_ufrgs_sisop.Os.{Os, DirEntry, Stat}

-- `EEXIST` of Linux
abbrev pub eexist : ℕ
eexist = 17

module _ (os : Os) where
  -- `FileManager::create_directory`, with the `base_path` of the manager. It looks at `errno` also
  -- where `mkdir` has succeeded and not set it.
  unfoldable pub create_directory : Bytes → Bytes → M os.State ℤ
  create_directory base_path path s =
      let (err, t) = os.mkdir s (base_path ++ path) in
      done (if os.errno t == eexist then pos 1 else err) t

  -- `tmp == NULL ? "\n" : tmp`
  abbrev pub time_text : ℕ → Bytes
  time_text time = elim (os.ctime time) [ none ↦ b'\n' ∷ [] | some tmp ↦ tmp ]

  -- The lines that a listing has for one file.
  abbrev pub listed : Bytes → Stat → Bytes
  listed name attr =
      name
      ++ (b'\n'
          ∷ (text "\tCreated  at "
              ++ (time_text attr.st_ctim
                  ++ (text "\tModified at "
                      ++ (time_text attr.st_mtim
                          ++ (text "\tAccessed at "
                              ++ (time_text attr.st_atim ++ (b'\n' ∷ []))))))))

  -- What `attr` holds after `stat(ent->d_name, &attr)`; a failure leaves it alone.
  abbrev pub stat_into : os.State → Bytes → Stat → Stat
  stat_into s name attr = elim (os.stat s name) [ none ↦ attr | some found ↦ found ]

  -- The loop over the entries of the directory, with `count` and `out`.
  unfoldable pub list_entries : os.State → List DirEntry → Stat → ℕ → Bytes → ℕ × Bytes
  list_entries s [] attr count out = (count, out)
  list_entries s (ent ∷ entries) attr count out = elim ent.is_regular [
    | true ↦
        let found = stat_into s ent.d_name attr in
        list_entries s entries found (count + 1) (out ++ listed ent.d_name found)
    | false ↦ list_entries s entries attr count out
  ]

  -- `FileManager::list_directory`, from the text that `out` holds to the count and the text after it
  unfoldable pub list_directory : Bytes → Bytes → os.State → ℤ × Bytes
  list_directory path out s = elim (os.read_dir s path) [
    | none ↦ (negsuc 0, out ++ (b'\n' ∷ []))
    | some entries ↦
        let (count, found) = list_entries s entries (os.stat_garbage s) 0 (out ++ (b'\n' ∷ [])) in
        (pos count, if ltb (length found) 5 then text "Empty folder\n" else found)
  ]

-- `getline(sfs, filename); for (int i = 0; i < 4; i++) { getline(sfs, _meta); }`
unfoldable pub next_name : Bytes → Bytes × Bytes
next_name s =
    let (filename, s₁) = getline s in
    let (created, s₂) = getline s₁ in
    let (modified, s₃) = getline s₂ in
    let (accessed, s₄) = getline s₃ in let (blank, s₅) = getline s₄ in (filename, s₅)

-- `while (sfs.rdbuf()->in_avail() > 0)`, with a round for each byte at most: the names that the
-- rounds find.
unfoldable pub names : ℕ → Bytes → List Bytes
names zero s = []
names (suc fuel) [] = []
names (suc fuel) (c ∷ s) = let (filename, rest) = next_name (c ∷ s) in filename ∷ names fuel rest

-- The first line of a listing is skipped before the loop.
unfoldable pub listing_names : Bytes → List Bytes
listing_names out = names (length out) (getline out).1
