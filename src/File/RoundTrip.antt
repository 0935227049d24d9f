-- ===== src/File/RoundTrip.antt =====
-- A file sent as a payload.
use dropbox_ufrgs_sisop.Socket.Loop.{take-all}
use native.Mathlib.Nat.{mod-eq_of_lt}
use dropbox_ufrgs_sisop.Prelude.Int.{pos, to_unsigned, to_unsigned-to_int}
use dropbox_ufrgs_sisop.Prelude.Outcome.{done}
use dropbox_ufrgs_sisop.Os.{Os, contents}
use dropbox_ufrgs_sisop.Prelude.{
  ℕ, suc, ◌+◌, ◌-◌, ◌<◌, ◌≤◌, ◌≡◌, ◌^◌, refl, sym, ap, ◌∙◌, ◌++◌, some, none, arith, length, drop,
  replicate, length-append, length-replicate, drop-length-append, append_assoc, [], Bool, ◌%◌,
  if◌then◌else◌, ltb, true, false, lt→ltb,
}
use dropbox_ufrgs_sisop.Prelude.OptionMonad.{◌>>=◌}
use dropbox_ufrgs_sisop.Bytes.{
  Bytes, NoNul, le_bytes, of_le-le_bytes, c_str-NoNul, c_string, c_string-append, has_nul,
  c_string-has_nul, c_string_unended,
}
use dropbox_ufrgs_sisop.Packet.{copy_bytes}
use dropbox_ufrgs_sisop.Packet.Header.{copy_bytes-append, copy_bytes_self}
use dropbox_ufrgs_sisop.File.{
  File, SerializedFile, filename_max, fill_name, serialize, deserialize, to_data, from_data,
  get_payload_size, read_file, in_directory, guard, packet_size,
}

-- What the format can carry: a name of at most 255 bytes, and a size that an `int` holds.
pub record IsFile (f : File) : Type 0 where
  pub name_fits : length f.filename < filename_max
  pub name_ends : NoNul f.filename
  pub size_fits : f.file_size < 2 ^ 31
  pub owns : length f.bytes ≡ f.file_size

-- The name in its 256 bytes.
abbrev padded_name : File → Bytes
padded_name f = f.filename ++ replicate (filename_max - length f.filename) 0

-- The payload of such a file.
abbrev pub payload_of : File → Bytes
payload_of f = le_bytes 4 f.file_size ++ (padded_name f ++ f.bytes)

abbrev pub serialized : File → SerializedFile
serialized f = record { file_size = f.file_size; filename = padded_name f; bytes = f.bytes }

length-padded_name : (f : File) → IsFile f → length (padded_name f) ≡ filename_max
length-padded_name f v = omega (
  arith,
  length-append f.filename (replicate (filename_max - length f.filename) 0),
  length-replicate {A = ℕ} (filename_max - length f.filename) 0,
  v.name_fits,
)

serialize-IsFile : (f : File) → IsFile f → serialize f ≡ some (serialized f)
unfolding serialize fill_name
serialize-IsFile f v =
    rw (c_str-NoNul f.filename v.name_ends, copy_bytes_self f.file_size f.bytes (sym v.owns))
      (ground (arith, v.name_fits))

pub to_data-IsFile : (f : File) → IsFile f → to_data f ≡ some (payload_of f)
unfolding to_data
to_data-IsFile f v = rw (serialize-IsFile f v)

c_string-padded_name : (f : File) → IsFile f → c_string (padded_name f) ≡ some f.filename
c_string-padded_name f v =
    ap (λ k. c_string (f.filename ++ replicate k 0)) one_left
    ∙ c_string-append f.filename (replicate (filename_max - length f.filename - 1) 0) v.name_ends
  where
    one_left : filename_max - length f.filename ≡ suc (filename_max - length f.filename - 1)
    one_left = omega (arith, v.name_fits)

pub deserialize-serialized : (f : File) → IsFile f → deserialize (serialized f) ≡ some f
unfolding deserialize
deserialize-serialized f v =
    rw (c_string-padded_name f v, copy_bytes_self f.file_size f.bytes (sym v.owns))

copy_bytes-name :
    (f : File) (rest : Bytes)
    → IsFile f
    → copy_bytes filename_max ((padded_name f ++ f.bytes) ++ rest) ≡ some (padded_name f)
copy_bytes-name f rest v =
    ap (copy_bytes filename_max) (append_assoc (padded_name f) f.bytes rest)
    ∙ copy_bytes-append filename_max (padded_name f) (f.bytes ++ rest)
        (sym (length-padded_name f v))

drop-name :
    (f : File) (rest : Bytes)
    → IsFile f
    → drop filename_max ((padded_name f ++ f.bytes) ++ rest) ≡ f.bytes ++ rest
drop-name f rest v =
    ap (drop filename_max) (append_assoc (padded_name f) f.bytes rest)
    ∙ ap (λ k. drop k (padded_name f ++ (f.bytes ++ rest))) (sym (length-padded_name f v))
    ∙ drop-length-append (padded_name f) (f.bytes ++ rest)

copy_bytes-data :
    (f : File) (rest : Bytes)
    → IsFile f
    → copy_bytes f.file_size (drop (4 + filename_max) (payload_of f ++ rest)) ≡ some f.bytes
copy_bytes-data f rest v =
    ap (copy_bytes f.file_size) (drop-name f rest v)
    ∙ copy_bytes-append f.file_size f.bytes rest (sym v.owns)

from_data-read :
    (f : File) (rest : Bytes)
    → IsFile f
    → from_data (payload_of f ++ rest)
      ≡ (c_string f.bytes >>= (λ _. guard (ltb f.file_size (2 ^ 31)) (serialized f)))
unfolding from_data
from_data-read f rest v = rw (
  copy_bytes-append 4 (le_bytes 4 f.file_size) ((padded_name f ++ f.bytes) ++ rest) refl,
  of_le-le_bytes 4 f.file_size (omega (arith, v.size_fits)),
  copy_bytes-name f rest v,
  copy_bytes-data f rest v,
)

pub from_data-payload_of :
    (f : File) (rest : Bytes)
    → IsFile f
    → has_nul f.bytes ≡ true
    → from_data (payload_of f ++ rest) ≡ some (serialized f)
from_data-payload_of f rest v nul =
    let (text, read) = c_string-has_nul f.bytes nul in
    from_data-read f rest v ∙ rw read (ground (arith, v.size_fits))

pub length-payload_of : (f : File) → IsFile f → length (payload_of f) ≡ packet_size f
unfolding get_payload_size
length-payload_of f v =
    total ∙ sym (to_unsigned-to_int (f.file_size + 4 + filename_max) (omega (arith, v.size_fits)))
  where
    total : length (payload_of f) ≡ f.file_size + 4 + filename_max
    total = omega (arith, length-append (padded_name f) f.bytes, length-padded_name f v, v.owns)

-- What the receiver makes of the payload of a file.
from_data-cases :
    (f : File) (rest : Bytes) (b : Bool)
    → IsFile f
    → has_nul f.bytes ≡ b
    → (from_data (payload_of f ++ rest) >>= deserialize) ≡ (if b then some f else none)
from_data-cases f rest true v nul =
    rw (from_data-payload_of f rest v nul) (deserialize-serialized f v)
from_data-cases f rest false v missing =
    rw (from_data-read f rest v) (rw (c_string_unended f.bytes missing) refl)

-- A file within the limits of the format is sent as a payload of as many bytes as `get_payload_size`
-- gives, as an unsigned number. If the data hold a NUL the receiver has the same file back, also when
-- more bytes follow the payload; if they hold none, it reads past the end of its copy of the data.
pub from_data-to_data :
    (f : File) (rest : Bytes)
    → IsFile f
    → (payload : Bytes) × (to_data f ≡ some payload)
      × (length payload ≡ to_unsigned 32 (get_payload_size f))
      × ((from_data (payload ++ rest) >>= deserialize) ≡ (if has_nul f.bytes then some f else none))
from_data-to_data f rest v = (
  payload_of f,
  to_data-IsFile f v,
  length-payload_of f v,
  from_data-cases f rest (has_nul f.bytes) v refl,
)

-- A name of 256 bytes or more, with no NUL in it, has no defined payload: the copy of the name
-- overruns its buffer.
pub to_data_long_name :
    (f : File) → NoNul f.filename → filename_max ≤ length f.filename → to_data f ≡ none
unfolding to_data serialize fill_name
to_data_long_name f ends long = rw (c_str-NoNul f.filename ends) (ground arith)

-- A file as it is read.
pub read_sized :
    (os : Os) (f : File) (path : Bytes) (s : os.State)
    → f.file_size < 2 ^ 31
    → length f.bytes ≡ f.file_size
    → os.read_file s (in_directory path f.filename) ≡ contents f.bytes
    → read_file os (record { filename = f.filename; bytes = []; file_size = 0 }) path s
      ≡ done (f, pos 0) s
unfolding read_file
read_sized os f path s fits owns found =
    let small : length f.bytes % 2 ^ 32 ≡ f.file_size =
      mod-eq_of_lt (omega (arith, owns, fits)) ∙ owns in
    rw (found, read_file)
      (rw (small, lt→ltb f.file_size (2 ^ 31) fits, take-all f.bytes f.file_size (sym owns)) refl)

pub read_found :
    (os : Os) (f : File) (path : Bytes) (s : os.State)
    → IsFile f
    → os.read_file s (in_directory path f.filename) ≡ contents f.bytes
    → read_file os (record { filename = f.filename; bytes = []; file_size = 0 }) path s
      ≡ done (f, pos 0) s
read_found os f path s v found = read_sized os f path s v.size_fits v.owns found
