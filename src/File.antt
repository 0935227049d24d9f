-- ===== src/File.antt =====
-- `commons/file_manager/file.cpp`: a file in memory, on disk, and as the payload of a packet. The
-- payload is the size as an `int`, the name in 256 bytes, and the data. `from_data` makes a
-- string of the data, which it does not use, and so reads to the first NUL of the data.
pub mod RoundTrip
use dropbox_ufrgs_sisop.Prelude.{
  Bool, ℕ, ◌+◌, ◌-◌, ◌^◌, ◌++◌, ◌∷◌, Option, none, some, length, take, drop, replicate, ltb,
  if◌then◌else◌, ◌%◌,
}
use dropbox_ufrgs_sisop.Prelude.OptionMonad.{◌>>=◌}
use dropbox_ufrgs_sisop.Prelude.Int.{ℤ, pos, negsuc, to_int, to_unsigned}
use dropbox_ufrgs_sisop.Prelude.Outcome.{Outcome, done, fault, M}
use dropbox_ufrgs_sisop.Bytes.{Bytes, le_bytes, of_le, c_string, c_str}
use dropbox_ufrgs_sisop.Os.{Os, not_open, contents, bad_read}
use dropbox_ufrgs_sisop.Packet.{copy_bytes}

-- `class File`
pub record File : Type 0 where
  pub filename : Bytes
  pub bytes : Bytes
  pub file_size : ℕ

-- `serialized_file_t`; `filename` holds 256 bytes.
pub record SerializedFile : Type 0 where
  pub file_size : ℕ
  pub filename : Bytes
  pub bytes : Bytes

abbrev pub filename_max : ℕ
filename_max = 256

-- `strcpy` into the zeroed `char filename[256]`, which a longer name overruns.
unfoldable pub fill_name : Bytes → Option Bytes
fill_name name =
    if ltb (length name) filename_max
    then some (name ++ replicate (filename_max - length name) 0)
    else none

-- `File::serialize`; `none` is undefined behaviour, here and below.
unfoldable pub serialize : File → Option SerializedFile
serialize f = do
  name ← fill_name (c_str f.filename)
  block ← copy_bytes f.file_size f.bytes
  some (record { file_size = f.file_size; filename = name; bytes = block })

-- `File::deserialize`
unfoldable pub deserialize : SerializedFile → Option File
deserialize f = do
  name ← c_string f.filename
  block ← copy_bytes f.file_size f.bytes
  some (record { filename = name; bytes = block; file_size = f.file_size })

-- `File::to_data`
unfoldable pub to_data : File → Option Bytes
to_data f = do s ← serialize f; some (le_bytes 4 s.file_size ++ (s.filename ++ s.bytes))

-- `some` under a condition
abbrev pub guard : Bool → SerializedFile → Option SerializedFile
guard b f = if b then some f else none

-- `File::from_data`. A size with the sign bit set makes `new` throw, and the string `_data`
-- needs a NUL in the block.
unfoldable pub from_data : Bytes → Option SerializedFile
from_data payload = do
  size_bytes ← copy_bytes 4 payload
  let size = of_le size_bytes
  name ← copy_bytes filename_max (drop 4 payload)
  block ← copy_bytes size (drop (4 + filename_max) payload)
  _ ← c_string block
  guard (ltb size (2 ^ 31)) (record { file_size = size; filename = name; bytes = block })

-- `File::get_payload_size`, whose sum is unsigned and whose result is an `int`
unfoldable pub get_payload_size : File → ℤ
get_payload_size f = to_int ((f.file_size + 4 + filename_max) % 2 ^ 32)

-- The size as an `uint32_t`, which `build_packet_sized` takes.
abbrev pub packet_size : File → ℕ
packet_size f = to_unsigned 32 (get_payload_size f)

-- `'/'`
abbrev pub in_directory : Bytes → Bytes → Bytes
in_directory path name = path ++ (b'/' ∷ name)

module _ (os : Os) where
  -- `File::read_file`. A size that is negative as an `int` makes `new` throw.
  unfoldable pub read_file : File → Bytes → M os.State (File × ℤ)
  read_file f path s = elim (os.read_file s (in_directory path f.filename)) [
    | not_open ↦ done (f, negsuc 0) s
    | contents bytes ↦
        let size = length bytes % 2 ^ 32 in
        if ltb size (2 ^ 31)
        then done (record f { bytes = take size bytes; file_size = size }, pos 0) s
        else fault
    | bad_read ↦ done (f, negsuc 0) s
  ]

  -- `File::write_file`, which writes `file_size` bytes and does not look whether they were written
  unfoldable pub write_file : File → Bytes → M os.State ℤ
  write_file f path s = elim (copy_bytes f.file_size f.bytes) [
    | none ↦ fault
    | some block ↦ elim (os.write_file s (in_directory path f.filename) block) [
      | none ↦ done (negsuc 0) s
      | some t ↦ done (pos 0) t
    ]
  ]
