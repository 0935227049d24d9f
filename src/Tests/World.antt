-- ===== src/Tests/World.antt =====
-- An operating system with one stream, which gives a byte at a time; every call of `write` takes all
-- its bytes, a directory holds one file and one directory, and no file can be removed.
use dropbox_ufrgs_sisop.Prelude.{
  ℕ, List, [], ◌∷◌, none, some, true, false, length, replicate, ◌≡◌, ◌≢◌, refl, ◌<◌, ◌≤◌, ◌++◌,
  arith, length-replicate, subst, ap,
}
use dropbox_ufrgs_sisop.Prelude.Int.{pos}
use dropbox_ufrgs_sisop.Bytes.{Bytes}
use dropbox_ufrgs_sisop.Text.{text}
use dropbox_ufrgs_sisop.FileManager.Listing.{IsLine}
use dropbox_ufrgs_sisop.Os.{Os, Recv, got, eof, not_open, DirEntry, Stat}
use dropbox_ufrgs_sisop.Os.Stream.{IsStream}

abbrev pub one_byte : Bytes → ℕ → ℕ → Recv × Bytes
one_byte [] fd k = (eof, [])
one_byte (b ∷ bs) fd k = (got (b ∷ []), bs)

abbrev pub no_times : Stat
no_times = record { st_ctim = 0; st_mtim = 0; st_atim = 0 }

abbrev pub two_entries : List DirEntry
two_entries =
    record { d_name = text "a.txt"; is_regular = true }
    ∷ record { d_name = text ".."; is_regular = false }
    ∷ []

abbrev pub noon : Bytes
noon = text "12:00\n"

abbrev pub world : Os
world = record {
  State = Bytes;
  garbage = λ s n. replicate n 0;
  recv = one_byte;
  send = λ s fd bytes. (pos (length bytes), s);
  close = λ s fd. s;
  socket = λ s. (pos 7, s);
  resolves = λ s name. true;
  inet_aton = λ ip. some (127 ∷ 0 ∷ 0 ∷ 1 ∷ []);
  errno = λ s. 0;
  mkdir = λ s path. (pos 0, s);
  read_dir = λ s path. some two_entries;
  stat = λ s path. some no_times;
  stat_garbage = λ s. no_times;
  ctime = λ n. some noon;
  read_file = λ s path. not_open;
  write_file = λ s path bytes. some s;
  remove = λ s path. none;
  getcwd = λ s. some (text "/srv");
  watch = λ s path. s;
  connect = λ s fd host port. (pos 0, s);
  socket_udp = λ s. (pos 8, s);
  sendto = λ s fd bytes address. s;
  recvfrom = λ s fd n. ([], s);
  bind_port = λ s fd port. (pos 0, s);
  listen = λ s fd size. (pos 0, s);
  accept = λ s fd. (pos 9, s);
}

pub recv-one_byte :
    (s : Bytes) (fd k : ℕ)
    → 0 < k
    → s ≢ []
    → (bs : Bytes) × (t : Bytes) × (one_byte s fd k ≡ (got bs, t))
      × (bs ≢ [])
      × (length bs ≤ k)
      × (s ≡ bs ++ t)
recv-one_byte [] fd k h some_bytes = absurd (some_bytes refl)
recv-one_byte (b ∷ bs) fd k h some_bytes = (b ∷ [], bs, refl, (λ e. cc), omega arith, refl)

abbrev pub world_stream : IsStream world
world_stream = record {
  pending = λ s fd. s;
  recv-pending = recv-one_byte;
  length-garbage = λ s n. length-replicate n 0;
}

pub noon-IsLine : (n : ℕ) (t : Bytes) → some noon ≡ some t → IsLine t
noon-IsLine n t e =
    subst IsLine (ap (λ o. elim o [ none ↦ [] | some line ↦ line ]) e)
      (text "12:00", refl, omega arith)
