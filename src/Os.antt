-- ===== src/Os.antt =====
-- What the program asks of the operating system and the C++ library. None of it is in the
-- repository, so it is a parameter of the model: a state that nobody looks into, and the calls that
-- read and change it.
pub mod Stream
use dropbox_ufrgs_sisop.Prelude.{ℕ, Bool, List, Option}
use dropbox_ufrgs_sisop.Prelude.Int.{ℤ}
use dropbox_ufrgs_sisop.Bytes.{Bytes}

-- The answer of `read` on a socket: some bytes, 0 for the end of the stream, or -1.
pub data Recv : Type 0 where
  got : Bytes → Recv
  eof : Recv
  failed : Recv

-- The stream of a file opened for reading: not open, read to its end, or no longer `good` after the
-- read.
pub data FileRead : Type 0 where
  not_open : FileRead
  contents : Bytes → FileRead
  bad_read : FileRead

-- One `dirent`; the flag is `d_type == DT_REG`.
pub record DirEntry : Type 0 where
  pub d_name : Bytes
  pub is_regular : Bool

-- The three times of a `struct stat`.
pub record Stat : Type 0 where
  pub st_ctim : ℕ
  pub st_mtim : ℕ
  pub st_atim : ℕ

pub record Os : Type 1 where
  pub State : Type 0
  -- what `n` bytes of memory hold that nothing has written
  pub garbage : State → ℕ → Bytes
  -- `read(fd, _, n)`, `write(fd, bytes, _)`, `close(fd)`
  pub recv : State → ℕ → ℕ → Recv × State
  pub send : State → ℕ → Bytes → ℤ × State
  pub close : State → ℕ → State
  -- `socket(AF_INET, _, 0)`, and whether `gethostbyname` finds a host
  pub socket : State → ℤ × State
  pub resolves : State → Bytes → Bool
  -- the four bytes of the address that `inet_aton` reads from a text
  pub inet_aton : Bytes → Option Bytes
  pub errno : State → ℕ
  pub mkdir : State → Bytes → ℤ × State
  -- `opendir` with all that `readdir` gives then
  pub read_dir : State → Bytes → Option (List DirEntry)
  pub stat : State → Bytes → Option Stat
  -- a `struct stat` that nothing has written
  pub stat_garbage : State → Stat
  pub ctime : ℕ → Option Bytes
  pub read_file : State → Bytes → FileRead
  pub write_file : State → Bytes → Bytes → Option State
  pub remove : State → Bytes → Option State
  pub getcwd : State → Option Bytes
  -- `inotify_add_watch` on a path
  pub watch : State → Bytes → State
  -- `connect` of a socket to a host and port
  pub connect : State → ℕ → Bytes → ℤ → ℤ × State
  -- a datagram socket, or -1
  pub socket_udp : State → ℤ × State
  -- `sendto` an address, and `recvfrom` with room for `n` bytes: the bytes that it has put at the
  -- front of the buffer, none where it fails
  pub sendto : State → ℤ → Bytes → Bytes → State
  pub recvfrom : State → ℤ → ℕ → Bytes × State
  -- `bind` to a port of this host, `listen` with a queue, and `accept`
  pub bind_port : State → ℤ → ℤ → ℤ × State
  pub listen : State → ℤ → ℤ → ℤ × State
  pub accept : State → ℤ → ℤ × State
