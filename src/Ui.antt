-- ===== src/Ui.antt =====
-- The user interface of the server: `commons/ui/ui_template.cpp`, the object `frontend`. Other threads
-- write lines into its log, and its own thread moves them to the frame and prints the frame.
pub mod Logger
pub mod Lines
pub mod Threads
use dropbox_ufrgs_sisop.Prelude.{
  ℕ, zero, suc, ◌∷◌, [], ◌++◌, Bool, true, false, ◌&&◌, leb, if◌then◌else◌, Option, none, some,
  take, length,
}
use dropbox_ufrgs_sisop.Prelude.Int.{ℤ, pos, negsuc}
use dropbox_ufrgs_sisop.Prelude.Outcome.{M, done, blocked}
use dropbox_ufrgs_sisop.Bytes.{Bytes}
use dropbox_ufrgs_sisop.Text.{text, getline}
use dropbox_ufrgs_sisop.Text.Numbers.{to_string}

-- Who may hold a lock: the thread of the interface, a thread that logs, or the one that stops it.
pub data Thread : Type 0 where
  drawer : Thread
  logger : ℕ → Thread
  stopper : Thread

-- `struct winsize`
pub record WinSize : Type 0 where
  pub ws_row : ℕ
  pub ws_col : ℕ

-- The streams hold what is not read yet. `out` is all that went to `std::cout`. A lock is `none` when
-- it is free.
pub record Screen : Type 0 where
  pub log_stream : Bytes
  pub console_stream : Bytes
  pub frame_stream : Bytes
  pub write_lock : Option Thread
  pub stop_lock : Option Thread
  pub should_stop : Bool
  pub should_update : Bool
  pub size : WinSize
  pub out : Bytes

abbrev escape : Bytes → Bytes
escape code = 27 ∷ b'[' ∷ code

-- `ioctl` gives a size, or fails and leaves the old one.
abbrev pub refresh_size : Option WinSize → Screen → Screen
refresh_size none s = s
refresh_size (some found) s = record s { size = found }

-- `frontend` is a global object: what its constructor does not set is zero.
abbrev pub new : Option WinSize → Screen
new found = refresh_size found (record {
  log_stream = [];
  console_stream = [];
  frame_stream = [];
  write_lock = none;
  stop_lock = none;
  should_stop = false;
  should_update = false;
  size = record { ws_row = 0; ws_col = 0 };
  out = [];
})

abbrev pub get_term_lines : Screen → ℕ
get_term_lines s = s.size.ws_row

abbrev pub get_term_columns : Screen → ℕ
get_term_columns s = s.size.ws_col

-- The command that moves the cursor, as `snprintf` leaves it in 20 bytes.
abbrev pub cursor_command : ℕ → ℕ → Bytes
cursor_command lin col =
    take 19 (escape (to_string (pos lin) ++ (b';' ∷ to_string (pos col) ++ text "f")))

unfoldable pub mov_cursor : ℕ → ℕ → Screen → ℤ × Screen
mov_cursor lin col s =
    if leb lin (get_term_lines s) && leb col (get_term_columns s)
    then (pos 0, record s { frame_stream = s.frame_stream ++ cursor_command lin col })
    else (negsuc 0, s)

abbrev pub push_cursor_pos : Screen → Screen
push_cursor_pos s = record s { frame_stream = s.frame_stream ++ escape (text "s") }

abbrev pub pop_cursor_pos : Screen → Screen
pop_cursor_pos s = record s { frame_stream = s.frame_stream ++ escape (text "u") }

abbrev pub clear_command : Bytes
clear_command = escape (text "2J")

abbrev pub clear : Screen → Screen
clear s = record s { out = s.out ++ clear_command }

-- `pthread_mutex_lock` waits while the lock is taken; the two halves of `release_write_lock` are
-- separate, since the flag is set when others may have the lock already.
abbrev pub hold_write_lock : Thread → M Screen Unit
hold_write_lock me s = elim s.write_lock [
  | none ↦ done tt (record s { write_lock = some me })
  | some _ ↦ blocked s
]

abbrev pub unlock_write : Screen → Screen
unlock_write s = record s { write_lock = none }

abbrev pub ask_update : Screen → Screen
ask_update s = record s { should_update = true }

unfoldable pub release_write_lock : Screen → Screen
release_write_lock s = ask_update (unlock_write s)

-- The fill_frame of `stop_ui`; the lock is taken before it and released after.
abbrev pub set_stop : Screen → Screen
set_stop s = record s { should_stop = true }

unfoldable pub stop_ui : M Screen Unit
stop_ui s = elim s.stop_lock [ none ↦ done tt (set_stop s) | some _ ↦ blocked s ]

-- `while (stream.rdbuf()->in_avail() > 0)`: line after line is read and appended with its end.
unfoldable pub read_lines : ℕ → Bytes → Bytes → Option Bytes
read_lines fuel acc [] = some acc
read_lines zero acc (c ∷ s) = none
read_lines (suc fuel) acc (c ∷ s) =
    let (line, rest) = getline (c ∷ s) in read_lines fuel (acc ++ (line ++ b'\n' ∷ [])) rest

-- What `run_ui` does before its loop, with `stop_lock` free.
unfoldable pub enter : Screen → Screen
enter s = (mov_cursor 0 0 (record s { should_stop = false })).1

-- The body of the loop under `write_lock`: the flag is cleared and the terminal too; both streams are
-- read; then the frame is what was read and the log is empty.
abbrev pub erase : Screen → Screen
erase s = clear (record s { should_update = false })

unfoldable pub read_streams : Screen → Option Bytes
read_streams s = elim (read_lines (length s.frame_stream) [] s.frame_stream) [
  | none ↦ none
  | some prev_logs ↦ read_lines (length s.log_stream) prev_logs s.log_stream
]

abbrev pub fill_frame : Bytes → Screen → Screen
fill_frame lines s = record s { frame_stream = lines; log_stream = []; console_stream = [] }

abbrev pub show : Screen → Screen
show s = record s { out = s.out ++ s.frame_stream }
