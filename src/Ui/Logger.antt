-- ===== src/Ui/Logger.antt =====
-- The loggers: `commons/ui/cli_types.cpp`. Each method changes the object and returns a copy of it.
use dropbox_ufrgs_sisop.Prelude.{
  [], ◌∷◌, ◌++◌, Option, none, some, length, leb, if◌then◌else◌, take,
}
use dropbox_ufrgs_sisop.Prelude.Outcome.{M, done, bind}
use dropbox_ufrgs_sisop.Prelude.Int.{ℤ, pos, negsuc}
use dropbox_ufrgs_sisop.Bytes.{Bytes, c_str}
use dropbox_ufrgs_sisop.Text.{text}
use dropbox_ufrgs_sisop.Ui.{Screen, Thread, hold_write_lock, release_write_lock}

pub record Logger : Type 0 where
  pub datestamp : Bytes
  pub message : Bytes

-- `cli_logger(stream)`
abbrev pub new : Logger
new = record { datestamp = []; message = [] }

-- The object after the call, and the copy.
abbrev pub set : Bytes → Logger → Logger × Logger
set message l = (record l { message = message }, record l { message = message })

-- What `strftime` writes with the NUL after it, at most 28 bytes, goes into a buffer of 26.
unfoldable pub stamp : Bytes → Logger → Option (Logger × Logger)
stamp written l =
    if leb (length written) 25
    then some (record l { datestamp = written }, record l { datestamp = written })
    else none

-- `log`, on a file with these contents, or one that is not open
unfoldable pub log : Logger → Option Bytes → ℤ × Option Bytes
log l none = (negsuc 0, none)
log l (some file) = (pos 0, some (file ++ (l.datestamp ++ (l.message ++ b'\n' ∷ []))))

-- The three levels: `info`, `warning` and `error`.
pub data Level : Type 0 where
  info warning error : Level

abbrev colour : Level → Bytes
colour info = text "[34m"
colour warning = text "[33m"
colour error = text "[31m"

abbrev title : Level → Bytes
title info = text "INFO:"
title warning = text "WARNING:"
title error = text "ERROR:"

-- The text that `snprintf` leaves in a buffer of 256 bytes.
unfoldable pub entry : Level → Logger → Bytes
entry level l = take 255 (
    27 ∷ colour level
    ++ (c_str l.datestamp ++ (title level ++ (27 ∷ text "[0m " ++ c_str l.message))))

-- `stream << buffer << std::endl`
abbrev pub put_line : Bytes → Screen → Screen
put_line line s = record s { log_stream = s.log_stream ++ (line ++ b'\n' ∷ []) }

-- `info`, `warning` and `error`, by the thread `me`.
unfoldable pub write : Thread → Level → Logger → M Screen Logger
write me level l s =
    bind (hold_write_lock me s) (λ _ t. done l (release_write_lock (put_line (entry level l) t)))
