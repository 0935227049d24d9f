-- ===== src/Ui/Threads/Locks.antt =====
-- Who has `write_lock`, while the interface of `commons/ui/ui_template.cpp` and the loggers run.
use dropbox_ufrgs_sisop.Prelude.{ℕ, ◌≡◌, List, Bool, true, false, Option, none, some, arith}
use dropbox_ufrgs_sisop.Bytes.{Bytes}
use dropbox_ufrgs_sisop.Ui.{WinSize, drawer, logger, enter, mov_cursor}
use dropbox_ufrgs_sisop.Ui.Threads.{
  Machine, Place, Writing, Step, Reach, drawing, reading, has_read, stored, has_lock, written,
  start, go_on, told, once_more, leave, begin, nothing, update, lock, clear_flag, read, put, unlock,
  print, finish, hold, log, release, flag, stop, here, next,
}

-- Between the lock and the unlock.
abbrev pub draws : Place → Bool
draws drawing = true
draws reading = true
draws (has_read _) = true
draws stored = true
draws _ = false

abbrev pub writes : Writing → Bool
writes has_lock = true
writes written = true
writes _ = false

-- Who is between them has the lock.
pub record IsLocked (m : Machine) : Type 0 where
  pub by_logger : (i : ℕ) → writes (m.loggers i) ≡ true → m.screen.write_lock ≡ some (logger i)
  pub by_drawer : draws m.place ≡ true → m.screen.write_lock ≡ some drawer

Step-IsLocked : {m n : Machine} {lines : List Bytes} → Step m lines n → IsLocked m → IsLocked n
unfolding enter mov_cursor
Step-IsLocked (start p f) v = ground arith
Step-IsLocked (go_on p _) v = ground arith
Step-IsLocked (told p _) v = ground arith
Step-IsLocked (once_more p _) v = ground arith
Step-IsLocked (leave p _) v = ground arith
Step-IsLocked (begin none p _) v = ground arith
Step-IsLocked (begin (some x) p _) v = ground arith
Step-IsLocked (nothing p _) v = ground arith
Step-IsLocked (update p _) v = ground arith
Step-IsLocked (lock p f) v = ground arith
Step-IsLocked (clear_flag p) v = ground arith
Step-IsLocked (read lines p _) v = ground arith
Step-IsLocked (put lines p) v = ground arith
Step-IsLocked (unlock p) v = ground arith
Step-IsLocked (print p) v = ground arith
Step-IsLocked (finish p) v = ground arith
Step-IsLocked (hold i a f) v = ground arith
Step-IsLocked (log i level l a) v = ground arith
Step-IsLocked {m} (release i a) v = ground (arith, v.by_logger i)
Step-IsLocked (flag i a) v = ground arith
Step-IsLocked (stop f) v = ground arith

pub Reach-IsLocked :
    {found : Option WinSize} {logged : List Bytes} {m : Machine} → Reach found logged m → IsLocked m
Reach-IsLocked {found = none} here = ground arith
Reach-IsLocked {found = some x} here = ground arith
Reach-IsLocked (next r s) = Step-IsLocked s (Reach-IsLocked r)
