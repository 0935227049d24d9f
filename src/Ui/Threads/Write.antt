-- ===== src/Ui/Threads/Write.antt =====
-- A call of `info`, `warning` or `error` as a whole, and the steps that it takes.
use dropbox_ufrgs_sisop.Prelude.{
  ℕ, ◌≡◌, refl, List, [], ◌∷◌, ◌++◌, Option, none, arith, subst, append-nil,
}
use dropbox_ufrgs_sisop.Prelude.Outcome.{done}
use dropbox_ufrgs_sisop.Bytes.{Bytes}
use dropbox_ufrgs_sisop.Ui.{WinSize, logger, release_write_lock}
use dropbox_ufrgs_sisop.Ui.Logger.{Level, Logger, entry, write}
use dropbox_ufrgs_sisop.Ui.Threads.{
  Machine, Writing, Reach, Step, at, away, has_lock, written, unlocked, hold, log, release, flag,
  next,
}

quietly :
    {found : Option WinSize} {logged : List Bytes} {m n : Machine}
    → Reach found logged m
    → Step m [] n
    → Reach found logged n
quietly {found} {logged} {n = n} r step =
    subst (λ ls. Reach found ls n) (append-nil logged) (next r step)

itself : (i : ℕ) (w : Writing) (loggers : ℕ → Writing) → at i w loggers i ≡ w
itself i w loggers = ground arith

-- A call with the lock free does what its four steps do, with none of another thread between them: it
-- returns the logger, and the screen after it can be reached, with its line behind those logged before.
pub write-Reach :
    {found : Option WinSize} {logged : List Bytes} {m : Machine} (i : ℕ) (level : Level)
    (l : Logger)
    → Reach found logged m
    → m.loggers i ≡ away
    → m.screen.write_lock ≡ none
    → (n : Machine) × Reach found (logged ++ (entry level l ∷ [])) n
      × (write (logger i) level l m.screen ≡ done l n.screen)
unfolding write release_write_lock
write-Reach {m = m} i level l r here free = (
  _,
  quietly
      (quietly (next (quietly r (hold i here free)) (log i level l (itself i has_lock m.loggers)))
        (release i (itself i written (at i has_lock m.loggers))))
      (flag i (itself i unlocked (at i written (at i has_lock m.loggers)))),
  rw (free) refl,
)
