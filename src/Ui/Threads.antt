-- ===== src/Ui/Threads.antt =====
-- The thread of the interface (`run_ui` of `commons/ui/ui_template.cpp`) with any number of threads that
-- log (`info`, `warning` and `error` of `commons/ui/cli_types.cpp`) and one that calls `stop_ui`, an
-- access to what they share at a time.
pub mod Locks
pub mod Asked
pub mod OnScreen
pub mod Kept
pub mod Write
pub mod Shown
use dropbox_ufrgs_sisop.Prelude.{
  ℕ, ◌≡◌, List, [], ◌∷◌, ◌++◌, Bool, true, false, ◌==◌, if◌then◌else◌, Option, none, some,
}
use dropbox_ufrgs_sisop.Bytes.{Bytes}
use dropbox_ufrgs_sisop.Ui.{
  Screen, Thread, WinSize, drawer, logger, new, enter, refresh_size, erase, read_streams,
  fill_frame, show, unlock_write, ask_update, set_stop,
}
use dropbox_ufrgs_sisop.Ui.Logger.{Level, Logger, entry, put_line}

-- Where `run_ui` stands.
pub data Place : Type 0 where
  before : Place  -- before its first line
  head : Place  -- at the test of the loop
  stopping : Place  -- it has seen `should_stop`, and is to look at `should_update`
  waiting : Place  -- before it takes `stop_lock`
  inside : Place  -- at the test of `should_update`
  locking : Place  -- before it takes `write_lock`
  drawing : Place  -- it has `write_lock`
  reading : Place  -- it has cleared the flag and the terminal
  has_read : Bytes → Place  -- it has read both streams
  stored : Place  -- the frame is new, and the log empty
  showing : Place  -- it has released `write_lock`
  finishing : Place  -- before it releases `stop_lock`
  left : Place  -- after the loop

-- Where a call of `info`, `warning` or `error` stands.
pub data Writing : Type 0 where
  away : Writing  -- in no call
  has_lock : Writing  -- after `hold_write_lock`
  written : Writing  -- its line is in the log
  unlocked : Writing  -- in `release_write_lock`, before the flag is set

pub record Machine : Type 0 where
  pub screen : Screen
  pub place : Place
  pub loggers : ℕ → Writing

abbrev pub at : ℕ → Writing → (ℕ → Writing) → ℕ → Writing
at i w loggers k = if k == i then w else loggers k

-- A step, with the lines that it logs.
pub data Step (m : Machine) : List Bytes → Machine → Type 0 where
  start :
      m.place ≡ before
      → m.screen.stop_lock ≡ none
      → Step m [] (record m { screen = enter m.screen; place = head })
  go_on : m.place ≡ head → m.screen.should_stop ≡ false → Step m [] (record m { place = waiting })
  told : m.place ≡ head → m.screen.should_stop ≡ true → Step m [] (record m { place = stopping })
  once_more :
      m.place ≡ stopping → m.screen.should_update ≡ true → Step m [] (record m { place = waiting })
  leave :
      m.place ≡ stopping → m.screen.should_update ≡ false → Step m [] (record m { place = left })
  begin :
      (found : Option WinSize)
      → m.place ≡ waiting
      → m.screen.stop_lock ≡ none
      → Step m [] (record m {
        screen = refresh_size found (record m.screen { stop_lock = some drawer });
        place = inside;
      })
  nothing :
      m.place ≡ inside → m.screen.should_update ≡ false → Step m [] (record m { place = finishing })
  update :
      m.place ≡ inside → m.screen.should_update ≡ true → Step m [] (record m { place = locking })
  lock :
      m.place ≡ locking
      → m.screen.write_lock ≡ none
      → Step m []
          (record m { screen = record m.screen { write_lock = some drawer }; place = drawing })
  clear_flag : m.place ≡ drawing → Step m [] (record m { screen = erase m.screen; place = reading })
  read :
      (lines : Bytes)
      → m.place ≡ reading
      → read_streams m.screen ≡ some lines
      → Step m [] (record m { place = has_read lines })
  put :
      (lines : Bytes)
      → m.place ≡ has_read lines
      → Step m [] (record m { screen = fill_frame lines m.screen; place = stored })
  unlock :
      m.place ≡ stored → Step m [] (record m { screen = unlock_write m.screen; place = showing })
  print : m.place ≡ showing → Step m [] (record m { screen = show m.screen; place = finishing })
  finish :
      m.place ≡ finishing
      → Step m [] (record m { screen = record m.screen { stop_lock = none }; place = head })
  hold :
      (i : ℕ)
      → m.loggers i ≡ away
      → m.screen.write_lock ≡ none
      → Step m [] (record m {
        screen = record m.screen { write_lock = some (logger i) };
        loggers = at i has_lock m.loggers;
      })
  log :
      (i : ℕ) (level : Level) (l : Logger)
      → m.loggers i ≡ has_lock
      → Step m (entry level l ∷ []) (record m {
        screen = put_line (entry level l) m.screen;
        loggers = at i written m.loggers;
      })
  release :
      (i : ℕ)
      → m.loggers i ≡ written
      → Step m [] (record m { screen = unlock_write m.screen; loggers = at i unlocked m.loggers })
  flag :
      (i : ℕ)
      → m.loggers i ≡ unlocked
      → Step m [] (record m { screen = ask_update m.screen; loggers = at i away m.loggers })
  stop : m.screen.stop_lock ≡ none → Step m [] (record m { screen = set_stop m.screen })

-- The states that can be reached from a new screen, with the lines that were logged, in their order.
pub data Reach (found : Option WinSize) : List Bytes → Machine → Type 0 where
  here : Reach found [] (record { screen = new found; place = before; loggers = λ i. away })
  next :
      {m n : Machine} {logged lines : List Bytes}
      → Reach found logged m
      → Step m lines n
      → Reach found (logged ++ lines) n
