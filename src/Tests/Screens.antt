-- ===== src/Tests/Screens.antt =====
-- The interface and one logger: a line is logged and shown.
use dropbox_ufrgs_sisop.Prelude.{
  ℕ, ◌≡◌, refl, [], ◌∷◌, ◌++◌, true, false, ◌==◌, Option, none, some, Bool-cases, inl, inr,
}
use dropbox_ufrgs_sisop.Bytes.{Bytes}
use dropbox_ufrgs_sisop.Text.{text}
use dropbox_ufrgs_sisop.Text.Numbers.{to_string}
use dropbox_ufrgs_sisop.Ui.{
  WinSize, new, enter, mov_cursor, read_lines, read_streams, cursor_command, clear_command,
}
use dropbox_ufrgs_sisop.Ui.Logger.{Logger, entry, stamp, info}
use dropbox_ufrgs_sisop.Ui.Lines.{ended}
use dropbox_ufrgs_sisop.Ui.Threads.{
  head, has_lock, unlocked, written, Machine, Reach, at, away, start, go_on, begin, update, lock,
  clear_flag, read, put, unlock, print, finish, hold, log, release, flag, here, next,
}
use dropbox_ufrgs_sisop.Ui.Threads.Asked.{in_flight}
use dropbox_ufrgs_sisop.Ui.Threads.Shown.{Reach-frame, settled-Shows, Shows}
use dropbox_ufrgs_sisop.Ui.Threads.Kept.{heading, written_out}

abbrev window : Option WinSize
window = some (record { ws_row = 24; ws_col = 80 })

abbrev port_logger : Logger
port_logger = record { datestamp = text "[now] "; message = text "Port: 8080" }

abbrev port_line : Bytes
port_line = 27 ∷ text "[34m[now] INFO:" ++ (27 ∷ text "[0m Port: 8080")

port_entry : entry info port_logger ≡ port_line
unfolding entry
port_entry = refl

stamp_too_long : stamp (text "[123456789-01-01 00:00:00] ") port_logger ≡ none
unfolding stamp
stamp_too_long = refl

abbrev shown_frame : Bytes
shown_frame = 27 ∷ text "[0;0f\n" ++ (port_line ++ b'\n' ∷ [])

abbrev shown : Machine
shown = record {
  screen = record (new window) { frame_stream = shown_frame; out = clear_command ++ shown_frame };
  place = head;
  loggers = at 0 away (at 0 unlocked (at 0 written (at 0 has_lock (λ i. away))));
}

logged-Reach : Reach window (port_line ∷ []) (record {
  screen = record (new window) {
    frame_stream = 27 ∷ text "[0;0f";
    log_stream = port_line ++ b'\n' ∷ [];
    should_update = true;
  };
  place = head;
  loggers = at 0 away (at 0 unlocked (at 0 written (at 0 has_lock (λ i. away))));
})
unfolding enter mov_cursor to_string entry
logged-Reach =
    next
      (next
        (next (next (next here (start refl refl)) (hold 0 refl refl)) (log 0 info port_logger refl))
        (release 0 refl))
      (flag 0 refl)

shown-Reach : Reach window (port_line ∷ []) shown
unfolding read_streams read_lines
shown-Reach =
    next
      (next
        (next
          (next
            (next
              (next
                (next
                  (next (next (next logged-Reach (go_on refl refl)) (begin none refl refl))
                    (update refl refl))
                  (lock refl refl))
                (clear_flag refl))
              (read shown_frame refl refl))
            (put shown_frame refl))
          (unlock refl))
        (print refl))
      (finish refl)

nobody : (i : ℕ) → in_flight (shown.loggers i) ≡ false
nobody i = elim (Bool-cases (i == 0)) [ inl e ↦ rw e refl | inr e ↦ rw e refl ]

Reach-frame_example : ended shown_frame ++ [] ≡ heading head ++ written_out (port_line ∷ [])
Reach-frame_example = Reach-frame shown-Reach

settled-Shows_example : Shows (cursor_command 0 0 ++ (b'\n' ∷ port_line ++ b'\n' ∷ [])) shown.screen
settled-Shows_example = settled-Shows shown-Reach refl refl nobody (λ e. cc)
