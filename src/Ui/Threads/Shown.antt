-- ===== src/Ui/Threads/Shown.antt =====
-- What the interface of `commons/ui/ui_template.cpp` shows of what is logged.
use dropbox_ufrgs_sisop.Prelude.{
  ℕ, ◌≡◌, ◌≢◌, ◌⊎◌, inl, inr, refl, List, [], ◌∷◌, ◌++◌, Bool, true, false, Option, arith, sym, ap,
  ◌∙◌, append_assoc, append-nil,
}
use dropbox_ufrgs_sisop.Bytes.{Bytes}
use dropbox_ufrgs_sisop.Ui.{Screen, WinSize, clear_command, cursor_command}
use dropbox_ufrgs_sisop.Ui.Lines.{ended}
use dropbox_ufrgs_sisop.Ui.Threads.{
  Machine, Place, Reach, head, stopping, waiting, inside, finishing, left,
}
use dropbox_ufrgs_sisop.Ui.Threads.Asked.{Reach-IsAsked, in_flight}
use dropbox_ufrgs_sisop.Ui.Threads.Kept.{IsKept, Reach-IsKept, written_out, heading, ended_cursor}
use dropbox_ufrgs_sisop.Text.Numbers.{to_string}
use dropbox_ufrgs_sisop.Ui.Threads.OnScreen.{OnScreen, Reach-OnScreen}

-- However the threads interleave, the lines that were logged, in their order and each with its end, are
-- what the frame and then the log hold, after the command of the cursor that the frame begins with once
-- the interface has started. A frame whose last line has no end is read as if it had one.
pub Reach-frame :
    {found : Option WinSize} {logged : List Bytes} {m : Machine}
    → Reach found logged m
    → ended m.screen.frame_stream ++ m.screen.log_stream ≡ heading m.place ++ written_out logged
Reach-frame r = (Reach-IsKept r).kept

-- The interface has started and is not drawing.
abbrev pub rests : Place → Bool
rests head = true
rests stopping = true
rests waiting = true
rests inside = true
rests finishing = true
rests left = true
rests _ = false

-- The text that a terminal shows after some output: what came since it was cleared last.
abbrev pub Shows : Bytes → Screen → Type 0
Shows lines s = (o : Bytes) × (s.out ≡ o ++ (clear_command ++ lines))

-- Nothing is asked for and no logger is to ask: the log is empty.
quiet_log :
    {found : Option WinSize} {logged : List Bytes} {m : Machine}
    → Reach found logged m
    → rests m.place ≡ true
    → m.screen.should_update ≡ false
    → ((i : ℕ) → in_flight (m.loggers i) ≡ false)
    → m.screen.log_stream ≡ []
quiet_log {m} r p u quiet = elim (Reach-IsAsked r) [
  | inl e ↦ e
  | inr (inl e) ↦ absurd (ground arith)
  | inr (inr (inl e)) ↦ absurd (ground arith)
  | inr (inr (inr (i, e))) ↦ absurd (ground (arith, quiet i))
]

drawn :
    (p : Place) (s : Screen)
    → rests p ≡ true
    → OnScreen p s
    → (s.frame_stream ≡ cursor_command 0 0)
      ⊎ ((o : Bytes) × (s.out ≡ o ++ (clear_command ++ s.frame_stream)))
drawn p s h o = ground arith

headed : (p : Place) → rests p ≡ true → heading p ≡ cursor_command 0 0 ++ b'\n' ∷ []
headed p h = ground arith

-- A frame that is only the command of the cursor shows no line.
no_line :
    (logged : List Bytes)
    → cursor_command 0 0 ++ b'\n' ∷ [] ≡ (cursor_command 0 0 ++ b'\n' ∷ []) ++ written_out logged
    → logged ≡ []
unfolding to_string
no_line [] e = refl
no_line ([] ∷ logged) e = absurd (ground arith)
no_line ((c ∷ l) ∷ logged) e = absurd (ground arith)

-- Whenever the interface has started and is not drawing, the flag is clear, no logger is between
-- its line and the flag, and something was logged, what went to the terminal since it was cleared
-- last is the command of the cursor and then all the lines that were logged, in their order.
pub settled-Shows :
    {found : Option WinSize} {logged : List Bytes} {m : Machine}
    → Reach found logged m
    → rests m.place ≡ true
    → m.screen.should_update ≡ false
    → ((i : ℕ) → in_flight (m.loggers i) ≡ false)
    → logged ≢ []
    → Shows (cursor_command 0 0 ++ (b'\n' ∷ written_out logged)) m.screen
settled-Shows {logged} {m} r p u quiet some_line =
    let v : IsKept logged m = Reach-IsKept r in
    let whole : ended m.screen.frame_stream
        ≡ (cursor_command 0 0 ++ b'\n' ∷ []) ++ written_out logged =
      sym (append-nil (ended m.screen.frame_stream))
      ∙ ap (◌++◌ (ended m.screen.frame_stream)) (sym (quiet_log r p u quiet))
      ∙ v.kept
      ∙ ap (λ x. x ++ written_out logged) (headed m.place p) in
    let drawn_once : (m.screen.frame_stream ≡ cursor_command 0 0) → ⊥ =
      λ e. some_line (no_line logged (sym ended_cursor ∙ ap ended (sym e) ∙ whole)) in
    elim v.frame_ended [
      | inl e ↦ absurd (drawn_once e)
      | inr same ↦ elim (drawn m.place m.screen p (Reach-OnScreen r)) [
        | inl e ↦ absurd (drawn_once e)
        | inr (o, e) ↦ (
          o,
          e
              ∙ ap (λ x. o ++ (clear_command ++ x))
                  (sym same
                    ∙ whole
                    ∙ append_assoc (cursor_command 0 0) (b'\n' ∷ []) (written_out logged)),
        )
      ]
    ]
