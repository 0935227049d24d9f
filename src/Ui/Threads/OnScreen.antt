-- ===== src/Ui/Threads/OnScreen.antt =====
-- What the terminal shows, while the interface of `commons/ui/ui_template.cpp` runs.
use dropbox_ufrgs_sisop.Prelude.{
  ◌≡◌, ◌⊎◌, inr, refl, List, [], ◌++◌, Option, none, some, arith, ap, subst, ◌∙◌, append_assoc,
}
use dropbox_ufrgs_sisop.Bytes.{Bytes}
use dropbox_ufrgs_sisop.Ui.{Screen, WinSize, enter, mov_cursor, clear_command, cursor_command}
use dropbox_ufrgs_sisop.Ui.Threads.{
  Machine, Place, Step, Reach, before, reading, has_read, stored, showing, start, go_on, told,
  once_more, leave, begin, nothing, update, lock, clear_flag, read, put, unlock, print, finish,
  hold, log, release, flag, stop, here, next,
}

-- The frame is what went to the terminal after it was cleared last, or it is not drawn yet.
abbrev pub OnScreen : Place → Screen → Type 0
OnScreen before s = s.frame_stream ≡ []
OnScreen reading s = (o : Bytes) × (s.out ≡ o ++ clear_command)
OnScreen (has_read _) s = (o : Bytes) × (s.out ≡ o ++ clear_command)
OnScreen stored s = (o : Bytes) × (s.out ≡ o ++ clear_command)
OnScreen showing s = (o : Bytes) × (s.out ≡ o ++ clear_command)
OnScreen _ s =
    (s.frame_stream ≡ cursor_command 0 0)
    ⊎ ((o : Bytes) × (s.out ≡ o ++ (clear_command ++ s.frame_stream)))

Step-OnScreen :
    {m n : Machine} {lines : List Bytes}
    → Step m lines n
    → OnScreen m.place m.screen
    → OnScreen n.place n.screen
unfolding enter mov_cursor
Step-OnScreen (start p f) v = ground arith
Step-OnScreen (go_on p e) v = ground arith
Step-OnScreen (told p e) v = ground arith
Step-OnScreen (once_more p e) v = ground arith
Step-OnScreen (leave p e) v = ground arith
Step-OnScreen (begin none p e) v = ground arith
Step-OnScreen (begin (some x) p e) v = ground arith
Step-OnScreen (nothing p e) v = ground arith
Step-OnScreen (update p e) v = ground arith
Step-OnScreen (lock p f) v = ground arith
Step-OnScreen {m} (clear_flag p) v = (m.screen.out, refl)
Step-OnScreen (read lines p e) v = ground arith
Step-OnScreen (put lines p) v = ground arith
Step-OnScreen (unlock p) v = ground arith
Step-OnScreen {m} (print p) v =
    let (o, e) : (o : Bytes) × (m.screen.out ≡ o ++ clear_command) =
      subst (λ x. OnScreen x m.screen) p v in
    inr (
      o,
      ap (λ x. x ++ m.screen.frame_stream) e ∙ append_assoc o clear_command m.screen.frame_stream,
    )
Step-OnScreen (finish p) v = ground arith
Step-OnScreen (hold i a f) v = ground arith
Step-OnScreen (log i level l a) v = ground arith
Step-OnScreen (release i a) v = ground arith
Step-OnScreen (flag i a) v = ground arith
Step-OnScreen (stop f) v = ground arith

pub Reach-OnScreen :
    {found : Option WinSize} {logged : List Bytes} {m : Machine}
    → Reach found logged m
    → OnScreen m.place m.screen
Reach-OnScreen {found = none} here = refl
Reach-OnScreen {found = some x} here = refl
Reach-OnScreen (next r s) = Step-OnScreen s (Reach-OnScreen r)
