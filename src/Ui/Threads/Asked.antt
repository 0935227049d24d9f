-- ===== src/Ui/Threads/Asked.antt =====
-- When the interface of `commons/ui/ui_template.cpp` is to look at the log.
use dropbox_ufrgs_sisop.Prelude.{
  ℕ, ◌≡◌, ◌⊎◌, inl, inr, refl, List, [], Bool, true, false, Option, none, some, arith,
}
use dropbox_ufrgs_sisop.Bytes.{Bytes}
use dropbox_ufrgs_sisop.Ui.{WinSize, enter, mov_cursor}
use dropbox_ufrgs_sisop.Ui.Threads.{
  Machine, Place, Writing, Step, Reach, reading, has_read, written, unlocked, start, go_on, told,
  once_more, leave, begin, nothing, update, lock, clear_flag, read, put, unlock, print, finish,
  hold, log, release, flag, stop, here, next,
}

-- After the flag is cleared and before the log is.
abbrev pub reads : Place → Bool
reads reading = true
reads (has_read _) = true
reads _ = false

-- The line is in the log and the flag is still to be set.
abbrev pub in_flight : Writing → Bool
in_flight written = true
in_flight unlocked = true
in_flight _ = false

-- A log that is not empty is looked at: the flag is set, or a logger is to set it, or the streams are
-- just being read.
abbrev pub IsAsked : Machine → Type 0
IsAsked m =
    (m.screen.log_stream ≡ [])
    ⊎ ((m.screen.should_update ≡ true)
        ⊎ ((reads m.place ≡ true) ⊎ ((i : ℕ) × (in_flight (m.loggers i) ≡ true))))

Step-IsAsked : {m n : Machine} {lines : List Bytes} → Step m lines n → IsAsked m → IsAsked n
unfolding enter mov_cursor
Step-IsAsked (start p f) v = ground arith
Step-IsAsked (go_on p e) v = ground arith
Step-IsAsked (told p e) v = ground arith
Step-IsAsked (once_more p e) v = ground arith
Step-IsAsked (leave p e) v = ground arith
Step-IsAsked (begin none p e) v = ground arith
Step-IsAsked (begin (some x) p e) v = ground arith
Step-IsAsked (nothing p e) v = ground arith
Step-IsAsked (update p e) v = ground arith
Step-IsAsked (lock p f) v = ground arith
Step-IsAsked (clear_flag p) v = ground arith
Step-IsAsked (read lines p e) v = ground arith
Step-IsAsked (put lines p) v = ground arith
Step-IsAsked (unlock p) v = ground arith
Step-IsAsked (print p) v = ground arith
Step-IsAsked (finish p) v = ground arith
Step-IsAsked (hold i a f) (inl e) = inl e
Step-IsAsked (hold i a f) (inr (inl e)) = inr (inl e)
Step-IsAsked (hold i a f) (inr (inr (inl e))) = inr (inr (inl e))
Step-IsAsked (hold i a f) (inr (inr (inr (j, e)))) = inr (inr (inr (j, ground arith)))
Step-IsAsked (log i level l a) v = inr (inr (inr (i, ground arith)))
Step-IsAsked (release i a) v = inr (inr (inr (i, ground arith)))
Step-IsAsked (flag i a) v = inr (inl refl)
Step-IsAsked (stop f) v = ground arith

pub Reach-IsAsked :
    {found : Option WinSize} {logged : List Bytes} {m : Machine} → Reach found logged m → IsAsked m
Reach-IsAsked {found = none} here = inl refl
Reach-IsAsked {found = some x} here = inl refl
Reach-IsAsked (next r s) = Step-IsAsked s (Reach-IsAsked r)
