-- ===== src/Ui/Threads/Kept.antt =====
-- What the frame and the log of `commons/ui/ui_template.cpp` hold together: the lines logged.
use dropbox_ufrgs_sisop.Prelude.{
  ℕ, ◌≡◌, ◌⊎◌, inl, inr, refl, List, [], ◌∷◌, ◌++◌, true, false, Option, none, some, arith, leb,
  Bool-cases, sym, ap, subst, ◌∙◌, append_assoc, append-nil,
}
use dropbox_ufrgs_sisop.Bytes.{Bytes}
use dropbox_ufrgs_sisop.Ui.{Screen, WinSize, enter, mov_cursor, cursor_command, fill_frame}
use dropbox_ufrgs_sisop.Ui.Logger.{entry}
use dropbox_ufrgs_sisop.Ui.Lines.{ended, read_streams-ended, ended_append, ended_twice, ended_line}
use dropbox_ufrgs_sisop.Ui.Threads.{
  Machine, Place, Step, Reach, before, head, has_read, stored, has_lock, start, go_on, told,
  once_more, leave, begin, nothing, update, lock, clear_flag, read, put, unlock, print, finish,
  hold, log, release, flag, stop, here, next,
}
use dropbox_ufrgs_sisop.Ui.Threads.Locks.{IsLocked, Reach-IsLocked, draws}
use dropbox_ufrgs_sisop.Text.Numbers.{to_string}
use dropbox_ufrgs_sisop.Ui.Threads.OnScreen.{OnScreen, Reach-OnScreen}

-- The lines, each with its end.
abbrev pub written_out : List Bytes → Bytes
written_out [] = []
written_out (l ∷ ls) = (l ++ b'\n' ∷ []) ++ written_out ls

-- What the frame begins with.
abbrev pub heading : Place → Bytes
heading before = []
heading _ = cursor_command 0 0 ++ b'\n' ∷ []

-- What the thread of the interface has read is the frame and the log.
abbrev HasRead : Place → Screen → Type 0
HasRead (has_read lines) s = lines ≡ ended s.frame_stream ++ s.log_stream
HasRead _ s = Unit

pub record IsKept (logged : List Bytes) (m : Machine) : Type 0 where
  pub kept :
      ended m.screen.frame_stream ++ m.screen.log_stream ≡ heading m.place ++ written_out logged
  pub log_ended : ended m.screen.log_stream ≡ m.screen.log_stream
  pub has_read_all : HasRead m.place m.screen
  pub frame_ended :
      (m.screen.frame_stream ≡ cursor_command 0 0)
      ⊎ (ended m.screen.frame_stream ≡ m.screen.frame_stream)

written_out-append : (a b : List Bytes) → written_out (a ++ b) ≡ written_out a ++ written_out b
written_out-append [] b = refl
written_out-append (l ∷ a) b =
    ap (◌++◌ (l ++ b'\n' ∷ [])) (written_out-append a b)
    ∙ sym (append_assoc (l ++ b'\n' ∷ []) (written_out a) (written_out b))

pub ended_cursor : ended (cursor_command 0 0) ≡ cursor_command 0 0 ++ b'\n' ∷ []
unfolding ended to_string
ended_cursor = refl

abbrev opened : Screen → Screen
opened s = record s { frame_stream = s.frame_stream ++ cursor_command 0 0; should_stop = false }

leb_zero : (n : ℕ) → leb 0 n ≡ true
leb_zero n = ground arith

-- The cursor can always go to the corner.
enter-opened : (s : Screen) → enter s ≡ opened s
unfolding enter mov_cursor
enter-opened s = ground (arith, leb_zero s.size.ws_row, leb_zero s.size.ws_col)

opened_frame :
    (s : Screen)
    → s.frame_stream ≡ []
    → ended (opened s).frame_stream ≡ cursor_command 0 0 ++ b'\n' ∷ []
opened_frame s e = ap (λ x. ended (x ++ cursor_command 0 0)) e ∙ ended_cursor

empty_frame :
    {m : Machine} {logged : List Bytes}
    → m.place ≡ before
    → m.screen.frame_stream ≡ []
    → IsKept logged m
    → m.screen.log_stream ≡ written_out logged
unfolding ended
empty_frame {m} {logged} p e v =
    sym (ap (λ x. ended x ++ m.screen.log_stream) e)
    ∙ v.kept
    ∙ ap (λ x. heading x ++ written_out logged) p

start-IsKept :
    {m : Machine} {logged : List Bytes}
    → m.place ≡ before
    → m.screen.frame_stream ≡ []
    → IsKept logged m
    → IsKept logged (record m { screen = opened m.screen; place = head })
start-IsKept {m} {logged} p e v = record {
  kept =
      ap (λ x. x ++ m.screen.log_stream) (opened_frame m.screen e)
      ∙ ap (◌++◌ (cursor_command 0 0 ++ b'\n' ∷ [])) (empty_frame p e v);
  log_ended = v.log_ended;
  has_read_all = tt;
  frame_ended = inl (ap (λ x. x ++ cursor_command 0 0) e);
}

-- While a logger writes, nothing has been read.
unread : (p : Place) (s : Screen) → draws p ≡ false → HasRead p s
unread p s e = ground arith

writing_unread :
    {m : Machine} (i : ℕ) (s : Screen) → IsLocked m → m.loggers i ≡ has_lock → HasRead m.place s
writing_unread {m} i s k a = elim (Bool-cases (draws m.place)) [
  | inl e ↦ absurd (ground (arith, k.by_drawer e, k.by_logger i))
  | inr e ↦ unread m.place s e
]

log_line :
    {m : Machine} {logged : List Bytes} (line : Bytes)
    → IsKept logged m
    → (ended m.screen.frame_stream ++ (m.screen.log_stream ++ (line ++ b'\n' ∷ []))
        ≡ heading m.place ++ written_out (logged ++ line ∷ []))
      × (ended (m.screen.log_stream ++ (line ++ b'\n' ∷ []))
          ≡ m.screen.log_stream ++ (line ++ b'\n' ∷ []))
log_line {m} {logged} line v =
    let ending : Bytes = line ++ b'\n' ∷ [] in
    (
      sym (append_assoc (ended m.screen.frame_stream) m.screen.log_stream ending)
          ∙ ap (λ x. x ++ ending) v.kept
          ∙ append_assoc (heading m.place) (written_out logged) ending
          ∙ ap (◌++◌ (heading m.place)) (
              ap (◌++◌ (written_out logged)) (sym (append-nil ending))
              ∙ sym (written_out-append logged (line ∷ []))),
      ended_append m.screen.log_stream ending v.log_ended
          ∙ ap (◌++◌ m.screen.log_stream) (ended_line line),
    )

put-IsKept :
    {m : Machine} {logged : List Bytes} (lines : Bytes)
    → m.place ≡ has_read lines
    → IsKept logged m
    → IsKept logged (record m { screen = fill_frame lines m.screen; place = stored })
unfolding ended
put-IsKept {m} {logged} lines p v =
    let all : lines ≡ ended m.screen.frame_stream ++ m.screen.log_stream =
      subst (λ x. HasRead x m.screen) p v.has_read_all in
    let same : ended lines ≡ lines =
      ap ended all
      ∙ ended_append (ended m.screen.frame_stream) m.screen.log_stream
          (ended_twice m.screen.frame_stream)
      ∙ ap (◌++◌ (ended m.screen.frame_stream)) v.log_ended
      ∙ sym all in
    record {
      kept =
          append-nil (ended lines)
          ∙ same
          ∙ all
          ∙ v.kept
          ∙ ap (λ x. heading x ++ written_out logged) p;
      log_ended = refl;
      has_read_all = tt;
      frame_ended = inr same;
    }

-- A step that logs nothing.
quiet : {logged : List Bytes} {n : Machine} → IsKept logged n → IsKept (logged ++ []) n
quiet {logged} {n} v = subst (λ l. IsKept l n) (sym (append-nil logged)) v

Step-IsKept :
    {m n : Machine} {lines logged : List Bytes}
    → Step m lines n
    → IsLocked m
    → OnScreen m.place m.screen
    → IsKept logged m
    → IsKept (logged ++ lines) n
Step-IsKept {m} {logged} (start p f) k o v =
    let fresh : m.screen.frame_stream ≡ [] = subst (λ x. OnScreen x m.screen) p o in
    quiet (
      subst (λ s. IsKept logged (record m { screen = s; place = head }))
        (sym (enter-opened m.screen)) (start-IsKept p fresh v))
Step-IsKept {logged} (go_on p e) k o v = quiet (ground arith)
Step-IsKept {logged} (told p e) k o v = quiet (ground arith)
Step-IsKept {logged} (once_more p e) k o v = quiet (ground arith)
Step-IsKept {logged} (leave p e) k o v = quiet (ground arith)
Step-IsKept {logged} (begin none p e) k o v = quiet (ground arith)
Step-IsKept {logged} (begin (some x) p e) k o v = quiet (ground arith)
Step-IsKept {logged} (nothing p e) k o v = quiet (ground arith)
Step-IsKept {logged} (update p e) k o v = quiet (ground arith)
Step-IsKept {logged} (lock p f) k o v = quiet (ground arith)
Step-IsKept {logged} (clear_flag p) k o v = quiet (ground arith)
Step-IsKept {m} (read lines p e) k o v = quiet (ground (arith, read_streams-ended m.screen))
Step-IsKept {m} (put lines p) k o v = quiet (put-IsKept lines p v)
Step-IsKept {logged} (unlock p) k o v = quiet (ground arith)
Step-IsKept {logged} (print p) k o v = quiet (ground arith)
Step-IsKept {logged} (finish p) k o v = quiet (ground arith)
Step-IsKept {logged} (hold i a f) k o v = quiet (ground arith)
Step-IsKept {m} (log i level l a) k o v =
    let (kept, log_ended) = log_line (entry level l) v in
    record {
      kept = kept;
      log_ended = log_ended;
      has_read_all = writing_unread i _ k a;
      frame_ended = v.frame_ended;
    }
Step-IsKept {logged} (release i a) k o v = quiet (ground arith)
Step-IsKept {logged} (flag i a) k o v = quiet (ground arith)
Step-IsKept {logged} (stop f) k o v = quiet (ground arith)

pub Reach-IsKept :
    {found : Option WinSize} {logged : List Bytes} {m : Machine}
    → Reach found logged m
    → IsKept logged m
unfolding ended
Reach-IsKept {found = none} here = record {
  kept = refl;
  log_ended = refl;
  has_read_all = tt;
  frame_ended = inr refl;
}
Reach-IsKept {found = some x} here = record {
  kept = refl;
  log_ended = refl;
  has_read_all = tt;
  frame_ended = inr refl;
}
Reach-IsKept (next r s) = Step-IsKept s (Reach-IsLocked r) (Reach-OnScreen r) (Reach-IsKept r)
