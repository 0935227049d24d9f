-- ===== src/Manager/Workers/Alone.antt =====
-- How many threads a connection has.
use dropbox_ufrgs_sisop.Prelude.{
  ◌≡◌, ◌<◌, ◌≤◌, [], ◌∷◌, Bool, true, false, length, ◌⊎◌, inl, arith, refl,
}
use dropbox_ufrgs_sisop.Manager.Workers.{
  Slot, Step, Reach, elsewhere, open_seen, idle_seen, take, see_open, see_idle, see_busy, spawn,
  serve, leave, here, on, off,
}

-- The slot is free and nobody looks; or it is taken with no thread, and does not wait; or it is taken
-- with one thread, waits, and has not been seen without one.
abbrev IsAlone : Slot → Type 0
IsAlone s =
    ((s.sockfd ≡ 0) × (s.workers ≡ []) × (s.look ≡ elsewhere))
    ⊎ (((0 < s.sockfd) × (s.workers ≡ []) × (s.is_waiting ≡ false))
        ⊎ ((0 < s.sockfd)
            × (length s.workers ≡ 1)
            × (s.is_waiting ≡ true)
            × ((s.look ≡ elsewhere) ⊎ (s.look ≡ open_seen))))

Step-IsAlone : {s t : Slot} → Step s false t → IsAlone s → IsAlone t
Step-IsAlone (take fd e p) v = ground arith
Step-IsAlone (see_open e p) v = ground arith
Step-IsAlone (see_idle e p) v = ground arith
Step-IsAlone (see_busy e p) v = ground arith
Step-IsAlone (spawn e) v = ground arith
Step-IsAlone (serve [] [] e) v = ground arith
Step-IsAlone (serve [] (x ∷ behind) e) v = ground arith
Step-IsAlone (serve (y ∷ []) behind e) v = ground arith
Step-IsAlone (serve (y ∷ z ∷ before) behind e) v = ground arith
Step-IsAlone (leave [] [] e) v = ground arith
Step-IsAlone (leave [] (x ∷ behind) e) v = ground arith
Step-IsAlone (leave (y ∷ []) behind e) v = ground arith
Step-IsAlone (leave (y ∷ z ∷ before) behind e) v = ground arith

Reach-IsAlone : {s : Slot} {logged : Bool} → Reach logged s → logged ≡ false → IsAlone s
Reach-IsAlone here quiet = inl (refl, refl, refl)
Reach-IsAlone (on r step) quiet = Step-IsAlone step (Reach-IsAlone r quiet)
Reach-IsAlone (off r step) quiet = absurd cc

-- However the manager, the threads and the logins interleave, as long as nobody logs out or stops the
-- server a slot has at most one thread, which has an open connection and by which the slot waits; and a slot that the manager
-- has seen open and idle has none.
pub one_worker :
    {s : Slot}
    → Reach false s
    → (length s.workers ≤ 1)
      × (0 < length s.workers → (0 < s.sockfd) × (s.is_waiting ≡ true))
      × (s.look ≡ idle_seen → s.workers ≡ [])
one_worker r = ground (arith, Reach-IsAlone r refl)
