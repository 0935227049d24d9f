-- ===== src/Manager/Workers/Race.antt =====
-- What a logout does to the threads of a slot that is taken again.
use dropbox_ufrgs_sisop.Prelude.{ℕ, ◌≡◌, ◌<◌, [], ◌∷◌, true, refl}
use dropbox_ufrgs_sisop.Manager.Workers.{
  Slot, Reach, elsewhere, serving, leaving, take, see_open, see_idle, spawn, log_out, leave, here,
  on, off,
}

module _ (first second : ℕ) (is_first : 0 < first) (is_second : 0 < second) where
  -- A thread has the first connection, and has closed it.
  abbrev closed : Slot
  closed = record { sockfd = 0; is_waiting = true; look = elsewhere; workers = leaving ∷ [] }

  closed-Reach : Reach true closed
  closed-Reach =
      off
        (on
          (on (on (on here (take first refl is_first)) (see_open refl is_first))
            (see_idle refl refl))
          (spawn refl))
        (log_out [] [] refl)

  -- For every two descriptors: after a logout from the first, before the thread that served it has
  -- ended, a login may take the slot with the second and have a thread of its own; the end of the old
  -- thread then makes the slot look idle, and a second thread reads from the same connection.
  pub two_workers :
      (s : Slot) × Reach true s × (s.sockfd ≡ second) × (s.workers ≡ serving ∷ serving ∷ [])
  two_workers = (
    record {
      sockfd = second;
      is_waiting = true;
      look = elsewhere;
      workers = serving ∷ serving ∷ [];
    },
    on
        (on
          (on
            (on
              (on
                (on (on (on closed-Reach (take second refl is_second)) (see_open refl is_second))
                  (see_idle refl refl))
                (spawn refl))
              (leave [] (serving ∷ []) refl))
            (see_open refl is_second))
          (see_idle refl refl))
        (spawn refl),
    refl,
    refl,
  )
