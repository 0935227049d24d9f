-- ===== src/Tests/Workers.antt =====
-- A slot that is taken, served, and taken again.
use dropbox_ufrgs_sisop.Prelude.{◌≡◌, ◌<◌, ◌≤◌, [], ◌∷◌, true, false, refl, arith, length}
use dropbox_ufrgs_sisop.Manager.Workers.{
  Slot, Reach, elsewhere, idle_seen, serving, take, see_open, see_idle, spawn, here, on,
}
use dropbox_ufrgs_sisop.Manager.Workers.Alone.{one_worker}
use dropbox_ufrgs_sisop.Manager.Workers.Race.{two_workers}

abbrev served : Slot
served = record { sockfd = 4; is_waiting = true; look = elsewhere; workers = serving ∷ [] }

served-Reach : Reach false served
served-Reach =
    on
      (on (on (on here (take 4 refl (omega arith))) (see_open refl (omega arith)))
        (see_idle refl refl))
      (spawn refl)

one_worker_example :
    (length served.workers ≤ 1)
    × (0 < length served.workers → (0 < served.sockfd) × (served.is_waiting ≡ true))
    × (served.look ≡ idle_seen → served.workers ≡ [])
one_worker_example = one_worker served-Reach

two_workers_example :
    (s : Slot) × Reach true s × (s.sockfd ≡ 5) × (s.workers ≡ serving ∷ serving ∷ [])
two_workers_example = two_workers 4 5 (omega arith) (omega arith)
