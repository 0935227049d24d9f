-- ===== src/Manager/Workers.antt =====
-- One slot of a user and the threads that work on it: the loop of `Manager::manage`, the threads of
-- `Manager::handle_connection` in `server/comms/manager/manager.cpp`, and the logins of
-- `server/comms/router/router.cpp`, an access to the slot at a time.
pub mod Alone
pub mod Race
use dropbox_ufrgs_sisop.Prelude.{ℕ, ◌≡◌, ◌<◌, List, [], ◌∷◌, ◌++◌, Bool, true, false}

-- Where the loop of `manage` stands: away, after the test of `sockfd`, and after that of `is_waiting`.
pub data Look : Type 0 where
  elsewhere : Look
  open_seen : Look
  idle_seen : Look

-- A thread of `handle_connection`: it is to read a packet, or it is behind its `switch`.
pub data Worker : Type 0 where
  serving : Worker
  leaving : Worker

-- `sockfd` is 0 where the slot is free.
pub record Slot : Type 0 where
  pub sockfd : ℕ
  pub is_waiting : Bool
  pub look : Look
  pub workers : List Worker

abbrev pub free_slot : Slot
free_slot = record { sockfd = 0; is_waiting = false; look = elsewhere; workers = [] }

-- The steps; the flag says that a thread closes the connection, for a logout or for the end of the
-- server.
pub data Step (s : Slot) : Bool → Slot → Type 0 where
  -- `push_connection` of a new socket, whose flag is false
  take :
      (fd : ℕ) → s.sockfd ≡ 0 → 0 < fd → Step s false (record s { sockfd = fd; is_waiting = false })
  see_open : s.look ≡ elsewhere → 0 < s.sockfd → Step s false (record s { look = open_seen })
  see_idle :
      s.look ≡ open_seen → s.is_waiting ≡ false → Step s false (record s { look = idle_seen })
  see_busy : s.look ≡ open_seen → s.is_waiting ≡ true → Step s false (record s { look = elsewhere })
  -- the flag is set and the thread is created, under the lock of the manager
  spawn :
      s.look ≡ idle_seen
      → Step s false
          (record s { is_waiting = true; look = elsewhere; workers = s.workers ++ (serving ∷ []) })
  -- a packet that closes nothing here
  serve :
      (before behind : List Worker)
      → s.workers ≡ before ++ (serving ∷ behind)
      → Step s false (record s { workers = before ++ (leaving ∷ behind) })
  -- `close_connection` of a logout
  log_out :
      (before behind : List Worker)
      → s.workers ≡ before ++ (serving ∷ behind)
      → Step s true (record s { sockfd = 0; workers = before ++ (leaving ∷ behind) })
  -- `close_all_connections` of a STOP_SERVER_REQ, which another thread of the server handles, or one of
  -- this slot that is to `serve` it next; it closes the slot if that is open
  shut_down : 0 < s.sockfd → Step s true (record s { sockfd = 0 })
  -- `connection->set_is_waiting(false)` and the end of the thread
  leave :
      (before behind : List Worker)
      → s.workers ≡ before ++ (leaving ∷ behind)
      → Step s false (record s { is_waiting = false; workers = before ++ behind })

-- What can be reached from a free slot, with a flag for runs in which a connection is closed.
pub data Reach : Bool → Slot → Type 0 where
  here : Reach false free_slot
  on : {s t : Slot} {logged : Bool} → Reach logged s → Step s false t → Reach logged t
  off : {s t : Slot} {logged : Bool} → Reach logged s → Step s true t → Reach true t
