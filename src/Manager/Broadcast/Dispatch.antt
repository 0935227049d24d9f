-- ===== src/Manager/Broadcast/Dispatch.antt =====
-- The threads that a connection gets.
use dropbox_ufrgs_sisop.Prelude.{
  ℕ, ◌≡◌, ◌<◌, ◌++◌, List, [], ◌∷◌, zero, suc, some, true, false, ltb, length, arith, get_elem?,
  set, get_elem?-set_self,
}
use dropbox_ufrgs_sisop.Prelude.Outcome.{done, bind}
use dropbox_ufrgs_sisop.Os.{Os}
use dropbox_ufrgs_sisop.Socket.{Socket, set_is_waiting, get_is_waiting}
use dropbox_ufrgs_sisop.User.{Heap, array}
use dropbox_ufrgs_sisop.Manager.{Job, Server, connection, store, lock, unlock}
use dropbox_ufrgs_sisop.Manager.Users.Limits.{array-set_self}
use dropbox_ufrgs_sisop.Manager.Broadcast.{dispatch_slot, spawn}

inside_list {ℓ} :
    {A : Type ℓ} (xs : List A) (i : ℕ) (x : A) → get_elem? xs i ≡ some x → i < length xs
inside_list [] i x h = absurd cc
inside_list (y ∷ xs) zero x h = omega arith
inside_list (y ∷ xs) (suc i) x h = omega (arith, inside_list xs i x h)

inside_heap :
    (heap : Heap) (i k : ℕ) (c : Socket) → get_elem? (array heap i) k ≡ some c → i < length heap
inside_heap [] i k c h = absurd cc
inside_heap (xs ∷ heap) zero k c h = omega arith
inside_heap (xs ∷ heap) (suc i) k c h = omega (arith, inside_heap heap i k c h)

module _ (os : Os) (job : Job) (c : Socket) where
  -- The server when a thread has the connection.
  abbrev pub dispatched : Server os → Server os
  dispatched w = record w {
    heap =
        set w.heap job.connections
          (set (array w.heap job.connections) job.slot (set_is_waiting true c));
    threads = w.threads ++ (job ∷ []);
    locked = false;
  }

  connection-dispatched :
      (w : Server os)
      → get_elem? (array w.heap job.connections) job.slot ≡ some c
      → connection os job (dispatched w) ≡ done (set_is_waiting true c) (dispatched w)
  unfolding connection
  connection-dispatched w here =
      rw
        (
          array-set_self w.heap job.connections
              (set (array w.heap job.connections) job.slot (set_is_waiting true c))
              (inside_heap w.heap job.connections job.slot c here),
          connection,
        )
        (rw (
          get_elem?-set_self (array w.heap job.connections) job.slot (set_is_waiting true c)
              (inside_list (array w.heap job.connections) job.slot c here),
          connection,
        ))

  -- An open connection that no thread has gets one, if the lock is free: the connection waits, in the
  -- array that all copies of its user share, the thread is noted, and the lock is free again. A second
  -- look at the same slot, with no change between, starts no other thread.
  pub dispatch_slot_once :
      (w : Server os)
      → get_elem? (array w.heap job.connections) job.slot ≡ some c
      → ltb 0 c.sockfd ≡ true
      → c.is_waiting ≡ false
      → w.locked ≡ false
      → (dispatch_slot os job w ≡ done tt (dispatched w))
        × (dispatch_slot os job (dispatched w) ≡ done tt (dispatched w))
  unfolding dispatch_slot connection spawn lock store unlock get_is_waiting set_is_waiting
  dispatch_slot_once w here opened idle free = (
    rw (here, dispatch_slot, connection, bind)
        (rw (opened, idle, bind) (rw (free, spawn, lock, bind))),
    rw (connection-dispatched w here, dispatch_slot, bind) (rw (opened, bind)),
  )
