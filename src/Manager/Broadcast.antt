-- ===== src/Manager/Broadcast.antt =====
-- The loops of the manager over the connections of its users: `broadcast`, `broadcast_to_user`,
-- `close_all_connections`, and one round of `manage`.
pub mod Reach
pub mod Dispatch
use dropbox_ufrgs_sisop.Manager.{Job, Server, connection, lock, on_os, store, unlock}
use dropbox_ufrgs_sisop.Manager.Users.{Users, find_user}
use dropbox_ufrgs_sisop.Bytes.{Bytes}
use dropbox_ufrgs_sisop.Prelude.Int.{ℤ, negsuc, pos, ◌==ℤ◌}
use dropbox_ufrgs_sisop.Packet.{Packet}
use dropbox_ufrgs_sisop.User.{Heap, User, array, get_active_connections_count, count_active}
use dropbox_ufrgs_sisop.Socket.{
  Socket, write_packet, close_connection, set_is_waiting, get_is_waiting,
}
use dropbox_ufrgs_sisop.Os.{Os}
use dropbox_ufrgs_sisop.Prelude.{
  ℕ, zero, suc, List, [], ◌∷◌, none, some, true, false, ◌++◌, if◌then◌else◌, ◌+◌, ltb, set, ◌&&◌,
  length, not,
}
use dropbox_ufrgs_sisop.Prelude.Outcome.{done, fault, M, ◌>>=◌, ◌>>◌, bind, return}

module _ (os : Os) where
  send_to : Socket → Packet → M os.State (Unit {0})
  send_to c p = do _ ← write_packet os c p; return tt

  -- The inner loop of `broadcast`, over the slots from `i` to the active count.
  unfoldable pub send_slots : ℕ → List Socket → Packet → M os.State (Unit {0})
  unfolding send_to
  send_slots zero xs p = return tt
  send_slots (suc k) [] p = return tt
  send_slots (suc k) (x ∷ xs) p =
      let rest = send_slots k xs p in if ltb 0 x.sockfd then (do send_to x p; rest) else rest

  unfoldable pub broadcast_users : Heap → Users → Packet → M os.State (Unit {0})
  unfolding send_slots
  broadcast_users heap [] p = return tt
  broadcast_users heap ((name, u) ∷ users) p = do
    send_slots (get_active_connections_count u heap) (array heap u.connections) p
    broadcast_users heap users p

  -- `Manager::broadcast`
  unfoldable pub broadcast : Packet → M (Server os) ℤ
  broadcast p w = bind (on_os os (broadcast_users w.heap w.users p) w) (λ _. done (pos 0))

  -- The loop of `broadcast_to_user`, which does not ask whether a slot is open.
  unfoldable pub send_others_slots : ℤ → ℕ → List Socket → Packet → M os.State (Unit {0})
  unfolding send_to
  send_others_slots except zero xs p = return tt
  send_others_slots except (suc k) [] p = return tt
  send_others_slots except (suc k) (x ∷ xs) p =
      let rest = send_others_slots except k xs p in
      if pos x.sockfd ==ℤ except then rest else (do send_to x p; rest)

  -- `Manager::broadcast_to_user`
  unfoldable pub broadcast_to_user : Bytes → ℤ → Packet → M (Server os) ℤ
  broadcast_to_user username except p w = elim (find_user username w.users) [
    | none ↦ done (negsuc 0) w
    | some u ↦
        bind
          (on_os os
            (send_others_slots except (get_active_connections_count u w.heap)
              (array w.heap u.connections) p)
            w)
          (λ _. done (pos 0))
  ]

  -- The inner loop of `close_all_connections`: it counts the open connections anew in each round,
  -- and a round closes one. `seen` are the slots behind it, `xs` those ahead, and `i` is the number of
  -- the slots behind.
  unfoldable pub close_slots : ℕ → List Socket → List Socket → M os.State (List Socket)
  close_slots i seen [] s = done seen s
  close_slots i seen (x ∷ xs) s =
      let all = seen ++ (x ∷ xs) in
      let skip = close_slots (i + 1) (seen ++ (x ∷ [])) xs s in
      let shut = bind (close_connection os x s) (λ c. close_slots (i + 1) (seen ++ (c ∷ [])) xs) in
      if ltb i (count_active (length all) all)
      then (if ltb 0 x.sockfd then shut else skip)
      else done all s

  unfoldable pub close_users : Users → Heap → M os.State Heap
  close_users [] heap s = done heap s
  close_users ((name, u) ∷ users) heap s =
      bind (close_slots 0 [] (array heap u.connections) s)
        (λ xs. close_users users (set heap u.connections xs))

  -- `Manager::close_all_connections`
  unfoldable pub close_all_connections : M (Server os) (Unit {0})
  close_all_connections w =
      bind (on_os os (close_users w.users w.heap) w)
        (λ heap v. done tt (record v { heap = heap; is_router_routing = false }))

  -- The body of the `if` in `manage`: the connection waits, and a thread has it.
  unfoldable pub spawn : Job → Socket → M (Server os) (Unit {0})
  spawn job c = do
    lock os
    store os job (set_is_waiting true c)
    λ w. done tt (record w { threads = w.threads ++ (job ∷ []) })
    unlock os

  -- One slot of a round of `manage`: a thread for an open connection that no thread waits on.
  unfoldable pub dispatch_slot : Job → M (Server os) (Unit {0})
  unfolding spawn
  dispatch_slot job = do
    c ← connection os job
    if ltb 0 c.sockfd && not (get_is_waiting c) then spawn job c else return tt

  -- The slots of one user, from `i` on.
  unfoldable pub dispatch_slots : ℕ → ℕ → Bytes → User → M (Server os) (Unit {0})
  dispatch_slots zero i name u w = done tt w
  dispatch_slots (suc k) i name u w =
      let round =
        bind (dispatch_slot (record { connections = u.connections; slot = i; username = name }) w)
          (λ _. dispatch_slots k (i + 1) name u) in
      if ltb i (get_active_connections_count u w.heap) then round else done tt w

  -- One round of the loop of `Manager::manage`, over a list of the users
  unfoldable pub manage_round : Users → M (Server os) (Unit {0})
  manage_round [] = return tt
  manage_round ((name, u) ∷ users) = do
    dispatch_slots u.max_connections 0 name u
    manage_round users
