-- ===== src/InternalRouter/Succession/Heir.antt =====
-- A backup that hears of logins until its master falls silent.
use mathlib.Core.List.{Perm}
use dropbox_ufrgs_sisop.Prelude.{
  ℕ, List, [], ◌∷◌, ◌++◌, ◌≡◌, refl, subst, ◌∙◌, true, false, Bool, length, replicate, append-nil,
  none, some, Option,
}
use dropbox_ufrgs_sisop.Prelude.Int.{ℤ, pos, negsuc}
use dropbox_ufrgs_sisop.Prelude.Outcome.{done, bind, catch}
use dropbox_ufrgs_sisop.Prelude.Outcome.Laws.{bind_step}
use dropbox_ufrgs_sisop.Bytes.{Bytes, NoNul}
use dropbox_ufrgs_sisop.Text.{text}
use dropbox_ufrgs_sisop.Os.{Os}
use dropbox_ufrgs_sisop.Socket.{Socket, read_packet, write_packet}
use dropbox_ufrgs_sisop.Socket.Server.{ServerSocket}
use dropbox_ufrgs_sisop.FileManager.{create_directory}
use dropbox_ufrgs_sisop.InternalRouter.Signature.RoundTrip.{signed}
use dropbox_ufrgs_sisop.InternalRouter.Vote.{Voter}
use dropbox_ufrgs_sisop.InternalRouter.Vote.Start.{context_of, succeed}
use dropbox_ufrgs_sisop.InternalRouter.Backup.{
  add_address, Follower, address_size, keepalive_packet, keepalive_round, readable_round,
  silent_round,
}
use dropbox_ufrgs_sisop.InternalRouter.Backup.Replication.{login_packet, receive-login_packet}
use dropbox_ufrgs_sisop.InternalRouter.Member.{Member}
use dropbox_ufrgs_sisop.InternalRouter.Succession.{
  keepalive, new_internal_router, after_keepalive, start, voter_of,
}
use dropbox_ufrgs_sisop.InternalRouter.Succession.Context.{heard, addresses_of, context_of-heard}

module _ (os : Os) (fuel : ℕ) where
  -- What a backup reads while its master serves: the logins, one signed packet for each. The socket
  -- and the state before and after it.
  pub data Hears : List (Bytes × Bytes) → Socket → os.State → Socket → os.State → Type 0 where
    nothing : {c : Socket} {s : os.State} → Hears [] c s c s
    login :
        {logins : List (Bytes × Bytes)} {c d e : Socket} {s t u v : os.State}
        (padding user addr : Bytes) (err : ℤ)
        → length padding ≡ 4
        → NoNul user
        → length addr ≡ address_size
        → read_packet os fuel c s ≡ done (signed padding (login_packet addr) user, d) t
        → length (os.garbage t address_size) ≡ address_size
        → create_directory os (text "./sync_directories/sync_dir_") user t ≡ done err u
        → Hears logins d u e v
        → Hears ((user, addr) ∷ logins) c s e v

  -- One login.
  round-login_packet :
      (padding user addr : Bytes) (err : ℤ) (r : Follower) (d : Socket) (s t u : os.State)
      → length padding ≡ 4
      → NoNul user
      → length addr ≡ address_size
      → read_packet os fuel r.client_socket s ≡ done (signed padding (login_packet addr) user, d) t
      → length (os.garbage t address_size) ≡ address_size
      → create_directory os (text "./sync_directories/sync_dir_") user t ≡ done err u
      → keepalive_round os fuel true r s
        ≡ done
            (record r {
              users = add_address user addr r.users;
              half_timeout = false;
              client_socket = d;
            })
            u
  unfolding keepalive_round readable_round
  round-login_packet padding user addr err r d s t u four ends sixteen arrived room made =
      rw (arrived, catch, bind)
        (rw
          (receive-login_packet os padding addr user four ends sixteen
            (record r { half_timeout = false; client_socket = d }) t u err room made)
          refl)

  keepalive-Hears :
      {logins : List (Bytes × Bytes)} {c d : Socket} {s t : os.State} (polls : List Bool)
      (users : List (Bytes × List Bytes)) (m : Member)
      → Hears logins c s d t
      → keepalive os fuel
          (replicate (length logins) true ++ polls)
          (record (new_internal_router m) { users = users; client_socket = c })
          s
        ≡ keepalive os fuel polls
            (record (new_internal_router m) { users = heard logins users; client_socket = d })
            t
  unfolding keepalive keepalive_round readable_round new_internal_router
  keepalive-Hears polls users m nothing = refl
  keepalive-Hears {logins} {c} {s} polls users m
        (login {d} {t} {u} padding user addr err four ends sixteen arrived room made later) =
      bind_step _
        (round-login_packet padding user addr err
          (record (new_internal_router m) { users = users; client_socket = c }) d s t u four ends
          sixteen arrived room made)
        (keepalive-Hears polls (add_address user addr users) m later)

  -- The master falls silent: two rounds with nothing to read.
  keepalive-silence :
      (users : List (Bytes × List Bytes)) (m : Member) (d : Socket) (t u : os.State) (k : ℕ)
      → write_packet os d keepalive_packet t ≡ done k u
      → keepalive os fuel
          (false ∷ false ∷ [])
          (record (new_internal_router m) { users = users; client_socket = d })
          t
        ≡ done
            (record (new_internal_router m) {
              users = users;
              client_socket = d;
              half_timeout = true;
              ended = true;
            })
            u
  unfolding keepalive keepalive_round silent_round new_internal_router
  keepalive-silence users m d t u k asked = rw (asked, catch, bind) refl

  after_keepalive_by :
      (rounds : ℕ) (server_socket : ServerSocket) (m : Member) (r : Follower) (s : os.State)
      (id : Option ℤ)
      → m.id ≡ id
      → r.adjacent.server_ip ≡ []
      → (v : Voter) × (after_keepalive os rounds fuel server_socket m r s ≡ done v s)
        × (v.is_master ≡ true)
        × (v.relaunch ≡ false)
  unfolding after_keepalive succeed
  after_keepalive_by rounds server_socket m r s (some (pos n)) e alone = (
    record (voter_of n m r) { is_master = true },
    rw (e, after_keepalive) (rw alone refl),
    refl,
    refl,
  )
  after_keepalive_by rounds server_socket m r s (some (negsuc n)) e alone = (
    record (voter_of 0 m r) { is_master = true },
    rw (e, after_keepalive) (rw alone refl),
    refl,
    refl,
  )
  after_keepalive_by rounds server_socket m r s none e alone = (
    record (voter_of 0 m r) { is_master = true },
    rw (e, after_keepalive) (rw alone refl),
    refl,
    refl,
  )

  -- A backup that has no neighbour, hears of logins, and then hears nothing for two rounds, while it can
  -- still write to its master, is the master after it, not to join anybody, and has as its context the
  -- addresses of the logins, each as often as it heard of it.
  pub start-heir :
      (rounds : ℕ) (server_socket : ServerSocket) (m : Member) (logins : List (Bytes × Bytes))
      (d : Socket) (s t u : os.State) (k : ℕ)
      → m.adjacent.server_ip ≡ []
      → Hears logins m.client_socket.socket s d t
      → write_packet os d keepalive_packet t ≡ done k u
      → (v : Voter) × (start os rounds fuel
            (replicate (length logins) true ++ (false ∷ false ∷ []))
            server_socket
            m
            s
          ≡ done (context_of (heard logins []), v) u)
        × (v.is_master ≡ true)
        × (v.relaunch ≡ false)
        × Perm (context_of (heard logins [])) (addresses_of logins)
  unfolding start new_internal_router context_of
  start-heir rounds server_socket m logins d s t u k alone hears asked =
      let r : Follower = record (new_internal_router m) {
        users = heard logins [];
        client_socket = d;
        half_timeout = true;
        ended = true;
      } in
      let (v, heir, master, stays) =
        after_keepalive_by rounds server_socket m r u m.id refl alone in
      (
        v,
        bind_step _
            (keepalive-Hears (false ∷ false ∷ []) [] m hears
              ∙ keepalive-silence (heard logins []) m d t u k asked)
            (bind_step _ heir refl),
        master,
        stays,
        subst (Perm (context_of (heard logins []))) (append-nil (addresses_of logins))
            (context_of-heard logins []),
      )
