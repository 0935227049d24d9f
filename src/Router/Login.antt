-- ===== src/Router/Login.antt =====
-- What a login does to the lock and to the connections of its user.
use dropbox_ufrgs_sisop.User.Slots.{push_slot_full}
use dropbox_ufrgs_sisop.Prelude.Int.{negsuc}
use dropbox_ufrgs_sisop.Manager.Broadcast.{spawn}
use dropbox_ufrgs_sisop.Manager.Users.{find_user, add_connection, add_user}
use dropbox_ufrgs_sisop.User.{User, get_active_connections_count, push_connection, array}
use dropbox_ufrgs_sisop.PacketType.{code, login_refuse_resp}
use dropbox_ufrgs_sisop.Socket.{Socket, write_packet}
use dropbox_ufrgs_sisop.Manager.{lock, Server, Job}
use dropbox_ufrgs_sisop.Text.{before, find, text}
use dropbox_ufrgs_sisop.Os.{Os}
use dropbox_ufrgs_sisop.Router.{login, refuse_login}
use dropbox_ufrgs_sisop.Packet.{Packet, build_packet}
use dropbox_ufrgs_sisop.Bytes.{Bytes, c_string}
use dropbox_ufrgs_sisop.Prelude.{ℕ, ◌≡◌, refl, some, true, false}
use dropbox_ufrgs_sisop.Prelude.Outcome.{done, blocked, bind, within}

-- The name in the payload of a login.
abbrev pub login_name : Bytes → Bytes
login_name ip_port = before (find b':' ip_port) ip_port

abbrev pub refusal : Packet
refusal = build_packet (code login_refuse_resp) 0 0 (text "Max connections reached")

-- While the lock is held a login waits for ever.
login_locked :
    (os : Os) (slave : Socket) (p : Packet) (w : Server os) (ip_port : Bytes)
    → c_string p.payload ≡ some ip_port
    → w.locked ≡ true
    → login os slave p w ≡ blocked w
unfolding login lock
login_locked os slave p w ip_port named held = rw (named, login, bind) (rw (held, lock, bind))

module _ (os : Os) (slave : Socket) (p : Packet) (w : Server os) (ip_port : Bytes) (u : User)
    (named : c_string p.payload ≡ some ip_port)
    (known : find_user (login_name ip_port) w.users ≡ some u)
    (full : get_active_connections_count u w.heap ≡ u.max_connections) where
  add_connection_full :
      add_connection os (login_name ip_port) slave (record w { locked = true })
      ≡ (record w { locked = true }, negsuc 0)
  unfolding add_connection push_connection get_active_connections_count
  add_connection_full =
      rw (known, add_connection)
        (rw (push_slot_full u.max_connections _ (array w.heap u.connections) full, push_connection))

  -- A login refused because its user has no free slot is answered, and it leaves the lock held.
  login_refused :
      (n : ℕ) (t : os.State)
      → w.locked ≡ false
      → write_packet os slave refusal w.state ≡ done n t
      → login os slave p w ≡ done tt (record w { state = t; locked = true })
  unfolding login lock add_user refuse_login
  login_refused n t free sent =
      rw (named, login, bind)
        (rw (free, lock, bind)
          (rw (known, add_user, bind)
            (rw (add_connection_full, bind) (rw (sent, refuse_login, within, bind)))))

  -- A login refused for want of a free slot, with the lock free before it and the refusal sent,
  -- changes no user and leaves the lock held: whoever logs in next, under any name, waits for
  -- ever, and so does the manager with the next connection that it wants to serve.
  pub login_refused_then_blocked :
      (n : ℕ) (t : os.State)
      → w.locked ≡ false
      → write_packet os slave refusal w.state ≡ done n t
      → (v : Server os) × (login os slave p w ≡ done tt v)
        × (v.users ≡ w.users)
        × (v.heap ≡ w.heap)
        × ((next : Socket) (q : Packet) (text : Bytes)
            → c_string q.payload ≡ some text
            → login os next q v ≡ blocked v)
        × ((job : Job) (c : Socket) → spawn os job c v ≡ blocked v)
  unfolding spawn lock
  login_refused_then_blocked n t free sent = (
    record w { state = t; locked = true },
    login_refused n t free sent,
    refl,
    refl,
    (λ next q text h. login_locked os next q _ text h refl),
    (λ job c. refl),
  )
