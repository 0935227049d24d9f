-- ===== src/Tests/Logins.antt =====
-- A third login of a user with two connections.
use dropbox_ufrgs_sisop.Prelude.{◌≡◌, refl, [], ◌∷◌, ◌++◌, some}
use dropbox_ufrgs_sisop.Prelude.Outcome.{done, blocked}
use dropbox_ufrgs_sisop.Bytes.{Bytes, c_string}
use dropbox_ufrgs_sisop.Text.{text, find}
use dropbox_ufrgs_sisop.Packet.{Packet, header, build_packet}
use dropbox_ufrgs_sisop.Socket.{Socket, write_packet}
use dropbox_ufrgs_sisop.User.{get_active_connections_count, count_active}
use dropbox_ufrgs_sisop.Manager.{Server, Job}
use dropbox_ufrgs_sisop.Manager.Users.{find_user}
use dropbox_ufrgs_sisop.Manager.Broadcast.{spawn}
use dropbox_ufrgs_sisop.Router.{login}
use dropbox_ufrgs_sisop.Router.Login.{login_refused_then_blocked}
use dropbox_ufrgs_sisop.Tests.World.{world}
use dropbox_ufrgs_sisop.Tests.Users.{at, ana, serving}

abbrev full : Server world
full = serving (at 4 ∷ at 5 ∷ [])

abbrev pub request : Packet
request = record {
  type = 1;
  seqn = 0;
  total_size = 1;
  length = 14;
  payload = text "ana:10.0.0.9" ++ (0 ∷ []);
}

login_refused_then_blocked_example :
    (v : Server world) × (login world (at 6) request full ≡ done tt v)
    × (v.users ≡ full.users)
    × (v.heap ≡ full.heap)
    × ((next : Socket) (q : Packet) (text : Bytes)
        → c_string q.payload ≡ some text
        → login world next q v ≡ blocked v)
    × ((job : Job) (c : Socket) → spawn world job c v ≡ blocked v)
unfolding find_user get_active_connections_count count_active write_packet header build_packet find
login_refused_then_blocked_example =
    login_refused_then_blocked world (at 6) request full (text "ana:10.0.0.9") ana refl refl refl 40
      [] refl refl
