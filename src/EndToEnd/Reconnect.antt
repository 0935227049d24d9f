-- ===== src/EndToEnd/Reconnect.antt =====
-- A new master and a client of the former one: the datagram, and the connection that it leads to.
use dropbox_ufrgs_sisop.Socket.Datagram.RoundTrip.{udp_recv-packet}
use dropbox_ufrgs_sisop.PacketType.{code, login_req}
use dropbox_ufrgs_sisop.Socket.{write_packet}
use dropbox_ufrgs_sisop.Packet.Header.{copy_bytes_self}
use dropbox_ufrgs_sisop.Prelude.Outcome.{done, or_fault}
use dropbox_ufrgs_sisop.Socket.Datagram.{udp_send, udp_server, udp_max_msg}
use dropbox_ufrgs_sisop.Os.{Os}
use dropbox_ufrgs_sisop.Client.Connection.{
  ClientSocket, reconnect, udp_listener, connect_to_server, known_host, open_stream,
}
use dropbox_ufrgs_sisop.Prelude.{
  ℕ, ◌≡◌, ◌<◌, ◌^◌, ◌∷◌, ◌∙◌, [], some, refl, arith, sym, ap, subst, length-append, ◌++◌, length,
  true, ◌+◌,
}
use dropbox_ufrgs_sisop.Prelude.Int.{pos, ℤ}
use dropbox_ufrgs_sisop.Bytes.{Bytes, NoNul, c_string-append}
use dropbox_ufrgs_sisop.Text.{Without, find}
use dropbox_ufrgs_sisop.Text.Numbers.{
  to_string, atoi-to_string, Without-to_string, to_string-first, length-to_string, to_string-NoNul,
}
use dropbox_ufrgs_sisop.Text.Tokens.{strtok, strtok-Without}
use dropbox_ufrgs_sisop.Packet.{IsPacket, build_packet, header, header_size}
use dropbox_ufrgs_sisop.Router.Handshake.{handshake_packet, any_address, ip_port, send_handshakes}
use dropbox_ufrgs_sisop.Prelude.Outcome.Laws.{bind_step}
use dropbox_ufrgs_sisop.Prelude.OptionMonad.{◌>>=◌}
use dropbox_ufrgs_sisop.Client.Handshake.{new_master, address_in}

ip_port-NoNul : (port : ℕ) → NoNul (ip_port port)
ip_port-NoNul port = ground (arith, to_string-NoNul port)

pub handshake_packet-IsPacket : (port : ℕ) → port < 2 ^ 16 → IsPacket (handshake_packet port)
unfolding handshake_packet build_packet
handshake_packet-IsPacket port small = record {
  type_fits = omega arith;
  seqn_fits = omega arith;
  total_size_fits = omega arith;
  length_fits = omega (arith, length-to_string port);
  owns = omega (arith, length-append (to_string (pos port)) (0 ∷ []));
}

-- The client finds the address in the handshake.
strtok-to_string : (port : ℕ) → strtok b':' (to_string (pos port)) ≡ some (to_string (pos port), [])
strtok-to_string port =
    let (c, s, e) = to_string-first port in
    subst (λ t. strtok b':' t ≡ some (t, [])) (sym e)
      (strtok-Without b':' c s (subst (Without b':') e (Without-to_string b':' port refl)))

address_in-ip_port : (port : ℕ) → address_in (ip_port port) ≡ some (any_address, pos port)
unfolding strtok find
address_in-ip_port port = rw (strtok-to_string port) (rw (atoi-to_string port) refl)

new_master-handshake_packet :
    (port : ℕ) → new_master (handshake_packet port) ≡ some (any_address, pos port)
unfolding new_master handshake_packet build_packet
new_master-handshake_packet port =
    ap (λ o. o >>= address_in) (c_string-append (ip_port port) [] (ip_port-NoNul port))
    ∙ address_in-ip_port port

-- The bytes of the handshake, whatever the padding of its header holds.
abbrev pub datagram : Bytes → ℕ → Bytes
datagram padding port = header padding (handshake_packet port) ++ (handshake_packet port).payload

-- The socket of the client when it is connected to the address that the handshake gave.
abbrev pub reconnected : ℕ → ℕ → ClientSocket → ClientSocket
reconnected n port self = record {
  socket = record self.socket { sockfd = n; port = pos port };
  server_address = any_address;
  server_port = pos port;
}

module _ (client server : Os) (username : Bytes) (port n k : ℕ) (self : ClientSocket)
    (small : port < 2 ^ 16) where
  send_handshakes-one :
      (addr : Bytes) (gd : ℤ) (r : server.State)
      → send_handshakes server gd port (addr ∷ []) r
        ≡ done tt (server.sendto r gd (datagram (server.garbage r 4) port) addr)
  unfolding send_handshakes udp_send
  send_handshakes-one addr gd r =
      rw
        (copy_bytes_self (handshake_packet port).length (handshake_packet port).payload
          (sym (handshake_packet-IsPacket port small).owns))
        refl

  reconnect-handshake_packet :
      (u v w x : client.State)
      → client.socket u ≡ (pos n, v)
      → client.resolves v any_address ≡ true
      → client.connect v n any_address (pos port) ≡ (pos 0, w)
      → write_packet client
          (reconnected n port self).socket
          (build_packet (code login_req) 0 1 username)
          w
        ≡ done k x
      → reconnect client username (handshake_packet port) self u
        ≡ done (reconnected n port self, true) x
  unfolding reconnect connect_to_server
  reconnect-handshake_packet u v w x opened known connected wrote =
      let found : or_fault (new_master (handshake_packet port)) u ≡ done (any_address, pos port) u =
        rw (new_master-handshake_packet port) refl in
      let socket : open_stream client u ≡ done n v = ground arith in
      let host : known_host client any_address v ≡ done tt v = ground arith in
      let connects : connect_to_server client (reconnected n port self) v ≡ done tt w =
        ground arith in
      bind_step _ found
        (bind_step _ socket (bind_step _ host (bind_step _ connects (bind_step _ wrote refl))))

  -- A new master that listens on `port` sends one datagram to the address of a client. A client that
  -- receives these bytes, and that can have a socket, connect and send, is connected after it to that
  -- port of the address 0.0.0.0, whatever host the master runs on, has asked there for a login under
  -- its name, and tells its main loop so.
  pub reconnect_end_to_end :
      (addr : Bytes) (fd gd : ℤ) (r : server.State) (s t u v w x : client.State)
      → length (server.garbage r 4) ≡ 4
      → udp_server client s ≡ done fd t
      → client.recvfrom t fd (header_size + udp_max_msg) ≡ (datagram (server.garbage r 4) port, u)
      → client.socket u ≡ (pos n, v)
      → client.resolves v any_address ≡ true
      → client.connect v n any_address (pos port) ≡ (pos 0, w)
      → write_packet client
          (reconnected n port self).socket
          (build_packet (code login_req) 0 1 username)
          w
        ≡ done k x
      → (send_handshakes server gd port (addr ∷ []) r
          ≡ done tt (server.sendto r gd (datagram (server.garbage r 4) port) addr))
        × (udp_listener client username self s ≡ done (reconnected n port self, true) x)
  unfolding udp_listener
  reconnect_end_to_end addr fd gd r s t u v w x four bound arrived opened known connected wrote = (
    send_handshakes-one addr gd r,
    rw bound (
        rw
          (udp_recv-packet client fd (server.garbage r 4) (handshake_packet port) t u
            (handshake_packet-IsPacket port small) four arrived)
          (reconnect-handshake_packet u v w x opened known connected wrote)),
  )
