-- ===== src/Client/Handshake.antt =====
-- What a client reads of the handshake of a new master: `ClientSocket::udp_listener` in
-- `client/frontend/socket/client_socket.cpp`.
use dropbox_ufrgs_sisop.Prelude.{some, Option}
use dropbox_ufrgs_sisop.Prelude.OptionMonad.{◌>>=◌}
use dropbox_ufrgs_sisop.Prelude.Int.{ℤ}
use dropbox_ufrgs_sisop.Bytes.{Bytes, c_string}
use dropbox_ufrgs_sisop.Text.Numbers.{atoi}
use dropbox_ufrgs_sisop.Text.Tokens.{strtok}
use dropbox_ufrgs_sisop.Packet.{Packet}

-- The address in the text of a handshake. Without a second token `atoi` is given NULL.
abbrev pub address_in : Bytes → Option (Bytes × ℤ)
address_in text = do host ← strtok b':' text; port ← strtok b':' host.1; some (host.0, atoi port.0)

-- The address in a handshake.
unfoldable pub new_master : Packet → Option (Bytes × ℤ)
new_master p = do text ← c_string p.payload; address_in text
