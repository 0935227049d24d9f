-- ===== src/PacketType.antt =====
-- `enum packet_type` of `commons/packet.hpp`, and its values on the wire.
use dropbox_ufrgs_sisop.Prelude.{ℕ, ◌≡◌, refl, List, [], ◌∷◌, Option, some, get_elem?}

pub data PacketType : Type 0 where
  login_req login_accept_resp login_refuse_resp sync_dir_req : PacketType
  sync_dir_accept_resp sync_dir_refuse_resp upload_req upload_accept_resp : PacketType
  upload_refuse_resp upload_broadcast download_req download_accept_resp : PacketType
  download_refuse_resp delete_req delete_accept_resp delete_refuse_resp : PacketType
  list_req list_accept_resp list_refuse_resp logout_req : PacketType
  logout_resp stop_server_req stop_server_broadcast unknown_resp : PacketType
  delete_broadcast master_req master_resp redundancy_req : PacketType
  redundancy_ack redundancy_nack server_handshake server_keepalive : PacketType
  join_req join_resp vote your_id_resp : PacketType
  signed_packet : PacketType

abbrev pub code : PacketType → ℕ
code login_req = 0
code login_accept_resp = 1
code login_refuse_resp = 2
code sync_dir_req = 3
code sync_dir_accept_resp = 4
code sync_dir_refuse_resp = 5
code upload_req = 6
code upload_accept_resp = 7
code upload_refuse_resp = 8
code upload_broadcast = 9
code download_req = 10
code download_accept_resp = 11
code download_refuse_resp = 12
code delete_req = 13
code delete_accept_resp = 14
code delete_refuse_resp = 15
code list_req = 16
code list_accept_resp = 17
code list_refuse_resp = 18
code logout_req = 19
code logout_resp = 20
code stop_server_req = 21
code stop_server_broadcast = 22
code unknown_resp = 23
code delete_broadcast = 24
code master_req = 25
code master_resp = 26
code redundancy_req = 27
code redundancy_ack = 28
code redundancy_nack = 29
code server_handshake = 30
code server_keepalive = 31
code join_req = 32
code join_resp = 33
code vote = 34
code your_id_resp = 35
code signed_packet = 36

abbrev packet_types : List PacketType
packet_types =
    login_req ∷ login_accept_resp ∷ login_refuse_resp ∷ sync_dir_req ∷ sync_dir_accept_resp
    ∷ sync_dir_refuse_resp ∷ upload_req ∷ upload_accept_resp ∷ upload_refuse_resp ∷ upload_broadcast
    ∷ download_req ∷ download_accept_resp ∷ download_refuse_resp ∷ delete_req ∷ delete_accept_resp
    ∷ delete_refuse_resp ∷ list_req ∷ list_accept_resp ∷ list_refuse_resp ∷ logout_req ∷ logout_resp
    ∷ stop_server_req ∷ stop_server_broadcast ∷ unknown_resp ∷ delete_broadcast ∷ master_req
    ∷ master_resp ∷ redundancy_req ∷ redundancy_ack ∷ redundancy_nack ∷ server_handshake
    ∷ server_keepalive ∷ join_req ∷ join_resp ∷ vote ∷ your_id_resp ∷ signed_packet ∷ []

-- What a `switch` on the `type` of a packet sees; `none` is a number that no label names.
abbrev pub of_code : ℕ → Option PacketType
of_code = get_elem? packet_types

pub of_code-code : (t : PacketType) → of_code (code t) ≡ some t
of_code-code login_req = refl
of_code-code login_accept_resp = refl
of_code-code login_refuse_resp = refl
of_code-code sync_dir_req = refl
of_code-code sync_dir_accept_resp = refl
of_code-code sync_dir_refuse_resp = refl
of_code-code upload_req = refl
of_code-code upload_accept_resp = refl
of_code-code upload_refuse_resp = refl
of_code-code upload_broadcast = refl
of_code-code download_req = refl
of_code-code download_accept_resp = refl
of_code-code download_refuse_resp = refl
of_code-code delete_req = refl
of_code-code delete_accept_resp = refl
of_code-code delete_refuse_resp = refl
of_code-code list_req = refl
of_code-code list_accept_resp = refl
of_code-code list_refuse_resp = refl
of_code-code logout_req = refl
of_code-code logout_resp = refl
of_code-code stop_server_req = refl
of_code-code stop_server_broadcast = refl
of_code-code unknown_resp = refl
of_code-code delete_broadcast = refl
of_code-code master_req = refl
of_code-code master_resp = refl
of_code-code redundancy_req = refl
of_code-code redundancy_ack = refl
of_code-code redundancy_nack = refl
of_code-code server_handshake = refl
of_code-code server_keepalive = refl
of_code-code join_req = refl
of_code-code join_resp = refl
of_code-code vote = refl
of_code-code your_id_resp = refl
of_code-code signed_packet = refl
