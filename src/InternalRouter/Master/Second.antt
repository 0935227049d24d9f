-- ===== src/InternalRouter/Master/Second.antt =====
-- A second backup that joins a master.
use dropbox_ufrgs_sisop.Prelude.{
  ℕ, ◌≡◌, ◌<◌, some, length, get_elem?, arith, lt→ltb, length-set, ap,
}
use dropbox_ufrgs_sisop.Prelude.Int.{ℤ}
use dropbox_ufrgs_sisop.Prelude.Outcome.{done, fault, or_fault}
use dropbox_ufrgs_sisop.Prelude.Outcome.Laws.{bind_step}
use dropbox_ufrgs_sisop.Bytes.{Bytes, c_string}
use dropbox_ufrgs_sisop.Text.{find, after, before}
use dropbox_ufrgs_sisop.Text.Numbers.{stoi}
use dropbox_ufrgs_sisop.Os.{Os}
use dropbox_ufrgs_sisop.PacketType.{code, join_req}
use dropbox_ufrgs_sisop.Packet.{Packet}
use dropbox_ufrgs_sisop.InternalRouter.Broadcast.{Peer}
use dropbox_ufrgs_sisop.InternalRouter.Master.{
  Master, take_in, join_request, handle_backup, port_in, peer,
}

take_in-fault :
    (os : Os) (i : ℕ) (ip : Bytes) (port : ℤ) (q : Peer) (m : Master os)
    → get_elem? m.others i ≡ some q
    → 1 < length m.others
    → take_in os i ip port m ≡ fault
unfolding take_in
take_in-fault os i ip port q m found more =
    let here : peer os i m ≡ done q m = ground arith in
    bind_step _ here (
      rw (
        length-set m.others i (record q { server_ip = ip; server_port = port }),
        lt→ltb 1 (length m.others) more,
      ))

-- A master that has another backup already leaves the defined part of C++ when one asks to join: the
-- text of the packets for the two neighbours is read from a string that has been destroyed. The
-- request names an address with a port.
pub handle_backup-fault :
    (os : Os) (i : ℕ) (p : Packet) (text : Bytes) (port : ℤ) (q : Peer) (m : Master os)
    → p.type ≡ code join_req
    → c_string p.payload ≡ some text
    → stoi (after (find b':' text) text) ≡ some port
    → get_elem? m.others i ≡ some q
    → 1 < length m.others
    → handle_backup os i p m ≡ fault
unfolding handle_backup join_request
handle_backup-fault os i p text port q m typed named numbered found more =
    let parsed : port_in os text m ≡ done port m = ground arith in
    rw typed (
      bind_step _ (ap (λ o. or_fault o m) named) (
        bind_step _ parsed (take_in-fault os i (before (find b':' text) text) port q m found more)))
