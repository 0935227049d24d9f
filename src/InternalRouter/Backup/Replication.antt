-- ===== src/InternalRouter/Backup/Replication.antt =====
-- What a backup does with what a master signs.
use dropbox_ufrgs_sisop.Socket.{patch}
use dropbox_ufrgs_sisop.Prelude.{
  drop, refl, drop-length, arith, ◌≡◌, ◌<◌, ◌+◌, ◌^◌, ◌∷◌, [], ◌++◌, sym, ap, ◌∙◌, some, length,
  append-nil, none, true,
}
use dropbox_ufrgs_sisop.Prelude.Outcome.Laws.{bind_assoc}
use dropbox_ufrgs_sisop.Prelude.Outcome.{done, bind}
use dropbox_ufrgs_sisop.Bytes.{Bytes, NoNul, c_string, c_string-append, has_nul}
use dropbox_ufrgs_sisop.Os.{Os}
use dropbox_ufrgs_sisop.PacketType.{login_req, code, upload_req, delete_req}
use dropbox_ufrgs_sisop.FileManager.{create_directory}
use dropbox_ufrgs_sisop.Text.{text}
use dropbox_ufrgs_sisop.Prelude.Int.{ℤ}
use dropbox_ufrgs_sisop.Packet.Header.{copy_bytes_self}
use dropbox_ufrgs_sisop.Packet.{Packet, IsPacket, header_size}
use dropbox_ufrgs_sisop.File.{File, to_data}
use dropbox_ufrgs_sisop.File.RoundTrip.{
  IsFile, payload_of, to_data-IsFile, from_data-payload_of, deserialize-serialized,
}
use dropbox_ufrgs_sisop.Controllers.{upload, delete_file}
use dropbox_ufrgs_sisop.InternalRouter.Signature.{sign_packet, extract_signature}
use dropbox_ufrgs_sisop.InternalRouter.Signature.RoundTrip.{
  signed, sign_packet-IsPacket, extract_signed-signed,
}
use dropbox_ufrgs_sisop.InternalRouter.Backup.{
  address_size, add_address, replay_login, Follower, receive, replay, replay_upload, replay_delete,
}

module _ (os : Os) (padding : Bytes) (p : Packet) (user : Bytes) (v : IsPacket p)
    (four : length padding ≡ 4) (ends : NoNul user) where
  -- A backup that receives the signed packet replays its content for the user.
  receive-signed :
      (r : Follower) (s : os.State)
      → receive os (signed padding p user) r s
        ≡ replay os (record { p = p; username = user ++ (0 ∷ []) }) r s
  unfolding receive extract_signature
  receive-signed r s = rw (extract_signed-signed padding p user v four, bind)

-- The payload of a packet that carries a file.
payload_of-eq :
    (f : File) (payload : Bytes)
    → IsFile f
    → to_data f ≡ some payload
    → payload ≡ payload_of f ++ []
payload_of-eq f payload w h =
    ap (λ o. elim o [ none ↦ [] | some x ↦ x ]) (sym h ∙ to_data-IsFile f w)
    ∙ sym (append-nil (payload_of f))

module _ (os : Os) (padding : Bytes) (p : Packet) (user : Bytes) (v : IsPacket p)
    (four : length padding ≡ 4) (ends : NoNul user)
    (fits : header_size + p.length + length user + 1 < 2 ^ 32) where
  -- A backup repeats the upload of its master: the packet with a file whose data hold a NUL, signed
  -- for a user, makes it write the same file into the directory of the same user, and changes nothing else.
  pub receive-upload :
      (f : File) (r : Follower) (s : os.State)
      → IsFile f
      → has_nul f.bytes ≡ true
      → p.type ≡ code upload_req
      → to_data f ≡ some p.payload
      → (sp : Packet) × (sign_packet padding p user ≡ some sp)
        × (receive os sp r s ≡ bind (upload os f user s) (λ _. done r))
  unfolding replay replay_upload
  receive-upload f r s w nul typed carried = (
    signed padding p user,
    sign_packet-IsPacket padding p user v four fits,
    receive-signed os padding p user v four ends r s
        ∙ rw (c_string-append user [] ends, typed, bind)
            (rw (payload_of-eq f p.payload w carried, from_data-payload_of f [] w nul, bind)
              (rw (deserialize-serialized f w, bind) (bind_assoc (upload os f user s) _ _))),
  )

  -- A backup repeats the deletion of its master: the packet that names a file, signed for a user,
  -- makes it remove the file of that name from the directory of the same user, and changes nothing
  -- else.
  pub receive-delete_file :
      (filename : Bytes) (r : Follower) (s : os.State)
      → p.type ≡ code delete_req
      → c_string p.payload ≡ some filename
      → (sp : Packet) × (sign_packet padding p user ≡ some sp)
        × (receive os sp r s ≡ bind (delete_file os filename user s) (λ _. done r))
  unfolding replay replay_delete
  receive-delete_file filename r s typed named = (
    signed padding p user,
    sign_packet-IsPacket padding p user v four fits,
    receive-signed os padding p user v four ends r s
        ∙ rw (c_string-append user [] ends, typed, bind)
            (rw (named, bind) (bind_assoc (delete_file os filename user s) _ _)),
  )

-- The packet that names the address of a client that has logged in.
abbrev pub login_packet : Bytes → Packet
login_packet addr = record {
  type = code login_req;
  seqn = 0;
  total_size = 1;
  length = address_size;
  payload = addr;
}

pub login_packet-IsPacket :
    (addr : Bytes) → length addr ≡ address_size → IsPacket (login_packet addr)
login_packet-IsPacket addr sixteen = record {
  type_fits = omega arith;
  seqn_fits = omega arith;
  total_size_fits = omega arith;
  length_fits = omega arith;
  owns = sixteen;
}

-- Bytes that are written over a block of their length.
whole : (memory bytes : Bytes) → length memory ≡ length bytes → patch memory 0 bytes ≡ bytes
whole memory bytes same =
    let all : 0 + length bytes ≡ length memory = omega (arith, same) in
    ap (◌++◌ bytes) (ap (λ n. drop n memory) all ∙ drop-length memory) ∙ append-nil bytes

module _ (os : Os) (padding addr user : Bytes) (four : length padding ≡ 4) (ends : NoNul user)
    (sixteen : length addr ≡ address_size) where
  -- A backup notes the address for the user, and has a directory for it.
  pub receive-login_packet :
      (r : Follower) (s t : os.State) (err : ℤ)
      → length (os.garbage s address_size) ≡ address_size
      → create_directory os (text "./sync_directories/sync_dir_") user s ≡ done err t
      → receive os (signed padding (login_packet addr) user) r s
        ≡ done (record r { users = add_address user addr r.users }) t
  unfolding replay replay_login
  receive-login_packet r s t err room made =
      receive-signed os padding (login_packet addr) user (login_packet-IsPacket addr sixteen) four
        ends r s
      ∙ rw (c_string-append user [] ends, bind)
          (rw (copy_bytes_self address_size addr (sym sixteen), bind)
            (rw (whole (os.garbage s address_size) addr (room ∙ sym sixteen))
              (rw (made, bind) refl)))
