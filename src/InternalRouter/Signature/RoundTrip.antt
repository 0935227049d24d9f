-- ===== src/InternalRouter/Signature/RoundTrip.antt =====
-- A packet signed by the master, at a backup.
use native.Mathlib.Nat.{mod-eq_of_lt}
use dropbox_ufrgs_sisop.Prelude.{
  ◌+◌, ◌<◌, ◌≡◌, ◌^◌, sym, ap, ◌∙◌, [], ◌++◌, ◌∷◌, some, arith, length, drop, length-append,
  drop-length-append,
}
use dropbox_ufrgs_sisop.Bytes.{Bytes, NoNul, c_string, c_string-append}
use dropbox_ufrgs_sisop.PacketType.{code, signed_packet}
use dropbox_ufrgs_sisop.Packet.{Packet, IsPacket, header, of_header, header_size}
use dropbox_ufrgs_sisop.Packet.Header.{
  length-header, of_header-header, copy_bytes-append, build_packet_sized_self, copy_bytes_self,
  build_packet_sized_self,
}
use dropbox_ufrgs_sisop.InternalRouter.Signature.{
  sign_packet, username_size, extract_signed, extract_signature,
}

-- The signed packet, where nothing wraps.
abbrev pub signed : Bytes → Packet → Bytes → Packet
signed padding p user = record {
  type = code signed_packet;
  seqn = 0;
  total_size = 1;
  length = header_size + p.length + length user + 1;
  payload = header padding p ++ (p.payload ++ (user ++ (0 ∷ [])));
}

module _ (padding : Bytes) (p : Packet) (user : Bytes) (v : IsPacket p)
    (four : length padding ≡ 4) where
  length-signed : length (signed padding p user).payload ≡ (signed padding p user).length
  length-signed = omega (
    arith,
    length-append (header padding p) (p.payload ++ (user ++ (0 ∷ []))),
    length-append p.payload (user ++ (0 ∷ [])),
    length-append user (0 ∷ []),
    length-header padding p four,
    v.owns,
  )

  pub sign_packet-IsPacket :
      header_size + p.length + length user + 1 < 2 ^ 32
      → sign_packet padding p user ≡ some (signed padding p user)
  unfolding sign_packet
  sign_packet-IsPacket fits =
      rw (copy_bytes_self p.length p.payload (sym v.owns), mod-eq_of_lt fits)
        (build_packet_sized_self _ _ _ _ (signed padding p user).payload (sym length-signed))

  -- The header that the receiver reads from the front of the block.
  inner-eq : of_header (header padding p) [] ≡ record p { payload = [] }
  inner-eq = of_header-header padding p [] v

  drop-header : drop header_size (signed padding p user).payload ≡ p.payload ++ (user ++ (0 ∷ []))
  drop-header =
      ap (λ k. drop k (signed padding p user).payload) (sym (length-header padding p four))
      ∙ drop-length-append (header padding p) (p.payload ++ (user ++ (0 ∷ [])))

  drop-payload : drop p.length (p.payload ++ (user ++ (0 ∷ []))) ≡ user ++ (0 ∷ [])
  drop-payload =
      ap (λ k. drop k (p.payload ++ (user ++ (0 ∷ [])))) (sym v.owns)
      ∙ drop-length-append p.payload (user ++ (0 ∷ []))

  username_size-signed :
      username_size (header_size + p.length + length user + 1) p.length ≡ some (length user + 1)
  unfolding username_size
  username_size-signed = ground arith

  pub extract_signed-signed :
      extract_signed (signed padding p user) ≡ some (record { p = p; username = user ++ (0 ∷ []) })
  unfolding extract_signed
  extract_signed-signed = rw (
    copy_bytes-append header_size (header padding p) (p.payload ++ (user ++ (0 ∷ [])))
        (sym (length-header padding p four)),
    inner-eq,
    username_size-signed,
    drop-header,
    copy_bytes-append p.length p.payload (user ++ (0 ∷ [])) (sym v.owns),
    drop-payload,
    copy_bytes_self (length user + 1) (user ++ (0 ∷ [])) (sym (length-append user (0 ∷ []))),
  )

  -- A packet signed for a user gives back the packet and the name, with the NUL that ends it. The
  -- name is the C string at that block, if it has no NUL of its own.
  pub extract_signature-sign_packet :
      header_size + p.length + length user + 1 < 2 ^ 32
      → NoNul user
      → (s : Packet) × (sign_packet padding p user ≡ some s)
        × (extract_signature s ≡ some (record { p = p; username = user ++ (0 ∷ []) }))
        × (c_string (user ++ (0 ∷ [])) ≡ some user)
  unfolding extract_signature
  extract_signature-sign_packet fits ends = (
    signed padding p user,
    sign_packet-IsPacket fits,
    extract_signed-signed,
    c_string-append user [] ends,
  )
