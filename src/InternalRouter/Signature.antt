-- ===== src/InternalRouter/Signature.antt =====
-- `InternalRouter::sign_packet` and `InternalRouter::extract_signature`: a packet wrapped, with the
-- name of its user, into a packet of type SIGNED_PACKET.
pub mod RoundTrip
use dropbox_ufrgs_sisop.Prelude.{
  ℕ, ◌+◌, ◌-◌, ◌%◌, ◌^◌, [], ◌++◌, ◌∷◌, Option, none, some, length, take, drop, ltb, ◌==◌,
  if◌then◌else◌,
}
use dropbox_ufrgs_sisop.Prelude.OptionMonad.{◌>>=◌}
use dropbox_ufrgs_sisop.Bytes.{Bytes}
use dropbox_ufrgs_sisop.PacketType.{code, signed_packet}
use dropbox_ufrgs_sisop.Packet.{
  Packet, header, of_header, header_size, copy_bytes, build_packet_sized,
}

-- `signed_payload_t`; `username` is the block that the pointer points to.
pub record SignedPayload : Type 0 where
  pub p : Packet
  pub username : Bytes

-- `InternalRouter::sign_packet`. `padding` is what the padding of the struct holds; `none` is a
-- payload shorter than its length.
unfoldable pub sign_packet : Bytes → Packet → Bytes → Option Packet
sign_packet padding p user = do
  payload ← copy_bytes p.length p.payload
  let buff = header padding p ++ (payload ++ (user ++ (0 ∷ [])))
  let size = header_size + p.length + length user + 1
  build_packet_sized (code signed_packet) 0 1 (size % 2 ^ 32) buff

-- The size of the name, or `none` where it wraps below 0 and the copy leaves the block.
unfoldable pub username_size : ℕ → ℕ → Option ℕ
username_size size inner =
    if ltb size (header_size + inner) then none else some (size - header_size - inner)

-- The branch for a packet of type SIGNED_PACKET; `none` is a copy from outside the block.
unfoldable pub extract_signed : Packet → Option SignedPayload
extract_signed p = do
  head ← copy_bytes header_size p.payload
  let inner = of_header head []
  size ← username_size p.length inner.length
  payload ← copy_bytes inner.length (drop header_size p.payload)
  username ← copy_bytes size (drop inner.length (drop header_size p.payload))
  some (record { p = record inner { payload = payload }; username = username })

-- `InternalRouter::extract_signature`
unfoldable pub extract_signature : Packet → Option SignedPayload
extract_signature p =
    if p.type == code signed_packet
    then extract_signed p
    else some (record { p = p; username = 0 ∷ [] })
