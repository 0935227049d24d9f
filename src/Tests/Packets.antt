-- ===== src/Tests/Packets.antt =====
-- Packets and files on their way.
use dropbox_ufrgs_sisop.Prelude.{
  ℕ, zero, suc, ◌≡◌, refl, [], ◌∷◌, ◌++◌, some, false, arith, length, replicate, length-replicate,
  ◌^◌, ◌-◌,
}
use dropbox_ufrgs_sisop.Prelude.OptionMonad.{◌>>=◌}
use dropbox_ufrgs_sisop.Prelude.Int.{pos, to_unsigned}
use dropbox_ufrgs_sisop.Prelude.Outcome.{done, raised, write_error}
use dropbox_ufrgs_sisop.Bytes.{Bytes, NoNul, c_string}
use dropbox_ufrgs_sisop.Text.{text}
use dropbox_ufrgs_sisop.Packet.{Packet, IsPacket, header}
use dropbox_ufrgs_sisop.Socket.{Socket, read_packet, write_packet}
use dropbox_ufrgs_sisop.Socket.RoundTrip.{write_packet_large, read_packet-pending}
use dropbox_ufrgs_sisop.File.{File, to_data, from_data, deserialize, get_payload_size}
use dropbox_ufrgs_sisop.File.RoundTrip.{IsFile, from_data-to_data}
use dropbox_ufrgs_sisop.InternalRouter.Signature.{sign_packet, extract_signature}
use dropbox_ufrgs_sisop.InternalRouter.Signature.RoundTrip.{extract_signature-sign_packet}
use dropbox_ufrgs_sisop.FileManager.{list_directory, listing_names}
use dropbox_ufrgs_sisop.FileManager.Listing.{listing_names-list_directory}
use dropbox_ufrgs_sisop.Tests.World.{noon-IsLine, world, world_stream, two_entries}

abbrev soc : Socket
soc = record { sockfd = 3; port = pos 0; is_waiting = false; buffer = replicate 16 0 }

abbrev p : Packet
p = record { type = 1; seqn = 0; total_size = 1; length = 3; payload = 7 ∷ 8 ∷ 9 ∷ [] }

p-IsPacket : IsPacket p
p-IsPacket = record {
  type_fits = omega arith;
  seqn_fits = omega arith;
  total_size_fits = omega arith;
  length_fits = omega arith;
  owns = refl;
}

abbrev padding : Bytes
padding = 0 ∷ 0 ∷ 0 ∷ 0 ∷ []

-- The packet, and the first byte of the next.
abbrev sent : Bytes
sent = header padding p ++ (p.payload ++ (5 ∷ []))

read_packet-pending_example :
    (t : Bytes) × (read_packet world 20 soc sent
      ≡ done (p, record soc { buffer = header padding p }) t)
    × (t ≡ 5 ∷ [])
read_packet-pending_example =
    read_packet-pending world world_stream 20 soc p padding (5 ∷ []) sent p-IsPacket refl refl
      (omega arith) (omega arith) refl

-- A payload that takes 2 ^ 31 bytes with its header.
abbrev large : Packet
large = record {
  type = 1;
  seqn = 0;
  total_size = 1;
  length = 2 ^ 31 - 16;
  payload = replicate (2 ^ 31 - 16) 7;
}

large-IsPacket : IsPacket large
large-IsPacket = record {
  type_fits = omega arith;
  seqn_fits = omega arith;
  total_size_fits = omega arith;
  length_fits = omega arith;
  owns = length-replicate {A = ℕ} (2 ^ 31 - 16) 7;
}

write_packet_large_example : write_packet world soc large [] ≡ raised write_error []
write_packet_large_example = write_packet_large world soc large [] large-IsPacket (omega arith)

abbrev note : File
note = record { filename = text "note"; bytes = 1 ∷ 0 ∷ []; file_size = 2 }

note-IsFile : IsFile note
note-IsFile = record {
  name_fits = omega arith;
  name_ends = omega arith;
  size_fits = omega arith;
  owns = refl;
}

from_data-to_data_example :
    (payload : Bytes) × (to_data note ≡ some payload)
    × (length payload ≡ to_unsigned 32 (get_payload_size note))
    × ((from_data (payload ++ (0 ∷ [])) >>= deserialize) ≡ some note)
from_data-to_data_example = from_data-to_data note (0 ∷ []) note-IsFile

NoNul-replicate : (n : ℕ) → NoNul (replicate n 97)
NoNul-replicate zero = tt
NoNul-replicate (suc n) = (omega arith, NoNul-replicate n)

abbrev long_name : File
long_name = record { filename = replicate 256 97; bytes = []; file_size = 0 }

abbrev ana : Bytes
ana = text "ana"

extract_signature-sign_packet_example :
    (s : Packet) × (sign_packet padding p ana ≡ some s)
    × (extract_signature s ≡ some (record { p = p; username = ana ++ (0 ∷ []) }))
    × (c_string (ana ++ (0 ∷ [])) ≡ some ana)
extract_signature-sign_packet_example =
    extract_signature-sign_packet padding p ana p-IsPacket refl (omega arith) (omega arith)

listing_names-list_directory_example :
    ((list_directory world (text "d") [] []).0 ≡ pos 1)
    × (listing_names (list_directory world (text "d") [] []).1 ≡ text "a.txt" ∷ [])
listing_names-list_directory_example =
    listing_names-list_directory world noon-IsLine [] (text "d") two_entries refl
      (omega arith, (omega arith, tt)) (λ e. cc)
