-- ===== src/Socket/RoundTrip.antt =====
-- What `write_packet` sends, and what `read_packet` makes of a packet on a stream.
use dropbox_ufrgs_sisop.Prelude.{
  refl, leb, true, ◌==◌, false, ◌≤◌, ◌^◌, ℕ, ◌+◌, ◌<◌, ◌≡◌, sym, ap, [], ◌++◌, arith, length, ◌^◌,
  ◌≤◌,
}
use dropbox_ufrgs_sisop.Prelude.Int.{to_unsigned, narrow, is_int-large, narrow-is_int}
use dropbox_ufrgs_sisop.Prelude.Outcome.{
  read_header_error, read_payload_error, done, raised, write_error,
}
use dropbox_ufrgs_sisop.Bytes.{Bytes}
use dropbox_ufrgs_sisop.Os.{Os}
use dropbox_ufrgs_sisop.Os.Stream.{IsStream}
use dropbox_ufrgs_sisop.Packet.{Packet, IsPacket, header, of_header, header_size}
use dropbox_ufrgs_sisop.Packet.Header.{length-header, of_header-header}
use dropbox_ufrgs_sisop.Socket.{Socket, read_packet, write_packet}
use dropbox_ufrgs_sisop.Socket.Loop.{take-all, read_loop-pending}

module _ (os : Os) where
  -- A packet that is sent as 2 ^ 31 bytes or more is an error whatever `write` gives back: the bytes
  -- are handed to one call of `write`, and then WRITE_ERROR is thrown, also if that call took them
  -- all.
  pub write_packet_large :
      (soc : Socket) (p : Packet) (s : os.State)
      → IsPacket p
      → 2 ^ 31 ≤ header_size + p.length
      → write_packet os soc p s
        ≡ raised write_error (os.send s soc.sockfd (header (os.garbage s 4) p ++ p.payload)).1
  unfolding write_packet
  write_packet_large soc p s v large =
      let never : (to_unsigned 64
              (narrow (os.send s soc.sockfd (header (os.garbage s 4) p ++ p.payload)).0)
            == header_size + p.length)
          ≡ false =
        is_int-large (narrow (os.send s soc.sockfd (header (os.garbage s 4) p ++ p.payload)).0)
          (header_size + p.length)
          (narrow-is_int (os.send s soc.sockfd (header (os.garbage s 4) p ++ p.payload)).0) large
          (omega (arith, v.length_fits)) in
      let whole : leb p.length (length p.payload) ≡ true = rw v.owns (ground arith) in
      rw (whole, write_packet)
        (rw (take-all p.payload p.length (sym v.owns), write_packet)
          (rw (never, write_packet) refl))

module _ (os : Os) (stream : IsStream os) where
  open stream use {pending, length-garbage}

  -- Where the bytes of a packet, whose payload is below 2 ^ 31 bytes, are next on a stream on which no
  -- read fails, `read_packet` gives that packet, however `read` cuts the bytes into pieces. Fuel for one round more than there are bytes
  -- is enough, and what follows the packet stays in the stream.
  pub read_packet-pending :
      (fuel : ℕ) (soc : Socket) (p : Packet) (padding rest : Bytes) (s : os.State)
      → IsPacket p
      → length padding ≡ 4
      → length soc.buffer ≡ header_size
      → p.length < 2 ^ 31
      → header_size + p.length < fuel
      → pending s soc.sockfd ≡ header padding p ++ (p.payload ++ rest)
      → (t : os.State) × (read_packet os fuel soc s
          ≡ done (p, record soc { buffer = header padding p }) t)
        × (pending t soc.sockfd ≡ rest)
  unfolding read_packet
  read_packet-pending fuel soc p padding rest s v four b small f q =
      let d : Packet = of_header (header padding p) [] in
      let back : d ≡ record p { payload = [] } = of_header-header padding p [] v in
      let size : d.length ≡ p.length = ap (λ (p : Packet). p.length) back in
      let whole : length (header padding p) ≡ header_size = length-header padding p four in
      let owns : length p.payload ≡ p.length = v.owns in
      let (t, first, q') =
        read_loop-pending os stream 64 soc.sockfd read_header_error fuel header_size 0 soc.buffer
          (header padding p) (p.payload ++ rest) s (omega arith) (omega arith) (omega arith) b q in
      let (u, second, q'') =
        read_loop-pending os stream 32 soc.sockfd read_payload_error fuel d.length 0
          (os.garbage t d.length) p.payload rest t (omega arith) (omega arith) (omega arith)
          (length-garbage t d.length) q' in
      (
        u,
        rw first (
            rw second (
              ap
                (λ (d : Packet).
                  done (record d { payload = p.payload }, record soc { buffer = header padding p })
                    u)
                back)),
        q'',
      )
