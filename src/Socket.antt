-- ===== src/Socket.antt =====
-- `commons/socket/socket.cpp`: sockets, and packets read from and written to them.
--
-- A `read` that fails takes 1 from the count of bytes, as in the source; the comparison of that
-- `int` with an unsigned size is made at the width that C gives it. A count that an `int` does not hold
-- is undefined. `read` gives at most 0x7ffff000 bytes on Linux, which an `int` holds; the result of
-- `write` is narrowed to `int`. The loops take fuel.
pub mod Loop
pub mod RoundTrip
pub mod Datagram
pub mod Server
use dropbox_ufrgs_sisop.Prelude.{
  ℕ, zero, suc, ◌+◌, ◌-◌, ◌++◌, Bool, true, false, [], Option, none, some, length, take, drop, ltb,
  leb, ◌==◌, if◌then◌else◌,
}
use dropbox_ufrgs_sisop.Prelude.Int.{ℤ, pos, negsuc, to_unsigned, add_ℕ, pred_ℤ, is_int, narrow}
use dropbox_ufrgs_sisop.Prelude.Outcome.{
  SocketError, read_header_error, read_payload_error, write_error, Outcome, done, raised, fault,
  no_fuel, M, bind, ◌>>=◌, return,
}
use dropbox_ufrgs_sisop.Bytes.{Bytes}
use dropbox_ufrgs_sisop.Os.{Os, got, eof, failed}
use dropbox_ufrgs_sisop.Packet.{Packet, header, of_header, header_size, copy_bytes}

-- `class Socket`. The lock of `is_waiting` guards that field alone.
pub record Socket : Type 0 where
  pub sockfd : ℕ
  pub port : ℤ
  pub is_waiting : Bool
  pub buffer : Bytes

-- `Socket::Socket(const Socket &s)`; nothing is copied to `buffer`.
unfoldable pub copy : Bytes → Socket → Socket
copy garbage s = record {
  sockfd = s.sockfd;
  port = s.port;
  is_waiting = s.is_waiting;
  buffer = garbage;
}

-- `Socket::Socket()`
unfoldable pub new_socket : Bytes → Socket
new_socket garbage = record { sockfd = 0; port = pos 0; is_waiting = false; buffer = garbage }

unfoldable pub get_is_waiting : Socket → Bool
get_is_waiting s = s.is_waiting

unfoldable pub set_is_waiting : Bool → Socket → Socket
set_is_waiting b s = record s { is_waiting = b }

-- What memory holds after bytes are written at an offset.
abbrev pub patch : Bytes → ℕ → Bytes → Bytes
patch memory n bs = take n memory ++ (bs ++ drop (n + length bs) memory)

module _ (os : Os) where
  -- `while (n < size) { bytes = read(fd, memory + n, size - n); if (bytes == 0) throw e; n += bytes; }`
  -- with `w` the width of the comparison. The result is the memory.
  unfoldable pub read_loop : ℕ → ℕ → ℕ → ℕ → SocketError → Bytes → ℤ → M os.State Bytes
  read_loop zero w fd size e memory n s = no_fuel
  read_loop (suc fuel) w fd size e memory n s = elim (ltb (to_unsigned w n) size) [
    | false ↦ done memory s
    | true ↦
        let (r, t) = os.recv s fd (size - to_unsigned w n) in
        elim r [
          | got bs ↦
              let m = add_ℕ n (length bs) in
              elim (is_int m) [
                | false ↦ fault
                | true ↦ read_loop fuel w fd size e (patch memory (to_unsigned w n) bs) m t
              ]
          | eof ↦ raised e t
          | failed ↦ read_loop fuel w fd size e memory (pred_ℤ n) t
        ]
  ]

  -- `Socket::read_packet`, with fuel for each of its loops.
  unfoldable pub read_packet : ℕ → Socket → M os.State (Packet × Socket)
  read_packet fuel soc = do
    buffer ← read_loop fuel 64 soc.sockfd header_size read_header_error soc.buffer (pos 0)
    let p = of_header buffer []
    memory ← λ s. done (os.garbage s p.length) s
    payload ← read_loop fuel 32 soc.sockfd p.length read_payload_error memory (pos 0)
    return (record p { payload = payload }, record soc { buffer = buffer })

  -- `Socket::write_packet`. `write` may send less than it was given; that is an error here.
  unfoldable pub write_packet : Socket → Packet → M os.State ℕ
  unfolding copy_bytes
  write_packet soc p s = elim (copy_bytes p.length p.payload) [
    | none ↦ fault
    | some payload ↦
        let (n, t) = os.send s soc.sockfd (header (os.garbage s 4) p ++ payload) in
        if to_unsigned 64 (narrow n) == header_size + p.length
        then done (header_size + p.length) t
        else raised write_error t
  ]

  -- `Socket::close_connection`
  unfoldable pub close_connection : Socket → M os.State Socket
  close_connection soc s = done (record soc { sockfd = 0 }) (os.close s soc.sockfd)
