-- ===== src/Broadcaster/Send.antt =====
-- The sending loop of udp_broadcaster/main.cpp. The clock that encodeDatagram reads and the
-- results of sendto are arguments; the datagrams are what sendto is given.
use espacekilly.Base.{
  ℕ, ◌+◌, ◌%◌, ◌^◌, Bool, true, false, List, [], ◌∷◌, ◌++◌, ℤ, if◌then◌else◌, take, replicate,
}
use espacekilly.Types.{NewRequest}
use espacekilly.Wire.Bytes.{Endian}
use espacekilly.Wire.Message.{encode_datagram, encode_sentinel}

-- `buf`, `seqnum`, the datagrams so far, and whether `sendto` has failed.
pub record Sending : Type 0 where
  pub datagrams : List (List ℕ)
  pub buf : List ℕ
  pub seqnum : ℕ
  pub failed : Bool

module _ (e : Endian) (now_ns : ℕ → ℤ) (sends : ℕ → Bool) where
  -- The `for` loop, from request `i` on.
  unfoldable pub send_stream : ℕ → List ℕ → ℕ → List NewRequest → Sending
  send_stream i buf seqnum [] = record {
    datagrams = [];
    buf = buf;
    seqnum = seqnum;
    failed = false;
  }
  send_stream i buf seqnum (req ∷ reqs) =
      let (buf', len) = encode_datagram e buf seqnum (now_ns i) req in
      let rest = send_stream (i + 1) buf' ((seqnum + 1) % 2 ^ 16) reqs in
      if sends i then record rest { datagrams = take len buf' ∷ rest.datagrams } else record {
        datagrams = take len buf' ∷ [];
        buf = buf';
        seqnum = (seqnum + 1) % 2 ^ 16;
        failed = true;
      }

  -- The sentinel is sent three times, and what `sendto` returns for it is dropped.
  unfoldable pub broadcast : List ℕ → List NewRequest → List (List ℕ)
  broadcast buf reqs =
      let s = send_stream 0 buf 0 reqs in
      let (buf', len) = encode_sentinel e s.buf s.seqnum in
      if s.failed then s.datagrams else s.datagrams ++ replicate 3 (take len buf')
