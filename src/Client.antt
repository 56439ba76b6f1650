-- ===== src/Client.antt =====
-- udp_client/main.cpp: what arrives from the socket is decoded and counted. What the code prints
-- is left out.
pub mod EndToEnd
use espacekilly.Base.{
  ℕ, ◌+◌, ◌%◌, ◌^◌, true, false, none, some, List, [], ◌∷◌, ◌++◌, ltb, if◌then◌else◌, length, drop,
}
use espacekilly.Types.{NewRequest, new, cancel}
use espacekilly.Wire.Bytes.{Endian}
use espacekilly.Wire.Message.{k_message_header_bytes, decode_datagram}

pub record Stats : Type 0 where
  pub news : ℕ
  pub cancels : ℕ

abbrev pub no_stats : Stats
no_stats = record { news = 0; cancels = 0 }

-- `OnRequest`.
unfoldable pub on_request : NewRequest → Stats → Stats
on_request (new r) s = record s { news = (s.news + 1) % 2 ^ 64 }
on_request (cancel r) s = record s { cancels = (s.cancels + 1) % 2 ^ 64 }

-- What `recvfrom` leads to: an error, or bytes that it writes to the front of the buffer.
pub data Received : Type 0 where
  recv_error : Received
  received : List ℕ → Received

-- The loop has ended, waits for a datagram, or has read behind its buffer.
pub data Listening : Type 0 where
  ended : Stats → Listening
  waiting : Stats → List ℕ → Listening
  fault : Listening

-- The `for (;;)` loop of `main`, on what arrives.
unfoldable pub listen : Endian → List Received → List ℕ → Stats → Listening
listen e [] buf s = waiting s buf
listen e (recv_error ∷ rs) buf s = ended s
listen e (received bytes ∷ rs) buf s =
    let buf = bytes ++ drop (length bytes) buf in
    let runt = listen e rs buf s in
    if ltb (length bytes) k_message_header_bytes
    then runt
    else elim (decode_datagram on_request e buf (length bytes) s) [
      | none ↦ fault
      | some (more, s') ↦ elim more [ true ↦ listen e rs buf s' | false ↦ ended s' ]
    ]
