-- ===== src/Wire/Receive.antt =====
-- `packet_receive` and `packet_receive_partial` of shared/packet_helper.c. The answers of the
-- successive calls of recv(2) are a list. At its end the non-blocking call finds no data, and the
-- blocking call is still waiting.
use tizcord.Base.{
  ℕ, ◌+◌, List, [], ◌∷◌, ◌++◌, ltb, if◌then◌else◌, length, take, ◌==◌, true, false, Option, none,
  some,
}
use tizcord.Protocol.{Packet, packet_social}
use tizcord.Wire.Order.{htonl}
use tizcord.Wire.Swap.{swap_packet}
use tizcord.Wire.Abi.{Abi}

-- recv(2): the bytes read (none means that the peer has closed), or -1 with an errno.
pub data RecvAnswer (Byte : Type 0) : Type 0 where
  read : List Byte → RecvAnswer Byte
  interrupted : RecvAnswer Byte
  failed : RecvAnswer Byte

-- `received` is the buffer's first `receive_offset` bytes.
pub record Progress (Byte : Type 0) : Type 0 where
  pub receive_buffer : List Byte
  pub receive_offset : ℕ

-- How a receive loop ends: the buffer is full, the data ran out, the peer closed, or an error.
pub data LoopEnd : Type 0 where
  full no_data closed error : LoopEnd

module _ {Byte : Type 0} (size : ℕ) where
  -- buffer + offset is written and the offset moves on.
  abbrev pub advance : Progress Byte → List Byte → Progress Byte
  advance p chunk = record {
    receive_buffer = take p.receive_offset p.receive_buffer ++ chunk;
    receive_offset = p.receive_offset + length chunk;
  }

  unfoldable pub recv_loop : Progress Byte → List (RecvAnswer Byte) → LoopEnd × Progress Byte
  recv_loop p [] = if ltb p.receive_offset size then (no_data, p) else (full, p)
  recv_loop p (answer ∷ answers) = elim (ltb p.receive_offset size) [
    | false ↦ (full, p)
    | true ↦ elim answer [
      | interrupted ↦ recv_loop p answers
      | failed ↦ (error, p)
      | read chunk ↦ elim (length chunk == 0) [
        | true ↦ (closed, p)
        | false ↦ recv_loop (advance p chunk) answers
      ]
    ]
  ]

-- The packet at the buffer in host order, or none where its type is out of range (EPROTO).
unfoldable pub decode : (a : Abi) → List a.Byte → Option Packet
decode a bytes =
    let packet = a.load bytes in
    let type = htonl a.little packet.packet_type in
    if ltb packet_social type then none else some (swap_packet a.view a.little packet type)

-- The results 0, -1 and 1 of `packet_receive_partial`.
pub data Received : Type 0 where
  incomplete : Received
  broken : Received
  got : Packet → Received

module _ (a : Abi) where
  -- After the loop: the packet is copied out, checked, converted, and the offset reset.
  unfoldable pub finish : LoopEnd × Progress a.Byte → Received × Progress a.Byte
  finish (full, p) = elim (decode a p.receive_buffer) [
    | none ↦ (broken, p)
    | some packet ↦ (got packet, record p { receive_offset = 0 })
  ]
  finish (no_data, p) = (incomplete, p)
  finish (closed, p) = (broken, p)
  finish (error, p) = (broken, p)

  unfoldable pub packet_receive_partial :
      Progress a.Byte → List (RecvAnswer a.Byte) → Received × Progress a.Byte
  unfolding finish
  packet_receive_partial p answers = finish (recv_loop a.size p answers)

-- The results of `packet_receive`: the size with a packet, 0 at an orderly close before the first
-- byte, -1, or no result yet.
pub data FullReceived : Type 0 where
  blocked : FullReceived
  end_of_stream : FullReceived
  broken : FullReceived
  got : Packet → FullReceived

unfoldable pub packet_receive : (a : Abi) → List (RecvAnswer a.Byte) → FullReceived
packet_receive a answers =
    let (ended, p) =
      recv_loop a.size (record { receive_buffer = []; receive_offset = 0 }) answers in
    elim ended [
      | full ↦ elim (decode a p.receive_buffer) [ none ↦ broken | some packet ↦ got packet ]
      | no_data ↦ blocked
      | closed ↦ if p.receive_offset == 0 then end_of_stream else broken
      | error ↦ broken
    ]
