-- ===== src/Wire/Tests.antt =====
-- The theorems on packets over a stream at a login request, cut into two writes and two reads.
use tizcord.Base.{
  ◌<◌, ap, ◌∙◌, take, drop, length, length-take, length-drop, append-nil, take-append-drop, ℕ, true,
  ◌≡◌, ◌≤◌, ◌++◌, refl, List, [], ◌∷◌, codes, arith,
}
use tizcord.Protocol.{
  Packet, blank_packet, auth, no_auth, packet_auth, packet_social, auth_register,
}
use tizcord.Wire.Order.{htonl, network64}
use tizcord.Wire.Swap.{swap_packet, Fits, swap_packet-swap_packet}
use tizcord.Wire.Abi.{TextsFit, three_cells}
use tizcord.Wire.Codec.{Octet}
use tizcord.Wire.Host.{octet_host, octet_host-AbiLaws}
use tizcord.Wire.Send.{
  SendAnswer, wrote, interrupted, sent_all, packet_send, packet_send-whole, packet_send-total,
}
use tizcord.Wire.Receive.{
  RecvAnswer, read, Progress, incomplete, got, packet_receive_partial, recv_loop, decode,
}
use tizcord.Wire.Stream.{
  packet_receive_partial-append, packet_receive_partial-type, packet_receive_partial-packet_send,
  stream,
}

abbrev request : Packet
request = blank_packet packet_auth (
    auth (record no_auth {
      action = auth_register;
      username = codes "ada";
      password = codes "secret";
    }))

abbrev wire : Packet
wire = swap_packet three_cells.view three_cells.little request packet_auth

abbrev two_writes : List SendAnswer
two_writes = wrote 1 ∷ interrupted ∷ wrote 2 ∷ []

abbrev first_read : List (RecvAnswer three_cells.Byte)
first_read = read (wire ∷ []) ∷ []

abbrev second_read : List (RecvAnswer three_cells.Byte)
second_read = RecvAnswer.interrupted ∷ read (wire ∷ wire ∷ []) ∷ []

abbrev fresh : Progress three_cells.Byte
fresh = record { receive_buffer = []; receive_offset = 0 }

abbrev partly : Progress three_cells.Byte
partly = record { receive_buffer = wire ∷ []; receive_offset = 1 }

packet_send-total_example : (packet_send three_cells request two_writes).0 ≡ sent_all
packet_send-total_example =
    packet_send-total three_cells request two_writes (λ p. refl)
      (omega arith, (tt, (omega arith, tt))) (omega arith)

request-Fits : Fits request
request-Fits = record {
  packet_type = omega arith;
  sender_id = omega arith;
  list_id = omega arith;
  list_index = omega arith;
  list_total = omega arith;
  list_frame = omega arith;
  timestamp = omega arith;
  payload = (omega arith, omega arith);
}

swap_packet-swap_packet_example :
    swap_packet three_cells.view true
      (swap_packet three_cells.view true request packet_auth)
      packet_auth
    ≡ request
swap_packet-swap_packet_example =
    swap_packet-swap_packet three_cells.view (λ t u h. refl) true request packet_auth refl
      request-Fits

sent_request : (packet_send three_cells request two_writes).0 ≡ sent_all
sent_request =
    packet_send-total three_cells request two_writes (λ p. refl)
      (omega arith, (tt, (omega arith, tt))) (omega arith)

packet_send-whole_example :
    (packet_send three_cells request two_writes).1
    ≡ three_cells.store (swap_packet three_cells.view true request packet_auth)
packet_send-whole_example = packet_send-whole three_cells request two_writes sent_request

first_read_incomplete : packet_receive_partial three_cells fresh first_read ≡ (incomplete, partly)
unfolding packet_receive_partial recv_loop
first_read_incomplete = refl

packet_receive_partial-append_example :
    packet_receive_partial three_cells fresh (first_read ++ second_read)
    ≡ packet_receive_partial three_cells partly second_read
packet_receive_partial-append_example =
    packet_receive_partial-append three_cells fresh partly first_read second_read
      first_read_incomplete

second_read_got :
    packet_receive_partial three_cells partly second_read
    ≡ (got request, record { receive_buffer = wire ∷ wire ∷ wire ∷ []; receive_offset = 0 })
unfolding packet_receive_partial recv_loop decode htonl network64 swap_packet
second_read_got = refl

packet_receive_partial-type_example : (request.packet_type ≤ packet_social) × (◌≡◌ {A = ℕ} 0 0)
packet_receive_partial-type_example =
    packet_receive_partial-type three_cells partly
      (record { receive_buffer = wire ∷ wire ∷ wire ∷ []; receive_offset = 0 }) second_read request
      second_read_got

-- A host with bytes of 8 bits: the packet leaves in one write and arrives in two reads.
abbrev one_write : List SendAnswer
one_write = wrote 612 ∷ []

abbrev sent_bytes : List Octet
sent_bytes = (packet_send octet_host request one_write).1

abbrev two_reads : List (RecvAnswer Octet)
two_reads = read (take 100 sent_bytes) ∷ RecvAnswer.interrupted ∷ read (drop 100 sent_bytes) ∷ []

abbrev no_bytes : Progress Octet
no_bytes = record { receive_buffer = []; receive_offset = 0 }

all_sent : (packet_send octet_host request one_write).0 ≡ sent_all
all_sent =
    packet_send-total octet_host request one_write octet_host-AbiLaws.length-store (omega arith, tt)
      (omega arith)

length-sent_bytes : length sent_bytes ≡ 612
length-sent_bytes =
    ap length (packet_send-whole octet_host request one_write all_sent)
    ∙ octet_host-AbiLaws.length-store
        (swap_packet octet_host.view octet_host.little request request.packet_type)

packet_receive_partial-packet_send_example :
    ((packet_receive_partial octet_host no_bytes two_reads).0 ≡ got request)
    × ((packet_receive_partial octet_host no_bytes two_reads).1.receive_offset ≡ 0)
packet_receive_partial-packet_send_example =
    packet_receive_partial-packet_send octet_host octet_host-AbiLaws request refl (omega arith)
      request-Fits request-TextsFit one_write no_bytes two_reads refl (omega arith) all_sent
      (first_there, (tt, (second_there, tt))) arrived
  where
    first_there : 0 < length (take 100 sent_bytes)
    first_there = omega (arith, length-sent_bytes, length-take 100 sent_bytes)

    second_there : 0 < length (drop 100 sent_bytes)
    second_there = omega (arith, length-sent_bytes, length-drop 100 sent_bytes)

    arrived : stream two_reads ≡ sent_bytes
    arrived =
        ap (λ bs. take 100 sent_bytes ++ bs) (append-nil (drop 100 sent_bytes))
        ∙ take-append-drop 100 sent_bytes

    request-TextsFit : TextsFit request.payload
    request-TextsFit = ground arith
