-- ===== src/Wire/Stream.antt =====
-- Packets over a byte stream: what the receive loops of shared/packet_helper.c make of the bytes
-- that `packet_send` wrote, however the stream is cut into reads.
use tizcord.Base.{
  ℕ, ◌+◌, ◌<◌, ◌≤◌, ◌≡◌, refl, List, [], ◌∷◌, ◌++◌, arith, ltb, length, All, true, false,
  Bool-cases, inl, inr, ap, append-nil, length-append, append_assoc, ◌∙◌, take_all, some,
}
use tizcord.Protocol.{Payload, system, auth, dm, server, channel, social, Packet, packet_social}
use tizcord.Wire.Order.{htonl, htonl-htonl}
use tizcord.Wire.Swap.{
  swap_fields, swap_packet, swap_packet-Fits, member_type, Fits, swap_packet-swap_packet,
  member_type-swap_fields,
}
use tizcord.Wire.Abi.{Abi, AbiLaws, TextsFit, reread}
use tizcord.Wire.Send.{SendAnswer, sent_all, packet_send, packet_send-whole}
use tizcord.Wire.Receive.{
  RecvAnswer, read, Progress, LoopEnd, full, no_data, closed, error, advance, recv_loop, finish,
  decode, incomplete, got, packet_receive_partial,
}

-- An answer that carries bytes, or that the loop repeats.
abbrev pub IsData : {Byte : Type 0} → RecvAnswer Byte → Type 0
IsData (read chunk) = 0 < length chunk
IsData RecvAnswer.interrupted = Unit
IsData RecvAnswer.failed = ⊥

-- The bytes that the answers carry.
abbrev pub stream : {Byte : Type 0} → List (RecvAnswer Byte) → List Byte
stream [] = []
stream (read chunk ∷ answers) = chunk ++ stream answers
stream (RecvAnswer.interrupted ∷ answers) = stream answers
stream (RecvAnswer.failed ∷ answers) = stream answers

module _ {Byte : Type 0} (size : ℕ) where
  abbrev holding : List Byte → Progress Byte
  holding held = record { receive_buffer = held; receive_offset = length held }

  advance-holding :
      (held chunk : List Byte) → advance size (holding held) chunk ≡ holding (held ++ chunk)
  advance-holding held chunk =
      rw (take_all (length held) held (omega arith), length-append held chunk)

  advance_fresh :
      (p : Progress Byte) (chunk : List Byte)
      → p.receive_offset ≡ 0
      → advance size p chunk ≡ holding chunk
  advance_fresh p chunk z = ground arith

  nil_of_length : (xs : List Byte) → length xs ≡ 0 → xs ≡ []
  nil_of_length [] h = refl
  nil_of_length (x ∷ xs) h = absurd (omega arith)

  recv_loop_stop :
      (p : Progress Byte) (answers : List (RecvAnswer Byte))
      → size ≤ p.receive_offset
      → recv_loop size p answers ≡ (full, p)
  unfolding recv_loop
  recv_loop_stop p [] stop = ground arith
  recv_loop_stop p (a ∷ answers) stop = ground arith

  recv_loop_interrupted :
      (p : Progress Byte) (answers : List (RecvAnswer Byte))
      → p.receive_offset < size
      → recv_loop size p (RecvAnswer.interrupted ∷ answers) ≡ recv_loop size p answers
  unfolding recv_loop
  recv_loop_interrupted p answers more = ground arith

  recv_loop_read :
      (p : Progress Byte) (chunk : List Byte) (answers : List (RecvAnswer Byte))
      → p.receive_offset < size
      → 0 < length chunk
      → recv_loop size p (read chunk ∷ answers) ≡ recv_loop size (advance size p chunk) answers
  unfolding recv_loop
  recv_loop_read p chunk answers more some_data = ground arith

  recv_loop_fills :
      (held : List Byte) (answers : List (RecvAnswer Byte))
      → All IsData answers
      → length held + length (stream answers) ≡ size
      → recv_loop size (holding held) answers ≡ (full, holding (held ++ stream answers))
  recv_loop_fills held [] h e = rw append-nil (recv_loop_stop (holding held) [] (omega arith))
  recv_loop_fills held (RecvAnswer.failed ∷ answers) h e = absurd h.0
  recv_loop_fills held (RecvAnswer.interrupted ∷ answers) h e =
      elim (Bool-cases (ltb (length held) size)) [
        | inl more ↦
            recv_loop_interrupted (holding held) answers (ground arith)
            ∙ recv_loop_fills held answers h.1 e
        | inr stop ↦
            recv_loop_stop (holding held) (RecvAnswer.interrupted ∷ answers) (ground arith)
            ∙ (rw (nil_of_length (stream answers) (ground arith), append-nil held))
      ]
  recv_loop_fills held (read chunk ∷ answers) h e =
      recv_loop_read (holding held) chunk answers
        (omega (arith, h.0, length-append chunk (stream answers))) h.0
      ∙ (rw (advance-holding held chunk, ← append_assoc held chunk (stream answers))
          (recv_loop_fills (held ++ chunk) answers h.1
            (omega (arith, length-append held chunk, length-append chunk (stream answers)))))

  -- From an offset of zero what an earlier packet left in the buffer does not matter.
  pub recv_loop_fresh :
      (p : Progress Byte) (answers : List (RecvAnswer Byte))
      → p.receive_offset ≡ 0
      → 0 < size
      → All IsData answers
      → length (stream answers) ≡ size
      → recv_loop size p answers ≡ (full, holding (stream answers))
  recv_loop_fresh p [] z pos h e = absurd (omega arith)
  recv_loop_fresh p (RecvAnswer.failed ∷ answers) z pos h e = absurd h.0
  recv_loop_fresh p (RecvAnswer.interrupted ∷ answers) z pos h e =
      recv_loop_interrupted p answers (omega arith) ∙ recv_loop_fresh p answers z pos h.1 e
  recv_loop_fresh p (read chunk ∷ answers) z pos h e =
      recv_loop_read p chunk answers (omega arith) h.0
      ∙ (rw (advance_fresh p chunk z)
          (recv_loop_fills chunk answers h.1 (omega (arith, length-append chunk (stream answers)))))

  -- A loop that ran out of data goes on where it stopped.
  pub recv_loop-append :
      (p q : Progress Byte) (first later : List (RecvAnswer Byte))
      → recv_loop size p first ≡ (no_data, q)
      → recv_loop size p (first ++ later) ≡ recv_loop size q later
  unfolding recv_loop
  recv_loop-append p q [] later h = ground arith
  recv_loop-append p q (RecvAnswer.failed ∷ first) later h = ground arith
  recv_loop-append p q (RecvAnswer.interrupted ∷ first) later h =
      ground (arith, recv_loop-append p q first later)
  recv_loop-append p q (read chunk ∷ first) later h =
      ground (arith, recv_loop-append (advance size p chunk) q first later)

finish_incomplete :
    (a : Abi) (ended : LoopEnd) (p q : Progress a.Byte)
    → finish a (ended, p) ≡ (incomplete, q)
    → ◌≡◌ {A = LoopEnd × Progress a.Byte} (ended, p) (no_data, q)
unfolding finish
finish_incomplete a full p q h = ground arith
finish_incomplete a no_data p q h = ground arith
finish_incomplete a closed p q h = ground arith
finish_incomplete a error p q h = ground arith

-- Reading what has arrived in two rounds of the event loop, with a wait in between, is reading it
-- in one: when `first` leaves the packet incomplete, the answers `first ++ later` give from `p`
-- what `later` gives from the state that `first` left.
pub packet_receive_partial-append :
    (a : Abi) (p q : Progress a.Byte) (first later : List (RecvAnswer a.Byte))
    → packet_receive_partial a p first ≡ (incomplete, q)
    → packet_receive_partial a p (first ++ later) ≡ packet_receive_partial a q later
unfolding packet_receive_partial
packet_receive_partial-append a p q first later h =
    rw
      (recv_loop-append a.size p q first later
        (finish_incomplete a (recv_loop a.size p first).0 (recv_loop a.size p first).1 q h))
      refl

-- A packet that is handed to the caller has a type of `PacketType`, and the receive offset is back
-- at 0.
pub packet_receive_partial-type :
    (a : Abi) (p q : Progress a.Byte) (answers : List (RecvAnswer a.Byte)) (packet : Packet)
    → packet_receive_partial a p answers ≡ (got packet, q)
    → (packet.packet_type ≤ packet_social) × (q.receive_offset ≡ 0)
unfolding packet_receive_partial decode swap_packet
packet_receive_partial-type a p q answers packet h = ground arith

finish_full :
    (a : Abi) (p : Progress a.Byte) (packet : Packet)
    → decode a p.receive_buffer ≡ some packet
    → finish a (full, p) ≡ (got packet, record p { receive_offset = 0 })
unfolding finish
finish_full a p packet h = ground arith

wire_member :
    (a : Abi)
    → AbiLaws a
    → (p : Packet) → member_type p.payload p.packet_type ≡ true
    → member_type (swap_packet a.view a.little p p.packet_type).payload p.packet_type ≡ true
unfolding swap_packet
wire_member a laws p tag =
    member_type-swap_fields a.little (a.view p.packet_type p.payload) p.packet_type
    ∙ (rw (laws.view_member p.packet_type p.payload tag) tag)

wire_type :
    (a : Abi) (p : Packet)
    → Fits p
    → htonl a.little (swap_packet a.view a.little p p.packet_type).packet_type ≡ p.packet_type
unfolding swap_packet
wire_type a p fits = htonl-htonl a.little p.packet_type fits.packet_type

wire_texts :
    (a : Abi)
    → AbiLaws a
    → (p : Packet) → member_type p.payload p.packet_type ≡ true
    → TextsFit p.payload
    → TextsFit (swap_packet a.view a.little p p.packet_type).payload
unfolding swap_packet swap_fields
wire_texts a laws p tag texts =
    rw (laws.view_member p.packet_type p.payload tag) (swapped p.payload texts)
  where
    swapped : (u : Payload) → TextsFit u → TextsFit (swap_fields a.little u)
    swapped (system s) h = h
    swapped (auth s) h = h
    swapped (dm s) h = h
    swapped (server s) h = h
    swapped (channel s) h = h
    swapped (social s) h = h

swap_packet-reread :
    (a : Abi) (t : ℕ) (object wire : Packet)
    → reread a.view t object ≡ wire
    → a.view t wire.payload ≡ wire.payload
    → swap_packet a.view a.little object t ≡ swap_packet a.view a.little wire t
unfolding swap_packet
swap_packet-reread a t object wire e same = rw (same, ← e)

module _ (a : Abi) (laws : AbiLaws a) (packet : Packet)
    (tag : member_type packet.payload packet.packet_type ≡ true)
    (known : packet.packet_type ≤ packet_social) (fits : Fits packet)
    (texts : TextsFit packet.payload) where
  pub decode-store :
      decode a (a.store (swap_packet a.view a.little packet packet.packet_type)) ≡ some packet
  unfolding decode
  decode-store = rw (type_read, not_above) (ap some (loaded ∙ restored))
    where
      type : ℕ
      type = packet.packet_type

      wire : Packet
      wire = swap_packet a.view a.little packet type

      wire_tag : member_type wire.payload type ≡ true
      wire_tag = wire_member a laws packet tag

      object : Packet
      object = a.load (a.store wire)

      reread-object : reread a.view type object ≡ wire
      reread-object =
          laws.load-store type wire (wire_type a packet fits) wire_tag
            (swap_packet-Fits a.view a.little packet type (laws.view_member type packet.payload tag)
              fits)
            (wire_texts a laws packet tag texts)

      type_read : htonl a.little object.packet_type ≡ type
      type_read =
          ap (λ (p : Packet). htonl a.little p.packet_type) reread-object ∙ wire_type a packet fits

      not_above : ltb packet_social type ≡ false
      not_above = ground arith

      loaded : swap_packet a.view a.little object type ≡ swap_packet a.view a.little wire type
      loaded =
          swap_packet-reread a type object wire reread-object
            (laws.view_member type wire.payload wire_tag)

      restored : swap_packet a.view a.little wire type ≡ packet
      restored = swap_packet-swap_packet a.view laws.view_member a.little packet type tag fits

  -- A packet of a known type, whose member of the union is the type's and whose integers and texts fit
  -- their fields, that was sent is received: when `packet_send` reported success and the bytes that it
  -- wrote arrive at an empty buffer, in any cuts and with any interruptions, `packet_receive_partial`
  -- hands over the packet that was sent and is ready for the next, on hosts of either byte order.
  pub packet_receive_partial-packet_send :
      (sends : List SendAnswer) (p : Progress a.Byte) (answers : List (RecvAnswer a.Byte))
      → p.receive_offset ≡ 0
      → 0 < a.size
      → (packet_send a packet sends).0 ≡ sent_all
      → All IsData answers
      → stream answers ≡ (packet_send a packet sends).1
      → ((packet_receive_partial a p answers).0 ≡ got packet)
        × ((packet_receive_partial a p answers).1.receive_offset ≡ 0)
  unfolding packet_receive_partial
  packet_receive_partial-packet_send sends p answers z pos sent reads arrived =
      let wire = swap_packet a.view a.little packet packet.packet_type in
      let whole : stream answers ≡ a.store wire = arrived ∙ packet_send-whole a packet sends sent in
      let filled =
        recv_loop_fresh a.size p answers z pos reads (ap length whole ∙ laws.length-store wire) in
      rw
        (
          filled,
          whole,
          finish_full a
              (record { receive_buffer = a.store wire; receive_offset = length (a.store wire) })
              packet decode-store,
        )
        (refl, refl)
