-- ===== src/Wire/Swap.antt =====
-- `swap_packet` of shared/packet_helper.c: the integer fields to and from network order.
use tizcord.Base.{ℕ, ◌^◌, ◌<◌, ◌≡◌, refl, Bool, true, ltb, ◌==◌}
use tizcord.Protocol.{
  Packet, Payload, system, auth, dm, server, channel, social, packet_auth, packet_dm, packet_server,
  packet_channel, packet_social,
}
use tizcord.Wire.Order.{htonl, network64, htonl-lt, network64-lt, htonl-htonl, network64-network64}

-- The cases of the switch, on the member of the union that the packet's type selects.
unfoldable pub swap_fields : Bool → Payload → Payload
swap_fields little (auth a) =
    auth (record a { action = htonl little a.action; status_code = htonl little a.status_code })
swap_fields little (dm d) = dm (record d {
  action = htonl little d.action;
  status_code = htonl little d.status_code;
  recipient_id = htonl little d.recipient_id;
  message_id = network64 little d.message_id;
})
swap_fields little (server s) = server (record s {
  action = htonl little s.action;
  server_id = network64 little s.server_id;
  target_user_id = network64 little s.target_user_id;
  status_code = htonl little s.status_code;
  member_count = htonl little s.member_count;
})
swap_fields little (channel c) = channel (record c {
  action = htonl little c.action;
  server_id = network64 little c.server_id;
  status_code = htonl little c.status_code;
  channel_id = network64 little c.channel_id;
  message_id = network64 little c.message_id;
})
swap_fields little (social s) = social (record s {
  status = htonl little s.status;
  action = htonl little s.action;
  status_code = htonl little s.status_code;
  target_user_id = network64 little s.target_user_id;
})
swap_fields little (system s) =
    system (record s { action = htonl little s.action; status_code = htonl little s.status_code })

-- `view type u` is the union `u` read through the member that the switch takes for `type`.
unfoldable pub swap_packet : (ℕ → Payload → Payload) → Bool → Packet → ℕ → Packet
unfolding swap_fields
swap_packet view little packet type = record packet {
  packet_type = htonl little packet.packet_type;
  sender_id = network64 little packet.sender_id;
  list_id = htonl little packet.list_id;
  list_index = htonl little packet.list_index;
  list_total = htonl little packet.list_total;
  list_frame = htonl little packet.list_frame;
  timestamp = network64 little packet.timestamp;
  payload = swap_fields little (view type packet.payload);
}

-- The type that selects the member; any type but the first five selects `system`.
abbrev pub member_type : Payload → ℕ → Bool
member_type (auth _) type = type == packet_auth
member_type (dm _) type = type == packet_dm
member_type (server _) type = type == packet_server
member_type (channel _) type = type == packet_channel
member_type (social _) type = type == packet_social
member_type (system _) type = ltb packet_social type

-- Each integer fits its field.
abbrev pub PayloadFits : Payload → Type 0
PayloadFits (auth a) = (a.action < 2 ^ 32) × (a.status_code < 2 ^ 32)
PayloadFits (dm d) =
    (d.action < 2 ^ 32)
    × (d.status_code < 2 ^ 32)
    × (d.recipient_id < 2 ^ 32)
    × (d.message_id < 2 ^ 64)
PayloadFits (server s) =
    (s.action < 2 ^ 32)
    × (s.server_id < 2 ^ 64)
    × (s.target_user_id < 2 ^ 64)
    × (s.status_code < 2 ^ 32)
    × (s.member_count < 2 ^ 32)
PayloadFits (channel c) =
    (c.action < 2 ^ 32)
    × (c.server_id < 2 ^ 64)
    × (c.status_code < 2 ^ 32)
    × (c.channel_id < 2 ^ 64)
    × (c.message_id < 2 ^ 64)
PayloadFits (social s) =
    (s.status < 2 ^ 32)
    × (s.action < 2 ^ 32)
    × (s.status_code < 2 ^ 32)
    × (s.target_user_id < 2 ^ 64)
PayloadFits (system s) = (s.action < 2 ^ 32) × (s.status_code < 2 ^ 32)

pub record Fits (p : Packet) : Type 0 where
  pub packet_type : p.packet_type < 2 ^ 32
  pub sender_id : p.sender_id < 2 ^ 64
  pub list_id : p.list_id < 2 ^ 32
  pub list_index : p.list_index < 2 ^ 32
  pub list_total : p.list_total < 2 ^ 32
  pub list_frame : p.list_frame < 2 ^ 32
  pub timestamp : p.timestamp < 2 ^ 64
  pub payload : PayloadFits p.payload

swap_fields-swap_fields :
    (little : Bool) (u : Payload) → PayloadFits u → swap_fields little (swap_fields little u) ≡ u
unfolding swap_fields
swap_fields-swap_fields b (auth a) h =
    cc (htonl-htonl b a.action h.0, htonl-htonl b a.status_code h.1)
swap_fields-swap_fields b (dm d) h = cc (
  htonl-htonl b d.action h.0,
  htonl-htonl b d.status_code h.1,
  htonl-htonl b d.recipient_id h.2,
  network64-network64 b d.message_id h.3,
)
swap_fields-swap_fields b (server s) h = cc (
  htonl-htonl b s.action h.0,
  network64-network64 b s.server_id h.1,
  network64-network64 b s.target_user_id h.2,
  htonl-htonl b s.status_code h.3,
  htonl-htonl b s.member_count h.4,
)
swap_fields-swap_fields b (channel c) h = cc (
  htonl-htonl b c.action h.0,
  network64-network64 b c.server_id h.1,
  htonl-htonl b c.status_code h.2,
  network64-network64 b c.channel_id h.3,
  network64-network64 b c.message_id h.4,
)
swap_fields-swap_fields b (social s) h = cc (
  htonl-htonl b s.status h.0,
  htonl-htonl b s.action h.1,
  htonl-htonl b s.status_code h.2,
  network64-network64 b s.target_user_id h.3,
)
swap_fields-swap_fields b (system s) h =
    cc (htonl-htonl b s.action h.0, htonl-htonl b s.status_code h.1)

pub member_type-swap_fields :
    (little : Bool) (u : Payload) (type : ℕ)
    → member_type (swap_fields little u) type ≡ member_type u type
unfolding swap_fields
member_type-swap_fields little (system _) type = refl
member_type-swap_fields little _ type = refl

swap_fields-PayloadFits :
    (little : Bool) (u : Payload) → PayloadFits u → PayloadFits (swap_fields little u)
unfolding swap_fields
swap_fields-PayloadFits b (auth a) h = (htonl-lt b a.action h.0, htonl-lt b a.status_code h.1)
swap_fields-PayloadFits b (dm d) h = (
  htonl-lt b d.action h.0,
  htonl-lt b d.status_code h.1,
  htonl-lt b d.recipient_id h.2,
  network64-lt b d.message_id h.3,
)
swap_fields-PayloadFits b (server s) h = (
  htonl-lt b s.action h.0,
  network64-lt b s.server_id h.1,
  network64-lt b s.target_user_id h.2,
  htonl-lt b s.status_code h.3,
  htonl-lt b s.member_count h.4,
)
swap_fields-PayloadFits b (channel c) h = (
  htonl-lt b c.action h.0,
  network64-lt b c.server_id h.1,
  htonl-lt b c.status_code h.2,
  network64-lt b c.channel_id h.3,
  network64-lt b c.message_id h.4,
)
swap_fields-PayloadFits b (social s) h = (
  htonl-lt b s.status h.0,
  htonl-lt b s.action h.1,
  htonl-lt b s.status_code h.2,
  network64-lt b s.target_user_id h.3,
)
swap_fields-PayloadFits b (system s) h = (htonl-lt b s.action h.0, htonl-lt b s.status_code h.1)

-- A swapped packet fits its fields again.
pub swap_packet-Fits :
    (view : ℕ → Payload → Payload) (little : Bool) (p : Packet) (type : ℕ)
    → view type p.payload ≡ p.payload
    → Fits p
    → Fits (swap_packet view little p type)
unfolding swap_packet
swap_packet-Fits view b p type same h = record {
  packet_type = htonl-lt b p.packet_type h.packet_type;
  sender_id = network64-lt b p.sender_id h.sender_id;
  list_id = htonl-lt b p.list_id h.list_id;
  list_index = htonl-lt b p.list_index h.list_index;
  list_total = htonl-lt b p.list_total h.list_total;
  list_frame = htonl-lt b p.list_frame h.list_frame;
  timestamp = network64-lt b p.timestamp h.timestamp;
  payload = rw same (swap_fields-PayloadFits b p.payload h.payload);
}

module _ (view : ℕ → Payload → Payload)
    (view_member : (type : ℕ) (u : Payload) → member_type u type ≡ true → view type u ≡ u) where
  -- Swapping twice for the type that selects the packet's member gives the packet back, on hosts of
  -- either byte order, when each integer fits its field and a member that was written is read back.
  pub swap_packet-swap_packet :
      (little : Bool) (p : Packet) (type : ℕ)
      → member_type p.payload type ≡ true
      → Fits p
      → swap_packet view little (swap_packet view little p type) type ≡ p
  unfolding swap_packet
  swap_packet-swap_packet b p type tag h =
      rw
        (
          view_member type p.payload tag,
          view_member type (swap_fields b p.payload) (rw member_type-swap_fields tag),
        )
        (cc (
          htonl-htonl b p.packet_type h.packet_type,
          network64-network64 b p.sender_id h.sender_id,
          htonl-htonl b p.list_id h.list_id,
          htonl-htonl b p.list_index h.list_index,
          htonl-htonl b p.list_total h.list_total,
          htonl-htonl b p.list_frame h.list_frame,
          network64-network64 b p.timestamp h.timestamp,
          swap_fields-swap_fields b p.payload h.payload,
        ))
