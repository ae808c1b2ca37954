-- ===== src/Reply.antt =====
-- server/client_helper.c: responses and list frames. Sockets are never negative here, since they
-- come from accept(2), and packets are never NULL.
pub mod Frames
pub mod Stable
use tizcord.Base.{
  ℕ, zero, suc, ◌+◌, ◌-◌, ◌*◌, ◌%◌, ◌^◌, ◌≤◌, ◌<◌, ◌≡◌, refl, List, [], ◌∷◌, ◌++◌, Text, Bool, true,
  false, Option, none, some, if◌then◌else◌, ◌==◌, ltb, leb, length, get_or, take, ◌>>=◌, ◌>>◌, pure,
  gets,
}
use tizcord.Protocol.{
  Packet, Payload, system, auth, dm, server, channel, social, no_system, no_auth, no_dm, no_server,
  no_channel, no_social, blank_packet, packet_auth, packet_dm, packet_server, packet_channel,
  packet_social, resp_ok, resp_done, list_frame_single, list_frame_start, list_frame_middle,
  list_frame_end, max_name_len, system_message_len,
}
use tizcord.Words.{not_positive32}
use tizcord.Db.Env.{Env}
use tizcord.Db.World.{World, Action, send}

-- -1 in a 32-bit field
abbrev pub minus_one : ℕ
minus_one = 2 ^ 32 - 1

-- The member that the switch on the type fills in.
unfoldable pub action_payload : ℕ → ℕ → ℕ → Option Text → Payload
action_payload type action status_code message =
    if type == packet_auth
    then auth (record no_auth { action = action; status_code = status_code })
    else if type == packet_dm
    then dm (record no_dm { action = action; status_code = status_code })
    else if type == packet_server
    then server (record no_server { action = action; status_code = status_code })
    else if type == packet_channel
    then channel (record no_channel { action = action; status_code = status_code })
    else if type == packet_social
    then social (record no_social { action = action; status_code = status_code })
    else system (record {
      action = action;
      status_code = status_code;
      message = elim message [ none ↦ [] | some m ↦ take (system_message_len - 1) m ];
    })

-- What a list sends: names with their ids and, for servers and members, a number.
pub record ListItems : Type 0 where
  pub items : List Text
  pub item_ids : List ℕ
  pub item_counts : Option (List ℕ)

-- The frame of item `i` of `item_count`.
unfoldable pub item_frame : ℕ → ℕ → ℕ
item_frame item_count i =
    if item_count == 1
    then list_frame_single
    else if i == 0
    then list_frame_start
    else if i == item_count - 1
    then list_frame_end
    else list_frame_middle

-- The member of an item's packet; `none` for a type that lists do not support.
unfoldable pub item_payload : ℕ → ℕ → ListItems → ℕ → Option Payload
item_payload type action l i =
    let name = take (max_name_len - 1) (get_or l.items i []) in
    let id = get_or l.item_ids i 0 in
    if type == packet_server
    then some (
        server (record no_server {
          action = action;
          status_code = resp_ok;
          server_id = id;
          member_count = elim l.item_counts [ none ↦ 0 | some counts ↦ get_or counts i 0 ];
          server_name = name;
        }))
    else if type == packet_channel
    then some (
        channel (record no_channel {
          action = action;
          status_code = resp_ok;
          channel_id = id;
          channel_name = name;
        }))
    else if type == packet_social
    then some (
        social (record no_social {
          action = action;
          status_code = resp_ok;
          target_user_id = id;
          target_username = name;
        }))
    else none

-- The member of the packet that stands for an empty list.
unfoldable pub empty_payload : ℕ → ℕ → Option Payload
empty_payload type action =
    if type == packet_server
    then some (server (record no_server { action = action; status_code = resp_done }))
    else if type == packet_channel
    then some (channel (record no_channel { action = action; status_code = resp_done }))
    else if type == packet_social
    then some (social (record no_social { action = action; status_code = resp_done }))
    else none

-- The packet of item `i` around its member.
unfoldable pub item_packet : ℕ → ℕ → ℕ → ℕ → Payload → Packet
item_packet type list_id item_count i payload = record (blank_packet type payload) {
  list_id = list_id;
  list_index = i;
  list_total = item_count;
  list_frame = item_frame item_count i;
}

unfoldable pub empty_packet : ℕ → ℕ → Payload → Packet
empty_packet type list_id payload = record (blank_packet type payload) {
  list_id = list_id;
  list_index = minus_one;
  list_total = 0;
  list_frame = list_frame_single;
}

module _ (e : Env) where
  -- The increment of INT32_MAX is taken to wrap, as the test for values below 1 expects.
  unfoldable pub allocate_list_id : Action e ℕ
  allocate_list_id w =
      let id = if not_positive32 w.next_list_id then 1 else w.next_list_id in
      (id, record w { next_list_id = (id + 1) % 2 ^ 32 })

  unfoldable pub send_packet_to_client : ℕ → Packet → Action e Bool
  send_packet_to_client client_fd packet = send e client_fd packet

  unfoldable pub send_action_response : ℕ → ℕ → ℕ → ℕ → Option Text → Action e Bool
  send_action_response client_fd type action status_code message =
      send_packet_to_client client_fd
        (blank_packet type (action_payload type action status_code message))

  -- The loop over the items, with `n` items left from item `i` on.
  unfoldable pub send_items : ℕ → ℕ → ℕ → ℕ → ListItems → ℕ → ℕ → ℕ → Action e Bool
  send_items client_fd type action list_id l item_count zero i = pure true
  send_items client_fd type action list_id l item_count (suc n) i =
      elim (item_payload type action l i) [
        | none ↦ pure false
        | some payload ↦ do
          sent ← send_packet_to_client client_fd (item_packet type list_id item_count i payload)
          elim sent [
            | false ↦ pure false
            | true ↦ send_items client_fd type action list_id l item_count n (suc i)
          ]
      ]

  unfoldable pub send_list_response : ℕ → ℕ → ℕ → ListItems → ℕ → Action e Bool
  send_list_response client_fd type action l item_count =
      if ltb (2 ^ 31 - 1) item_count then pure false else do
        list_id ← allocate_list_id
        if item_count == 0
            then elim (empty_payload type action) [
              | none ↦ pure false
              | some payload ↦ send_packet_to_client client_fd (empty_packet type list_id payload)
            ]
            else send_items client_fd type action list_id l item_count item_count 0

  unfoldable pub send_list_end_response : ℕ → ℕ → Action e Bool
  send_list_end_response client_fd type = elim (empty_payload type 0) [
    | none ↦ pure false
    | some payload ↦ send_packet_to_client client_fd (record (blank_packet type payload) {
      list_index = minus_one;
      list_total = minus_one;
      list_frame = list_frame_end;
    })
  ]
