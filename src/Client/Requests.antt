-- ===== src/Client/Requests.antt =====
-- What each request of client/client.c hands to `packet_send`.
use tizcord.Base.{ap, ◌∙◌, ℕ, ◌^◌, ◌<◌, ◌≡◌, refl, [], ◌∷◌, ◌++◌, some, length, arith}
use tizcord.Protocol.{Packet}
use tizcord.Wire.Swap.{swap_packet}
use tizcord.Wire.Abi.{Abi, AbiLaws}
use tizcord.Wire.Receive.{decode}
use tizcord.Wire.Stream.{decode-store}
use tizcord.Client.{
  Connection, safe_send_packet, send_request, send_register, send_login, send_logout, create_server,
  leave_server, kick_server_member, create_channel, delete_server, delete_channel,
  send_friend_request, accept_friend_request, unfriend, reject_friend_request, send_status_update,
  list_joined_servers_request, request_friend_list, request_user_list, request_server_channels,
  request_server_members, request_channel_history, send_channel_message, list_all_servers_request,
  join_server, send_dm_message, request_dm_history,
}
use tizcord.Client.Asked.{
  Request, register, login, logout, joined_servers, friend_list, user_list, all_servers, new_server,
  befriend, accept, end_friendship, reject, set_status, leave, kick, new_channel, remove_server,
  remove_channel, channels, members, history, join, direct_history, post, write, ArgumentsFit,
  asked, asked_packet, asked-PayloadFits, asked-TextsFit, asked-member_type,
}

-- The call.
abbrev pub send : (ℕ → ℕ) → Request → Connection → Connection
send clock (register t1 t2) = send_register clock t1 t2
send clock (login t1 t2) = send_login clock t1 t2
send clock logout = send_logout clock
send clock (new_server t1) = create_server clock t1
send clock (leave i1) = leave_server clock i1
send clock (kick i1 i2) = kick_server_member clock i1 i2
send clock (new_channel i1 t2) = create_channel clock i1 t2
send clock (remove_server i1) = delete_server clock i1
send clock (remove_channel i1) = delete_channel clock i1
send clock (befriend t1) = send_friend_request clock t1
send clock (accept t1) = accept_friend_request clock t1
send clock (end_friendship t1) = unfriend clock t1
send clock (reject t1) = reject_friend_request clock t1
send clock (set_status t1) = send_status_update clock t1
send clock joined_servers = list_joined_servers_request clock
send clock friend_list = request_friend_list clock
send clock user_list = request_user_list clock
send clock (channels i1) = request_server_channels clock i1
send clock (members i1) = request_server_members clock i1
send clock (history i1) = request_channel_history clock i1
send clock (post i1 t2) = send_channel_message clock i1 t2
send clock all_servers = list_all_servers_request clock
send clock (join i1) = join_server clock i1
send clock (write i1 t2) = send_dm_message clock i1 t2
send clock (direct_history i1) = request_dm_history clock i1

-- The packet was added to those sent, and its bytes in network order are read back as this packet.
abbrev pub Carried : Abi → Packet → Connection → Connection → Type 0
Carried a packet c d =
    (d.sent ≡ c.sent ++ packet ∷ [])
    × (decode a (a.store (swap_packet a.view a.little packet packet.packet_type)) ≡ some packet)

send-asked :
    (r : Request) (clock : ℕ → ℕ) (c : Connection)
    → send clock r c ≡ send_request clock (asked r).0 (asked r).1 c
unfolding send_register send_login send_logout create_server leave_server kick_server_member
    create_channel delete_server delete_channel send_friend_request accept_friend_request unfriend
    reject_friend_request send_status_update list_joined_servers_request request_friend_list
    request_user_list request_server_channels request_server_members request_channel_history
    send_channel_message list_all_servers_request join_server send_dm_message request_dm_history
send-asked (register t1 t2) clock c = refl
send-asked (login t1 t2) clock c = refl
send-asked logout clock c = refl
send-asked (new_server t1) clock c = refl
send-asked (leave i1) clock c = refl
send-asked (kick i1 i2) clock c = refl
send-asked (new_channel i1 t2) clock c = refl
send-asked (remove_server i1) clock c = refl
send-asked (remove_channel i1) clock c = refl
send-asked (befriend t1) clock c = refl
send-asked (accept t1) clock c = refl
send-asked (end_friendship t1) clock c = refl
send-asked (reject t1) clock c = refl
send-asked (set_status t1) clock c = refl
send-asked joined_servers clock c = refl
send-asked friend_list clock c = refl
send-asked user_list clock c = refl
send-asked (channels i1) clock c = refl
send-asked (members i1) clock c = refl
send-asked (history i1) clock c = refl
send-asked (post i1 t2) clock c = refl
send-asked all_servers clock c = refl
send-asked (join i1) clock c = refl
send-asked (write i1 t2) clock c = refl
send-asked (direct_history i1) clock c = refl

send_request-sent :
    (clock : ℕ → ℕ) (r : Request) (c : Connection) (fd : ℕ)
    → c.client_socket ≡ some fd
    → (send_request clock (asked r).0 (asked r).1 c).sent
      ≡ c.sent ++ asked_packet (clock (length c.sent)) r ∷ []
unfolding send_request safe_send_packet
send_request-sent clock r c fd connected = rw connected refl

-- With an open connection and arguments that fit their C types, each request of the client hands to
-- packet_send one packet of the type, with the action, the ids and the texts, cut to their fields,
-- that the protocol has for the request and with the time, and the bytes of this packet in network
-- order are decoded to it, on hosts of either byte order.
pub send-Carried :
    (a : Abi) (clock : ℕ → ℕ) (r : Request) (c : Connection) (fd : ℕ)
    → AbiLaws a
    → clock (length c.sent) < 2 ^ 64
    → ArgumentsFit r
    → c.client_socket ≡ some fd
    → Carried a (asked_packet (clock (length c.sent)) r) c (send clock r c)
send-Carried a clock r c fd laws timely h connected =
    let (tag, known) = asked-member_type r in
    (
      ap (λ (d : Connection). d.sent) (send-asked r clock c)
          ∙ send_request-sent clock r c fd connected,
      decode-store a laws (asked_packet (clock (length c.sent)) r) tag known
          (record {
            packet_type = omega (arith, known);
            sender_id = omega arith;
            list_id = omega arith;
            list_index = omega arith;
            list_total = omega arith;
            list_frame = omega arith;
            timestamp = timely;
            payload = asked-PayloadFits r h;
          })
          (asked-TextsFit r h),
    )
