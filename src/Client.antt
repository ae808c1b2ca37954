-- ===== src/Client.antt =====
-- client/client.c: the client's connection and the requests that it sends. `create_base_packet` takes
-- the time from `clock`, which is time(NULL) after so many packets were sent.
pub mod Asked
pub mod Requests
use tizcord.Base.{ℕ, ◌-◌, List, [], ◌∷◌, ◌++◌, Text, Option, none, some, length, take}
use tizcord.Words.{to_int32, to_int64}
use tizcord.Protocol.{
  Packet, Payload, auth, dm, server, channel, social, no_auth, no_dm, no_server, no_channel,
  no_social, blank_packet, packet_auth, packet_dm, packet_server, packet_channel, packet_social,
  auth_login, auth_register, auth_logout, dm_message, dm_history_request, server_join, server_leave,
  server_create, server_delete, server_list, server_list_channels, server_list_members,
  server_list_joined, server_kick_member, channel_create, channel_delete, channel_message,
  channel_history_request, social_friend_request, social_friend_accept, social_friend_reject,
  social_friend_remove, social_list_friends, social_list_users, social_update_status, max_name_len,
  password_len, message_len, profile_status_len,
}

-- The global `client_socket`, where `none` is -1, and the packets handed to `packet_send`, oldest
-- first.
pub record Connection : Type 0 where
  pub client_socket : Option ℕ
  pub sent : List Packet

module _ (clock : ℕ → ℕ) where
  -- A packet with its type, one member of its union and the time set.
  abbrev pub create_base_packet : ℕ → Payload → Connection → Packet
  create_base_packet type payload c = record (blank_packet type payload) {
    timestamp = clock (length c.sent);
  }

  -- Without a connection nothing is sent. The results are only printed.
  unfoldable pub safe_send_packet : Packet → Connection → Connection
  safe_send_packet packet c = elim c.client_socket [
    | none ↦ c
    | some _ ↦ record c { sent = c.sent ++ packet ∷ [] }
  ]

  -- A request is a packet with one member of its union.
  unfoldable pub send_request : ℕ → Payload → Connection → Connection
  send_request type payload c = safe_send_packet (create_base_packet type payload c) c

  unfoldable pub send_register : Text → Text → Connection → Connection
  send_register username password = send_request packet_auth (
      auth (record no_auth {
        action = auth_register;
        username = take (max_name_len - 1) username;
        password = take (password_len - 1) password;
      }))

  unfoldable pub send_login : Text → Text → Connection → Connection
  send_login username password = send_request packet_auth (
      auth (record no_auth {
        action = auth_login;
        username = take (max_name_len - 1) username;
        password = take (password_len - 1) password;
      }))

  -- packet_send of a socket that is -1 fails.
  unfoldable pub send_logout : Connection → Connection
  send_logout = send_request packet_auth (auth (record no_auth { action = auth_logout }))

  unfoldable pub create_server : Text → Connection → Connection
  create_server server_name = send_request packet_server (
      server (record no_server {
        action = server_create;
        server_name = take (max_name_len - 1) server_name;
      }))

  -- The parameter is an int.
  unfoldable pub leave_server : ℕ → Connection → Connection
  leave_server server_id =
      send_request packet_server
        (server (record no_server { action = server_leave; server_id = to_int64 server_id }))

  unfoldable pub kick_server_member : ℕ → ℕ → Connection → Connection
  kick_server_member server_id target_user_id = send_request packet_server (
      server (record no_server {
        action = server_kick_member;
        server_id = server_id;
        target_user_id = target_user_id;
      }))

  -- The first parameter is an int.
  unfoldable pub create_channel : ℕ → Text → Connection → Connection
  create_channel server_id channel_name = send_request packet_channel (
      channel (record no_channel {
        action = channel_create;
        server_id = to_int64 server_id;
        channel_name = take (max_name_len - 1) channel_name;
      }))

  unfoldable pub delete_server : ℕ → Connection → Connection
  delete_server server_id =
      send_request packet_server
        (server (record no_server { action = server_delete; server_id = server_id }))

  unfoldable pub delete_channel : ℕ → Connection → Connection
  delete_channel channel_id =
      send_request packet_channel
        (channel (record no_channel { action = channel_delete; channel_id = channel_id }))

  unfoldable pub send_friend_request : Text → Connection → Connection
  send_friend_request target_username = send_request packet_social (
      social (record no_social {
        action = social_friend_request;
        target_username = take (max_name_len - 1) target_username;
      }))

  unfoldable pub accept_friend_request : Text → Connection → Connection
  accept_friend_request target_username = send_request packet_social (
      social (record no_social {
        action = social_friend_accept;
        target_username = take (max_name_len - 1) target_username;
      }))

  unfoldable pub unfriend : Text → Connection → Connection
  unfriend target_username = send_request packet_social (
      social (record no_social {
        action = social_friend_remove;
        target_username = take (max_name_len - 1) target_username;
      }))

  unfoldable pub reject_friend_request : Text → Connection → Connection
  reject_friend_request target_username = send_request packet_social (
      social (record no_social {
        action = social_friend_reject;
        target_username = take (max_name_len - 1) target_username;
      }))

  unfoldable pub send_status_update : Text → Connection → Connection
  send_status_update status_text = send_request packet_social (
      social (record no_social {
        action = social_update_status;
        target_status = take profile_status_len status_text;
      }))

  unfoldable pub list_joined_servers_request : Connection → Connection
  list_joined_servers_request =
      send_request packet_server (server (record no_server { action = server_list_joined }))

  unfoldable pub request_friend_list : Connection → Connection
  request_friend_list =
      send_request packet_social (social (record no_social { action = social_list_friends }))

  unfoldable pub request_user_list : Connection → Connection
  request_user_list =
      send_request packet_social (social (record no_social { action = social_list_users }))

  unfoldable pub request_server_channels : ℕ → Connection → Connection
  request_server_channels server_id =
      send_request packet_server
        (server (record no_server { action = server_list_channels; server_id = server_id }))

  unfoldable pub request_server_members : ℕ → Connection → Connection
  request_server_members server_id =
      send_request packet_server
        (server (record no_server { action = server_list_members; server_id = server_id }))

  unfoldable pub request_channel_history : ℕ → Connection → Connection
  request_channel_history channel_id =
      send_request packet_channel
        (channel (record no_channel { action = channel_history_request; channel_id = channel_id }))

  unfoldable pub send_channel_message : ℕ → Text → Connection → Connection
  send_channel_message channel_id message = send_request packet_channel (
      channel (record no_channel {
        action = channel_message;
        channel_id = channel_id;
        message = take (message_len - 1) message;
      }))

  unfoldable pub list_all_servers_request : Connection → Connection
  list_all_servers_request =
      send_request packet_server (server (record no_server { action = server_list }))

  unfoldable pub join_server : ℕ → Connection → Connection
  join_server server_id =
      send_request packet_server
        (server (record no_server { action = server_join; server_id = server_id }))

  -- The field is an int.
  unfoldable pub send_dm_message : ℕ → Text → Connection → Connection
  send_dm_message recipient_id message = send_request packet_dm (
      dm (record no_dm {
        action = dm_message;
        recipient_id = to_int32 recipient_id;
        message = take (message_len - 1) message;
      }))

  unfoldable pub request_dm_history : ℕ → Connection → Connection
  request_dm_history friend_id =
      send_request packet_dm
        (dm (record no_dm { action = dm_history_request; recipient_id = to_int32 friend_id }))
