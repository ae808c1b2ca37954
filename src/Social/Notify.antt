-- ===== src/Social/Notify.antt =====
-- The packets that server/tizcord_social.c sends on its own: friend lists, user lists, statuses.
use tizcord.Base.{
  ℕ, ◌-◌, [], Text, Bool, true, false, Option, none, some, if◌then◌else◌, ltb, ◌==◌, ◌||◌, ◌&&◌,
  not, length, take, pure, gets, for_range, ◌>>=◌, ◌>>◌,
}
use tizcord.Protocol.{
  social, no_social, packet_social, social_list_friends, social_list_users, social_update_status,
  list_frame_start, list_frame_middle, list_frame_end, status_online, status_offline, resp_ok,
  max_name_len, profile_status_len,
}
use tizcord.Words.{to_int32}
use tizcord.Db.Env.{Env}
use tizcord.Db.World.{Action, send, create_base_packet, client_at}
use tizcord.Db.Accounts.{db_list_all_users}
use tizcord.Db.Friends.{db_list_friend_requests}
use tizcord.Reply.{minus_one}
use tizcord.TizcordServer.Collect.{is_online}
use tizcord.Chat.Channel.{next_index}
use tizcord.Chat.Direct.{find_recipient}

abbrev pub online_code : Bool → ℕ
online_code true = 1
online_code false = 0

abbrev pub online_status : Bool → ℕ
online_status true = status_online
online_status false = status_offline

module _ (e : Env) where
  -- One friend or request as a MIDDLE frame; the data is `current_index`.
  unfoldable pub friend_request_cb : ℕ → ℕ → ℕ → Text → ℕ → ℕ → Action e ℕ
  friend_request_cb client_fd list_id target_user_id username is_incoming index = do
    packet ← create_base_packet e packet_social (
        social (record no_social {
          action = social_list_friends;
          target_user_id = target_user_id;
          target_username = take (max_name_len - 1) username;
          status_code = is_incoming;
        }))
    send e client_fd (record packet {
      list_id = list_id;
      list_index = index;
      list_total = minus_one;
      list_frame = list_frame_middle;
    })
    pure (next_index index)

  -- One user as a MIDDLE frame, with whether the user is online.
  unfoldable pub user_list_cb : ℕ → ℕ → ℕ → Text → Text → ℕ → Action e ℕ
  user_list_cb client_fd list_id user_id username status_text index = do
    online ← gets (λ w. is_online user_id w.clients)
    packet ← create_base_packet e packet_social (
        social (record {
          action = social_list_users;
          status = online_status online;
          target_user_id = user_id;
          target_username = take (max_name_len - 1) username;
          target_status = take profile_status_len status_text;
          status_code = online_code online;
        }))
    send e client_fd (record packet {
      list_id = list_id;
      list_index = index;
      list_total = minus_one;
      list_frame = list_frame_middle;
    })
    pure (next_index index)

  -- A START or END frame of a social list.
  unfoldable pub social_frame : ℕ → ℕ → ℕ → ℕ → ℕ → Action e Bool
  social_frame client_fd action list_id total frame = do
    packet ← create_base_packet e packet_social (social (record no_social { action = action }))
    send e client_fd (record packet { list_id = list_id; list_total = total; list_frame = frame })

  -- The friend list of a user, streamed to a socket.
  unfoldable pub send_friend_list : ℕ → ℕ → Action e (Unit {0})
  send_friend_list client_fd user_id = do
    let list_id = to_int32 user_id
    social_frame client_fd social_list_friends list_id 0 list_frame_start
    (_, total) ← db_list_friend_requests e user_id (friend_request_cb client_fd list_id) 0
    social_frame client_fd social_list_friends list_id total list_frame_end
    pure tt

  -- The list of all users, streamed to a socket.
  unfoldable pub send_user_list : ℕ → ℕ → Action e (Unit {0})
  send_user_list client_fd user_id = do
    let list_id = to_int32 user_id
    social_frame client_fd social_list_users list_id 0 list_frame_start
    (_, total) ← db_list_all_users e (user_list_cb client_fd list_id) 0
    social_frame client_fd social_list_users list_id total list_frame_end
    pure tt

  unfoldable pub client_is_online : ℕ → Action e Bool
  client_is_online user_id w = (is_online user_id w.clients, w)

  unfoldable pub send_status_update_packet :
      ℕ → ℕ → ℕ → Text → Option Text → Bool → Action e (Unit {0})
  send_status_update_packet client_fd status_code user_id username status_text online = do
    packet ← create_base_packet e packet_social (
        social (record {
          action = social_update_status;
          status_code = status_code;
          status = online_status online;
          target_user_id = user_id;
          target_username = take (max_name_len - 1) username;
          target_status = elim status_text [ none ↦ [] | some t ↦ take profile_status_len t ];
        }))
    send e client_fd packet
    pure tt

  -- The loop's body for client `i`.
  unfoldable pub notify_status_to : ℕ → Text → Text → Bool → ℕ → Action e (Unit {0})
  notify_status_to user_id username status_text online i w =
      let c = client_at e w i in
      if ltb 0 c.socket_fd && c.is_authenticated
      then send_status_update_packet c.socket_fd resp_ok user_id username (some status_text) online
          w
      else (tt, w)

  unfoldable pub notify_user_status_update : ℕ → Text → Text → Action e (Unit {0})
  notify_user_status_update user_id username status_text = do
    online ← client_is_online user_id
    count ← gets (λ w. length w.clients)
    for_range count 0 (notify_status_to user_id username status_text online)

  -- The first connected client with the user's id gets the friend list.
  unfoldable pub notify_friend_list_update : ℕ → Action e (Unit {0})
  notify_friend_list_update target_user_id = do
    target ← gets (λ w. elim (find_recipient target_user_id w.clients) [
      | none ↦ none
      | some i ↦ some (client_at e w i)
    ])
    elim target [ none ↦ pure tt | some client ↦ send_friend_list client.socket_fd target_user_id ]

  -- The loop's body for client `i`.
  unfoldable pub notify_users_to : ℕ → Action e (Unit {0})
  notify_users_to i w =
      let c = client_at e w i in
      if c.socket_fd == 0 || not c.is_authenticated
      then (tt, w)
      else send_user_list c.socket_fd c.id w

  unfoldable pub notify_all_user_lists : Action e (Unit {0})
  notify_all_user_lists w = for_range (length w.clients) 0 notify_users_to w
