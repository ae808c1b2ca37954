-- ===== src/TizcordServer/Lists.antt =====
-- The requests of server/tizcord_server.c that answer with a list, and the lists that are sent
-- again when members come and go.
use tizcord.Base.{
  ℕ, Text, Bool, true, none, if◌then◌else◌, ◌==◌, ◌||◌, not, length, gets, modify, for_range, ◌>>=◌,
  ◌>>◌,
}
use tizcord.Protocol.{
  packet_server, server_list, server_list_channels, server_list_members, server_list_joined,
  resp_err_invalid, resp_err_unauthorized, resp_err_db, resp_err_internal,
}
use tizcord.Words.{to_int32, to_int64, not_positive64}
use tizcord.Db.Env.{Env}
use tizcord.Db.World.{Action, client_at, write_client}
use tizcord.Db.Servers.{
  db_list_servers, db_list_server_channels, db_list_server_members, db_list_joined_servers,
}
use tizcord.Reply.{ListItems, send_action_response, send_list_response}
use tizcord.TizcordServer.Collect.{
  no_servers, no_channels, no_members, server_items, channel_items, member_items,
  collect_server_list_item, collect_channel_list_item, collect_member_list_item,
}

module _ (e : Env) where
  -- A response of a server action to client `i`.
  unfoldable pub respond : ℕ → ℕ → ℕ → Action e Bool
  respond i action status_code w =
      send_action_response e (client_at e w i).socket_fd packet_server action status_code none w

  -- The list, or RESP_ERR_INTERNAL where a frame could not be sent.
  unfoldable pub respond_list : ℕ → ℕ → ListItems → ℕ → Action e Bool
  respond_list i action l count w =
      let (done, w') =
        send_list_response e (client_at e w i).socket_fd packet_server action l count w in
      if done then (true, w') else respond i action resp_err_internal w'

  unfoldable pub list_tizcord_servers : ℕ → Action e Bool
  list_tizcord_servers i = do
    client ← gets (λ w. client_at e w i)
    if not client.is_authenticated then respond i server_list resp_err_unauthorized else do
      (done, acc) ← db_list_servers e (collect_server_list_item e) no_servers
      if done
          then respond_list i server_list (server_items acc) acc.count
          else respond i server_list resp_err_db

  unfoldable pub list_tizcord_channels : ℕ → ℕ → Action e Bool
  list_tizcord_channels i server_id = do
    client ← gets (λ w. client_at e w i)
    if not_positive64 server_id
        then respond i server_list_channels resp_err_invalid
        else if not client.is_authenticated
        then respond i server_list_channels resp_err_unauthorized
        else do
          (done, acc) ←
              db_list_server_channels e server_id (collect_channel_list_item e) no_channels
          if done
              then respond_list i server_list_channels (channel_items acc) acc.count
              else respond i server_list_channels resp_err_db

  unfoldable pub list_joined_servers : ℕ → Action e Bool
  list_joined_servers i = do
    client ← gets (λ w. client_at e w i)
    if not client.is_authenticated then respond i server_list_joined resp_err_unauthorized else do
      (done, acc) ← db_list_joined_servers e client.id (collect_server_list_item e) no_servers
      if done
          then respond_list i server_list_joined (server_items acc) acc.count
          else respond i server_list_joined resp_err_db

  -- client->current_server_index = value
  unfoldable pub view_server : ℕ → ℕ → Action e (Unit {0})
  view_server i value =
      modify (λ w. write_client e i (record (client_at e w i) { current_server_index = value }) w)

  unfoldable pub list_members : ℕ → ℕ → Action e Bool
  list_members i server_id = do
    client ← gets (λ w. client_at e w i)
    if not_positive64 server_id
        then respond i server_list_members resp_err_invalid
        else if not client.is_authenticated
        then respond i server_list_members resp_err_unauthorized
        else do
          view_server i (to_int32 server_id)
          (done, acc) ← db_list_server_members e server_id (collect_member_list_item e) no_members
          if done
              then respond_list i server_list_members (member_items acc) acc.count
              else respond i server_list_members resp_err_db

  unfoldable pub get_tizcord_server_info : ℕ → ℕ → Action e Bool
  get_tizcord_server_info i server_id = do
    list_tizcord_channels i server_id
    list_members i server_id

  -- The loop's body for client `i`: who is authenticated and looks at the server gets the list.
  unfoldable pub notify_member : ℕ → ℕ → Action e (Unit {0})
  notify_member server_id i w =
      let client = client_at e w i in
      if client.socket_fd == 0 || not client.is_authenticated
      then (tt, w)
      else if not (to_int64 client.current_server_index == server_id)
      then (tt, w)
      else (tt, (list_members i server_id w).1)

  unfoldable pub notify_server_member_list : ℕ → Action e (Unit {0})
  notify_server_member_list server_id w =
      if not_positive64 server_id
      then (tt, w)
      else for_range (length w.clients) 0 (notify_member server_id) w

  -- The callback sees each joined server.
  unfoldable pub refresh_joined_server_cb : ℕ → Text → ℕ → Unit {0} → Action e (Unit {0})
  refresh_joined_server_cb server_id _ _ _ = notify_server_member_list server_id

  unfoldable pub notify_server_member_lists_for_user : ℕ → Action e (Unit {0})
  notify_server_member_lists_for_user user_id w =
      if not_positive64 user_id
      then (tt, w)
      else (tt, (db_list_joined_servers e user_id refresh_joined_server_cb tt w).1)
