-- ===== src/TizcordServer/Requests.antt =====
-- The requests of server/tizcord_server.c that change servers and memberships, and the dispatch.
use tizcord.Base.{
  ℕ, Text, Bool, false, Option, none, some, if◌then◌else◌, ◌==◌, ◌||◌, not, length, pure, gets,
  ◌>>=◌, ◌>>◌,
}
use tizcord.Protocol.{
  ServerPayload, server_join, server_leave, server_create, server_delete, server_list,
  server_list_channels, server_list_members, server_list_joined, server_kick_member, resp_ok,
  resp_err_invalid, resp_err_unauthorized, resp_err_db,
}
use tizcord.Words.{to_int64, not_positive64}
use tizcord.Db.Env.{Env}
use tizcord.Db.World.{Action, client_at}
use tizcord.Db.Servers.{
  db_user_is_server_admin, db_join_server, db_leave_server, db_create_server, db_delete_server,
  db_kick_server_member,
}
use tizcord.Reply.{minus_one}
use tizcord.TizcordServer.Lists.{
  respond, list_tizcord_servers, list_tizcord_channels, list_joined_servers, list_members,
  view_server, notify_server_member_list,
}

-- The admin query found a row, and its flag is not zero.
abbrev pub is_admin_flag : Option ℕ → Bool
is_admin_flag none = false
is_admin_flag (some flag) = not (flag == 0)

module _ (e : Env) where
  unfoldable pub join_tizcord_server : ℕ → ℕ → Action e (Unit {0})
  join_tizcord_server i server_id = do
    client ← gets (λ w. client_at e w i)
    if not_positive64 server_id
        then (respond e i server_join resp_err_invalid >> pure tt)
        else if not client.is_authenticated
        then (respond e i server_join resp_err_unauthorized >> pure tt)
        else do
          done ← db_join_server e server_id client.id false
          if done
              then (respond e i server_join resp_ok >> notify_server_member_list e server_id)
              else (respond e i server_join resp_err_db >> pure tt)

  -- client->current_server_index = -1, where the client looks at the server.
  unfoldable pub leave_view : ℕ → ℕ → Action e (Unit {0})
  leave_view i server_id w =
      if to_int64 (client_at e w i).current_server_index == server_id
      then view_server e i minus_one w
      else (tt, w)

  unfoldable pub leave_tizcord_server : ℕ → ℕ → Action e (Unit {0})
  leave_tizcord_server i server_id = do
    client ← gets (λ w. client_at e w i)
    if not_positive64 server_id
        then (respond e i server_leave resp_err_invalid >> pure tt)
        else if not client.is_authenticated
        then (respond e i server_leave resp_err_unauthorized >> pure tt)
        else do
          done ← db_leave_server e server_id client.id
          if done
              then (do
                leave_view i server_id
                respond e i server_leave resp_ok
                notify_server_member_list e server_id)
              else (respond e i server_leave resp_err_db >> pure tt)

  unfoldable pub create_tizcord_server : ℕ → Text → Action e (Unit {0})
  create_tizcord_server i server_name = do
    client ← gets (λ w. client_at e w i)
    if length server_name == 0
        then (respond e i server_create resp_err_invalid >> pure tt)
        else if not client.is_authenticated
        then (respond e i server_create resp_err_unauthorized >> pure tt)
        else do
          done ← db_create_server e server_name client.id
          respond e i server_create (if done then resp_ok else resp_err_db)
          pure tt

  unfoldable pub delete_tizcord_server : ℕ → ℕ → Action e (Unit {0})
  delete_tizcord_server i server_id = do
    client ← gets (λ w. client_at e w i)
    if not_positive64 server_id
        then (respond e i server_delete resp_err_invalid >> pure tt)
        else if not client.is_authenticated
        then (respond e i server_delete resp_err_unauthorized >> pure tt)
        else do
          flag ← db_user_is_server_admin e server_id client.id
          if not (is_admin_flag flag)
              then (respond e i server_delete resp_err_unauthorized >> pure tt)
              else do
                done ← db_delete_server e server_id client.id
                respond e i server_delete (if done then resp_ok else resp_err_db)
                pure tt

  unfoldable pub kick_server_member : ℕ → ℕ → ℕ → Action e (Unit {0})
  kick_server_member i server_id target_user_id = do
    client ← gets (λ w. client_at e w i)
    if not_positive64 server_id || not_positive64 target_user_id
        then (respond e i server_kick_member resp_err_invalid >> pure tt)
        else if not client.is_authenticated
        then (respond e i server_kick_member resp_err_unauthorized >> pure tt)
        else do
          flag ← db_user_is_server_admin e server_id client.id
          if not (is_admin_flag flag)
              then (respond e i server_kick_member resp_err_unauthorized >> pure tt)
              else do
                done ← db_kick_server_member e server_id target_user_id
                respond e i server_kick_member (if done then resp_ok else resp_err_db)
                pure tt

  unfoldable pub handle_server_packet : ℕ → ServerPayload → Action e (Unit {0})
  handle_server_packet i p =
      if p.action == server_join
      then join_tizcord_server i p.server_id
      else if p.action == server_leave
      then leave_tizcord_server i p.server_id
      else if p.action == server_create
      then create_tizcord_server i p.server_name
      else if p.action == server_delete
      then delete_tizcord_server i p.server_id
      else if p.action == server_list
      then (list_tizcord_servers e i >> pure tt)
      else if p.action == server_list_channels
      then (list_tizcord_channels e i p.server_id >> pure tt)
      else if p.action == server_list_members
      then (list_members e i p.server_id >> pure tt)
      else if p.action == server_list_joined
      then (list_joined_servers e i >> pure tt)
      else if p.action == server_kick_member
      then kick_server_member i p.server_id p.target_user_id
      else (respond e i p.action resp_err_invalid >> pure tt)
