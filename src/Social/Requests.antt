-- ===== src/Social/Requests.antt =====
-- `handle_social_packet` of server/tizcord_social.c, a definition for each case of its switch.
use tizcord.Base.{
  ℕ, ◌+◌, Text, true, none, some, if◌then◌else◌, ltb, ◌==◌, ◌||◌, not, length, codes, min, pure,
  gets, ◌>>=◌, ◌>>◌,
}
use tizcord.Protocol.{
  SocialPayload, packet_social, social_friend_request, social_friend_accept, social_friend_reject,
  social_friend_remove, social_list_friends, social_list_users, social_update_status, resp_ok,
  resp_err_invalid, resp_err_unauthorized, resp_err_not_found, resp_err_conflict, resp_err_db,
  profile_status_len,
}
use tizcord.Db.Env.{Env}
use tizcord.Db.World.{Action, client_at}
use tizcord.Db.Accounts.{db_get_user_id_by_name, db_update_user_status}
use tizcord.Db.Friends.{
  db_send_friend_request, db_accept_friend_request, db_remove_friendship, db_reject_friend_request,
  accepted, not_found, already_friends, requested, became_friends, request_failed, were_friends,
}
use tizcord.Reply.{send_action_response}
use tizcord.Social.Notify.{
  send_friend_list, send_user_list, send_status_update_packet, notify_user_status_update,
  notify_friend_list_update,
}

module _ (e : Env) where
  unfoldable pub respond_social : ℕ → ℕ → ℕ → Text → Action e (Unit {0})
  respond_social i action status_code message w = (
    tt,
    (send_action_response e (client_at e w i).socket_fd packet_social action status_code
        (some message) w).1,
  )

  unfoldable pub request_friend : ℕ → SocialPayload → Action e (Unit {0})
  request_friend i p = do
    me ← gets (λ w. (client_at e w i).id)
    found ← db_get_user_id_by_name e p.target_username
    elim found [
      | none ↦ respond_social i social_friend_request resp_err_not_found (codes "User not found.")
      | some friend_id ↦
          if friend_id == me
          then respond_social i social_friend_request resp_err_invalid
              (codes "You cannot send a friend request to yourself.")
          else do
            code ← db_send_friend_request e me friend_id
            elim code [
              | were_friends ↦
                  respond_social i social_friend_request resp_err_conflict
                    (codes "You are already friends!")
              | request_failed ↦
                  respond_social i social_friend_request resp_err_db
                    (codes "Friend request failed.")
              | became_friends ↦ do
                respond_social i social_friend_request resp_ok
                    (codes "Incoming request found. Friendship accepted!")
                notify_friend_list_update e me
                notify_friend_list_update e friend_id
              | requested ↦ do
                respond_social i social_friend_request resp_ok (codes "Friend request sent!")
                notify_friend_list_update e friend_id
            ]
    ]

  unfoldable pub accept_friend : ℕ → SocialPayload → Action e (Unit {0})
  accept_friend i p = do
    me ← gets (λ w. (client_at e w i).id)
    found ← db_get_user_id_by_name e p.target_username
    elim found [
      | none ↦ respond_social i social_friend_accept resp_err_not_found (codes "User not found.")
      | some friend_id ↦ do
        code ← db_accept_friend_request e me friend_id
        elim code [
          | not_found ↦
              respond_social i social_friend_accept resp_err_not_found
                (codes "No incoming request from this user.")
          | already_friends ↦
              respond_social i social_friend_accept resp_err_conflict
                (codes "You are already friends!")
          | accepted ↦ do
            respond_social i social_friend_accept resp_ok (codes "Friend request accepted!")
            notify_friend_list_update e friend_id
        ]
    ]

  unfoldable pub remove_friend : ℕ → SocialPayload → Action e (Unit {0})
  remove_friend i p = do
    me ← gets (λ w. (client_at e w i).id)
    found ← db_get_user_id_by_name e p.target_username
    elim found [
      | none ↦ respond_social i social_friend_remove resp_err_not_found (codes "User not found.")
      | some friend_id ↦ do
        done ← db_remove_friendship e me friend_id
        if done
            then (do
              respond_social i social_friend_remove resp_ok (codes "Friend removed.")
              notify_friend_list_update e friend_id)
            else respond_social i social_friend_remove resp_err_not_found
                (codes "You are not friends with this user.")
    ]

  unfoldable pub reject_friend : ℕ → SocialPayload → Action e (Unit {0})
  reject_friend i p = do
    me ← gets (λ w. (client_at e w i).id)
    found ← db_get_user_id_by_name e p.target_username
    elim found [
      | none ↦ respond_social i social_friend_reject resp_err_not_found (codes "User not found.")
      | some friend_id ↦ do
        done ← db_reject_friend_request e me friend_id
        if done
            then (do
              respond_social i social_friend_reject resp_ok (codes "Friend request rejected.")
              notify_friend_list_update e friend_id)
            else respond_social i social_friend_reject resp_err_not_found
                (codes "No incoming request from this user.")
    ]

  -- A status of PROFILE_STATUS_LEN + 1 bytes is one without a NUL in its field.
  unfoldable pub update_status : ℕ → SocialPayload → Action e (Unit {0})
  update_status i p = do
    client ← gets (λ w. client_at e w i)
    let status_len = min (length p.target_status) (profile_status_len + 1)
    if status_len == 0 || ltb profile_status_len status_len
        then send_status_update_packet e client.socket_fd resp_err_invalid client.id client.username
            none true
        else do
          done ← db_update_user_status e client.id p.target_status
          if done
              then notify_user_status_update e client.id client.username p.target_status
              else send_status_update_packet e client.socket_fd resp_err_db client.id
                  client.username none true

  unfoldable pub handle_social_packet : ℕ → SocialPayload → Action e (Unit {0})
  handle_social_packet i p = do
    client ← gets (λ w. client_at e w i)
    if not client.is_authenticated
        then (send_action_response e client.socket_fd packet_social p.action resp_err_unauthorized
              none
            >> pure tt)
        else if p.action == social_friend_request
        then request_friend i p
        else if p.action == social_friend_accept
        then accept_friend i p
        else if p.action == social_list_friends
        then send_friend_list e client.socket_fd client.id
        else if p.action == social_friend_remove
        then remove_friend i p
        else if p.action == social_friend_reject
        then reject_friend i p
        else if p.action == social_list_users
        then send_user_list e client.socket_fd client.id
        else if p.action == social_update_status
        then update_status i p
        else respond_social i p.action resp_err_invalid (codes "Invalid action.")
