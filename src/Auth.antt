-- ===== src/Auth.antt =====
-- server/auth.c: accounts, logins and logouts. The state of a login is in the client's entry.
pub mod Sessions
pub mod Revoke
pub mod Entries
pub mod Takeover
use tizcord.Base.{
  ℕ, ◌+◌, ◌-◌, ◌<◌, List, [], ◌∷◌, Text, Bool, true, false, Option, none, some, if◌then◌else◌, leb,
  ltb, ◌==◌, ◌||◌, ◌&&◌, not, length, take, set, find_index, text_eq, pure, gets, modify, for_range,
  ◌>>=◌, ◌>>◌,
}
use tizcord.Protocol.{
  Packet, AuthPayload, auth, no_auth, blank_packet, packet_auth, auth_login, auth_register,
  auth_logout, resp_ok, resp_done, resp_err_invalid, resp_err_unauthorized, resp_err_conflict,
  max_name_len,
}
use tizcord.Db.Env.{Env}
use tizcord.Db.World.{World, Action, ClientNode, send, client_at, write_client}
use tizcord.Db.Accounts.{db_create_user, db_get_password_hash}
use tizcord.Reply.{minus_one}
use tizcord.TizcordServer.Lists.{notify_server_member_lists_for_user}
use tizcord.Chat.Channel.{find_fd}
use tizcord.Social.Notify.{notify_all_user_lists}

abbrev pub clear_client_session : {Byte : Type 0} → ClientNode Byte → ClientNode Byte
clear_client_session client = record client {
  is_authenticated = false;
  id = 0;
  username = [];
  membership = [];
  joined_server_count = 0;
  current_server_index = minus_one;
}

-- The identity that a login or a registration links into a client's entry.
abbrev pub log_in : {Byte : Type 0} → ℕ → Text → ClientNode Byte → ClientNode Byte
log_in user_id username client = record client {
  is_authenticated = true;
  id = user_id;
  username = take (max_name_len - 1) username;
}

-- A reply of the auth handlers.
abbrev pub auth_reply : ℕ → ℕ → Text → Packet
auth_reply action status_code username =
    blank_packet packet_auth
      (auth (record no_auth { action = action; status_code = status_code; username = username }))

-- Whether the loop revokes this client's login: another socket, logged in as the user.
abbrev pub is_revoked : {Byte : Type 0} → ℕ → ℕ → ClientNode Byte → Bool
is_revoked current_client_fd user_id other =
    not (other.socket_fd == 0 || other.socket_fd == current_client_fd)
    && not (not other.is_authenticated || not (other.id == user_id))

module _ (e : Env) where
  -- clear_client_session(&ctx->clients[i])
  unfoldable pub clear_session_at : ℕ → Action e (Unit {0})
  clear_session_at i = modify (λ w. write_client e i (clear_client_session (client_at e w i)) w)

  -- The loop's body for client `i`.
  unfoldable pub revoke_at : ℕ → ℕ → Text → ℕ → Action e (Unit {0})
  revoke_at current_client_fd user_id username i w =
      let other = client_at e w i in
      if is_revoked current_client_fd user_id other
      then (do
        send e other.socket_fd (auth_reply auth_logout resp_ok (take (max_name_len - 1) username))
        clear_session_at i)
          w
      else (tt, w)

  unfoldable pub revoke_existing_login : ℕ → ℕ → Text → Action e (Unit {0})
  revoke_existing_login current_client_fd user_id username w =
      for_range (length w.clients) 0 (revoke_at current_client_fd user_id username) w

  -- The entry that the search found gets the identity.
  unfoldable pub link_at : ℕ → Text → Option ℕ → Action e (Unit {0})
  link_at user_id username none w = (tt, w)
  link_at user_id username (some i) w =
      (tt, write_client e i (log_in user_id username (client_at e w i)) w)

  -- The first client on the socket gets the identity.
  unfoldable pub link_identity : ℕ → ℕ → Text → Action e (Unit {0})
  link_identity client_fd user_id username w =
      link_at user_id username (find_fd client_fd w.clients) w

  unfoldable pub send_auth_reply : ℕ → ℕ → ℕ → Text → Action e (Unit {0})
  send_auth_reply client_fd action status_code username w =
      (tt, (send e client_fd (auth_reply action status_code username) w).1)

  -- What follows the call of `db_create_user`.
  unfoldable pub finish_register : ℕ → Text → Option ℕ → Action e (Unit {0})
  finish_register client_fd username none =
      send_auth_reply client_fd auth_register resp_err_conflict []
  finish_register client_fd username (some user_id) = do
    link_identity client_fd user_id username
    notify_all_user_lists e
    send_auth_reply client_fd auth_register resp_ok []

  unfoldable pub register_account : ℕ → AuthPayload → Action e (Unit {0})
  register_account client_fd p = do
    setting ← gets (λ w. e.crypt_gensalt (length w.sent))
    elim setting [
      | none ↦ send_auth_reply client_fd auth_register 1 []
      | some salt ↦ elim (e.crypt p.password salt) [
        | none ↦ send_auth_reply client_fd auth_register 1 []
        | some hash ↦ do
          created ← db_create_user e p.username hash
          finish_register client_fd p.username created
      ]
    ]

  -- strcmp(crypt(password, db_hash), db_hash) == 0
  abbrev pub password_matches : Text → Text → Bool
  password_matches password db_hash = elim (e.crypt password db_hash) [
    | none ↦ false
    | some computed_hash ↦ text_eq computed_hash db_hash
  ]

  -- What a login with the right password changes, before its reply.
  unfoldable pub take_over : ℕ → ℕ → Text → Action e (Unit {0})
  take_over client_fd user_id username = do
    revoke_existing_login client_fd user_id username
    link_identity client_fd user_id username

  -- What follows the call of `db_get_password_hash`.
  unfoldable pub finish_login : ℕ → AuthPayload → Option (ℕ × Text) → Action e (Unit {0})
  finish_login client_fd p none = send_auth_reply client_fd auth_login 1 []
  finish_login client_fd p (some (db_user_id, db_hash)) =
      if not (password_matches p.password db_hash)
      then send_auth_reply client_fd auth_login resp_err_invalid []
      else do
        take_over client_fd db_user_id p.username
        notify_server_member_lists_for_user e db_user_id
        notify_all_user_lists e
        send_auth_reply client_fd auth_login resp_ok []

  unfoldable pub login_account : ℕ → AuthPayload → Action e (Unit {0})
  login_account client_fd p = do
    found ← db_get_password_hash e p.username
    finish_login client_fd p found

  -- The loop's body for the first client on the socket.
  unfoldable pub logout_at : ℕ → ClientNode e.abi.Byte → ℕ → Action e (Unit {0})
  logout_at client_fd client i =
      if not client.is_authenticated
      then send_auth_reply client_fd auth_logout resp_err_unauthorized []
      else do
        clear_session_at i
        notify_server_member_lists_for_user e client.id
        notify_all_user_lists e
        send_auth_reply client_fd auth_logout resp_done (take (max_name_len - 1) client.username)

  unfoldable pub logout_account : ℕ → Action e (Unit {0})
  logout_account client_fd w = elim (find_fd client_fd w.clients) [
    | none ↦ (tt, w)
    | some i ↦ logout_at client_fd (client_at e w i) i w
  ]

  unfoldable pub handle_auth_packet : ℕ → AuthPayload → Action e (Unit {0})
  handle_auth_packet client_fd p =
      if p.action == auth_register
      then register_account client_fd p
      else if p.action == auth_login
      then login_account client_fd p
      else if p.action == auth_logout
      then logout_account client_fd
      else pure tt
