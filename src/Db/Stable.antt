-- ===== src/Db/Stable.antt =====
-- The invariants that only the entries of the clients can break: what survives sending, database
-- statements, list ids, and a change of the server that a client looks at.
use tizcord.Base.{
  ℕ, List, Bool, Bool-cases, inl, inr, none, some, Keeps, keeps_rules, Text, Keeps-bind, Keeps-pure,
  Keeps-option, Keeps-for_each,
}
use tizcord.Protocol.{Packet, Payload}
use tizcord.Db.Env.{Env}
use tizcord.Db.Sql.{Sql}
use tizcord.Db.World.{
  World, Action, send, create_base_packet, run, client_at, write_client, step_row,
}
use tizcord.Db.Accounts.{
  db_create_user, db_get_password_hash, db_get_user_id_by_name, db_list_all_users,
  db_update_user_status,
}
use tizcord.Db.Servers.{
  db_user_is_server_admin, db_join_server, db_create_server, db_leave_server, db_delete_server,
  db_kick_server_member, db_list_servers, db_list_server_channels, db_list_server_members,
  db_list_joined_servers,
}
use tizcord.Db.Channels.{db_create_channel, db_delete_channel, db_get_channel_server_id}
use tizcord.Db.Messages.{
  db_save_message, db_save_direct_message, db_list_direct_messages, db_list_channel_messages,
}
use tizcord.Db.Friends.{
  Existing, read_existing, db_accept_friend_request, db_send_friend_request, db_remove_friendship,
  db_reject_friend_request, db_list_friend_requests,
}

pub record Stable (e : Env) (P : World e → Type 0) : Type 0 where
  pub sends : (w : World e) (s : List (ℕ × Packet)) → P w → P (record w { sent = s })
  pub runs : (w : World e) (sql : Sql) → P w → P (record w { conn = (e.execute w.conn sql).0 })
  pub lists : (w : World e) (k : ℕ) → P w → P (record w { next_list_id = k })
  pub views :
      (w : World e) (i v : ℕ)
      → P w
      → P (write_client e i (record (client_at e w i) { current_server_index = v }) w)

module _ (e : Env) (P : World e → Type 0) (st : Stable e P) where
  pub Keeps-send : (fd : ℕ) (p : Packet) → Keeps P (send e fd p)
  unfolding send
  Keeps-send fd p = record { at = λ w h. st.sends w _ h }

  pub Keeps-create_base_packet : (t : ℕ) (u : Payload) → Keeps P (create_base_packet e t u)
  unfolding create_base_packet
  Keeps-create_base_packet t u = record { at = λ w h. h }

  pub Keeps-run : (sql : Sql) → Keeps P (run e sql)
  unfolding run
  Keeps-run sql = record {
    at = λ w h. elim (Bool-cases (e.prepare w.conn sql)) [
      | inl ok ↦ rw ok (st.runs w _ h)
      | inr bad ↦ rw bad h
    ];
  }

  pub Keeps-db_join_server : (s u : ℕ) (b : Bool) → Keeps P (db_join_server e s u b)
  unfolding db_join_server
  Keeps-db_join_server s u b = search (keeps_rules, Keeps-run)

  pub Keeps-db_create_server : (n : Text) (u : ℕ) → Keeps P (db_create_server e n u)
  unfolding db_create_server
  Keeps-db_create_server n u = search (keeps_rules, Keeps-run, Keeps-db_join_server) depth 9

  pub Keeps-db_user_is_server_admin : (s u : ℕ) → Keeps P (db_user_is_server_admin e s u)
  unfolding db_user_is_server_admin
  Keeps-db_user_is_server_admin s u = search (keeps_rules, Keeps-run)

  ruleset run_rules = (keeps_rules, Keeps-run)

  pub Keeps-db_delete_server : (s u : ℕ) → Keeps P (db_delete_server e s u)
  unfolding db_delete_server
  Keeps-db_delete_server s u =
      Keeps-bind _ _ (Keeps-db_user_is_server_admin s u)
        (elim [ none ↦ search run_rules | some _ ↦ search run_rules ])

  pub Keeps-db_kick_server_member : (s u : ℕ) → Keeps P (db_kick_server_member e s u)
  unfolding db_kick_server_member
  Keeps-db_kick_server_member s u =
      Keeps-bind _ _ (Keeps-db_user_is_server_admin s u)
        (elim [ none ↦ search run_rules | some _ ↦ search run_rules ])

  pub Keeps-db_leave_server : (s u : ℕ) → Keeps P (db_leave_server e s u)
  unfolding db_leave_server
  Keeps-db_leave_server s u = search run_rules

  pub Keeps-db_create_user : (n h : Text) → Keeps P (db_create_user e n h)
  unfolding db_create_user
  Keeps-db_create_user n h = search run_rules

  pub Keeps-db_get_password_hash : (n : Text) → Keeps P (db_get_password_hash e n)
  unfolding db_get_password_hash
  Keeps-db_get_password_hash n = search run_rules

  pub Keeps-db_get_user_id_by_name : (n : Text) → Keeps P (db_get_user_id_by_name e n)
  unfolding db_get_user_id_by_name
  Keeps-db_get_user_id_by_name n = search run_rules

  pub Keeps-db_update_user_status : (u : ℕ) (s : Text) → Keeps P (db_update_user_status e u s)
  unfolding db_update_user_status
  Keeps-db_update_user_status u s = search run_rules

  pub Keeps-db_create_channel : (s : ℕ) (n : Text) → Keeps P (db_create_channel e s n)
  unfolding db_create_channel
  Keeps-db_create_channel s n = search run_rules

  pub Keeps-db_delete_channel : (c : ℕ) → Keeps P (db_delete_channel e c)
  unfolding db_delete_channel
  Keeps-db_delete_channel c = search run_rules

  pub Keeps-db_get_channel_server_id : (c : ℕ) → Keeps P (db_get_channel_server_id e c)
  unfolding db_get_channel_server_id
  Keeps-db_get_channel_server_id c = search run_rules

  pub Keeps-db_save_message : (c u : ℕ) (t : Text) → Keeps P (db_save_message e c u t)
  unfolding db_save_message
  Keeps-db_save_message c u t = search run_rules

  pub Keeps-db_save_direct_message : (a b : ℕ) (t : Text) → Keeps P (db_save_direct_message e a b t)
  unfolding db_save_direct_message
  Keeps-db_save_direct_message a b t = search run_rules

  pub Keeps-db_accept_friend_request : (a b : ℕ) → Keeps P (db_accept_friend_request e a b)
  unfolding db_accept_friend_request
  Keeps-db_accept_friend_request a b =
      Keeps-bind _ _ (Keeps-run _)
        λ check. Keeps-option (step_row e check) _ _ (search run_rules) (λ row. search run_rules)

  pub Keeps-read_existing : (a b : ℕ) (r : e.Row) (f : Existing) → Keeps P (read_existing e a b r f)
  unfolding read_existing
  Keeps-read_existing a b r f = search keeps_rules

  pub Keeps-db_send_friend_request : (a b : ℕ) → Keeps P (db_send_friend_request e a b)
  unfolding db_send_friend_request
  Keeps-db_send_friend_request a b =
      search (run_rules, Keeps-db_accept_friend_request, Keeps-read_existing) depth 12

  pub Keeps-db_remove_friendship : (a b : ℕ) → Keeps P (db_remove_friendship e a b)
  unfolding db_remove_friendship
  Keeps-db_remove_friendship a b =
      Keeps-bind _ _ (Keeps-run _)
        λ check. Keeps-option (step_row e check) _ _ (search run_rules) (λ row. search run_rules)

  pub Keeps-db_reject_friend_request : (a b : ℕ) → Keeps P (db_reject_friend_request e a b)
  unfolding db_reject_friend_request
  Keeps-db_reject_friend_request a b =
      Keeps-bind _ _ (Keeps-run _)
        λ check. Keeps-option (step_row e check) _ _ (search run_rules) (λ row. search run_rules)

  module _ {A : Type 0} where
    pub Keeps-db_list_all_users :
        (cb : ℕ → Text → Text → A → Action e A) (a : A)
        → ((i : ℕ) (s t : Text) (b : A) → Keeps P (cb i s t b))
        → Keeps P (db_list_all_users e cb a)
    unfolding db_list_all_users
    Keeps-db_list_all_users cb a keep =
        Keeps-bind _ _ (Keeps-run _) (elim [ none ↦ search run_rules | some o ↦ search run_rules ])

    pub Keeps-db_list_servers :
        (cb : ℕ → Text → ℕ → A → Action e A) (a : A)
        → ((i : ℕ) (s : Text) (n : ℕ) (b : A) → Keeps P (cb i s n b))
        → Keeps P (db_list_servers e cb a)
    unfolding db_list_servers
    Keeps-db_list_servers cb a keep =
        Keeps-bind _ _ (Keeps-run _) (elim [ none ↦ search run_rules | some o ↦ search run_rules ])

    pub Keeps-db_list_server_channels :
        (server_id : ℕ) (cb : ℕ → Text → A → Action e A) (a : A)
        → ((i : ℕ) (s : Text) (b : A) → Keeps P (cb i s b))
        → Keeps P (db_list_server_channels e server_id cb a)
    unfolding db_list_server_channels
    Keeps-db_list_server_channels server_id cb a keep =
        Keeps-bind _ _ (Keeps-run _) (elim [ none ↦ search run_rules | some o ↦ search run_rules ])

    pub Keeps-db_list_server_members :
        (server_id : ℕ) (cb : ℕ → Text → ℕ → A → Action e A) (a : A)
        → ((i : ℕ) (s : Text) (n : ℕ) (b : A) → Keeps P (cb i s n b))
        → Keeps P (db_list_server_members e server_id cb a)
    unfolding db_list_server_members
    Keeps-db_list_server_members server_id cb a keep =
        Keeps-bind _ _ (Keeps-run _) (elim [ none ↦ search run_rules | some o ↦ search run_rules ])

    pub Keeps-db_list_joined_servers :
        (user_id : ℕ) (cb : ℕ → Text → ℕ → A → Action e A) (a : A)
        → ((i : ℕ) (s : Text) (n : ℕ) (b : A) → Keeps P (cb i s n b))
        → Keeps P (db_list_joined_servers e user_id cb a)
    unfolding db_list_joined_servers
    Keeps-db_list_joined_servers user_id cb a keep =
        Keeps-bind _ _ (Keeps-run _) (elim [ none ↦ search run_rules | some o ↦ search run_rules ])

    pub Keeps-db_list_friend_requests :
        (user_id : ℕ) (cb : ℕ → Text → ℕ → A → Action e A) (a : A)
        → ((i : ℕ) (s : Text) (n : ℕ) (b : A) → Keeps P (cb i s n b))
        → Keeps P (db_list_friend_requests e user_id cb a)
    unfolding db_list_friend_requests
    Keeps-db_list_friend_requests user_id cb a keep =
        Keeps-bind _ _ (Keeps-run _) (elim [ none ↦ search run_rules | some o ↦ search run_rules ])

    pub Keeps-db_list_channel_messages :
        (channel_id : ℕ) (cb : ℕ → Text → Text → ℕ → A → Action e A) (a : A)
        → ((i : ℕ) (s t : Text) (n : ℕ) (b : A) → Keeps P (cb i s t n b))
        → Keeps P (db_list_channel_messages e channel_id cb a)
    unfolding db_list_channel_messages
    Keeps-db_list_channel_messages channel_id cb a keep =
        Keeps-bind _ _ (Keeps-run _) (elim [ none ↦ search run_rules | some o ↦ search run_rules ])

    pub Keeps-db_list_direct_messages :
        (x y : ℕ) (cb : ℕ → Text → Text → Text → ℕ → A → Action e A) (a : A)
        → ((i : ℕ) (s t u : Text) (n : ℕ) (b : A) → Keeps P (cb i s t u n b))
        → Keeps P (db_list_direct_messages e x y cb a)
    unfolding db_list_direct_messages
    Keeps-db_list_direct_messages x y cb a keep = Keeps-bind _ _ (Keeps-run _) (elim [
      | none ↦ search run_rules
      | some o ↦
          Keeps-bind _ _
            (Keeps-for_each _ o.rows a (λ row b. record { at = λ w h. (keep _ _ _ _ _ b).at w h }))
            (λ b. Keeps-pure _)
    ])
