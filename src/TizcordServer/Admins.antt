-- ===== src/TizcordServer/Admins.antt =====
-- Only admins of a server delete it or remove members: server/tizcord_server.c with the query of
-- server/db.c.
use tizcord.Base.{ℕ, Option, none, some, ◌≡◌, refl, false, Bool-cases, inl, inr, ◌>>=◌, ◌>>◌, ◌||◌}
use tizcord.Words.{not_positive64}
use tizcord.Db.Sql.{select_is_admin}
use tizcord.Db.Env.{Env, ReadsOnly}
use tizcord.Db.World.{World, client_at, run, send, step_row}
use tizcord.Db.Servers.{db_user_is_server_admin}
use tizcord.Reply.{send_action_response, send_packet_to_client}
use tizcord.TizcordServer.Lists.{respond}
use tizcord.TizcordServer.Requests.{is_admin_flag, delete_tizcord_server, kick_server_member}

-- The database and the clients' entries are the same in both states.
abbrev pub SameData : (e : Env) → World e → World e → Type 0
SameData e w w' = (w'.conn ≡ w.conn) × (w'.clients ≡ w.clients)

module _ (e : Env) (ro : ReadsOnly e) (i server_id : ℕ) (w : World e) where
  admin_query-SameData :
      (user_id : ℕ) → SameData e w (db_user_is_server_admin e server_id user_id w).1
  unfolding db_user_is_server_admin run ◌>>=◌
  admin_query-SameData user_id =
      let sql = select_is_admin server_id user_id in
      elim (Bool-cases (e.prepare w.conn sql)) [
        | inl good ↦ rw good (ro.select_keeps w.conn sql refl, refl)
        | inr bad ↦ rw bad (refl, refl)
      ]

  -- What the query of server_members answers about the user: no row, or one whose flag is 0.
  abbrev pub NoAdmin : ℕ → Type 0
  NoAdmin user_id =
      (row : e.Row)
      → step_row e (some (e.execute w.conn (select_is_admin server_id user_id)).1) ≡ some row
      → e.column_int row 0 ≡ 0

  is_admin_flag-NoAdmin :
      (user_id : ℕ)
      → NoAdmin user_id
      → is_admin_flag (db_user_is_server_admin e server_id user_id w).0 ≡ false
  unfolding db_user_is_server_admin run ◌>>=◌
  is_admin_flag-NoAdmin user_id h =
      elim (Bool-cases (e.prepare w.conn (select_is_admin server_id user_id))) [
        | inr bad ↦ rw bad refl
        | inl good ↦
            rw good
              (flag (step_row e (some (e.execute w.conn (select_is_admin server_id user_id)).1)) h)
      ]
    where
      flag :
          (found : Option e.Row)
          → ((row : e.Row) → found ≡ some row → e.column_int row 0 ≡ 0)
          → is_admin_flag
              (elim found as (λ _. Option ℕ) [ none ↦ none | some row ↦ some (e.column_int row 0) ])
            ≡ false
      flag none h = refl
      flag (some row) h = rw (h row refl) refl

  -- Where the query of server_members for the client and the server finds no row, or a row whose
  -- is_admin is 0, neither the client's request to delete the server nor one to remove a member
  -- changes the database or a client's entry, when SELECT does not change the database.
  pub kick_server_member-SameData :
      NoAdmin (client_at e w i).id
      → SameData e w (delete_tizcord_server e i server_id w).1
        × ((target_user_id : ℕ)
            → SameData e w (kick_server_member e i server_id target_user_id w).1)
  unfolding delete_tizcord_server kick_server_member respond send_action_response
      send_packet_to_client send ◌>>=◌ ◌>>◌
  kick_server_member-SameData none_is =
      let no_admin = is_admin_flag-NoAdmin (client_at e w i).id none_is in
      (
        elim (Bool-cases (not_positive64 server_id)) [
          | inl bad ↦ rw bad (refl, refl)
          | inr good ↦ elim (Bool-cases (client_at e w i).is_authenticated) [
            | inr out ↦ rw (good, out) (refl, refl)
            | inl inside ↦ rw (good, inside, no_admin) (admin_query-SameData (client_at e w i).id)
          ]
        ],
        λ target_user_id.
            elim (Bool-cases (not_positive64 server_id || not_positive64 target_user_id)) [
              | inl bad ↦ rw bad (refl, refl)
              | inr good ↦ elim (Bool-cases (client_at e w i).is_authenticated) [
                | inr out ↦ rw (good, out) (refl, refl)
                | inl inside ↦
                    rw (good, inside, no_admin) (admin_query-SameData (client_at e w i).id)
              ]
            ],
      )
