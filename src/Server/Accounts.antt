-- ===== src/Server/Accounts.antt =====
-- `handle_auth_packet` of server/auth.c keeps the invariant of the server's state.
use mathlib.Core.Bool.{false≢true}
use tizcord.Base.{
  ℕ, ◌≡◌, refl, sym, subst, [], map, true, Option, none, some, Text, Keeps, keeps_rules, Keeps-bind,
  Keeps-then, Keeps-option, Keeps-gets, Bool-cases, inl, inr, arith, length-set, Option-cases,
  ◌>>=◌, ◌>>◌, set,
}
use tizcord.Protocol.{
  AuthPayload, auth_register, auth_login, auth_logout, resp_ok, resp_done, resp_err_invalid,
  resp_err_conflict, resp_err_unauthorized,
}
use tizcord.Db.Env.{Env}
use tizcord.Db.World.{World, ClientNode, client_at, no_client}
use tizcord.Db.Stable.{Keeps-send}
use tizcord.Chat.Channel.{find_fd}
use tizcord.TizcordServer.Lists.{notify_server_member_lists_for_user}
use tizcord.TizcordServer.Stable.{Keeps-notify_server_member_lists_for_user}
use tizcord.Social.Notify.{notify_all_user_lists}
use tizcord.Social.Stable.{Keeps-notify_all_user_lists}
use tizcord.Auth.{
  clear_client_session, clear_session_at, send_auth_reply, finish_register, finish_login, logout_at,
  register_account, login_account, logout_account, handle_auth_packet, password_matches,
}
use tizcord.Auth.Sessions.{
  session, Unique, Sockets, LoggedIn, update_first, set-find_fd, All-update_first,
  Sockets-update_first, Unique-update_first_out,
}
use tizcord.Server.Invariant.{Users, IsValid, Stable-IsValid}
use tizcord.Server.Logins.{
  Stored, Found, db_create_user-Stored, db_get_password_hash-Found, IsValid-link_identity,
  IsValid-take_over,
}

module _ (e : Env) (u : Users e) where
  Keeps-send_auth_reply : (fd a c : ℕ) (n : Text) → Keeps (IsValid e u) (send_auth_reply e fd a c n)
  unfolding send_auth_reply
  Keeps-send_auth_reply fd a c n = record {
    at = λ w v. (Keeps-send e (IsValid e u) (Stable-IsValid e u) fd _).at w v;
  }

  -- The lists that everybody is sent after a login or a logout, and the reply.
  Keeps-tell :
      (fd a c user_id : ℕ) (n : Text)
      → Keeps (IsValid e u) (
          notify_server_member_lists_for_user e user_id
          >> notify_all_user_lists e
          >> send_auth_reply e fd a c n)
  Keeps-tell fd a c user_id n =
      Keeps-then _ _
        (Keeps-then _ _
          (Keeps-notify_server_member_lists_for_user e (IsValid e u) (Stable-IsValid e u) user_id)
          (Keeps-notify_all_user_lists e (IsValid e u) (Stable-IsValid e u)))
        (Keeps-send_auth_reply fd a c n)

  finish_register-IsValid :
      (fd : ℕ) (name : Text) (o : Option ℕ) (w : World e)
      → Stored e u o w
      → IsValid e u (finish_register e fd name o w).1
  unfolding Stored finish_register ◌>>◌
  finish_register-IsValid fd name none w v =
      (Keeps-send_auth_reply fd auth_register resp_err_conflict []).at w v
  finish_register-IsValid fd name (some user_id) w v =
      (Keeps-send_auth_reply fd auth_register resp_ok []).at _ (
        (Keeps-notify_all_user_lists e (IsValid e u) (Stable-IsValid e u)).at _
          (IsValid-link_identity e u fd user_id name w v.0 (v.2 fd) v.1))

  Keeps-register_account :
      (fd : ℕ) (p : AuthPayload) → Keeps (IsValid e u) (register_account e fd p)
  unfolding register_account ◌>>=◌
  Keeps-register_account fd p = Keeps-bind _ _ (Keeps-gets _) (λ setting.
      Keeps-option setting _ _ (Keeps-send_auth_reply fd auth_register 1 []) (λ salt.
        Keeps-option (e.crypt p.password salt) _ _ (Keeps-send_auth_reply fd auth_register 1 [])
          (λ hash. record {
            at = λ w v.
                finish_register-IsValid fd p.username _ _
                  (db_create_user-Stored e u p.username hash w v);
          })))

  finish_login-IsValid :
      (fd : ℕ) (p : AuthPayload) (o : Option (ℕ × Text)) (w : World e)
      → Found e u o w
      → IsValid e u (finish_login e fd p o w).1
  unfolding Found finish_login ◌>>◌
  finish_login-IsValid fd p none w v = (Keeps-send_auth_reply fd auth_login 1 []).at w v
  finish_login-IsValid fd p (some (user_id, hash)) w v =
      elim (Bool-cases (password_matches e p.password hash)) [
        | inl right ↦ rw right (
            (Keeps-tell fd auth_login resp_ok user_id []).at _
              (IsValid-take_over e u fd user_id p.username w v.0 v.1))
        | inr wrong ↦ rw wrong ((Keeps-send_auth_reply fd auth_login resp_err_invalid []).at w v.0)
      ]

  Keeps-login_account : (fd : ℕ) (p : AuthPayload) → Keeps (IsValid e u) (login_account e fd p)
  unfolding login_account ◌>>=◌
  Keeps-login_account fd p = record {
    at = λ w v. finish_login-IsValid fd p _ _ (db_get_password_hash-Found e u p.username w v);
  }

  -- Clearing the entry that `find_fd` gives.
  clear_session_at-IsValid :
      (fd i : ℕ) (w : World e)
      → find_fd fd w.clients ≡ some i
      → IsValid e u w
      → IsValid e u (clear_session_at e i w).1
  unfolding clear_session_at ◌>>=◌
  clear_session_at-IsValid fd i w at v =
      let on : set w.clients i (clear_client_session (client_at e w i))
          ≡ update_first fd clear_client_session w.clients =
        set-find_fd fd i clear_client_session w.clients no_client at in
      record {
        room =
            omega (arith, v.room, length-set w.clients i (clear_client_session (client_at e w i)));
        sockets =
            subst (λ cs. Sockets (map session cs)) (sym on)
              (Sockets-update_first fd clear_client_session w.clients (λ c. refl) v.sockets);
        unique =
            subst (λ cs. Unique (map session cs)) (sym on)
              (Unique-update_first_out fd clear_client_session w.clients (λ c. refl) v.unique);
        known =
            subst (λ cs. LoggedIn (λ id. u.has_user w.conn id ≡ true) (map session cs)) (sym on)
              (All-update_first (λ s. s.authenticated ≡ true → u.has_user w.conn s.id ≡ true) fd
                clear_client_session w.clients (λ c on' k a. absurd (false≢true a)) v.known);
      }

  logout_at-IsValid :
      (fd i : ℕ) (c : ClientNode e.abi.Byte) (w : World e)
      → find_fd fd w.clients ≡ some i
      → IsValid e u w
      → IsValid e u (logout_at e fd c i w).1
  unfolding logout_at ◌>>◌
  logout_at-IsValid fd i c w at v = elim (Bool-cases c.is_authenticated) [
    | inl inside ↦
        rw inside
          ((Keeps-tell fd auth_logout resp_done c.id _).at _ (clear_session_at-IsValid fd i w at v))
    | inr out ↦ rw out ((Keeps-send_auth_reply fd auth_logout resp_err_unauthorized []).at w v)
  ]

  Keeps-logout_account : (fd : ℕ) → Keeps (IsValid e u) (logout_account e fd)
  unfolding logout_account
  Keeps-logout_account fd = record {
    at = λ w v. elim (Option-cases (find_fd fd w.clients)) [
      | inl gone ↦ rw (gone, logout_account) v
      | inr (i, at) ↦ rw (at, logout_account) (logout_at-IsValid fd i (client_at e w i) w at v)
    ];
  }

  pub Keeps-handle_auth_packet :
      (fd : ℕ) (p : AuthPayload) → Keeps (IsValid e u) (handle_auth_packet e fd p)
  unfolding handle_auth_packet
  Keeps-handle_auth_packet fd p =
      search (keeps_rules, Keeps-register_account, Keeps-login_account, Keeps-logout_account)
