-- ===== src/Server/Sweep.antt =====
-- The loop of `run_server_loop` over the clients ends: handlers add no client, so one round for each
-- client is enough, also where clients are removed on the way.
use tizcord.Base.{
  ℕ, zero, suc, ◌≤◌, ◌<◌, ◌+◌, ◌-◌, ◌≡◌, refl, List, [], ◌∷◌, Bool, Option, none, some, Text, Keeps,
  keeps_rules, Keeps-bind, Keeps-then, Keeps-option, Keeps-gets, Keeps-for_range, Bool-cases, inl,
  inr, length, arith, length-set, if◌then◌else◌, Option-cases, ◌>>=◌, ◌>>◌, not, remove_at, ltb,
  ◌&&◌,
}
use tizcord.Protocol.{Packet, Payload, AuthPayload, system, auth, dm, server, channel, social}
use tizcord.Wire.Receive.{Received, incomplete, broken, got, packet_receive_partial}
use tizcord.Words.{not_positive64}
use tizcord.Db.Env.{Env}
use tizcord.Db.World.{World, ClientNode, client_at}
use tizcord.Db.Stable.{Stable, Keeps-send, Keeps-db_create_user, Keeps-db_get_password_hash}
use tizcord.TizcordServer.Lists.{notify_server_member_lists_for_user}
use tizcord.TizcordServer.Stable.{
  Keeps-notify_server_member_lists_for_user, Keeps-handle_server_packet,
}
use tizcord.Social.Notify.{notify_all_user_lists}
use tizcord.Social.Stable.{Keeps-notify_all_user_lists, Keeps-handle_social_packet}
use tizcord.Chat.Channel.{find_fd}
use tizcord.Chat.Stable.{Keeps-handle_channel_message, Keeps-handle_private_message}
use tizcord.Auth.{
  clear_client_session, clear_session_at, revoke_at, revoke_existing_login, link_at, link_identity,
  take_over, is_revoked, log_in, send_auth_reply, finish_register, register_account, finish_login,
  login_account, logout_at, logout_account, handle_auth_packet,
}
use tizcord.Server.Loop.{
  dispatch, process_client_packet, drop_client, write_receive, Arrivals, serve_received,
  serve_ready, serve_client, serve_clients,
}

module _ (e : Env) (n : ℕ) where
  -- There are at most `n` clients.
  abbrev AtMost : World e → Type 0
  AtMost w = length w.clients ≤ n

  Stable-AtMost : Stable e AtMost
  Stable-AtMost = record {
    sends = λ w s h. h;
    runs = λ w sql h. h;
    lists = λ w k h. h;
    views = λ w i v h.
        omega (
          arith,
          h,
          length-set w.clients i (record (client_at e w i) { current_server_index = v }),
        );
  }

  Keeps-clear_session_at : (i : ℕ) → Keeps AtMost (clear_session_at e i)
  unfolding clear_session_at ◌>>=◌
  Keeps-clear_session_at i = record {
    at = λ w h. omega (arith, h, length-set w.clients i (clear_client_session (client_at e w i)));
  }

  Keeps-revoke_at : (fd u : ℕ) (name : Text) (i : ℕ) → Keeps AtMost (revoke_at e fd u name i)
  unfolding revoke_at
  Keeps-revoke_at fd u name i = record {
    at = λ w h. elim (Bool-cases (is_revoked fd u (client_at e w i))) [
      | inl hit ↦ rw hit (
          (Keeps-then _ _ (Keeps-send e AtMost Stable-AtMost _ _) (Keeps-clear_session_at i)).at w
            h)
      | inr miss ↦ rw miss h
    ];
  }

  Keeps-link_at : (u : ℕ) (name : Text) (o : Option ℕ) → Keeps AtMost (link_at e u name o)
  unfolding link_at
  Keeps-link_at u name none = record { at = λ w h. h }
  Keeps-link_at u name (some i) = record {
    at = λ w h. omega (arith, h, length-set w.clients i (log_in u name (client_at e w i)));
  }

  Keeps-take_over : (fd u : ℕ) (name : Text) → Keeps AtMost (take_over e fd u name)
  unfolding take_over ◌>>◌ revoke_existing_login link_identity
  Keeps-take_over fd u name = record {
    at = λ w h.
        let revoke =
          Keeps-for_range (length w.clients) 0 (revoke_at e fd u name)
            (Keeps-revoke_at fd u name) in
        (Keeps-link_at u name _).at _ (revoke.at w h);
  }

  Keeps-send_auth_reply : (fd a c : ℕ) (t : Text) → Keeps AtMost (send_auth_reply e fd a c t)
  unfolding send_auth_reply
  Keeps-send_auth_reply fd a c t = record {
    at = λ w h. (Keeps-send e AtMost Stable-AtMost fd _).at w h;
  }

  Keeps-all_lists : Keeps AtMost (notify_all_user_lists e)
  Keeps-all_lists = Keeps-notify_all_user_lists e AtMost Stable-AtMost

  Keeps-member_lists : (u : ℕ) → Keeps AtMost (notify_server_member_lists_for_user e u)
  Keeps-member_lists u = Keeps-notify_server_member_lists_for_user e AtMost Stable-AtMost u

  ruleset login_rules = (keeps_rules, Keeps-send_auth_reply, Keeps-all_lists, Keeps-member_lists)

  Keeps-finish_register :
      (fd : ℕ) (t : Text) (o : Option ℕ) → Keeps AtMost (finish_register e fd t o)
  unfolding finish_register ◌>>◌ link_identity
  Keeps-finish_register fd t none = Keeps-send_auth_reply _ _ _ _
  Keeps-finish_register fd t (some u) = record {
    at = λ w h.
        (Keeps-send_auth_reply _ _ _ _).at _ (Keeps-all_lists.at _ ((Keeps-link_at u t _).at w h));
  }

  Keeps-register_account : (fd : ℕ) (p : AuthPayload) → Keeps AtMost (register_account e fd p)
  unfolding register_account
  Keeps-register_account fd p = Keeps-bind _ _ (Keeps-gets _) (λ setting.
      Keeps-option setting _ _ (Keeps-send_auth_reply _ _ _ _) (λ salt.
        Keeps-option (e.crypt p.password salt) _ _ (Keeps-send_auth_reply _ _ _ _) (λ hash.
          Keeps-bind _ _ (Keeps-db_create_user e AtMost Stable-AtMost p.username hash)
            (Keeps-finish_register fd p.username))))

  Keeps-finish_login :
      (fd : ℕ) (p : AuthPayload) (o : Option (ℕ × Text)) → Keeps AtMost (finish_login e fd p o)
  unfolding finish_login
  Keeps-finish_login fd p none = Keeps-send_auth_reply _ _ _ _
  Keeps-finish_login fd p (some (u, hash)) = search (login_rules, Keeps-take_over) depth 9

  Keeps-login_account : (fd : ℕ) (p : AuthPayload) → Keeps AtMost (login_account e fd p)
  unfolding login_account
  Keeps-login_account fd p =
      Keeps-bind _ _ (Keeps-db_get_password_hash e AtMost Stable-AtMost p.username)
        (Keeps-finish_login fd p)

  Keeps-logout_at : (fd : ℕ) (c : ClientNode e.abi.Byte) (i : ℕ) → Keeps AtMost (logout_at e fd c i)
  unfolding logout_at
  Keeps-logout_at fd c i = search (login_rules, Keeps-clear_session_at) depth 9

  Keeps-logout_account : (fd : ℕ) → Keeps AtMost (logout_account e fd)
  unfolding logout_account
  Keeps-logout_account fd = record {
    at = λ w h. elim (Option-cases (find_fd fd w.clients)) [
      | inl gone ↦ rw (gone, logout_account) h
      | inr (i, at) ↦ rw (at, logout_account) ((Keeps-logout_at fd (client_at e w i) i).at w h)
    ];
  }

  Keeps-auth : (fd : ℕ) (p : AuthPayload) → Keeps AtMost (handle_auth_packet e fd p)
  unfolding handle_auth_packet
  Keeps-auth fd p =
      search (keeps_rules, Keeps-register_account, Keeps-login_account, Keeps-logout_account)

  dispatch-AtMost :
      (i : ℕ) (packet : Packet) (p : Payload) (w : World e)
      → AtMost w
      → AtMost (dispatch e i packet p w).1
  unfolding dispatch
  dispatch-AtMost i packet (auth p) w h = (Keeps-auth _ p).at w h
  dispatch-AtMost i packet (dm p) w h =
      (Keeps-handle_private_message e AtMost Stable-AtMost packet p _).at w h
  dispatch-AtMost i packet (server p) w h =
      (Keeps-handle_server_packet e AtMost Stable-AtMost i p).at w h
  dispatch-AtMost i packet (channel p) w h =
      (Keeps-handle_channel_message e AtMost Stable-AtMost packet p _).at w h
  dispatch-AtMost i packet (social p) w h =
      (Keeps-handle_social_packet e AtMost Stable-AtMost i p).at w h
  dispatch-AtMost i packet (system p) w h = h

  drop_client-AtMost :
      (i : ℕ) (w : World e) → length (remove_at w.clients i) ≤ n → AtMost (drop_client e i w).1
  unfolding drop_client ◌>>◌
  drop_client-AtMost i w h =
      elim (Bool-cases
        ((client_at e w i).is_authenticated && not (not_positive64 (client_at e w i).id))) [
          | inl tell ↦
              rw tell (Keeps-all_lists.at _ ((Keeps-member_lists (client_at e w i).id).at _ h))
          | inr quiet ↦ rw quiet h
        ]

length-remove_at_lt :
    {A : Type 0} (xs : List A) (i : ℕ) → i < length xs → suc (length (remove_at xs i)) ≡ length xs
length-remove_at_lt [] i h = absurd (omega arith)
length-remove_at_lt (x ∷ xs) zero h = refl
length-remove_at_lt (x ∷ xs) (suc i) h = omega (arith, length-remove_at_lt xs i (omega arith))

module _ (e : Env) where
  -- How many clients the loop still has to look at.
  abbrev to_do : ℕ → World e → ℕ
  to_do i w = length w.clients - i

  -- One client fewer is left, whether it was removed or the loop moves on.
  abbrev Advances : ℕ → World e → Bool × World e → Type 0
  Advances i w r = to_do (if r.0 then i else suc i) r.1 < to_do i w

  serve_received-Advances :
      (i : ℕ) (o : Received) (w w' : World e)
      → i < length w.clients
      → length w'.clients ≡ length w.clients
      → Advances i w (serve_received e i o w')
  unfolding serve_received process_client_packet
  serve_received-Advances i incomplete w w' more same = omega (arith, more, same)
  serve_received-Advances i (got packet) w w' more same = omega (
    arith,
    more,
    dispatch-AtMost e (length w.clients) i packet packet.payload w' (omega (arith, same)),
  )
  serve_received-Advances i broken w w' more same =
      let shorter = length-remove_at_lt w'.clients i (omega (arith, more, same)) in
      omega (
        arith,
        more,
        same,
        shorter,
        drop_client-AtMost e (length (remove_at w'.clients i)) i w' (omega arith),
      )

  serve_client-Advances :
      (a : Arrivals e) (i : ℕ) (w : World e)
      → i < length w.clients
      → Advances i w (serve_client e a i w)
  unfolding serve_client serve_ready
  serve_client-Advances a i w more = elim (Bool-cases (ltb 0 (client_at e w i).socket_fd)) [
    | inr closed ↦ rw closed (omega (arith, more))
    | inl connected ↦ elim (Option-cases (a (client_at e w i).socket_fd)) [
      | inl idle ↦ rw (connected, idle) (omega (arith, more))
      | inr (answers, at) ↦
          rw (connected, at)
            (let r = packet_receive_partial e.abi (client_at e w i).receive answers in
              serve_received-Advances i r.0 w (write_receive e i r w) more
                (length-set w.clients i (record (client_at e w i) { receive = r.1 })))
    ]
  ]

  -- With fuel for each client from `i` on, the loop ends because no client is left to look at.
  pub serve_clients-ends :
      (a : Arrivals e) (fuel i : ℕ) (w : World e)
      → length w.clients ≤ i + fuel
      → let (last, w') = serve_clients e a fuel i w in length w'.clients ≤ last
  unfolding serve_clients
  serve_clients-ends a zero i w enough = omega (arith, enough)
  serve_clients-ends a (suc fuel) i w enough = elim (Bool-cases (ltb i (length w.clients))) [
    | inr stop ↦ rw (stop, serve_clients) (ground arith)
    | inl more ↦
        let next = if (serve_client e a i w).0 then i else suc i in
        let step : to_do next (serve_client e a i w).1 < to_do i w =
          serve_client-Advances a i w (ground arith) in
        rw (more, serve_clients)
          (serve_clients-ends a fuel next (serve_client e a i w).1 (omega (arith, enough, step)))
  ]
