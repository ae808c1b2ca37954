-- ===== src/Server/Rounds.antt =====
-- The rounds of `run_server_loop` and the invariant of the server's state.
use mathlib.Core.Bool.{false≢true}
use tizcord.Base.{
  ℕ, zero, suc, ◌<◌, ◌≡◌, refl, sym, subst, List, [], ◌∷◌, map, true, false, Option, none, some,
  Keeps, Keeps-then, Bool-cases, inl, inr, length, arith, length-set, Option-cases, ◌>>◌, not,
  remove_at, leb, ltb, ◌&&◌,
}
use tizcord.Protocol.{Packet, Payload, system, auth, dm, server, channel, social}
use tizcord.Wire.Receive.{
  RecvAnswer, Received, incomplete, broken, got, Progress, packet_receive_partial,
}
use tizcord.Db.Env.{Env}
use tizcord.Db.World.{World, client_at, no_client, max_clients}
use tizcord.TizcordServer.Stable.{
  Keeps-notify_server_member_lists_for_user, Keeps-handle_server_packet,
}
use tizcord.Social.Stable.{Keeps-notify_all_user_lists, Keeps-handle_social_packet}
use tizcord.Chat.Stable.{Keeps-handle_channel_message, Keeps-handle_private_message}
use tizcord.Auth.Sessions.{session, Unique, Sockets, LoggedIn, map-session-set}
use tizcord.Auth.Entries.{
  All-remove_at, map_remove, map_append, length_remove, length_snoc, Sockets-remove_at,
  Unique-remove_at, IsFresh, All-snoc, Sockets-snoc, Unique-snoc,
}
use tizcord.Server.Invariant.{Users, IsValid, Stable-IsValid, IsValid-same_sessions}
use tizcord.Reply.{minus_one}
use tizcord.Words.{not_positive64}
use tizcord.TizcordServer.Lists.{notify_server_member_lists_for_user}
use tizcord.Social.Notify.{notify_all_user_lists}
use tizcord.Server.Accounts.{Keeps-handle_auth_packet}
use tizcord.Server.Loop.{
  dispatch, process_client_packet, handle_new_connection, drop_client, write_receive, Arrivals,
  serve_received, serve_ready, serve_client, serve_clients, Round, run_round, run_server_loop,
  init_server_context,
}

module _ (e : Env) (u : Users e) where
  -- A connection that accept(2) gave, or none.
  abbrev pub Fresh : Option ℕ → World e → Type 0
  Fresh none w = Unit
  Fresh (some fd) w = IsFresh fd (map session w.clients)

  below : {n : ℕ} → leb max_clients n ≡ false → n < max_clients
  below h = ground arith

  pub handle_new_connection-IsValid :
      (o : Option ℕ) (w : World e)
      → Fresh o w
      → IsValid e u w
      → IsValid e u (handle_new_connection e o w).1
  unfolding handle_new_connection
  handle_new_connection-IsValid none w f v = v
  handle_new_connection-IsValid (some fd) w f v =
      elim (Bool-cases (leb max_clients (length w.clients))) [
        | inl full ↦ rw full v
        | inr space ↦ rw space (
            let c = record no_client { socket_fd = fd; current_server_index = minus_one } in
            let on = map_append w.clients (c ∷ []) in
            record {
              room = omega (arith, length_snoc w.clients c, below space);
              sockets =
                  subst Sockets (sym on)
                    (Sockets-snoc (map session w.clients) (session c) f v.sockets);
              unique =
                  subst Unique (sym on)
                    (Unique-snoc (map session w.clients) (session c) refl v.unique);
              known = subst (LoggedIn (λ id. u.has_user w.conn id ≡ true)) (sym on) (
                  All-snoc (λ s. s.authenticated ≡ true → u.has_user w.conn s.id ≡ true)
                    (map session w.clients) (session c) v.known (λ a. absurd (false≢true a)));
            })
      ]

  remove_at-IsValid :
      (i : ℕ) (w : World e)
      → IsValid e u w
      → IsValid e u (record w { clients = remove_at w.clients i })
  remove_at-IsValid i w v =
      let on = map_remove w.clients i in
      record {
        room = omega (arith, v.room, length_remove w.clients i);
        sockets = subst Sockets (sym on) (Sockets-remove_at (map session w.clients) i v.sockets);
        unique = subst Unique (sym on) (Unique-remove_at (map session w.clients) i v.unique);
        known = subst (LoggedIn (λ id. u.has_user w.conn id ≡ true)) (sym on) (
            All-remove_at (λ s. s.authenticated ≡ true → u.has_user w.conn s.id ≡ true)
              (map session w.clients) i v.known);
      }

  Keeps-told :
      (id : ℕ)
      → Keeps (IsValid e u) (notify_server_member_lists_for_user e id >> notify_all_user_lists e)
  Keeps-told id =
      Keeps-then _ _
        (Keeps-notify_server_member_lists_for_user e (IsValid e u) (Stable-IsValid e u) id)
        (Keeps-notify_all_user_lists e (IsValid e u) (Stable-IsValid e u))

  drop_client-IsValid : (i : ℕ) → Keeps (IsValid e u) (drop_client e i)
  unfolding drop_client
  drop_client-IsValid i = record {
    at = λ w v.
        elim (Bool-cases
          ((client_at e w i).is_authenticated && not (not_positive64 (client_at e w i).id))) [
            | inl tell ↦ rw tell ((Keeps-told (client_at e w i).id).at _ (remove_at-IsValid i w v))
            | inr quiet ↦ rw quiet (remove_at-IsValid i w v)
          ];
  }

  Keeps-dispatch :
      (i : ℕ) (packet : Packet) (p : Payload) → Keeps (IsValid e u) (dispatch e i packet p)
  unfolding dispatch
  Keeps-dispatch i packet (auth p) = record {
    at = λ w v. (Keeps-handle_auth_packet e u _ p).at w v;
  }
  Keeps-dispatch i packet (dm p) = record {
    at = λ w v.
        (Keeps-handle_private_message e (IsValid e u) (Stable-IsValid e u) packet p _).at w v;
  }
  Keeps-dispatch i packet (server p) = record {
    at = λ w v. (Keeps-handle_server_packet e (IsValid e u) (Stable-IsValid e u) i p).at w v;
  }
  Keeps-dispatch i packet (channel p) = record {
    at = λ w v.
        (Keeps-handle_channel_message e (IsValid e u) (Stable-IsValid e u) packet p _).at w v;
  }
  Keeps-dispatch i packet (social p) = record {
    at = λ w v. (Keeps-handle_social_packet e (IsValid e u) (Stable-IsValid e u) i p).at w v;
  }
  Keeps-dispatch i packet (system p) = record { at = λ w v. v }

  -- Receiving changes no session.
  write_receive-IsValid :
      (i : ℕ) (r : Received × Progress e.abi.Byte) (w : World e)
      → IsValid e u w
      → IsValid e u (write_receive e i r w)
  write_receive-IsValid i r w v =
      IsValid-same_sessions e u w _ v refl
        (length-set w.clients i (record (client_at e w i) { receive = r.1 }))
        (map-session-set w.clients i (record (client_at e w i) { receive = r.1 }) no_client refl)

  Keeps-serve_ready :
      (i : ℕ) (answers : List (RecvAnswer e.abi.Byte))
      → Keeps (IsValid e u) (serve_ready e i answers)
  unfolding serve_ready serve_received process_client_packet
  Keeps-serve_ready i answers = record {
    at = λ w v.
        let r = packet_receive_partial e.abi (client_at e w i).receive answers in
        go r.0 (write_receive e i r w) (write_receive-IsValid i r w v);
  }
    where
      go : (o : Received) (w : World e) → IsValid e u w → IsValid e u (serve_received e i o w).1
      go incomplete w v = v
      go broken w v = (drop_client-IsValid i).at w v
      go (got packet) w v = (Keeps-dispatch i packet packet.payload).at w v

  Keeps-serve_client : (a : Arrivals e) (i : ℕ) → Keeps (IsValid e u) (serve_client e a i)
  unfolding serve_client
  Keeps-serve_client a i = record {
    at = λ w v. elim (Bool-cases (ltb 0 (client_at e w i).socket_fd)) [
      | inr closed ↦ rw closed v
      | inl connected ↦ elim (Option-cases (a (client_at e w i).socket_fd)) [
        | inl idle ↦ rw (connected, idle) v
        | inr (answers, at) ↦ rw (connected, at) ((Keeps-serve_ready i answers).at w v)
      ]
    ];
  }

  Keeps-serve_clients :
      (a : Arrivals e) (fuel i : ℕ) (w : World e)
      → IsValid e u w
      → IsValid e u (serve_clients e a fuel i w).1
  unfolding serve_clients
  Keeps-serve_clients a zero i w v = v
  Keeps-serve_clients a (suc fuel) i w v = elim (Bool-cases (ltb i (length w.clients))) [
    | inr done ↦ rw (done, serve_clients) v
    | inl more ↦
        rw (more, serve_clients)
          (Keeps-serve_clients a fuel _ (serve_client e a i w).1 ((Keeps-serve_client a i).at w v))
  ]

  run_round-IsValid :
      (r : Round e) (w : World e)
      → Fresh r.accepted w
      → IsValid e u w
      → IsValid e u (run_round e r w).1
  unfolding run_round
  run_round-IsValid r w f v =
      Keeps-serve_clients r.arrivals _ 0 _ (handle_new_connection-IsValid r.accepted w f v)

  -- What accept(2) guarantees in each round.
  abbrev pub Accepts : List (Round e) → World e → Type 0
  Accepts [] w = Unit
  Accepts (r ∷ rounds) w = Fresh r.accepted w × Accepts rounds (run_round e r w).1

  run_server_loop-IsValid_from :
      (rounds : List (Round e)) (w : World e)
      → Accepts rounds w
      → IsValid e u w
      → IsValid e u (run_server_loop e rounds w)
  unfolding run_server_loop
  run_server_loop-IsValid_from [] w f v = v
  run_server_loop-IsValid_from (r ∷ rounds) w f v =
      run_server_loop-IsValid_from rounds (run_round e r w).1 f.1 (run_round-IsValid r w f.0 v)

  -- From the state that `main` starts with, with any database that obeys the schema of its users,
  -- and as long as accept(2) gives positive descriptors that no open socket has, every history of
  -- rounds of the server keeps its state valid: at most MAX_CLIENTS entries, a socket of its own
  -- for each of them, no user logged in twice, and only users of the database logged in.
  pub run_server_loop-IsValid :
      (conn : e.Conn) (rounds : List (Round e))
      → Accepts rounds (init_server_context e conn)
      → IsValid e u (run_server_loop e rounds (init_server_context e conn))
  run_server_loop-IsValid conn rounds f =
      run_server_loop-IsValid_from rounds (init_server_context e conn) f
        (record { room = omega arith; sockets = tt; unique = tt; known = tt })
