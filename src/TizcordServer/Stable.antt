-- ===== src/TizcordServer/Stable.antt =====
-- What the handlers of server/tizcord_server.c leave as it was: see `Db.Stable`.
use tizcord.Base.{
  ◌>>=◌, ℕ, Bool-cases, inl, inr, none, Keeps, keeps_rules, Text, Keeps-pure, ◌==◌, not, ◌||◌,
  length, Keeps-for_range,
}
use tizcord.Protocol.{ServerPayload, packet_server, resp_err_internal}
use tizcord.Words.{not_positive64, to_int64}
use tizcord.Db.Env.{Env}
use tizcord.Db.World.{World, client_at}
use tizcord.Db.Stable.{
  Stable, Keeps-db_list_servers, Keeps-db_list_server_channels, Keeps-db_list_server_members,
  Keeps-db_list_joined_servers, Keeps-db_join_server, Keeps-db_leave_server, Keeps-db_create_server,
  Keeps-db_delete_server, Keeps-db_kick_server_member, Keeps-db_user_is_server_admin,
}
use tizcord.Reply.{ListItems, send_list_response}
use tizcord.Reply.Stable.{Keeps-send_action_response, Keeps-send_list_response}
use tizcord.TizcordServer.Collect.{
  ServerListAccumulator, ChannelListAccumulator, MemberListAccumulator, collect_server_list_item,
  collect_channel_list_item, collect_member_list_item,
}
use tizcord.TizcordServer.Lists.{
  respond, respond_list, list_tizcord_servers, list_tizcord_channels, list_joined_servers,
  view_server, list_members, notify_member, notify_server_member_list, refresh_joined_server_cb,
  notify_server_member_lists_for_user,
}
use tizcord.TizcordServer.Requests.{
  join_tizcord_server, leave_view, leave_tizcord_server, create_tizcord_server,
  delete_tizcord_server, kick_server_member, handle_server_packet,
}

module _ (e : Env) (P : World e → Type 0) (st : Stable e P) where
  pub Keeps-respond : (i a c : ℕ) → Keeps P (respond e i a c)
  unfolding respond
  Keeps-respond i a c = record {
    at = λ w h. (Keeps-send_action_response e P st (client_at e w i).socket_fd _ a c none).at w h;
  }

  pub Keeps-respond_list :
      (i a : ℕ) (l : ListItems) (count : ℕ) → Keeps P (respond_list e i a l count)
  unfolding respond_list
  Keeps-respond_list i a l count = record {
    at = λ w h.
        let fd = (client_at e w i).socket_fd in
        let sent = (Keeps-send_list_response e P st fd packet_server a l count).at w h in
        elim (Bool-cases (send_list_response e fd packet_server a l count w).0) [
          | inl ok ↦ rw ok sent
          | inr bad ↦ rw bad ((Keeps-respond i a resp_err_internal).at _ sent)
        ];
  }

  Keeps-collect_server_list_item :
      (i : ℕ) (s : Text) (n : ℕ) (b : ServerListAccumulator)
      → Keeps P (collect_server_list_item e i s n b)
  unfolding collect_server_list_item
  Keeps-collect_server_list_item i s n b = Keeps-pure _

  Keeps-collect_channel_list_item :
      (i : ℕ) (s : Text) (b : ChannelListAccumulator) → Keeps P (collect_channel_list_item e i s b)
  unfolding collect_channel_list_item
  Keeps-collect_channel_list_item i s b = Keeps-pure _

  Keeps-collect_member_list_item :
      (i : ℕ) (s : Text) (n : ℕ) (b : MemberListAccumulator)
      → Keeps P (collect_member_list_item e i s n b)
  unfolding collect_member_list_item
  Keeps-collect_member_list_item i s n b = record { at = λ w h. h }

  ruleset list_rules = (keeps_rules, Keeps-respond, Keeps-respond_list)

  pub Keeps-list_tizcord_servers : (i : ℕ) → Keeps P (list_tizcord_servers e i)
  unfolding list_tizcord_servers
  Keeps-list_tizcord_servers i =
      search (list_rules, Keeps-db_list_servers e P st, Keeps-collect_server_list_item) depth 12

  pub Keeps-list_tizcord_channels : (i s : ℕ) → Keeps P (list_tizcord_channels e i s)
  unfolding list_tizcord_channels
  Keeps-list_tizcord_channels i s =
      search (list_rules, Keeps-db_list_server_channels e P st, Keeps-collect_channel_list_item)
        depth 12

  pub Keeps-list_joined_servers : (i : ℕ) → Keeps P (list_joined_servers e i)
  unfolding list_joined_servers
  Keeps-list_joined_servers i =
      search (list_rules, Keeps-db_list_joined_servers e P st, Keeps-collect_server_list_item) depth
        12

  pub Keeps-view_server : (i v : ℕ) → Keeps P (view_server e i v)
  unfolding view_server ◌>>=◌
  Keeps-view_server i v = record { at = λ w h. st.views w i v h }

  pub Keeps-list_members : (i s : ℕ) → Keeps P (list_members e i s)
  unfolding list_members
  Keeps-list_members i s =
      search
        (
          list_rules,
          Keeps-view_server,
          Keeps-db_list_server_members e P st,
          Keeps-collect_member_list_item,
        )
        depth 12

  Keeps-notify_member : (s i : ℕ) → Keeps P (notify_member e s i)
  unfolding notify_member
  Keeps-notify_member s i = record {
    at = λ w h.
        let listed = (Keeps-list_members i s).at w h in
        let c = client_at e w i in
        elim (Bool-cases (c.socket_fd == 0 || not c.is_authenticated)) [
          | inl skip ↦ rw skip h
          | inr there ↦ elim (Bool-cases (not (to_int64 c.current_server_index == s))) [
            | inl skip ↦ rw (there, skip) h
            | inr looks ↦ rw (there, looks) listed
          ]
        ];
  }

  pub Keeps-notify_server_member_list : (s : ℕ) → Keeps P (notify_server_member_list e s)
  unfolding notify_server_member_list
  Keeps-notify_server_member_list s = record {
    at = λ w h. elim (Bool-cases (not_positive64 s)) [
      | inl none_such ↦ rw none_such h
      | inr some_server ↦
          rw some_server ((Keeps-for_range (length w.clients) 0 _ (Keeps-notify_member s)).at w h)
    ];
  }

  pub Keeps-notify_server_member_lists_for_user :
      (u : ℕ) → Keeps P (notify_server_member_lists_for_user e u)
  unfolding notify_server_member_lists_for_user refresh_joined_server_cb
  Keeps-notify_server_member_lists_for_user u = record {
    at = λ w h. elim (Bool-cases (not_positive64 u)) [
      | inl nobody ↦ rw nobody h
      | inr somebody ↦ rw somebody (
          (Keeps-db_list_joined_servers e P st u (refresh_joined_server_cb e) tt
              (λ i s n b. Keeps-notify_server_member_list i)).at
            w h)
    ];
  }

  Keeps-leave_view : (i s : ℕ) → Keeps P (leave_view e i s)
  unfolding leave_view
  Keeps-leave_view i s = record {
    at = λ w h. elim (Bool-cases (to_int64 (client_at e w i).current_server_index == s)) [
      | inl looks ↦ rw looks ((Keeps-view_server i _).at w h)
      | inr away ↦ rw away h
    ];
  }

  ruleset request_rules = (list_rules, Keeps-notify_server_member_list, Keeps-leave_view)

  pub Keeps-join_tizcord_server : (i s : ℕ) → Keeps P (join_tizcord_server e i s)
  unfolding join_tizcord_server
  Keeps-join_tizcord_server i s = search (request_rules, Keeps-db_join_server e P st) depth 14

  pub Keeps-leave_tizcord_server : (i s : ℕ) → Keeps P (leave_tizcord_server e i s)
  unfolding leave_tizcord_server
  Keeps-leave_tizcord_server i s = search (request_rules, Keeps-db_leave_server e P st) depth 14

  pub Keeps-create_tizcord_server : (i : ℕ) (n : Text) → Keeps P (create_tizcord_server e i n)
  unfolding create_tizcord_server
  Keeps-create_tizcord_server i n = search (request_rules, Keeps-db_create_server e P st) depth 14

  pub Keeps-delete_tizcord_server : (i s : ℕ) → Keeps P (delete_tizcord_server e i s)
  unfolding delete_tizcord_server
  Keeps-delete_tizcord_server i s =
      search (request_rules, Keeps-db_delete_server e P st, Keeps-db_user_is_server_admin e P st)
        depth 14

  pub Keeps-kick_server_member : (i s t : ℕ) → Keeps P (kick_server_member e i s t)
  unfolding kick_server_member
  Keeps-kick_server_member i s t =
      search
        (request_rules, Keeps-db_kick_server_member e P st, Keeps-db_user_is_server_admin e P st)
        depth 14

  ruleset dispatch_rules = (
    list_rules, Keeps-join_tizcord_server, Keeps-leave_tizcord_server, Keeps-create_tizcord_server,
    Keeps-delete_tizcord_server, Keeps-kick_server_member, Keeps-list_tizcord_servers,
    Keeps-list_tizcord_channels, Keeps-list_members, Keeps-list_joined_servers,
  )

  pub Keeps-handle_server_packet :
      (i : ℕ) (p : ServerPayload) → Keeps P (handle_server_packet e i p)
  unfolding handle_server_packet
  Keeps-handle_server_packet i p = search dispatch_rules depth 20
