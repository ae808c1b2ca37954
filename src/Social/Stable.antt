-- ===== src/Social/Stable.antt =====
-- What the handlers of server/tizcord_social.c leave as it was: see `Db.Stable`.
use tizcord.Base.{
  ℕ, Bool, Bool-cases, inl, inr, Option, none, some, Keeps, keeps_rules, Keeps-if, Text, ltb,
  Keeps-pure, Keeps-bind, Keeps-gets, Keeps-option, ◌==◌, not, ◌||◌, ◌&&◌, length, Keeps-for_range,
}
use tizcord.Protocol.{SocialPayload, resp_ok}
use tizcord.Db.Env.{Env}
use tizcord.Db.World.{World, client_at}
use tizcord.Db.Friends.{
  accepted, not_found, already_friends, requested, became_friends, request_failed, were_friends,
}
use tizcord.Db.Stable.{
  Stable, Keeps-send, Keeps-create_base_packet, Keeps-db_list_friend_requests,
  Keeps-db_list_all_users, Keeps-db_get_user_id_by_name, Keeps-db_send_friend_request,
  Keeps-db_accept_friend_request, Keeps-db_remove_friendship, Keeps-db_reject_friend_request,
  Keeps-db_update_user_status,
}
use tizcord.Reply.Stable.{Keeps-send_action_response}
use tizcord.Social.Notify.{
  friend_request_cb, user_list_cb, social_frame, send_friend_list, send_user_list, client_is_online,
  send_status_update_packet, notify_status_to, notify_user_status_update, notify_friend_list_update,
  notify_users_to, notify_all_user_lists,
}
use tizcord.Social.Requests.{
  respond_social, request_friend, accept_friend, remove_friend, reject_friend, update_status,
  handle_social_packet,
}

module _ (e : Env) (P : World e → Type 0) (st : Stable e P) where
  ruleset send_rules = (keeps_rules, Keeps-send, Keeps-create_base_packet)

  Keeps-friend_request_cb :
      (fd id t : ℕ) (u : Text) (k i : ℕ) → Keeps P (friend_request_cb e fd id t u k i)
  unfolding friend_request_cb
  Keeps-friend_request_cb fd id t u k i = search send_rules

  Keeps-user_list_cb : (fd id t : ℕ) (u s : Text) (i : ℕ) → Keeps P (user_list_cb e fd id t u s i)
  unfolding user_list_cb
  Keeps-user_list_cb fd id t u s i = search send_rules

  Keeps-social_frame : (fd a id t f : ℕ) → Keeps P (social_frame e fd a id t f)
  unfolding social_frame
  Keeps-social_frame fd a id t f = search send_rules

  pub Keeps-send_friend_list : (fd u : ℕ) → Keeps P (send_friend_list e fd u)
  unfolding send_friend_list
  Keeps-send_friend_list fd u =
      search
        (
          send_rules,
          Keeps-social_frame,
          Keeps-db_list_friend_requests e P st,
          Keeps-friend_request_cb,
        )
        depth 8

  pub Keeps-send_user_list : (fd u : ℕ) → Keeps P (send_user_list e fd u)
  unfolding send_user_list
  Keeps-send_user_list fd u =
      search (send_rules, Keeps-social_frame, Keeps-db_list_all_users e P st, Keeps-user_list_cb)
        depth 8

  Keeps-client_is_online : (u : ℕ) → Keeps P (client_is_online e u)
  unfolding client_is_online
  Keeps-client_is_online u = record { at = λ w h. h }

  Keeps-send_status_update_packet :
      (fd c u : ℕ) (n : Text) (s : Option Text) (b : Bool)
      → Keeps P (send_status_update_packet e fd c u n s b)
  unfolding send_status_update_packet
  Keeps-send_status_update_packet fd c u n s b = search send_rules

  Keeps-notify_status_to :
      (u : ℕ) (n s : Text) (b : Bool) (i : ℕ) → Keeps P (notify_status_to e u n s b i)
  unfolding notify_status_to
  Keeps-notify_status_to u n s b i = record {
    at = λ w h.
        let c = client_at e w i in
        let sent = (Keeps-send_status_update_packet c.socket_fd resp_ok u n (some s) b).at w h in
        elim (Bool-cases (ltb 0 c.socket_fd && c.is_authenticated)) [
          | inl there ↦ rw there sent
          | inr skip ↦ rw skip h
        ];
  }

  Keeps-notify_user_status_update :
      (u : ℕ) (n s : Text) → Keeps P (notify_user_status_update e u n s)
  unfolding notify_user_status_update
  Keeps-notify_user_status_update u n s =
      search (keeps_rules, Keeps-client_is_online, Keeps-notify_status_to)

  pub Keeps-notify_friend_list_update : (u : ℕ) → Keeps P (notify_friend_list_update e u)
  unfolding notify_friend_list_update
  Keeps-notify_friend_list_update u =
      Keeps-bind _ _ (Keeps-gets _)
        λ target. Keeps-option target _ _ (Keeps-pure _) (λ c. Keeps-send_friend_list _ _)

  Keeps-notify_users_to : (i : ℕ) → Keeps P (notify_users_to e i)
  unfolding notify_users_to
  Keeps-notify_users_to i = record {
    at = λ w h.
        let c = client_at e w i in
        let sent = (Keeps-send_user_list c.socket_fd c.id).at w h in
        elim (Bool-cases (c.socket_fd == 0 || not c.is_authenticated)) [
          | inl skip ↦ rw skip h
          | inr there ↦ rw there sent
        ];
  }

  pub Keeps-notify_all_user_lists : Keeps P (notify_all_user_lists e)
  unfolding notify_all_user_lists
  Keeps-notify_all_user_lists = record {
    at = λ w h. (Keeps-for_range (length w.clients) 0 _ Keeps-notify_users_to).at w h;
  }

  Keeps-respond_social : (i a c : ℕ) (m : Text) → Keeps P (respond_social e i a c m)
  unfolding respond_social
  Keeps-respond_social i a c m = record {
    at = λ w h.
        (Keeps-send_action_response e P st (client_at e w i).socket_fd _ a c (some m)).at w h;
  }

  ruleset social_rules = (keeps_rules, Keeps-respond_social, Keeps-notify_friend_list_update)

  Keeps-request_friend : (i : ℕ) (p : SocialPayload) → Keeps P (request_friend e i p)
  unfolding request_friend
  Keeps-request_friend i p = Keeps-bind _ _ (Keeps-gets _) λ me.
      Keeps-bind _ _ (Keeps-db_get_user_id_by_name e P st _) (elim [
        | none ↦ Keeps-respond_social _ _ _ _
        | some f ↦ Keeps-if (f == me) _ _ (Keeps-respond_social _ _ _ _) (
            Keeps-bind _ _ (Keeps-db_send_friend_request e P st _ _) (elim [
              | requested ↦ search social_rules
              | became_friends ↦ search social_rules
              | request_failed ↦ search social_rules
              | were_friends ↦ search social_rules
            ]))
      ])

  Keeps-accept_friend : (i : ℕ) (p : SocialPayload) → Keeps P (accept_friend e i p)
  unfolding accept_friend
  Keeps-accept_friend i p = Keeps-bind _ _ (Keeps-gets _) λ me.
      Keeps-bind _ _ (Keeps-db_get_user_id_by_name e P st _) (elim [
        | none ↦ Keeps-respond_social _ _ _ _
        | some f ↦ Keeps-bind _ _ (Keeps-db_accept_friend_request e P st _ _) (elim [
          | accepted ↦ search social_rules
          | not_found ↦ search social_rules
          | already_friends ↦ search social_rules
        ])
      ])

  Keeps-remove_friend : (i : ℕ) (p : SocialPayload) → Keeps P (remove_friend e i p)
  unfolding remove_friend
  Keeps-remove_friend i p = Keeps-bind _ _ (Keeps-gets _) λ me.
      Keeps-bind _ _ (Keeps-db_get_user_id_by_name e P st _) (elim [
        | none ↦ Keeps-respond_social _ _ _ _
        | some f ↦ search (social_rules, Keeps-db_remove_friendship e P st)
      ])

  Keeps-reject_friend : (i : ℕ) (p : SocialPayload) → Keeps P (reject_friend e i p)
  unfolding reject_friend
  Keeps-reject_friend i p = Keeps-bind _ _ (Keeps-gets _) λ me.
      Keeps-bind _ _ (Keeps-db_get_user_id_by_name e P st _) (elim [
        | none ↦ Keeps-respond_social _ _ _ _
        | some f ↦ search (social_rules, Keeps-db_reject_friend_request e P st)
      ])

  Keeps-update_status : (i : ℕ) (p : SocialPayload) → Keeps P (update_status e i p)
  unfolding update_status
  Keeps-update_status i p =
      search
        (
          keeps_rules,
          Keeps-send_status_update_packet,
          Keeps-notify_user_status_update,
          Keeps-db_update_user_status e P st,
        )
        depth 10

  pub Keeps-handle_social_packet :
      (i : ℕ) (p : SocialPayload) → Keeps P (handle_social_packet e i p)
  unfolding handle_social_packet
  Keeps-handle_social_packet i p =
      search
        (
          keeps_rules,
          Keeps-send_action_response e P st,
          Keeps-request_friend,
          Keeps-accept_friend,
          Keeps-send_friend_list,
          Keeps-remove_friend,
          Keeps-reject_friend,
          Keeps-send_user_list,
          Keeps-update_status,
          Keeps-respond_social,
        )
        depth 14
