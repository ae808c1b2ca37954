-- ===== src/Chat/Stable.antt =====
-- What the handlers of server/tizcord_chat.c leave as it was: see `Db.Stable`.
use tizcord.Base.{
  ℕ, Bool-cases, inl, inr, Option, none, some, Keeps, keeps_rules, Keeps-if, Text, Keeps-pure,
  Keeps-bind, Keeps-then, Keeps-gets, Keeps-option, length, Keeps-for_range,
}
use tizcord.Protocol.{Packet, ChannelPayload, DmPayload}
use tizcord.Db.Env.{Env}
use tizcord.Db.World.{World, ClientNode, client_at}
use tizcord.Db.Stable.{
  Stable, Keeps-send, Keeps-create_base_packet, Keeps-db_list_channel_messages,
  Keeps-db_save_message, Keeps-db_user_is_server_admin, Keeps-db_create_channel,
  Keeps-db_delete_channel, Keeps-db_get_channel_server_id, Keeps-db_save_direct_message,
  Keeps-db_list_direct_messages,
}
use tizcord.TizcordServer.Requests.{is_admin_flag}
use tizcord.Chat.Channel.{
  gets_message, broadcast_to, channel_broadcast, message_history_cb, history_frame,
  send_channel_history, post_channel_message, create_channel, delete_channel_status, delete_channel,
  handle_channel_message,
}
use tizcord.Chat.Direct.{
  direct_message_history_cb, direct_history_frame, send_direct_history, save_direct, forward_direct,
  handle_private_message,
}

module _ (e : Env) (P : World e → Type 0) (st : Stable e P) where
  ruleset send_rules = (keeps_rules, Keeps-send, Keeps-create_base_packet)

  Keeps-broadcast_to : (p : Packet) (s : Option ℕ) (i : ℕ) → Keeps P (broadcast_to e p s i)
  unfolding broadcast_to
  Keeps-broadcast_to p s i = record {
    at = λ w h.
        let fd = (client_at e w i).socket_fd in
        let sent = (Keeps-send e P st fd p).at w h in
        elim (Bool-cases (gets_message s (client_at e w i).socket_fd)) [
          | inl there ↦ rw there sent
          | inr skip ↦ rw skip h
        ];
  }

  Keeps-channel_broadcast :
      (c : ℕ) (p : Packet) (s : Option ℕ) → Keeps P (channel_broadcast e c p s)
  unfolding channel_broadcast
  Keeps-channel_broadcast c p s = record {
    at = λ w h. (Keeps-for_range (length w.clients) 0 _ (Keeps-broadcast_to p s)).at w h;
  }

  Keeps-message_history_cb :
      (fd id c m : ℕ) (u t : Text) (ts i : ℕ) → Keeps P (message_history_cb e fd id c m u t ts i)
  unfolding message_history_cb
  Keeps-message_history_cb fd id c m u t ts i = search send_rules

  Keeps-history_frame : (fd id f : ℕ) → Keeps P (history_frame e fd id f)
  unfolding history_frame
  Keeps-history_frame fd id f = search send_rules

  Keeps-send_channel_history : (fd : ℕ) (p : ChannelPayload) → Keeps P (send_channel_history e fd p)
  unfolding send_channel_history
  Keeps-send_channel_history fd p =
      search
        (
          send_rules,
          Keeps-history_frame,
          Keeps-db_list_channel_messages e P st,
          Keeps-message_history_cb,
        )
        depth 8

  Keeps-post_channel_message :
      (k : Packet) (p : ChannelPayload) (fd : ℕ) → Keeps P (post_channel_message e k p fd)
  unfolding post_channel_message
  Keeps-post_channel_message k p fd = Keeps-bind _ _ (Keeps-gets _) λ sender.
      Keeps-then _ _ (Keeps-channel_broadcast _ _ _) (
        Keeps-option sender _ _ (Keeps-pure _)
          λ s. Keeps-then _ _ (Keeps-db_save_message e P st _ _ _) (Keeps-pure _))

  Keeps-create_channel : (p : ChannelPayload) (fd : ℕ) → Keeps P (create_channel e p fd)
  unfolding create_channel
  Keeps-create_channel p fd = Keeps-bind _ _ (Keeps-gets _) λ sender.
      Keeps-bind _ _ (Keeps-create_base_packet e P st _ _) λ packet.
        Keeps-bind _ _
          (Keeps-option sender _ _ (Keeps-pure _) (λ s. Keeps-db_user_is_server_admin e P st _ _))
          λ flag.
            Keeps-bind _ _
              (Keeps-if (is_admin_flag flag) _ _
                (Keeps-bind _ _ (Keeps-db_create_channel e P st _ _) (λ id. Keeps-pure _))
                (Keeps-pure _))
              λ answer. Keeps-then _ _ (Keeps-send e P st _ _) (Keeps-pure _)

  Keeps-delete_channel_status : (c u : ℕ) → Keeps P (delete_channel_status e c u)
  unfolding delete_channel_status
  Keeps-delete_channel_status c u =
      Keeps-bind _ _ (Keeps-db_get_channel_server_id e P st c) λ found.
        Keeps-option found _ _ (Keeps-pure _) λ s.
          Keeps-bind _ _ (Keeps-db_user_is_server_admin e P st _ _) λ flag.
            Keeps-if (is_admin_flag flag) _ _
              (Keeps-bind _ _ (Keeps-db_delete_channel e P st c) (λ done. Keeps-pure _))
              (Keeps-pure _)

  Keeps-delete_channel : (p : ChannelPayload) (fd : ℕ) → Keeps P (delete_channel e p fd)
  unfolding delete_channel
  Keeps-delete_channel p fd = Keeps-bind _ _ (Keeps-gets _) λ sender.
      Keeps-bind _ _ (Keeps-create_base_packet e P st _ _) λ packet.
        Keeps-bind _ _
          (Keeps-option sender _ _ (Keeps-pure _) (λ s. Keeps-delete_channel_status _ _))
          λ status. Keeps-then _ _ (Keeps-send e P st _ _) (Keeps-pure _)

  pub Keeps-handle_channel_message :
      (k : Packet) (p : ChannelPayload) (fd : ℕ) → Keeps P (handle_channel_message e k p fd)
  unfolding handle_channel_message
  Keeps-handle_channel_message k p fd =
      search
        (
          keeps_rules, Keeps-post_channel_message, Keeps-create_channel, Keeps-delete_channel,
          Keeps-send_channel_history,
        )
        depth 8

  Keeps-direct_message_history_cb :
      (fd id : ℕ) (me : ClientNode e.abi.Byte) (f m : ℕ) (s r t : Text) (ts i : ℕ)
      → Keeps P (direct_message_history_cb e fd id me f m s r t ts i)
  unfolding direct_message_history_cb
  Keeps-direct_message_history_cb fd id me f m s r t ts i = search send_rules

  Keeps-direct_history_frame : (fd id f k : ℕ) → Keeps P (direct_history_frame e fd id f k)
  unfolding direct_history_frame
  Keeps-direct_history_frame fd id f k = search send_rules

  Keeps-send_direct_history :
      (fd : ℕ) (me : ClientNode e.abi.Byte) (p : DmPayload)
      → Keeps P (send_direct_history e fd me p)
  unfolding send_direct_history
  Keeps-send_direct_history fd me p =
      search
        (
          send_rules,
          Keeps-direct_history_frame,
          Keeps-db_list_direct_messages e P st,
          Keeps-direct_message_history_cb,
        )
        depth 8

  Keeps-save_direct :
      (s : Option (ClientNode e.abi.Byte)) (p : DmPayload) → Keeps P (save_direct e s p)
  unfolding save_direct
  Keeps-save_direct none p = Keeps-pure _
  Keeps-save_direct (some s) p =
      Keeps-then _ _ (Keeps-db_save_direct_message e P st _ _ _) (Keeps-pure _)

  Keeps-forward_direct : (k : Packet) (p : DmPayload) → Keeps P (forward_direct e k p)
  unfolding forward_direct
  Keeps-forward_direct k p = Keeps-bind _ _ (Keeps-gets _) λ target.
      Keeps-option target _ _ (Keeps-pure _)
        λ c. Keeps-then _ _ (Keeps-send e P st _ _) (Keeps-pure _)

  pub Keeps-handle_private_message :
      (k : Packet) (p : DmPayload) (fd : ℕ) → Keeps P (handle_private_message e k p fd)
  unfolding handle_private_message
  Keeps-handle_private_message k p fd = Keeps-bind _ _ (Keeps-gets _) λ sender.
      Keeps-if _ _ _ (Keeps-then _ _ (Keeps-save_direct sender p) (Keeps-forward_direct _ p)) (
        Keeps-if _ _ _
          (Keeps-option sender _ _ (Keeps-pure _) (λ me. Keeps-send_direct_history fd me p))
          (Keeps-pure _))
