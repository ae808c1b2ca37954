-- ===== src/Ui/Delivery/Users.antt =====
-- The list of all users from `send_user_list` of server/tizcord_social.c to the screen of
-- client/ui.c.
use tizcord.Base.{ℕ, ◌-◌, List, [], ◌∷◌, ◌++◌, length, take}
use tizcord.Protocol.{
  Packet, blank_packet, social, packet_social, no_social, social_list_users, list_frame_middle,
  max_name_len, profile_status_len,
}
use tizcord.Db.Env.{Env}
use tizcord.Db.World.{World, text_or}
use tizcord.Reply.{minus_one}
use tizcord.TizcordServer.Collect.{is_online}
use tizcord.Chat.Channel.{next_index}
use tizcord.Social.Notify.{online_code, online_status}
use tizcord.Ui.State.{Ui, UiUser}

-- What a row of the table tells of a user, with whether one of the clients is logged in as the user.
abbrev pub user_entry : (e : Env) → World e → e.Row → UiUser
user_entry e w row = record {
  id = e.column_int64 row 0;
  username = take (max_name_len - 1) (text_or e row 1 []);
  status = take profile_status_len (text_or e row 2 []);
  is_online = online_code (is_online (e.column_int64 row 0) w.clients);
}

module _ (e : Env) (clock : ℕ → ℕ) where
  middle : ℕ → ℕ → World e → e.Row → Packet
  middle list_id index w row =
      record (blank_packet packet_social (
        social (record {
          action = social_list_users;
          status = online_status (is_online (e.column_int64 row 0) w.clients);
          target_user_id = e.column_int64 row 0;
          target_username = take (max_name_len - 1) (text_or e row 1 []);
          target_status = take profile_status_len (text_or e row 2 []);
          status_code = online_code (is_online (e.column_int64 row 0) w.clients);
        }))) {
          timestamp = e.time (length w.sent);
          list_id = list_id;
          list_index = index;
          list_total = minus_one;
          list_frame = list_frame_middle;
        }

  -- The callback's packets of the rows, from index `index` on.
  row_packets : ℕ → ℕ → List e.Row → ℕ → World e → List (ℕ × Packet)
  row_packets fd list_id [] index w = []
  row_packets fd list_id (row ∷ rows) index w =
      let packet = middle list_id index w row in
      (fd, packet)
      ∷ row_packets fd list_id rows (next_index index)
          (record w { sent = w.sent ++ (fd, packet) ∷ [] })

  frame : ℕ → ℕ → ℕ → ℕ → Packet
  frame list_id total list_frame time =
      record (blank_packet packet_social
        (social (record no_social { action = social_list_users }))) {
          timestamp = time;
          list_id = list_id;
          list_total = total;
          list_frame = list_frame;
        }
