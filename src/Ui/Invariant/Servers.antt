-- ===== src/Ui/Invariant/Servers.antt =====
-- The invariant of the client's screens under answers to requests on servers and channels.
use tizcord.Base.{
  ℕ, ◌-◌, ◌≤◌, ◌<◌, ◌≡◌, refl, sym, ◌∙◌, subst, [], Bool, true, false, not, ◌&&◌, ◌||◌, Option,
  none, if◌then◌else◌, length, arith, All-set, set, get_or, length-set, ltb, ◌==◌, take,
}
use tizcord.Protocol.{
  Packet, ChannelPayload, ServerPayload, resp_ok, max_name_len, channel_message, channel_create,
  channel_delete, server_create, server_leave, server_delete, server_list, server_list_joined,
  server_list_channels, server_list_members, server_kick_member,
}
use tizcord.Words.{not_positive32, to_int64}
use tizcord.Client.{list_all_servers_request}
use tizcord.Ui.State.{
  Ui, UiServer, UiChannel, screen_servers, server_at, sending, ui_max_servers, ui_max_channels,
  max_users,
}
use tizcord.Ui.Messages.{ui_receive_channel_message}
use tizcord.Ui.Servers.{
  denied, is_command, write_user_server, close_command, starts_list, server_entry_of,
  receive_server, receive_channel, member_entry_of, receive_member, on_active_server, after_leave,
  leave_deleted, after_delete, after_channels, after_kick, ui_update_server_state,
}
use tizcord.Ui.Network.{refresh_channels, first_channel, receive_channel_packet}
use tizcord.Ui.Invariant.{
  OptAll, OptAll-some, ChannelOk, ServerOk, IsValid, choose, choose_on, on_option,
  server_at-ServerOk, write_server-IsValid, clear_input-InputOk, no_server_entry-ServerOk,
}
use tizcord.Ui.Invariant.{pick}
use tizcord.Ui.Invariant.Session.{channel_message-IsValid}

-- Closing the command window goes back to the screen that it was opened over.
pub close_command-IsValid : (u : Ui) → IsValid u → IsValid (close_command u)
unfolding close_command
close_command-IsValid u h =
    choose_on (is_command u.current_screen) _ _
      (λ command. (
        h.0,
        h.1,
        h.2,
        (h.3.0, h.3.1, clear_input-InputOk u.cmd_input h.3.2),
        (h.4.0, h.4.1, h.4.3 command, λ again chat. h.4.3 command chat),
      ))
      (λ _. h)

-- A change of the list of users' entries that keeps their number.
pub write_user_server-IsValid :
    (v : Option ℕ) (u : Ui) → IsValid u → IsValid (write_user_server v u)
write_user_server-IsValid v u h = on_option u.current_user u _ h (λ k at.
    let users' =
      set u.users k
        (record (get_or u.users k (record { username = []; password = []; server_id = none })) {
          server_id = v;
        }) in
    (
      h.0,
      h.1,
      h.2,
      h.3,
      (
        (
          omega (
            arith,
            h.4.0.0,
            length-set u.users k
                (record (get_or u.users k
                  (record { username = []; password = []; server_id = none })) { server_id = v }),
          ),
          subst (λ o. OptAll (λ j. j < length users') o) (sym at)
              (omega (
                arith,
                OptAll-some (λ j. j < length u.users) u.current_user k h.4.0.1 at,
                length-set u.users k
                    (record (get_or u.users k
                      (record { username = []; password = []; server_id = none })) {
                        server_id = v;
                      }),
              )),
        ),
        h.4.1,
        h.4.2,
        h.4.3,
      ),
    ))

-- The screen of servers asks nothing of the session.
pub to_servers : (u : Ui) → IsValid u → IsValid (record u { current_screen = screen_servers })
to_servers u h = (h.0, h.1, h.2, h.3, (h.4.0, h.4.1, (λ a. absurd cc), (λ a b. absurd cc)))

receive_server-IsValid :
    (packet : Packet) (p : ServerPayload) (u : Ui) → IsValid u → IsValid (receive_server packet p u)
unfolding receive_server
receive_server-IsValid packet p u h =
    let count = if starts_list packet.list_frame then 0 else u.server_count in
    let small : count ≤ ui_max_servers = ground (arith, h.0.2) in
    choose_on (not (not_positive32 packet.list_total) && ltb count ui_max_servers) _ _
      (λ room. (
        (
          length-set u.servers count (server_entry_of p) ∙ h.0.0,
          All-set ServerOk u.servers count (server_entry_of p) h.0.1 no_server_entry-ServerOk,
          ground arith,
          h.0.3,
          h.0.4,
          h.0.5,
        ),
        h.1,
        h.2,
        h.3,
        h.4,
      ))
      (λ _. ((h.0.0, h.0.1, small, h.0.3, h.0.4, h.0.5), h.1, h.2, h.3, h.4))

choose_server :
    (b : Bool) (x y : UiServer)
    → (b ≡ true → ServerOk x)
    → ServerOk y
    → ServerOk (if b then x else y)
choose_server true x y h k = h refl
choose_server false x y h k = k

receive_channel-ServerOk :
    (packet : Packet) (p : ServerPayload) (s : UiServer)
    → ServerOk s
    → ServerOk (receive_channel packet p s)
unfolding receive_channel
receive_channel-ServerOk packet p s h =
    let count = if starts_list packet.list_frame then 0 else s.channel_count in
    let small : count ≤ ui_max_channels = ground (arith, h.2) in
    let c : UiChannel = record {
      name = take (max_name_len - 1) p.server_name;
      messages = [];
      id = p.server_id;
    } in
    choose_server (not (not_positive32 packet.list_total) && ltb count ui_max_channels) _ _
      (λ room. (
        h.0,
        length-set s.channels count c ∙ h.1,
        ground arith,
        All-set ChannelOk s.channels count c h.3 (omega arith),
      ))
      (h.0, h.1, small, h.3)

receive_member-ServerOk :
    (packet : Packet) (p : ServerPayload) (s : UiServer)
    → ServerOk s
    → ServerOk (receive_member packet p s)
unfolding receive_member
receive_member-ServerOk packet p s h =
    let count = if starts_list packet.list_frame then 0 else s.member_count in
    choose_server (not (not_positive32 packet.list_total) && ltb count max_users) _ _
      (λ room. (length-set s.members count (member_entry_of p) ∙ h.0, h.1, h.2, h.3))
      (h.0, h.1, h.2, h.3)

on_active_server-IsValid :
    (f : UiServer → UiServer) (u : Ui)
    → ((s : UiServer) → ServerOk s → ServerOk (f s))
    → IsValid u
    → IsValid (on_active_server f u)
on_active_server-IsValid f u keep h = on_option u.active_server u _ h (λ i _.
    choose (ltb i u.server_count) _ _
      (write_server-IsValid i (f (server_at u i)) u
        (keep (server_at u i) (server_at-ServerOk u i h)) h)
      h)

-- No server is on the screen any more, which is the screen of servers.
pub away-IsValid :
    (u : Ui)
    → IsValid u
    → IsValid (record u { active_server = none; current_screen = screen_servers })
away-IsValid u h = (
  (h.0.0, h.0.1, h.0.2, h.0.3, tt, h.0.5),
  h.1,
  h.2,
  h.3,
  (h.4.0, (λ a. absurd cc), (λ a. absurd cc), (λ a b. absurd cc)),
)

first_channel_shown : (u : Ui) → IsValid u → IsValid (record u { active_channel = 0 })
first_channel_shown u h = ((h.0.0, h.0.1, h.0.2, h.0.3, h.0.4, omega arith), h.1, h.2, h.3, h.4)

module _ (clock : ℕ → ℕ) where
  after_leave-IsValid : (u : Ui) → IsValid u → IsValid (after_leave clock u)
  unfolding after_leave
  after_leave-IsValid u h =
      write_user_server-IsValid none
        (record u {
          command_status_msg = [];
          active_server = none;
          active_channel = 0;
          current_screen = screen_servers;
        })
        (first_channel_shown (record u { active_server = none; current_screen = screen_servers })
          (away-IsValid u h))

  leave_deleted-IsValid : (id : ℕ) (u : Ui) → IsValid u → IsValid (leave_deleted clock id u)
  unfolding leave_deleted
  leave_deleted-IsValid id u h = on_option u.active_server u _ h (λ i _.
      choose (to_int64 (server_at u i).id == id) _ _
        (write_user_server-IsValid none
          (record u { active_server = none; current_screen = screen_servers }) (away-IsValid u h))
        h)

  after_delete-IsValid : (p : ServerPayload) (u : Ui) → IsValid u → IsValid (after_delete clock p u)
  unfolding after_delete
  after_delete-IsValid p u h =
      choose (p.status_code == resp_ok) _ _
        (leave_deleted-IsValid p.server_id
          (sending (list_all_servers_request clock) (close_command u)) (close_command-IsValid u h))
        h

  after_channels-IsValid :
      (packet : Packet) (u : Ui) → IsValid u → IsValid (after_channels clock packet u)
  unfolding after_channels
  after_channels-IsValid packet u h = on_option u.active_server u _ h (λ i _. choose _ _ _ h h)

  after_kick-IsValid : (p : ServerPayload) (u : Ui) → IsValid u → IsValid (after_kick clock p u)
  unfolding after_kick
  after_kick-IsValid p u h =
      let closed = close_command-IsValid u h in
      choose (p.status_code == resp_ok) _ _
        (on_option (close_command u).active_server (close_command u) _ closed (λ i _. closed)) h

  -- What holds after every case holds after the function.
  by_action :
      (P : Ui → Type 0) (packet : Packet) (p : ServerPayload) (u : Ui)
      → P u
      → P (sending (list_all_servers_request clock) u)
      → P (after_leave clock u)
      → P (after_delete clock p u)
      → P (receive_server packet p u)
      → P (after_channels clock packet (on_active_server (receive_channel packet p) u))
      → P (on_active_server (receive_member packet p) u)
      → P (after_kick clock p u)
      → P (ui_update_server_state clock packet p u)
  unfolding ui_update_server_state
  by_action P packet p u same create leave delete servers channels members kick =
      pick P (p.action == server_create) (pick P (p.status_code == resp_ok) create same) (
        pick P (p.action == server_leave) (pick P (p.status_code == resp_ok) leave same) (
          pick P (p.action == server_delete) delete (
            pick P (p.action == server_list_joined || p.action == server_list) servers (
              pick P (p.action == server_list_channels) channels (
                pick P (p.action == server_list_members) members
                  (pick P (p.action == server_kick_member) kick same))))))

  pub server-IsValid :
      (packet : Packet) (p : ServerPayload) (u : Ui)
      → IsValid u
      → IsValid (ui_update_server_state clock packet p u)
  server-IsValid packet p u h =
      by_action IsValid packet p u h h (after_leave-IsValid u h) (after_delete-IsValid p u h)
        (receive_server-IsValid packet p u h)
        (after_channels-IsValid packet (on_active_server (receive_channel packet p) u) (
          on_active_server-IsValid (receive_channel packet p) u (receive_channel-ServerOk packet p)
            h))
        (on_active_server-IsValid (receive_member packet p) u (receive_member-ServerOk packet p) h)
        (after_kick-IsValid p u h)

  refresh-IsValid : (u : Ui) → IsValid u → IsValid (refresh_channels clock u)
  unfolding refresh_channels
  refresh-IsValid u h = on_option u.active_server u _ h (λ i _. h)

  first_channel-IsValid : (u : Ui) → IsValid u → IsValid (first_channel clock u)
  first_channel-IsValid u h = on_option u.active_server u _ h (λ i _. first_channel_shown u h)

  by_channel_action :
      (P : Ui → Type 0) (packet : Packet) (p : ChannelPayload) (u : Ui)
      → P u
      → P (ui_receive_channel_message packet p u)
      → P (refresh_channels clock (close_command u))
      → P (refresh_channels clock (first_channel clock (close_command u)))
      → P (record u { command_status_msg = denied })
      → P (receive_channel_packet clock packet p u)
  unfolding receive_channel_packet
  by_channel_action P packet p u same message create delete refused =
      pick P (p.action == channel_message) message (
        pick P (p.action == channel_create) (pick P (p.status_code == resp_ok) create refused) (
          pick P (p.action == channel_delete) (pick P (p.status_code == resp_ok) delete refused)
            same))

  pub channel-IsValid :
      (packet : Packet) (p : ChannelPayload) (u : Ui)
      → IsValid u
      → IsValid (receive_channel_packet clock packet p u)
  channel-IsValid packet p u h =
      let closed = close_command-IsValid u h in
      by_channel_action IsValid packet p u h (channel_message-IsValid packet p u h)
        (refresh-IsValid (close_command u) closed)
        (refresh-IsValid (first_channel clock (close_command u))
          (first_channel-IsValid (close_command u) closed))
        h
