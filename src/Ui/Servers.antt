-- ===== src/Ui/Servers.antt =====
-- `ui_update_server_state` of client/ui.c: the answers to requests on servers, and their lists.
use tizcord.Base.{
  ℕ, ◌+◌, ◌-◌, ◌/◌, ◌%◌, [], Text, Bool, true, false, not, ◌&&◌, ◌||◌, Option, none, some,
  if◌then◌else◌, ltb, ◌==◌, take, set, get_or, codes,
}
use tizcord.Protocol.{
  Packet, ServerPayload, server_create, server_leave, server_delete, server_list,
  server_list_joined, server_list_channels, server_list_members, server_kick_member,
  list_frame_single, list_frame_start, list_frame_end, resp_ok, max_name_len,
}
use tizcord.Words.{to_int32, to_int64, not_positive32}
use tizcord.Client.{list_all_servers_request, request_channel_history, request_server_members}
use tizcord.Ui.State.{
  Ui, UiServer, UiMember, Screen, screen_servers, screen_command, server_at, channel_at,
  write_server, sending, clear_input, no_server_entry, ui_max_servers, ui_max_channels, max_users,
}

abbrev pub denied : Text
denied = codes "Permission Denied: You are not an admin of this server."

abbrev pub is_command : Screen → Bool
is_command screen_command = true
is_command _ = false

-- users[current_user].server_id = value, where there is a current user.
abbrev pub write_user_server : Option ℕ → Ui → Ui
write_user_server value u = elim u.current_user [
  | none ↦ u
  | some k ↦ record u {
    users =
        set u.users k
          (record (get_or u.users k (record { username = []; password = []; server_id = none })) {
            server_id = value;
          });
  }
]

-- The command window closes, if it is open.
unfoldable pub close_command : Ui → Ui
close_command u =
    if is_command u.current_screen
    then record u {
      command_status_msg = [];
      cmd_input = clear_input u.cmd_input;
      current_screen = u.previous_screen;
    }
    else record u { command_status_msg = [] }

abbrev pub starts_list : ℕ → Bool
starts_list frame = frame == list_frame_start || frame == list_frame_single

abbrev pub ends_list : ℕ → Bool
ends_list frame = frame == list_frame_end || frame == list_frame_single

-- A server of a list, in an entry that was cleared; `id` is an int.
abbrev pub server_entry_of : ServerPayload → UiServer
server_entry_of p = record no_server_entry {
  id = to_int32 p.server_id;
  member_count = p.member_count;
  name = take (max_name_len - 1) p.server_name;
  description = codes "Public Server";
  icon = codes "[]";
}

unfoldable pub receive_server : Packet → ServerPayload → Ui → Ui
receive_server packet p u =
    let count = if starts_list packet.list_frame then 0 else u.server_count in
    if not (not_positive32 packet.list_total) && ltb count ui_max_servers
    then record u { servers = set u.servers count (server_entry_of p); server_count = count + 1 }
    else record u { server_count = count }

unfoldable pub receive_channel : Packet → ServerPayload → UiServer → UiServer
receive_channel packet p s =
    let count = if starts_list packet.list_frame then 0 else s.channel_count in
    if not (not_positive32 packet.list_total) && ltb count ui_max_channels
    then record s {
      channels = set s.channels count (record {
        name = take (max_name_len - 1) p.server_name;
        messages = [];
        id = p.server_id;
      });
      channel_count = count + 1;
    }
    else record s { channel_count = count }

-- The bits MEMBER_FLAG_ADMIN and MEMBER_FLAG_ONLINE.
abbrev pub member_entry_of : ServerPayload → UiMember
member_entry_of p = record {
  name = take (max_name_len - 1) p.server_name;
  is_admin = p.member_count % 2 == 1;
  is_online = p.member_count / 2 % 2 == 1;
  id = p.server_id;
}

-- Where the count is negative as an int the code writes before the array, and the loop of `start_ui` has
-- no result, see `before_members`.
unfoldable pub receive_member : Packet → ServerPayload → UiServer → UiServer
receive_member packet p s =
    let count = if starts_list packet.list_frame then 0 else s.member_count in
    if not (not_positive32 packet.list_total) && ltb count max_users
    then record s { members = set s.members count (member_entry_of p); member_count = count + 1 }
    else record s { member_count = count }

-- What a change of the server on the screen does, where there is one.
abbrev pub on_active_server : (UiServer → UiServer) → Ui → Ui
on_active_server f u = elim u.active_server [
  | none ↦ u
  | some i ↦ if ltb i u.server_count then write_server i (f (server_at u i)) u else u
]

module _ (clock : ℕ → ℕ) where
  unfoldable pub after_leave : Ui → Ui
  after_leave u = sending (list_all_servers_request clock) (
      write_user_server none (record u {
        command_status_msg = [];
        active_server = none;
        active_channel = 0;
        current_screen = screen_servers;
      }))

  -- Where the server on the screen is the one that was deleted, it is left.
  unfoldable pub leave_deleted : ℕ → Ui → Ui
  leave_deleted server_id u = elim u.active_server [
    | none ↦ u
    | some i ↦
        if to_int64 (server_at u i).id == server_id
        then write_user_server none
            (record u { active_server = none; current_screen = screen_servers })
        else u
  ]

  unfoldable pub after_delete : ServerPayload → Ui → Ui
  after_delete p u =
      if p.status_code == resp_ok
      then leave_deleted p.server_id (sending (list_all_servers_request clock) (close_command u))
      else record u { command_status_msg = denied }

  -- The history of the channel on the screen is requested when the list of channels is complete.
  unfoldable pub after_channels : Packet → Ui → Ui
  after_channels packet u = elim u.active_server [
    | none ↦ u
    | some i ↦
        let s = server_at u i in
        if ltb i u.server_count
          && ends_list packet.list_frame
          && ltb 0 s.channel_count
          && ltb u.active_channel s.channel_count
        then sending (request_channel_history clock (channel_at s u.active_channel).id) u
        else u
  ]

  unfoldable pub after_kick : ServerPayload → Ui → Ui
  after_kick p u =
      if p.status_code == resp_ok
      then (let closed = close_command u in
          elim closed.active_server [
            | none ↦ closed
            | some i ↦
                sending (request_server_members clock (to_int64 (server_at closed i).id)) closed
          ])
      else record u { command_status_msg = denied }

  unfoldable pub ui_update_server_state : Packet → ServerPayload → Ui → Ui
  ui_update_server_state packet p u =
      if p.action == server_create
      then (if p.status_code == resp_ok then sending (list_all_servers_request clock) u else u)
      else if p.action == server_leave
      then (if p.status_code == resp_ok then after_leave u else u)
      else if p.action == server_delete
      then after_delete p u
      else if p.action == server_list_joined || p.action == server_list
      then receive_server packet p u
      else if p.action == server_list_channels
      then after_channels packet (on_active_server (receive_channel packet p) u)
      else if p.action == server_list_members
      then on_active_server (receive_member packet p) u
      else if p.action == server_kick_member
      then after_kick p u
      else u
