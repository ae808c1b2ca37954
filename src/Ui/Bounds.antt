-- ===== src/Ui/Bounds.antt =====
-- Where client/ui.c writes or reads outside its arrays: what the program does then is not determined,
-- and the loop of `start_ui` has no result.
use tizcord.Base.{
  ◌^◌, Text, Bool, false, not, ◌&&◌, ◌||◌, none, some, ltb, leb, ◌==◌, length, take, find_index,
  text_eq, codes,
}
use tizcord.Protocol.{
  Packet, Payload, AuthPayload, system, auth, dm, server, channel, social, auth_login,
  auth_register, resp_ok, server_list_members,
}
use tizcord.Words.{not_positive32}
use tizcord.Ui.State.{Ui, UiServer, text_of, server_at, max_users}
use tizcord.Ui.Login.{Key, key_enter}
use tizcord.Ui.Servers.{starts_list}
use tizcord.Ui.Commands.{is_chat, starts_with, name_argument, listed_server}

-- users[user_count++], where the array is full.
abbrev pub users_full : AuthPayload → Ui → Bool
users_full p u =
    (p.action == auth_register || p.action == auth_login)
    && p.status_code == resp_ok
    && leb max_users (length u.users)

-- member_names[m_idx], where the count that a list of servers gave is negative.
abbrev pub before_members : Packet → UiServer → Bool
before_members packet s =
    not (starts_list packet.list_frame)
    && leb (2 ^ 31) s.member_count
    && not (not_positive32 packet.list_total)

-- What the action meets on the server on the screen.
abbrev pub on_screen : (UiServer → Bool) → Ui → Bool
on_screen test u = elim (listed_server u) [ none ↦ false | some i ↦ test (server_at u i) ]

-- The packet makes the program write outside an array.
unfoldable pub leaves_arrays : Packet → Payload → Ui → Bool
leaves_arrays packet (auth p) u = users_full p u
leaves_arrays packet (server p) u =
    p.action == server_list_members && on_screen (before_members packet) u
leaves_arrays packet (system p) u = false
leaves_arrays packet (dm p) u = false
leaves_arrays packet (channel p) u = false
leaves_arrays packet (social p) u = false

-- The search for the name goes past the array, where the count is larger than MAX_USERS.
abbrev pub past_members : Text → UiServer → Bool
past_members name s = elim (find_index (λ m. text_eq m.name name) (take max_users s.members)) [
  | none ↦ ltb max_users s.member_count && ltb s.member_count (2 ^ 31)
  | some i ↦ false
]

-- The command removes a member, and the search for the name reads past the array.
unfoldable pub kick_leaves_array : Text → Ui → Bool
kick_leaves_array command u =
    let name = name_argument 6 command in
    starts_with (codes "/kick ") command
    && is_chat u.previous_screen
    && not (length name == 0)
    && on_screen (past_members name) u

-- The key makes the program read outside an array.
unfoldable pub key_leaves_array : Key → Ui → Bool
key_leaves_array key_enter u = kick_leaves_array (text_of u.cmd_input.bytes) u
key_leaves_array _ u = false
