-- ===== src/Ui/Invariant/Session.antt =====
-- The invariant of the client's screens under answers to logins and under messages.
use tizcord.Base.{
  ℕ, ◌+◌, ◌-◌, ◌<◌, ◌≡◌, true, false, refl, ◌∙◌, [], ◌∷◌, ◌++◌, ◌&&◌, ◌||◌, none, length, arith,
  All-set, length-set, length-append, ltb, ◌==◌, take,
}
use tizcord.Protocol.{
  Packet, AuthPayload, ChannelPayload, DmPayload, auth_login, auth_register, auth_logout, resp_ok,
  max_name_len,
}
use tizcord.Words.{to_int64}
use tizcord.Ui.State.{
  Ui, server_at, channel_at, friend_at, no_channel_entry, max_pass_len, max_users,
}
use tizcord.Ui.Login.{accept_login, sign_out, ui_handle_auth_response}
use tizcord.Ui.Bounds.{users_full}
use tizcord.Ui.Messages.{
  take_message, channel_message_of, write_channel, ui_receive_channel_message, find_friend,
  direct_message_of, ui_receive_dm_message,
}
use tizcord.Ui.Invariant.{
  ChannelOk, IsValid, choose, choose_on, on_option, All-get_or, server_at-ServerOk,
  write_server-IsValid, write_friend-IsValid, friend_at-FriendOk, take_message-bounds,
  clear_input-InputOk,
}

pub accept_login-IsValid :
    (clock : ℕ → ℕ) (u : Ui)
    → length u.users < max_users
    → IsValid u
    → IsValid (accept_login clock u)
unfolding accept_login
accept_login-IsValid clock u room h = (
  h.0,
  h.1,
  h.2,
  h.3,
  (
    (omega (arith, grows, room), omega (arith, grows)),
    (λ a. refl),
    (λ a. absurd cc),
    (λ a b. absurd cc),
  ),
)
  where
    grows :
        length (
          u.users
          ++ record {
            username = take (max_name_len - 1) u.auth.username;
            password = take (max_pass_len - 1) u.auth.password;
            server_id = none;
          }
            ∷ [])
        ≡ length u.users + 1
    grows = omega (
      arith,
      length-append u.users (
          record {
            username = take (max_name_len - 1) u.auth.username;
            password = take (max_pass_len - 1) u.auth.password;
            server_id = none;
          }
          ∷ []),
    )

pub sign_out-IsValid : (clock : ℕ → ℕ) (c : ℕ) (u : Ui) → IsValid u → IsValid (sign_out clock c u)
unfolding sign_out
sign_out-IsValid clock c u h = (
  (h.0.0, h.0.1, omega arith, omega arith, tt, omega arith),
  (h.1.0, h.1.1, omega arith, omega arith, tt),
  (h.2.0, omega arith, omega arith),
  (
    clear_input-InputOk u.chat_input h.3.0,
    clear_input-InputOk u.dm_input h.3.1,
    clear_input-InputOk u.cmd_input h.3.2,
  ),
  ((h.4.0.0, tt), (λ a. absurd cc), (λ a. absurd cc), (λ a b. absurd cc)),
)

pub auth-IsValid :
    (clock : ℕ → ℕ) (p : AuthPayload) (u : Ui)
    → users_full p u ≡ false
    → IsValid u
    → IsValid (ui_handle_auth_response clock p u)
unfolding ui_handle_auth_response
auth-IsValid clock p u free h =
    choose_on (p.action == auth_register || p.action == auth_login) _ _
      (λ answer.
        choose_on (p.status_code == resp_ok) _ _
          (λ good. accept_login-IsValid clock u (room answer good free) h) (λ bad. h))
      (λ other. choose (p.action == auth_logout) _ _ (sign_out-IsValid clock p.status_code u h) h)
  where
    room :
        (p.action == auth_register || p.action == auth_login) ≡ true
        → (p.status_code == resp_ok) ≡ true
        → users_full p u ≡ false
        → length u.users < max_users
    room answer good free = ground (arith, answer, good, free)

pub channel_message-IsValid :
    (packet : Packet) (p : ChannelPayload) (u : Ui)
    → IsValid u
    → IsValid (ui_receive_channel_message packet p u)
unfolding ui_receive_channel_message
channel_message-IsValid packet p u h = on_option u.active_server u _ h (λ i _.
    choose (ltb i u.server_count && ltb u.active_channel (server_at u i).channel_count) _ _
      (let s = server_at u i in
        let ok = server_at-ServerOk u i h in
        let c = channel_at s u.active_channel in
        let m = channel_message_of packet p in
        let bound : ChannelOk c =
          All-get_or ChannelOk s.channels u.active_channel no_channel_entry ok.3 (omega arith) in
        let c' = record c { messages = take_message packet.list_frame m c.messages } in
        write_server-IsValid i (write_channel u.active_channel c' s) u
          (
            ok.0,
            length-set s.channels u.active_channel c' ∙ ok.1,
            ok.2,
            All-set ChannelOk s.channels u.active_channel c' ok.3
                (take_message-bounds packet.list_frame m c.messages bound),
          )
          h)
      h)

pub dm_message-IsValid :
    (packet : Packet) (p : DmPayload) (u : Ui)
    → IsValid u
    → IsValid (ui_receive_dm_message packet p u)
unfolding ui_receive_dm_message
dm_message-IsValid packet p u h =
    on_option
      (find_friend packet.sender_id (to_int64 p.recipient_id) (take u.friend_count u.friends)) u _ h
      (λ i _.
        let f = friend_at u i in
        let m = direct_message_of packet p f u in
        write_friend-IsValid i (record f { messages = take_message packet.list_frame m f.messages })
          u (take_message-bounds packet.list_frame m f.messages (friend_at-FriendOk u i h)) h)
