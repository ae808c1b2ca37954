-- ===== src/Ui/Loop.antt =====
-- The loop of `start_ui` in client/ui.c, as a function of the events that select(2) reports. The loop
-- never ends; a history is a list of events.
use tizcord.Base.{
  ℕ, List, [], ◌∷◌, true, false, Option, none, some, if◌then◌else◌, find_index, take, ◌==◌,
}
use tizcord.Protocol.{Packet}
use tizcord.Ui.State.{
  Ui, Screen, screen_login, screen_signup, screen_servers, screen_friends, screen_chat,
  screen_command, screen_dms, screen_users,
}
use tizcord.Ui.Login.{Key, handle_auth_input}
use tizcord.Ui.People.{is_dms}
use tizcord.Ui.Bounds.{leaves_arrays, key_leaves_array}
use tizcord.Ui.Network.{process_network_packet}
use tizcord.Ui.Keys.{
  handle_server_input, handle_friends_input, handle_users_input, handle_chat_input,
  handle_dms_input,
}
use tizcord.Ui.Commands.{handle_command_input}

-- A packet that `packet_receive` returned, an end or error of the connection, a key, or the redrawing
-- of the screen, which stands before the first event and follows a packet and a burst of keys.
pub data Event : Type 0 where
  packet_event : Packet → Event
  disconnect_event : Event
  key_event : Key → Event
  redraw_event : Event

-- What `draw_dms` writes: without a chosen friend the first accepted one is chosen.
unfoldable pub draw_dms : Ui → Ui
draw_dms u = elim u.active_dm_friend [
  | some _ ↦ u
  | none ↦ elim (find_index (λ f. f.type == 2) (take u.friend_count u.friends)) [
    | none ↦ u
    | some i ↦ record u { active_dm_friend = some i }
  ]
]

-- The switch that draws the screen; no other function of drawing writes the program's variables.
unfoldable pub redraw : Ui → Ui
redraw u = if is_dms u.current_screen then draw_dms u else u

module _ (clock : ℕ → ℕ) where
  -- The key goes to the screen.
  unfoldable pub handle_key : Screen → Key → Ui → Option Ui
  handle_key screen_login key u = some (handle_auth_input clock key false u)
  handle_key screen_signup key u = some (handle_auth_input clock key true u)
  handle_key screen_servers key u = handle_server_input clock key u
  handle_key screen_friends key u = some (handle_friends_input clock key u)
  handle_key screen_chat key u = handle_chat_input clock key u
  handle_key screen_command key u =
      if key_leaves_array key u then none else some (handle_command_input clock key u)
  handle_key screen_dms key u = handle_dms_input clock key u
  handle_key screen_users key u = some (handle_users_input clock key u)

  -- There is no result where an array is left. Only an open connection is listened to. The condition on the received packet reads `recv_status`,
  -- which is not declared; it is taken to mean the result of `packet_receive`.
  unfoldable pub handle_event : Event → Ui → Option Ui
  handle_event (packet_event packet) u = elim u.connection.client_socket [
    | none ↦ some u
    | some _ ↦
        if leaves_arrays packet packet.payload u
        then none
        else some (process_network_packet clock packet u)
  ]
  handle_event disconnect_event u =
      some (record u { connection = record u.connection { client_socket = none } })
  handle_event redraw_event u = some (redraw u)
  handle_event (key_event key) u = handle_key u.current_screen key u

  unfoldable pub start_ui : List Event → Ui → Option Ui
  start_ui [] u = some u
  start_ui (event ∷ events) u = elim (handle_event event u) [
    | none ↦ none
    | some v ↦ start_ui events v
  ]
