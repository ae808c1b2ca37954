-- ===== src/Ui/Network.antt =====
-- `process_network_packet` of client/ui.c.
use tizcord.Base.{ℕ, none, some, if◌then◌else◌, ◌==◌}
use tizcord.Protocol.{
  Packet, Payload, ChannelPayload, system, auth, dm, server, channel, social, channel_message,
  channel_create, channel_delete, dm_message, resp_ok,
}
use tizcord.Words.{to_int64}
use tizcord.Client.{request_server_channels}
use tizcord.Ui.State.{Ui, server_at, sending}
use tizcord.Ui.Login.{ui_handle_auth_response}
use tizcord.Ui.Messages.{ui_receive_channel_message, ui_receive_dm_message}
use tizcord.Ui.Servers.{ui_update_server_state, close_command, denied}
use tizcord.Ui.People.{receive_social}

module _ (clock : ℕ → ℕ) where
  -- The channels of the server on the screen are requested again.
  unfoldable pub refresh_channels : Ui → Ui
  refresh_channels u = elim u.active_server [
    | none ↦ u
    | some i ↦ sending (request_server_channels clock (to_int64 (server_at u i).id)) u
  ]

  -- The first channel is put on the screen, where there is a server.
  abbrev pub first_channel : Ui → Ui
  first_channel u = elim u.active_server [ none ↦ u | some i ↦ record u { active_channel = 0 } ]

  unfoldable pub receive_channel_packet : Packet → ChannelPayload → Ui → Ui
  receive_channel_packet packet p u =
      if p.action == channel_message
      then ui_receive_channel_message packet p u
      else if p.action == channel_create
      then (if p.status_code == resp_ok
          then refresh_channels (close_command u)
          else record u { command_status_msg = denied })
      else if p.action == channel_delete
      then (if p.status_code == resp_ok
          then refresh_channels (first_channel (close_command u))
          else record u { command_status_msg = denied })
      else u

  -- The member of the union tells the type; `system` stands for every type that is not known.
  unfoldable pub receive_payload : Packet → Payload → Ui → Ui
  receive_payload packet (channel p) u = receive_channel_packet packet p u
  receive_payload packet (dm p) u =
      if p.action == dm_message then ui_receive_dm_message packet p u else u
  receive_payload packet (server p) u = ui_update_server_state clock packet p u
  receive_payload packet (auth p) u = ui_handle_auth_response clock p u
  receive_payload packet (social p) u = receive_social clock packet p u
  receive_payload packet (system p) u = u

  unfoldable pub process_network_packet : Packet → Ui → Ui
  process_network_packet packet u = receive_payload packet packet.payload u
