-- ===== src/Ui/Invariant/Packets.antt =====
-- The invariant of the client's screens under `process_network_packet` of client/ui.c.
use tizcord.Base.{ℕ, ◌≡◌, false, ◌==◌}
use tizcord.Protocol.{Packet, Payload, system, auth, dm, server, channel, social, dm_message}
use tizcord.Ui.State.{Ui}
use tizcord.Ui.Network.{receive_payload, process_network_packet}
use tizcord.Ui.Bounds.{leaves_arrays}
use tizcord.Ui.Invariant.{IsValid, choose}
use tizcord.Ui.Invariant.Session.{auth-IsValid, dm_message-IsValid}
use tizcord.Ui.Invariant.Servers.{server-IsValid, channel-IsValid}
use tizcord.Ui.Invariant.People.{social-IsValid}

receive_payload-IsValid :
    (clock : ℕ → ℕ) (packet : Packet) (payload : Payload) (u : Ui)
    → leaves_arrays packet payload u ≡ false
    → IsValid u
    → IsValid (receive_payload clock packet payload u)
unfolding receive_payload leaves_arrays
receive_payload-IsValid clock packet (channel p) u free h = channel-IsValid clock packet p u h
receive_payload-IsValid clock packet (dm p) u free h =
    choose (p.action == dm_message) _ _ (dm_message-IsValid packet p u h) h
receive_payload-IsValid clock packet (server p) u free h = server-IsValid clock packet p u h
receive_payload-IsValid clock packet (auth p) u free h = auth-IsValid clock p u free h
receive_payload-IsValid clock packet (social p) u free h = social-IsValid clock packet p u h
receive_payload-IsValid clock packet (system p) u free h = h

-- No packet that stays inside the arrays breaks the invariant of the screens.
pub process_network_packet-IsValid :
    (clock : ℕ → ℕ) (packet : Packet) (u : Ui)
    → leaves_arrays packet packet.payload u ≡ false
    → IsValid u
    → IsValid (process_network_packet clock packet u)
unfolding process_network_packet
process_network_packet-IsValid clock packet u free h =
    receive_payload-IsValid clock packet packet.payload u free h
