-- ===== src/Ui/Delivery/Deletion.antt =====
-- The server's answer to the deletion of a server, on the client's screen: `send_action_response` of
-- server/client_helper.c and the case SERVER_DELETE of client/ui.c.
use tizcord.Db.Env.{Env}
use tizcord.Db.World.{World}
use tizcord.Ui.State.{Ui}
