-- ===== src/Db/World.antt =====
-- server/include/server.h: the server's state, and the actions of its code upon it.
-- The pointers `ctx`, `ctx->db`, `client` and `packet` are never NULL where the handlers are called:
-- `main` exits without a database, and `run_server_loop` passes addresses of its own objects. A
-- `ClientNode *` is the index of the client in `clients`.
use tizcord.Base.{
  ℕ, List, [], ◌∷◌, ◌++◌, Text, Bool, false, Option, none, some, if◌then◌else◌, length, get_or, set,
}
use tizcord.Protocol.{Packet, Payload, blank_packet}
use tizcord.Wire.Receive.{Progress}
use tizcord.Db.Sql.{Sql}
use tizcord.Db.Env.{Env, Outcome}

abbrev pub max_clients : ℕ
max_clients = 64

abbrev pub max_channels : ℕ
max_channels = 16

abbrev pub max_servers : ℕ
max_servers = 16

abbrev pub max_server_members : ℕ
max_server_members = 64

-- An entry in use of the array `membership`: a server, and whether the client is its admin.
pub record TizcordServerMembership : Type 0 where
  pub server : ℕ
  pub is_admin : Bool

pub record ClientNode (Byte : Type 0) : Type 0 where
  pub id : ℕ
  pub socket_fd : ℕ
  pub is_authenticated : Bool
  pub username : Text
  pub membership : List TizcordServerMembership
  pub joined_server_count : ℕ
  pub current_server_index : ℕ
  pub receive : Progress Byte

-- A cleared `ClientNode`.
abbrev pub no_client : {Byte : Type 0} → ClientNode Byte
no_client = record {
  id = 0;
  socket_fd = 0;
  is_authenticated = false;
  username = [];
  membership = [];
  joined_server_count = 0;
  current_server_index = 0;
  receive = record { receive_buffer = []; receive_offset = 0 };
}

-- `clients` are the first `client_count` entries of the array, `sent` the packets handed to
-- `packet_send` with their sockets, oldest first.
pub record World (e : Env) : Type 0 where
  pub clients : List (ClientNode e.abi.Byte)
  pub next_list_id : ℕ
  pub conn : e.Conn
  pub sent : List (ℕ × Packet)

abbrev pub Action : Env → Type 0 → Type 0
Action e A = World e → A × World e

module _ (e : Env) where
  -- packet_send(fd, &packet) == 0
  unfoldable pub send : ℕ → Packet → Action e Bool
  send fd packet w = (e.deliver (length w.sent), record w { sent = w.sent ++ (fd, packet) ∷ [] })

  -- A packet with its type, one member of its union and the time set.
  unfoldable pub create_base_packet : ℕ → Payload → Action e Packet
  create_base_packet type payload w =
      (record (blank_packet type payload) { timestamp = e.time (length w.sent) }, w)

  -- ctx->clients[i]
  abbrev pub client_at : World e → ℕ → ClientNode e.abi.Byte
  client_at w i = get_or w.clients i no_client

  abbrev pub write_client : ℕ → ClientNode e.abi.Byte → World e → World e
  write_client i c w = record w { clients = set w.clients i c }

  -- A statement prepared and stepped to its end; `none` where it could not be prepared.
  unfoldable pub run : Sql → Action e (Option (Outcome e.Row))
  run sql w =
      if e.prepare w.conn sql
      then (some (e.execute w.conn sql).1, record w { conn = (e.execute w.conn sql).0 })
      else (none, w)

  -- sqlite3_step(stmt) == SQLITE_DONE, of the first step.
  abbrev pub step_done : Option (Outcome e.Row) → Bool
  step_done none = false
  step_done (some o) = elim o.rows [ [] ↦ o.done | _ ∷ _ ↦ false ]

  -- The row of the first step, where it is SQLITE_ROW.
  abbrev pub step_row : Option (Outcome e.Row) → Option e.Row
  step_row none = none
  step_row (some o) = elim o.rows [ [] ↦ none | r ∷ _ ↦ some r ]

  -- The text of a column, or another text for a NULL pointer.
  abbrev pub text_or : e.Row → ℕ → Text → Text
  text_or r i other = elim (e.column_text r i) [ none ↦ other | some t ↦ t ]
