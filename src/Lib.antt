-- ===== src/Lib.antt =====
-- Tizcord: a chat server on sockets and SQLite, its wire format and its terminal client, in C.
--
-- The program. A client sends fixed-size packets over a TCP stream (shared/protocol.h,
-- shared/packet_helper.c). The server (server/) waits with select(2), reads what has arrived for
-- each client into the client's buffer, and hands a complete packet to the handler of its type:
-- accounts and logins (auth.c), servers and members (tizcord_server.c), channels and direct
-- messages (tizcord_chat.c), friends and status (tizcord_social.c). Handlers use the database
-- through db.c and answer through client_helper.c. Everything runs in one thread. The client
-- (client/) sends the requests of client.c and keeps, in the global variables of ui.c, what its
-- screens show; start_ui waits for keys and packets and hands a key to the screen that is shown.
--
-- The files. Base holds the shared tests, lists, actions on a state and the rules for invariants
-- of actions. Protocol and Words are shared/protocol.h and C's integers as bit patterns. Wire is
-- shared/packet_helper.c: Order and Swap the byte order, Abi the object representation, with
-- Codec, Fields and Host a concrete one in bytes of 8 bits, Send and Receive the loops, Stream the
-- theorems on the byte stream. Db is server/db.c over Db.Env, the parameter for SQLite, crypt(3),
-- the clock and the network, with the server's state in Db.World (server/include/server.h). Reply
-- is server/client_helper.c, TizcordServer is server/tizcord_server.c, Chat is
-- server/tizcord_chat.c, Social is server/tizcord_social.c, Auth is server/auth.c. Server.Loop is
-- server/server.c, and Server.Invariant, Logins, Accounts and Rounds are the invariant of its
-- state. Functions have the names that they have in C; the bodies of loops and the branches of the
-- long handlers are functions of their own, whose comments say where they stand. The modules named
-- Stable say what a handler leaves as it was. The other modules of theorems are Auth.Sessions,
-- Entries, Revoke and Takeover (logins), Reply.Frames (lists), TizcordServer.Guards, Admins and
-- Limits (requests), Chat.Broadcast and Server.Sweep (the loop over the clients). Client is
-- client/client.c, Client.Asked the protocol's packet for each request and Client.Requests what is
-- put on the wire. Ui is client/ui.c: State the variables, Login the login screens, Messages the
-- messages that arrive, Servers the answers on servers, People the lists of friends and users,
-- Network process_network_packet, Keys and Commands the handlers of keys, Bounds where the program
-- leaves its arrays, Loop the events of start_ui; the files below Ui.Invariant treat its invariant
-- operation by operation and Progress and Members there when a key has a next state,
-- Ui.People.Order, Alphabet and Sort treat the sorting, Ui.Keys.Cycle and Typing two of the keys'
-- loops, Ui.Commands.Status the arguments of commands, and Ui.Delivery with its files joins the
-- server's lists with the client's. Server.Memory is a small database on which Server.Tests and
-- Ui.Tests run the theorems.
--
-- Integers are the native naturals: an int is a number below 2 ^ 32, an int64_t one below 2 ^ 64,
-- and signed tests are written out on the bit pattern. A char array is the list of its bytes
-- before the first NUL. ServerContext is World; a pointer to a client is the index of its entry.
-- The packets handed to packet_send are kept in the state in their order.
--
-- Loops over the clients' array are counted. The loop of run_server_loop over the clients, which
-- looks at an index again after a removal, is on fuel: it is given the number of clients, which is
-- enough because each round removes a client or moves on. The outer loop never ends; a history is
-- a list of rounds, each with what accept(2) gave and what arrived on the sockets. The client's
-- loop never ends either; a history is a list of keys, packets and redraws of the screen. Its loop
-- over the friends is on fuel, the number of friends, after which it is back where it began. An
-- array of the client keeps its length, and there is no result where the program divides by zero,
-- indexes with -1, or writes or reads the arrays of sessions and members outside (Ui.Bounds).
--
-- Not code of the repository, so parameters with their documented behaviour as hypotheses: the
-- bytes of a packet object (Wire.Abi), the SQL statements' effect (Db.Env; Server.Invariant states
-- what is used of the table users), accept(2) (Server.Rounds).
--
-- Not modelled: opening the sockets and the database, log output, the start-up in server/main.c
-- and client/client_main.c, and the drawing of the client's screens with ncurses, but for the
-- friend that draw_dms chooses. The increment of the list id at INT32_MAX is taken to wrap.
pub mod Base
pub mod Protocol
pub mod Words
pub mod Wire
pub mod Db
pub mod Reply
pub mod TizcordServer
pub mod Chat
pub mod Social
pub mod Auth
pub mod Server
pub mod Client
pub mod Ui
