-- ===== src/Db/Sql.antt =====
-- The SQL statements of server/db.c, one constructor for each statement text, with the values that
-- are bound to its parameters, in their order.
use tizcord.Base.{ℕ, Text, Bool, true, false}

pub data Sql : Type 0 where
  -- SELECT is_admin FROM server_members WHERE server_id = ? AND user_id = ?
  select_is_admin : ℕ → ℕ → Sql
  -- INSERT INTO users (username, email, password_hash) VALUES (?, ?, ?)
  insert_user : Text → Text → Text → Sql
  -- SELECT id, password_hash FROM users WHERE username = ?
  select_password_hash : Text → Sql
  -- SELECT id FROM users WHERE username = ?
  select_user_id : Text → Sql
  -- INSERT INTO messages (channel_id, user_id, content) VALUES (?, ?, ?)
  insert_message : ℕ → ℕ → Text → Sql
  -- INSERT INTO direct_messages (sender_id, receiver_id, content) VALUES (?, ?, ?)
  insert_direct_message : ℕ → ℕ → Text → Sql
  -- the last 50 direct messages between two users, either way round, in ascending order of id
  select_direct_messages : ℕ → ℕ → ℕ → ℕ → Sql
  -- SELECT id FROM servers WHERE name = ?
  select_server_id : Text → Sql
  -- INSERT INTO servers (name) VALUES (?)
  insert_server : Text → Sql
  -- INSERT INTO server_members (server_id, user_id, is_admin) VALUES (?, ?, ?)
  insert_member : ℕ → ℕ → Bool → Sql
  -- DELETE FROM server_members WHERE server_id = ? AND user_id = ?
  delete_member : ℕ → ℕ → Sql
  -- DELETE FROM servers WHERE id = ?
  delete_server : ℕ → Sql
  -- the servers with the number of their members, by name
  select_servers : Sql
  -- SELECT id, name FROM channels WHERE server_id = ? ORDER BY name ASC
  select_channels : ℕ → Sql
  -- the members of a server with their admin flags, by name
  select_members : ℕ → Sql
  -- the servers that a user has joined with the number of their members, by name
  select_joined_servers : ℕ → Sql
  -- SELECT user_id, friend_id, is_accepted FROM friends, either way round
  select_friendship : ℕ → ℕ → ℕ → ℕ → Sql
  -- INSERT INTO friends (user_id, friend_id, is_accepted) VALUES (?, ?, 0)
  insert_friend : ℕ → ℕ → Sql
  -- SELECT is_accepted FROM friends WHERE user_id = ? AND friend_id = ?
  select_is_accepted : ℕ → ℕ → Sql
  -- UPDATE friends SET is_accepted = 1 WHERE user_id = ? AND friend_id = ?
  update_accepted : ℕ → ℕ → Sql
  -- DELETE FROM friends WHERE user_id = ? AND friend_id = ? AND is_accepted = 0
  delete_pending : ℕ → ℕ → Sql
  -- SELECT id FROM friends WHERE is_accepted = 1, either way round
  select_accepted : ℕ → ℕ → ℕ → ℕ → Sql
  -- DELETE FROM friends, either way round
  delete_friendship : ℕ → ℕ → ℕ → ℕ → Sql
  -- SELECT id FROM friends WHERE user_id = ? AND friend_id = ? AND is_accepted = 0
  select_pending : ℕ → ℕ → Sql
  -- the friends and the requests of a user, incoming ones first
  select_friend_requests : ℕ → ℕ → Sql
  -- the messages of a channel in ascending order of creation
  select_messages : ℕ → Sql
  -- INSERT INTO channels (server_id, name) VALUES (?, ?)
  insert_channel : ℕ → Text → Sql
  -- SELECT id FROM channels WHERE server_id = ? AND name = ?
  select_channel_id : ℕ → Text → Sql
  -- DELETE FROM channels WHERE id = ?
  delete_channel : ℕ → Sql
  -- SELECT server_id FROM channels WHERE id = ?
  select_channel_server : ℕ → Sql
  -- SELECT id, username, status FROM users ORDER BY username ASC
  select_users : Sql
  -- UPDATE users SET status = ? WHERE id = ?
  update_status : Text → ℕ → Sql

-- The statement only reads.
abbrev pub is_select : Sql → Bool
is_select (select_is_admin _ _) = true
is_select (select_password_hash _) = true
is_select (select_user_id _) = true
is_select (select_direct_messages _ _ _ _) = true
is_select (select_server_id _) = true
is_select select_servers = true
is_select (select_channels _) = true
is_select (select_members _) = true
is_select (select_joined_servers _) = true
is_select (select_friendship _ _ _ _) = true
is_select (select_is_accepted _ _) = true
is_select (select_accepted _ _ _ _) = true
is_select (select_pending _ _) = true
is_select (select_friend_requests _ _) = true
is_select (select_messages _) = true
is_select (select_channel_id _ _) = true
is_select (select_channel_server _) = true
is_select select_users = true
is_select _ = false
