-- ===== src/TizcordServer/Limits.antt =====
-- The lists of servers are cut at MAX_SERVERS: `collect_server_list_item` of
-- server/tizcord_server.c under `db_list_servers` of server/db.c.
use tizcord.Base.{
  ℕ, zero, suc, ◌+◌, ◌-◌, ◌<◌, ◌≤◌, ◌≡◌, refl, sym, ◌∙◌, List, [], ◌∷◌, ◌++◌, map, true, false,
  some, leb, Text, length, take, for_each, arith, append_assoc, append-nil, pure, ◌>>=◌, subst,
}
use tizcord.Protocol.{max_name_len}
use tizcord.Db.Sql.{select_servers}
use tizcord.Db.Env.{Env}
use tizcord.Db.World.{World, max_servers, text_or}
use tizcord.Db.Run.{run-prepared, bind-at}
use tizcord.Db.Servers.{db_list_servers}
use tizcord.TizcordServer.Collect.{
  ServerListAccumulator, no_servers, collect_server, collect_server_list_item,
}

-- A server as a row reports it: its id, its name and the number of its members.
abbrev pub ServerRow : Type 0
ServerRow = ℕ × Text × ℕ

abbrev pub collect_rows : List ServerRow → ServerListAccumulator → ServerListAccumulator
collect_rows [] acc = acc
collect_rows (r ∷ rows) acc = collect_rows rows (collect_server r.0 r.1 r.2 acc)

abbrev added : ServerRow → ServerListAccumulator → ServerListAccumulator
added r acc = record {
  names = acc.names ++ take (max_name_len - 1) r.1 ∷ [];
  ids = acc.ids ++ r.0 ∷ [];
  member_counts = acc.member_counts ++ r.2 ∷ [];
  count = acc.count + 1;
  truncated = acc.truncated;
}

collect_server-full :
    (r : ServerRow) (acc : ServerListAccumulator)
    → max_servers ≤ acc.count
    → collect_server r.0 r.1 r.2 acc ≡ record acc { truncated = true }
collect_server-full r acc full =
    let cut : leb max_servers acc.count ≡ true = ground arith in rw cut refl

collect_server-added :
    (r : ServerRow) (acc : ServerListAccumulator)
    → acc.count < max_servers
    → collect_server r.0 r.1 r.2 acc ≡ added r acc
collect_server-added r acc room =
    let fits : leb max_servers acc.count ≡ false = ground arith in rw fits refl

-- What is kept of rows, where `k` more fit: the ids and the names, cut to their field, of the first
-- `k`, and their number.
abbrev Kept : ℕ → List ServerRow → ServerListAccumulator → ServerListAccumulator → Type 0
Kept k rows acc result =
    (result.ids ≡ acc.ids ++ map (λ r. r.0) (take k rows))
    × (result.names ≡ acc.names ++ map (λ r. take (max_name_len - 1) r.1) (take k rows))
    × (result.count ≡ acc.count + length (take k rows))

collect_rows-Kept :
    (k : ℕ) (rows : List ServerRow) (acc : ServerListAccumulator)
    → acc.count + k ≡ max_servers
    → Kept k rows acc (collect_rows rows acc)
collect_rows-Kept zero [] acc room =
    (sym (append-nil acc.ids), sym (append-nil acc.names), omega arith)
collect_rows-Kept zero (r ∷ rows) acc room =
    subst (λ a. Kept 0 (r ∷ rows) acc (collect_rows rows a))
      (sym (collect_server-full r acc (omega (arith, room))))
      (collect_rows-Kept zero rows (record acc { truncated = true }) room)
collect_rows-Kept (suc k) [] acc room =
    (sym (append-nil acc.ids), sym (append-nil acc.names), omega arith)
collect_rows-Kept (suc k) (r ∷ rows) acc room =
    subst (λ a. Kept (suc k) (r ∷ rows) acc (collect_rows rows a))
      (sym (collect_server-added r acc (omega (arith, room))))
      (let kept = collect_rows-Kept k rows (added r acc) (omega (arith, room)) in
        (
          kept.0 ∙ append_assoc acc.ids (r.0 ∷ []) (map (λ q. q.0) (take k rows)),
          kept.1
              ∙ append_assoc acc.names (take (max_name_len - 1) r.1 ∷ [])
                  (map (λ q. take (max_name_len - 1) q.1) (take k rows)),
          omega (arith, kept.2),
        ))

module _ (e : Env) where
  -- What the callback is given of a row.
  abbrev pub read_server : e.Row → ServerRow
  read_server row = (e.column_int64 row 0, text_or e row 1 [], e.column_int row 2)

  for_each-collect_rows :
      (rows : List e.Row) (acc : ServerListAccumulator) (w : World e)
      → for_each
          (λ row.
            collect_server_list_item e
              (e.column_int64 row 0)
              (text_or e row 1 [])
              (e.column_int row 2))
          rows
          acc
          w
        ≡ (collect_rows (map read_server rows) acc, w)
  unfolding for_each collect_server_list_item ◌>>=◌
  for_each-collect_rows [] acc w = refl
  for_each-collect_rows (row ∷ rows) acc w =
      for_each-collect_rows rows
        (collect_server (e.column_int64 row 0) (text_or e row 1 []) (e.column_int row 2) acc) w

  db_list_servers-collect_rows :
      (w : World e)
      → e.prepare w.conn select_servers ≡ true
      → let (conn, result) = e.execute w.conn select_servers in
        db_list_servers e (collect_server_list_item e) no_servers w
        ≡ ((true, collect_rows (map read_server result.rows) no_servers), record w { conn = conn })
  unfolding db_list_servers pure
  db_list_servers-collect_rows w good =
      let (conn, result) = e.execute w.conn select_servers in
      let w' : World e = record w { conn = conn } in
      bind-at e _ _ w w' (some result) (run-prepared e select_servers w good)
      ∙ bind-at e _ _ w' w' (collect_rows (map read_server result.rows) no_servers)
          (for_each-collect_rows result.rows no_servers w')

  -- Where the statement can be prepared, what is listed of the servers is the ids and the names, cut
  -- to their field, of the first MAX_SERVERS rows in the order of the rows, with their number, and
  -- the state changes only by the statement.
  pub db_list_servers-first :
      (w : World e)
      → e.prepare w.conn select_servers ≡ true
      → let (conn, result) = e.execute w.conn select_servers in
        let ((done, acc), w') = db_list_servers e (collect_server_list_item e) no_servers w in
        let rows = take max_servers (map read_server result.rows) in
        (acc.ids ≡ map (λ r. r.0) rows)
        × (acc.names ≡ map (λ r. take (max_name_len - 1) r.1) rows)
        × (acc.count ≡ length rows)
        × (w' ≡ record w { conn = conn })
  db_list_servers-first w good =
      let rows = map read_server (e.execute w.conn select_servers).1.rows in
      let kept = collect_rows-Kept max_servers rows no_servers (omega arith) in
      rw (db_list_servers-collect_rows w good) (kept.0, kept.1, omega (arith, kept.2), refl)
