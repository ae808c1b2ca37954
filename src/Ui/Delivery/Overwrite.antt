-- ===== src/Ui/Delivery/Overwrite.antt =====
-- The entries that a list of servers of server/client_helper.c is to have on the screen of client/ui.c, and
-- the client's writes one after the other.
use tizcord.Base.{
  ℕ, zero, suc, ◌+◌, ◌-◌, ◌^◌, ◌%◌, none, codes, take, get_or, Text, ◌<◌, ◌≡◌, refl, sym, ap, ◌∙◌,
  List, [], ◌∷◌, ◌++◌, true, false, some, if◌then◌else◌, length, length-append, arith, set, ltb,
  append_assoc, set-append_at,
}
use tizcord.Protocol.{
  ServerPayload, no_server, resp_ok, max_name_len, server, packet_server, server_list,
}
use tizcord.Reply.{ListItems, item_payload}
use tizcord.Ui.State.{UiServer, no_server_entry, ui_max_servers}
use tizcord.Ui.Servers.{server_entry_of}
use tizcord.Ui.Delivery.Fill.{take-take}

-- The entry of item `i` of the server's list on the screen.
abbrev pub expected_server : ListItems → ℕ → UiServer
expected_server l i = record {
  id = get_or l.item_ids i 0 % 2 ^ 32;
  name = take (max_name_len - 1) (get_or l.items i []);
  description = codes "Public Server";
  icon = codes "[]";
  member_count = elim l.item_counts [ none ↦ 0 | some counts ↦ get_or counts i 0 ];
  members = no_server_entry.members;
  channels = no_server_entry.channels;
  channel_count = 0;
}

-- The entries with the first `n` replaced by the items from `i` on, as far as there are entries.
abbrev pub overwrite : ListItems → ℕ → ℕ → List UiServer → List UiServer
overwrite l i zero servers = servers
overwrite l i (suc n) [] = []
overwrite l i (suc n) (s ∷ servers) = expected_server l i ∷ overwrite l (suc i) n servers

-- What the server sends of item `i`.
abbrev pub listed : ListItems → ℕ → ServerPayload
listed l i = record no_server {
  action = server_list;
  status_code = resp_ok;
  server_id = get_or l.item_ids i 0;
  member_count = elim l.item_counts [ none ↦ 0 | some counts ↦ get_or counts i 0 ];
  server_name = take (max_name_len - 1) (get_or l.items i []);
}

pub listed-fills :
    (l : ListItems) (i : ℕ)
    → item_payload packet_server server_list l i ≡ some (server (listed l i))
unfolding item_payload
listed-fills l i = refl

expected_server-of_listed :
    (l : ListItems) (i : ℕ) → server_entry_of (listed l i) ≡ expected_server l i
expected_server-of_listed l i =
    ap (λ (name : Text). record (expected_server l i) { name = name })
      (take-take (max_name_len - 1) (get_or l.items i []))

-- The writes that the client makes for `n` items from item `k` on.
abbrev pub write_items : (ℕ → ServerPayload) → ℕ → ℕ → List UiServer → List UiServer
write_items p zero k servers = servers
write_items p (suc n) k servers =
    write_items p n (suc k)
      (if ltb k ui_max_servers then set servers k (server_entry_of (p k)) else servers)

pub write_items-overwrite :
    (l : ListItems) (n k : ℕ) (pre rest : List UiServer)
    → k ≡ length pre
    → k + length rest ≡ ui_max_servers
    → write_items (listed l) n k (pre ++ rest) ≡ pre ++ overwrite l k n rest
write_items-overwrite l zero k pre rest hk hr = refl
write_items-overwrite l (suc n) k pre [] hk hr =
    let no_room : ltb k ui_max_servers ≡ false = ground arith in
    rw no_room (past n (suc k) (omega (arith, hr)))
  where
    past : (m j : ℕ) → ui_max_servers < j → write_items (listed l) m j (pre ++ []) ≡ pre ++ []
    past zero j h = refl
    past (suc m) j h =
        let no_room : ltb j ui_max_servers ≡ false = ground arith in
        rw no_room (past m (suc j) (omega arith))
write_items-overwrite l (suc n) k pre (y ∷ rest) hk hr =
    let room : ltb k ui_max_servers ≡ true = ground arith in
    let v = expected_server l k in
    rw (room, expected_server-of_listed l k, set-append_at k pre rest y v hk)
      (ap (write_items (listed l) n (suc k)) (sym (append_assoc pre (v ∷ []) rest))
        ∙ write_items-overwrite l n (suc k) (pre ++ v ∷ []) rest
            (omega (arith, hk, length-append pre (v ∷ []))) (omega (arith, hr))
        ∙ append_assoc pre (v ∷ []) (overwrite l (suc k) n rest))
