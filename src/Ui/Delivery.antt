-- ===== src/Ui/Delivery.antt =====
-- Lists of servers from `send_list_response` of server/client_helper.c to the screen of
-- client/ui.c.
pub mod Fill
pub mod Overwrite
pub mod Users
pub mod Deletion
pub mod Chat
pub mod Direct
use tizcord.Base.{
  ℕ, zero, suc, ◌+◌, ◌-◌, ◌^◌, ◌%◌, none, codes, take, get_or, Text, ◌<◌, ◌≡◌, refl, sym, ap, ◌∙◌,
  List, [], ◌∷◌, ◌++◌, map, true, false, some, if◌then◌else◌, length, length-append, arith,
  Bool-cases, inl, inr, set, ltb, min, ◌==◌, append_assoc, set-append_at,
}
use tizcord.Protocol.{
  Packet, ServerPayload, no_server, resp_ok, max_name_len, server, packet_server, server_list,
}
use tizcord.Words.{not_positive32}
use tizcord.Db.Env.{Env}
use tizcord.Db.World.{World}
use tizcord.Reply.{
  ListItems, item_frame, item_payload, item_packet, allocate_list_id, send_list_response,
}
use tizcord.Reply.Frames.{frames, frame_packet, item_packet-frame_packet, send_list_response-frames}
use tizcord.Ui.State.{Ui, UiServer, no_server_entry, ui_max_servers}
use tizcord.Ui.Servers.{server_entry_of, starts_list, receive_server, ui_update_server_state}
use tizcord.Ui.Delivery.Overwrite.{
  overwrite, listed, listed-fills, write_items, write_items-overwrite,
}
use tizcord.Ui.Network.{receive_payload, process_network_packet}

-- The client receives the packets, one after the other.
unfoldable pub deliver : (ℕ → ℕ) → List Packet → Ui → Ui
deliver clock [] u = u
deliver clock (p ∷ ps) u = deliver clock ps (process_network_packet clock p u)

module _ (list_id total : ℕ) (p : ℕ → ServerPayload) where
  -- The packet of item `i`.
  abbrev item : ℕ → Packet
  item i = item_packet packet_server list_id total i (server (p i))

  abbrev items_from : ℕ → ℕ → List Packet
  items_from zero i = []
  items_from (suc n) i = item i ∷ items_from n (suc i)

module _ (clock : ℕ → ℕ) (list_id total : ℕ) (p : ℕ → ServerPayload)
    (listed : (i : ℕ) → (p i).action ≡ server_list) (pos : 0 < total) (small : total < 2 ^ 31) where
  process_item :
      (i : ℕ) (u : Ui)
      → process_network_packet clock (item list_id total p i) u
        ≡ receive_server (item list_id total p i) (p i) u
  unfolding process_network_packet receive_payload ui_update_server_state item_packet
  process_item i u = rw (listed i) refl

  item_starts : (i : ℕ) → i < total → starts_list (item list_id total p i).list_frame ≡ (i == 0)
  unfolding item_packet item_frame
  item_starts i here = ground arith

  -- The count that an item meets.
  met : ℕ → Ui → ℕ
  met i u = if starts_list (item list_id total p i).list_frame then 0 else u.server_count

  met-min :
      (i : ℕ) (u : Ui)
      → i < total
      → (0 < i → u.server_count ≡ min ui_max_servers i)
      → met i u ≡ min ui_max_servers i
  unfolding met
  met-min i u here count = rw (item_starts i here) (elim (Bool-cases (i == 0)) [
    | inl first ↦ rw first (ground arith)
    | inr later ↦ rw later (count (ground arith))
  ])

  total_positive : not_positive32 total ≡ false
  total_positive = ground arith

  -- The state after item `i`.
  abbrev stored : ℕ → Ui → Ui
  stored i u = record u {
    servers = if ltb i ui_max_servers then set u.servers i (server_entry_of (p i)) else u.servers;
    server_count = min ui_max_servers (i + 1);
  }

  receive_met :
      (i : ℕ) (u : Ui)
      → receive_server (item list_id total p i) (p i) u ≡ (
          if ltb (met i u) ui_max_servers
          then record u {
            servers = set u.servers (met i u) (server_entry_of (p i));
            server_count = met i u + 1;
          }
          else record u { server_count = met i u })
  unfolding receive_server item_packet met
  receive_met i u = rw total_positive refl

  stored_count : ℕ → Ui → ℕ → Ui
  stored_count i u k = record u {
    servers = if ltb i ui_max_servers then set u.servers i (server_entry_of (p i)) else u.servers;
    server_count = k;
  }

  receive_item :
      (i : ℕ) (u : Ui)
      → i < total
      → (0 < i → u.server_count ≡ min ui_max_servers i)
      → receive_server (item list_id total p i) (p i) u ≡ stored i u
  receive_item i u here count =
      receive_met i u
      ∙ (rw (met-min i u here count) (elim (Bool-cases (ltb i ui_max_servers)) [
        | inl room ↦
            let at : min ui_max_servers i ≡ i = ground arith in
            let next : min ui_max_servers (i + 1) ≡ i + 1 = ground arith in rw (at, next, room) refl
        | inr none_left ↦
            let at : min ui_max_servers i ≡ ui_max_servers = ground arith in
            let next : min ui_max_servers (i + 1) ≡ ui_max_servers = ground arith in
            rw (at, next, none_left) refl
      ]))

  deliver_items :
      (n i : ℕ) (u : Ui)
      → i + n ≡ total
      → (0 < i → u.server_count ≡ min ui_max_servers i)
      → (0 < n)
      → deliver clock (items_from list_id total p n i) u ≡ record u {
        servers = write_items p n i u.servers;
        server_count = min ui_max_servers total;
      }
  unfolding deliver stored_count
  deliver_items zero i u whole count some_left = absurd (omega arith)
  deliver_items (suc zero) i u whole count some_left =
      process_item i u
      ∙ receive_item i u (omega (arith, whole)) count
      ∙ ap (λ (k : ℕ). stored_count i u k) (ap (min ui_max_servers) whole)
  deliver_items (suc (suc n)) i u whole count some_left =
      ap (deliver clock (items_from list_id total p (suc n) (suc i)))
        (process_item i u ∙ receive_item i u (omega (arith, whole)) count)
      ∙ deliver_items (suc n) (suc i) (stored i u) (omega (arith, whole)) (λ later. omega arith)
          (omega arith)

items_of_frames :
    (e : Env) (fd list_id total : ℕ) (l : ListItems) (p : ℕ → ServerPayload) (n i : ℕ)
    → 0 < total
    → map (λ f. f.1) (frames e fd packet_server server_list list_id total l (λ k. server (p k)) n i)
      ≡ items_from list_id total p n i
items_of_frames e fd list_id total l p zero i pos = refl
items_of_frames e fd list_id total l p (suc n) i pos =
    ap (λ t. frame_packet packet_server list_id total i (server (p i)) ∷ t)
      (items_of_frames e fd list_id total l p n (suc i) pos)
    ∙ ap (λ q. q ∷ items_from list_id total p n (suc i))
        (sym (item_packet-frame_packet packet_server list_id total i (server (p i)) pos))

-- A list of servers arrives: when the network takes every packet, the server's call for a list of one
-- item up to INT32_MAX items succeeds and adds packets to those sent, and a client with its
-- UI_MAX_SERVERS entries that receives these packets in their order has the list's servers, as many
-- as there are entries, in the list's order, each with the low 32 bits of its id, its name cut at
-- MAX_NAME_LEN - 1 bytes and its count, without members and channels, and is otherwise as it was.
pub deliver-send_list_response :
    (e : Env) (clock : ℕ → ℕ) (client_fd item_count : ℕ) (l : ListItems) (w : World e) (u : Ui)
    → 0 < item_count
    → item_count < 2 ^ 31
    → ((k : ℕ) → e.deliver k ≡ true)
    → length u.servers ≡ ui_max_servers
    → let (done, w') = send_list_response e client_fd packet_server server_list l item_count w in
      (added : List (ℕ × Packet)) × (done ≡ true)
      × (w'.sent ≡ w.sent ++ added)
      × (deliver clock (map (λ f. f.1) added) u ≡ record u {
        servers = overwrite l 0 item_count u.servers;
        server_count = min ui_max_servers item_count;
      })
unfolding allocate_list_id
deliver-send_list_response e clock client_fd item_count l w u pos small goes size =
    let list_id = (allocate_list_id e w).0 in
    let added =
      frames e client_fd packet_server server_list list_id item_count l (λ k. server (listed l k))
        item_count 0 in
    let answer =
      send_list_response-frames e client_fd packet_server server_list item_count l
        (λ k. server (listed l k)) w pos small (listed-fills l) goes in
    (
      added,
      ap (λ r. r.0) answer,
      ap (λ r. r.1.sent) answer,
      ap (λ t. deliver clock t u)
            (items_of_frames e client_fd list_id item_count l (listed l) item_count 0 pos)
          ∙ deliver_items clock list_id item_count (listed l) (λ i. refl) pos small item_count 0 u
              (omega arith) (λ never. absurd (omega arith)) pos
          ∙ ap
              (λ (s : List UiServer). record u {
                servers = s;
                server_count = min ui_max_servers item_count;
              })
              (write_items-overwrite l item_count 0 [] u.servers refl (omega (arith, size))),
    )
