-- ===== src/Reply/Frames.antt =====
-- The frames of a list that `send_list_response` of server/client_helper.c sends.
use tizcord.Base.{
  ℕ, zero, suc, ◌+◌, ◌-◌, ◌^◌, ◌<◌, ◌≡◌, refl, ap, sym, ◌∙◌, List, [], ◌∷◌, ◌++◌, Bool, true, false,
  some, ltb, ◌==◌, arith, if◌then◌else◌, Bool-cases, inl, inr, length, append_assoc, append-nil,
  ◌>>=◌,
}
use tizcord.Protocol.{
  Packet, Payload, list_frame_single, list_frame_start, list_frame_middle, list_frame_end,
}
use tizcord.Words.{not_positive32}
use tizcord.Db.Env.{Env}
use tizcord.Db.World.{World, send}
use tizcord.Reply.{
  ListItems, item_frame, item_payload, item_packet, allocate_list_id, send_packet_to_client,
  send_items, send_list_response,
}

-- The list id that is allocated is a positive `int32_t`, and the value kept for the next call is the
-- id plus one, as a bit pattern.
pub allocate_list_id-bounds :
    (e : Env) (w : World e)
    → w.next_list_id < 2 ^ 32
    → (0 < (allocate_list_id e w).0)
      × ((allocate_list_id e w).0 < 2 ^ 31)
      × ((allocate_list_id e w).1.next_list_id ≡ (allocate_list_id e w).0 + 1)
unfolding allocate_list_id
allocate_list_id-bounds e w h = elim (Bool-cases (not_positive32 w.next_list_id)) [
  | inl wraps ↦ rw wraps (omega arith, omega arith, refl)
  | inr positive ↦ rw positive (ground arith, ground arith, ground arith)
]

-- The packet of item `i`, in full.
abbrev pub frame_packet : ℕ → ℕ → ℕ → ℕ → Payload → Packet
frame_packet type list_id item_count i payload = record {
  packet_type = type;
  sender_id = 0;
  list_id = list_id;
  list_index = i;
  list_total = item_count;
  list_frame =
      if item_count == 1
      then list_frame_single
      else if i == 0
      then list_frame_start
      else if i + 1 == item_count
      then list_frame_end
      else list_frame_middle;
  payload = payload;
  timestamp = 0;
}

last_item : (n i : ℕ) → 0 < n → (i == n - 1) ≡ (i + 1 == n)
last_item n i pos = elim (Bool-cases (i + 1 == n)) [
  | inl last ↦ ground arith
  | inr other ↦ ground arith
]

pub item_packet-frame_packet :
    (type list_id item_count i : ℕ) (payload : Payload)
    → 0 < item_count
    → item_packet type list_id item_count i payload ≡ frame_packet type list_id item_count i payload
unfolding item_packet item_frame
item_packet-frame_packet type list_id item_count i payload pos =
    rw (last_item item_count i pos) refl

module _ (e : Env) (client_fd type action list_id item_count : ℕ) (l : ListItems)
    (member : ℕ → Payload) where
  -- What the client is sent for `n` items from item `i` on.
  abbrev pub frames : ℕ → ℕ → List (ℕ × Packet)
  frames zero i = []
  frames (suc n) i =
      (client_fd, frame_packet type list_id item_count i (member i)) ∷ frames n (suc i)

  -- A loop that succeeded, with these packets sent in the end.
  abbrev sent_as : World e → List (ℕ × Packet) → Bool × World e
  sent_as w s = (true, record w { sent = s })

  send_items_step :
      (n i : ℕ) (w : World e)
      → 0 < item_count
      → item_payload type action l i ≡ some (member i)
      → e.deliver (length w.sent) ≡ true
      → send_items e client_fd type action list_id l item_count (suc n) i w
        ≡ send_items e client_fd type action list_id l item_count n (suc i) (record w {
          sent = w.sent ++ (client_fd, frame_packet type list_id item_count i (member i)) ∷ [];
        })
  unfolding send_items send_packet_to_client send ◌>>=◌
  send_items_step n i w pos fills goes =
      rw
        (fills, item_packet-frame_packet type list_id item_count i (member i) pos, goes, send_items)
        refl

  send_items_end :
      (i : ℕ) (w : World e)
      → send_items e client_fd type action list_id l item_count 0 i w ≡ (true, w)
  unfolding send_items ◌>>=◌
  send_items_end i w = refl

  send_items-frames :
      0 < item_count
      → ((i : ℕ) → item_payload type action l i ≡ some (member i))
      → ((k : ℕ) → e.deliver k ≡ true)
      → (n i : ℕ) (w : World e)
      → send_items e client_fd type action list_id l item_count n i w
        ≡ (true, record w { sent = w.sent ++ frames n i })
  send_items-frames pos fills goes zero i w =
      send_items_end i w ∙ ap (sent_as w) (sym (append-nil w.sent))
  send_items-frames pos fills goes (suc n) i w =
      let frame : ℕ × Packet = (client_fd, frame_packet type list_id item_count i (member i)) in
      send_items_step n i w pos (fills i) (goes (length w.sent))
      ∙ send_items-frames pos fills goes n (suc i) (record w { sent = w.sent ++ frame ∷ [] })
      ∙ ap (sent_as w) (append_assoc w.sent (frame ∷ []) (frames n (suc i)))

-- When every packet is taken by the network and the type has lists, a list of one item up to
-- INT32_MAX items succeeds, and what is added to the packets sent is one frame for each item in
-- order, all with the list id that was allocated, the item's index and the total, framed as the only,
-- the first, the last or a middle item, and the next id moves on.
pub send_list_response-frames :
    (e : Env) (client_fd type action item_count : ℕ) (l : ListItems) (member : ℕ → Payload)
    (w : World e)
    → 0 < item_count
    → item_count < 2 ^ 31
    → ((i : ℕ) → item_payload type action l i ≡ some (member i))
    → ((k : ℕ) → e.deliver k ≡ true)
    → let (list_id, w') = allocate_list_id e w in
      send_list_response e client_fd type action l item_count w ≡ (
        true,
        record w' {
          sent = w'.sent ++ frames e client_fd type action list_id item_count l member item_count 0;
        },
      )
unfolding send_list_response ◌>>=◌
send_list_response-frames e client_fd type action item_count l member w pos small fills goes =
    let fits : ltb (2 ^ 31 - 1) item_count ≡ false = ground arith in
    let some_items : (item_count == 0) ≡ false = ground arith in
    let (list_id, w') = allocate_list_id e w in
    rw (fits, some_items)
      (send_items-frames e client_fd type action list_id item_count l member pos fills goes
        item_count 0 w')
