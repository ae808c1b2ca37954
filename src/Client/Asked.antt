-- ===== src/Client/Asked.antt =====
-- The requests of client/client.c as data, and the packet of the protocol that each of them is, written
-- out with the numbers of shared/protocol.h.
use tizcord.Base.{
  zero, suc, ◌+◌, ◌%◌, take, length-take, ℕ, ◌^◌, ◌≤◌, ◌<◌, ◌≡◌, refl, [], ◌∷◌, Text, true, arith,
}
use tizcord.Words.{to_int64}
use tizcord.Protocol.{Packet, Payload, auth, dm, server, channel, social, packet_social}
use tizcord.Wire.Swap.{member_type, PayloadFits}
use tizcord.Wire.Abi.{IsText, TextFits, TextsFit}

-- The functions of client.c with their arguments.
pub data Request : Type 0 where
  register login : Text → Text → Request
  logout joined_servers friend_list user_list all_servers : Request
  new_server befriend accept end_friendship reject set_status : Text → Request
  leave : ℕ → Request
  kick : ℕ → ℕ → Request
  new_channel : ℕ → Text → Request
  remove_server remove_channel channels members history join direct_history : ℕ → Request
  post write : ℕ → Text → Request

-- An int64_t argument has 64 bits, an int argument 32, and a text is a C string.
abbrev pub ArgumentsFit : Request → Type 0
ArgumentsFit (register t1 t2) = IsText t1 × IsText t2
ArgumentsFit (login t1 t2) = IsText t1 × IsText t2
ArgumentsFit logout = Unit
ArgumentsFit (new_server t1) = IsText t1
ArgumentsFit (leave i1) = (i1 < 2 ^ 32)
ArgumentsFit (kick i1 i2) = (i1 < 2 ^ 64) × (i2 < 2 ^ 64)
ArgumentsFit (new_channel i1 t2) = (i1 < 2 ^ 32) × IsText t2
ArgumentsFit (remove_server i1) = (i1 < 2 ^ 64)
ArgumentsFit (remove_channel i1) = (i1 < 2 ^ 64)
ArgumentsFit (befriend t1) = IsText t1
ArgumentsFit (accept t1) = IsText t1
ArgumentsFit (end_friendship t1) = IsText t1
ArgumentsFit (reject t1) = IsText t1
ArgumentsFit (set_status t1) = IsText t1
ArgumentsFit joined_servers = Unit
ArgumentsFit friend_list = Unit
ArgumentsFit user_list = Unit
ArgumentsFit (channels i1) = (i1 < 2 ^ 64)
ArgumentsFit (members i1) = (i1 < 2 ^ 64)
ArgumentsFit (history i1) = (i1 < 2 ^ 64)
ArgumentsFit (post i1 t2) = (i1 < 2 ^ 64) × IsText t2
ArgumentsFit all_servers = Unit
ArgumentsFit (join i1) = (i1 < 2 ^ 64)
ArgumentsFit (write i1 t2) = (i1 < 2 ^ 64) × IsText t2
ArgumentsFit (direct_history i1) = (i1 < 2 ^ 64)

abbrev pub auth_packet : ℕ → Text → Text → ℕ × Payload
auth_packet action username password = (
  0,
  auth (record { action = action; status_code = 0; username = username; password = password }),
)

abbrev pub dm_packet : ℕ → ℕ → Text → ℕ × Payload
dm_packet action recipient_id message = (
  1,
  dm (record {
    action = action;
    status_code = 0;
    recipient_id = recipient_id;
    message_id = 0;
    message = message;
  }),
)

abbrev pub server_packet : ℕ → ℕ → ℕ → Text → ℕ × Payload
server_packet action server_id target_user_id server_name = (
  2,
  server (record {
    action = action;
    server_id = server_id;
    target_user_id = target_user_id;
    status_code = 0;
    member_count = 0;
    server_name = server_name;
  }),
)

abbrev pub channel_packet : ℕ → ℕ → ℕ → Text → Text → ℕ × Payload
channel_packet action server_id channel_id channel_name message = (
  3,
  channel (record {
    action = action;
    server_id = server_id;
    status_code = 0;
    channel_id = channel_id;
    channel_name = channel_name;
    message_id = 0;
    message = message;
  }),
)

abbrev pub social_packet : ℕ → Text → Text → ℕ × Payload
social_packet action target_username target_status = (
  4,
  social (record {
    status = 0;
    action = action;
    status_code = 0;
    target_user_id = 0;
    target_username = target_username;
    target_status = target_status;
  }),
)

-- The type and the member of the union that each request is, with the numbers of protocol.h: the
-- ids, and the texts as far as their fields have room before the NUL.
abbrev pub asked : Request → ℕ × Payload
asked (register t1 t2) = auth_packet 1 (take 31 t1) (take 63 t2)
asked (login t1 t2) = auth_packet 0 (take 31 t1) (take 63 t2)
asked logout = auth_packet 2 [] []
asked (new_server t1) = server_packet 2 0 0 (take 31 t1)
asked (leave i1) = server_packet 1 (to_int64 i1) 0 []
asked (kick i1 i2) = server_packet 8 i1 i2 []
asked (new_channel i1 t2) = channel_packet 0 (to_int64 i1) 0 (take 31 t2) []
asked (remove_server i1) = server_packet 3 i1 0 []
asked (remove_channel i1) = channel_packet 1 0 i1 [] []
asked (befriend t1) = social_packet 0 (take 31 t1) []
asked (accept t1) = social_packet 1 (take 31 t1) []
asked (end_friendship t1) = social_packet 3 (take 31 t1) []
asked (reject t1) = social_packet 2 (take 31 t1) []
asked (set_status t1) = social_packet 6 [] (take 64 t1)
asked joined_servers = server_packet 7 0 0 []
asked friend_list = social_packet 4 [] []
asked user_list = social_packet 5 [] []
asked (channels i1) = server_packet 5 i1 0 []
asked (members i1) = server_packet 6 i1 0 []
asked (history i1) = channel_packet 3 0 i1 [] []
asked (post i1 t2) = channel_packet 2 0 i1 [] (take 511 t2)
asked all_servers = server_packet 4 0 0 []
asked (join i1) = server_packet 0 i1 0 []
asked (write i1 t2) = dm_packet 0 (i1 % 2 ^ 32) (take 511 t2)
asked (direct_history i1) = dm_packet 1 (i1 % 2 ^ 32) []

-- The whole packet.
abbrev pub asked_packet : ℕ → Request → Packet
asked_packet time r = record {
  packet_type = (asked r).0;
  sender_id = 0;
  list_id = 0;
  list_index = 0;
  list_total = 0;
  list_frame = 0;
  payload = (asked r).1;
  timestamp = time;
}

to_int64-bounds : (v : ℕ) → v < 2 ^ 32 → to_int64 v < 2 ^ 64
to_int64-bounds v h = ground arith

take-IsText : (n : ℕ) (t : Text) → IsText t → IsText (take n t)
take-IsText zero t h = tt
take-IsText (suc n) [] h = tt
take-IsText (suc n) (c ∷ t) h = (h.0, take-IsText n t h.1)

take-TextFits : (n : ℕ) (t : Text) → IsText t → TextFits (n + 1) (take n t)
take-TextFits n t h = (omega (arith, length-take n t), take-IsText n t h)

pub asked-PayloadFits : (r : Request) → ArgumentsFit r → PayloadFits (asked r).1
asked-PayloadFits (register t1 t2) h = (omega arith, omega arith)
asked-PayloadFits (login t1 t2) h = (omega arith, omega arith)
asked-PayloadFits logout h = (omega arith, omega arith)
asked-PayloadFits (new_server t1) h =
    (omega arith, omega arith, omega arith, omega arith, omega arith)
asked-PayloadFits (leave i1) h =
    (omega arith, to_int64-bounds i1 h, omega arith, omega arith, omega arith)
asked-PayloadFits (kick i1 i2) h = (omega arith, h.0, h.1, omega arith, omega arith)
asked-PayloadFits (new_channel i1 t2) h =
    (omega arith, to_int64-bounds i1 h.0, omega arith, omega arith, omega arith)
asked-PayloadFits (remove_server i1) h = (omega arith, h, omega arith, omega arith, omega arith)
asked-PayloadFits (remove_channel i1) h = (omega arith, omega arith, omega arith, h, omega arith)
asked-PayloadFits (befriend t1) h = (omega arith, omega arith, omega arith, omega arith)
asked-PayloadFits (accept t1) h = (omega arith, omega arith, omega arith, omega arith)
asked-PayloadFits (end_friendship t1) h = (omega arith, omega arith, omega arith, omega arith)
asked-PayloadFits (reject t1) h = (omega arith, omega arith, omega arith, omega arith)
asked-PayloadFits (set_status t1) h = (omega arith, omega arith, omega arith, omega arith)
asked-PayloadFits joined_servers h =
    (omega arith, omega arith, omega arith, omega arith, omega arith)
asked-PayloadFits friend_list h = (omega arith, omega arith, omega arith, omega arith)
asked-PayloadFits user_list h = (omega arith, omega arith, omega arith, omega arith)
asked-PayloadFits (channels i1) h = (omega arith, h, omega arith, omega arith, omega arith)
asked-PayloadFits (members i1) h = (omega arith, h, omega arith, omega arith, omega arith)
asked-PayloadFits (history i1) h = (omega arith, omega arith, omega arith, h, omega arith)
asked-PayloadFits (post i1 t2) h = (omega arith, omega arith, omega arith, h.0, omega arith)
asked-PayloadFits all_servers h = (omega arith, omega arith, omega arith, omega arith, omega arith)
asked-PayloadFits (join i1) h = (omega arith, h, omega arith, omega arith, omega arith)
asked-PayloadFits (write i1 t2) h = (omega arith, omega arith, omega arith, omega arith)
asked-PayloadFits (direct_history i1) h = (omega arith, omega arith, omega arith, omega arith)

pub asked-TextsFit : (r : Request) → ArgumentsFit r → TextsFit (asked r).1
asked-TextsFit (register t1 t2) h = (take-TextFits 31 t1 h.0, take-TextFits 63 t2 h.1)
asked-TextsFit (login t1 t2) h = (take-TextFits 31 t1 h.0, take-TextFits 63 t2 h.1)
asked-TextsFit logout h = ((omega arith, tt), (omega arith, tt))
asked-TextsFit (new_server t1) h = take-TextFits 31 t1 h
asked-TextsFit (leave i1) h = (omega arith, tt)
asked-TextsFit (kick i1 i2) h = (omega arith, tt)
asked-TextsFit (new_channel i1 t2) h = (take-TextFits 31 t2 h.1, (omega arith, tt))
asked-TextsFit (remove_server i1) h = (omega arith, tt)
asked-TextsFit (remove_channel i1) h = ((omega arith, tt), (omega arith, tt))
asked-TextsFit (befriend t1) h = (take-TextFits 31 t1 h, (omega arith, tt))
asked-TextsFit (accept t1) h = (take-TextFits 31 t1 h, (omega arith, tt))
asked-TextsFit (end_friendship t1) h = (take-TextFits 31 t1 h, (omega arith, tt))
asked-TextsFit (reject t1) h = (take-TextFits 31 t1 h, (omega arith, tt))
asked-TextsFit (set_status t1) h = ((omega arith, tt), take-TextFits 64 t1 h)
asked-TextsFit joined_servers h = (omega arith, tt)
asked-TextsFit friend_list h = ((omega arith, tt), (omega arith, tt))
asked-TextsFit user_list h = ((omega arith, tt), (omega arith, tt))
asked-TextsFit (channels i1) h = (omega arith, tt)
asked-TextsFit (members i1) h = (omega arith, tt)
asked-TextsFit (history i1) h = ((omega arith, tt), (omega arith, tt))
asked-TextsFit (post i1 t2) h = ((omega arith, tt), take-TextFits 511 t2 h.1)
asked-TextsFit all_servers h = (omega arith, tt)
asked-TextsFit (join i1) h = (omega arith, tt)
asked-TextsFit (write i1 t2) h = take-TextFits 511 t2 h.1
asked-TextsFit (direct_history i1) h = (omega arith, tt)

pub asked-member_type :
    (r : Request) → (member_type (asked r).1 (asked r).0 ≡ true) × ((asked r).0 ≤ packet_social)
asked-member_type (register t1 t2) = (refl, omega arith)
asked-member_type (login t1 t2) = (refl, omega arith)
asked-member_type logout = (refl, omega arith)
asked-member_type (new_server t1) = (refl, omega arith)
asked-member_type (leave i1) = (refl, omega arith)
asked-member_type (kick i1 i2) = (refl, omega arith)
asked-member_type (new_channel i1 t2) = (refl, omega arith)
asked-member_type (remove_server i1) = (refl, omega arith)
asked-member_type (remove_channel i1) = (refl, omega arith)
asked-member_type (befriend t1) = (refl, omega arith)
asked-member_type (accept t1) = (refl, omega arith)
asked-member_type (end_friendship t1) = (refl, omega arith)
asked-member_type (reject t1) = (refl, omega arith)
asked-member_type (set_status t1) = (refl, omega arith)
asked-member_type joined_servers = (refl, omega arith)
asked-member_type friend_list = (refl, omega arith)
asked-member_type user_list = (refl, omega arith)
asked-member_type (channels i1) = (refl, omega arith)
asked-member_type (members i1) = (refl, omega arith)
asked-member_type (history i1) = (refl, omega arith)
asked-member_type (post i1 t2) = (refl, omega arith)
asked-member_type all_servers = (refl, omega arith)
asked-member_type (join i1) = (refl, omega arith)
asked-member_type (write i1 t2) = (refl, omega arith)
asked-member_type (direct_history i1) = (refl, omega arith)
