-- ===== src/Protocol.antt =====
-- shared/protocol.h. An `int` or an enum is its 32-bit pattern, an `int64_t` its 64-bit pattern;
-- a `char` array is the list of its bytes up to the first NUL. The union is a data type whose
-- constructor says which member was written.
use tizcord.Base.{ℕ, ◌-◌, ◌^◌, [], Text}

abbrev pub max_name_len : ℕ
max_name_len = 32

abbrev pub password_len : ℕ
password_len = 64

abbrev pub message_len : ℕ
message_len = 512

abbrev pub system_message_len : ℕ
system_message_len = 256

abbrev pub profile_status_len : ℕ
profile_status_len = 64

-- PacketType
abbrev pub packet_auth : ℕ
packet_auth = 0

abbrev pub packet_dm : ℕ
packet_dm = 1

abbrev pub packet_server : ℕ
packet_server = 2

abbrev pub packet_channel : ℕ
packet_channel = 3

abbrev pub packet_social : ℕ
packet_social = 4

-- UserStatus
abbrev pub status_online : ℕ
status_online = 0

abbrev pub status_offline : ℕ
status_offline = 1

-- ResponseCode: the negative codes as 32-bit patterns.
abbrev pub resp_ok : ℕ
resp_ok = 0

abbrev pub resp_done : ℕ
resp_done = 1

abbrev pub resp_err_invalid : ℕ
resp_err_invalid = 2 ^ 32 - 1

abbrev pub resp_err_unauthorized : ℕ
resp_err_unauthorized = 2 ^ 32 - 2

abbrev pub resp_err_not_found : ℕ
resp_err_not_found = 2 ^ 32 - 3

abbrev pub resp_err_conflict : ℕ
resp_err_conflict = 2 ^ 32 - 4

abbrev pub resp_err_db : ℕ
resp_err_db = 2 ^ 32 - 5

abbrev pub resp_err_internal : ℕ
resp_err_internal = 2 ^ 32 - 6

-- ListFrameType
abbrev pub list_frame_single : ℕ
list_frame_single = 0

abbrev pub list_frame_start : ℕ
list_frame_start = 1

abbrev pub list_frame_middle : ℕ
list_frame_middle = 2

abbrev pub list_frame_end : ℕ
list_frame_end = 3

-- AuthAction
abbrev pub auth_login : ℕ
auth_login = 0

abbrev pub auth_register : ℕ
auth_register = 1

abbrev pub auth_logout : ℕ
auth_logout = 2

-- DMAction
abbrev pub dm_message : ℕ
dm_message = 0

abbrev pub dm_history_request : ℕ
dm_history_request = 1

-- ServerAction
abbrev pub server_join : ℕ
server_join = 0

abbrev pub server_leave : ℕ
server_leave = 1

abbrev pub server_create : ℕ
server_create = 2

abbrev pub server_delete : ℕ
server_delete = 3

abbrev pub server_list : ℕ
server_list = 4

abbrev pub server_list_channels : ℕ
server_list_channels = 5

abbrev pub server_list_members : ℕ
server_list_members = 6

abbrev pub server_list_joined : ℕ
server_list_joined = 7

abbrev pub server_kick_member : ℕ
server_kick_member = 8

-- ChannelAction
abbrev pub channel_create : ℕ
channel_create = 0

abbrev pub channel_delete : ℕ
channel_delete = 1

abbrev pub channel_message : ℕ
channel_message = 2

abbrev pub channel_history_request : ℕ
channel_history_request = 3

-- SocialAction
abbrev pub social_friend_request : ℕ
social_friend_request = 0

abbrev pub social_friend_accept : ℕ
social_friend_accept = 1

abbrev pub social_friend_reject : ℕ
social_friend_reject = 2

abbrev pub social_friend_remove : ℕ
social_friend_remove = 3

abbrev pub social_list_friends : ℕ
social_list_friends = 4

abbrev pub social_list_users : ℕ
social_list_users = 5

abbrev pub social_update_status : ℕ
social_update_status = 6

pub record SystemPayload : Type 0 where
  pub action : ℕ
  pub status_code : ℕ
  pub message : Text

pub record AuthPayload : Type 0 where
  pub action : ℕ
  pub status_code : ℕ
  pub username : Text
  pub password : Text

pub record DmPayload : Type 0 where
  pub action : ℕ
  pub status_code : ℕ
  pub recipient_id : ℕ
  pub message_id : ℕ
  pub message : Text

pub record ServerPayload : Type 0 where
  pub action : ℕ
  pub server_id : ℕ
  pub target_user_id : ℕ
  pub status_code : ℕ
  pub member_count : ℕ
  pub server_name : Text

pub record ChannelPayload : Type 0 where
  pub action : ℕ
  pub server_id : ℕ
  pub status_code : ℕ
  pub channel_id : ℕ
  pub channel_name : Text
  pub message_id : ℕ
  pub message : Text

pub record SocialPayload : Type 0 where
  pub status : ℕ
  pub action : ℕ
  pub status_code : ℕ
  pub target_user_id : ℕ
  pub target_username : Text
  pub target_status : Text

pub data Payload : Type 0 where
  system : SystemPayload → Payload
  auth : AuthPayload → Payload
  dm : DmPayload → Payload
  server : ServerPayload → Payload
  channel : ChannelPayload → Payload
  social : SocialPayload → Payload

pub record Packet : Type 0 where
  pub packet_type : ℕ
  pub sender_id : ℕ
  pub list_id : ℕ
  pub list_index : ℕ
  pub list_total : ℕ
  pub list_frame : ℕ
  pub payload : Payload
  pub timestamp : ℕ

-- The members of a union that `memset` has cleared.
abbrev pub no_system : SystemPayload
no_system = record { action = 0; status_code = 0; message = [] }

abbrev pub no_auth : AuthPayload
no_auth = record { action = 0; status_code = 0; username = []; password = [] }

abbrev pub no_dm : DmPayload
no_dm = record { action = 0; status_code = 0; recipient_id = 0; message_id = 0; message = [] }

abbrev pub no_server : ServerPayload
no_server = record {
  action = 0;
  server_id = 0;
  target_user_id = 0;
  status_code = 0;
  member_count = 0;
  server_name = [];
}

abbrev pub no_channel : ChannelPayload
no_channel = record {
  action = 0;
  server_id = 0;
  status_code = 0;
  channel_id = 0;
  channel_name = [];
  message_id = 0;
  message = [];
}

abbrev pub no_social : SocialPayload
no_social = record {
  status = 0;
  action = 0;
  status_code = 0;
  target_user_id = 0;
  target_username = [];
  target_status = [];
}

-- A packet cleared by `memset`, with its type and one member of its union written.
abbrev pub blank_packet : ℕ → Payload → Packet
blank_packet type payload = record {
  packet_type = type;
  sender_id = 0;
  list_id = 0;
  list_index = 0;
  list_total = 0;
  list_frame = 0;
  payload = payload;
  timestamp = 0;
}
