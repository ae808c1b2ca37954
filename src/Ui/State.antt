-- ===== src/Ui/State.antt =====
-- The global variables of client/ui.c. An array keeps its length; one whose entries beyond its count
-- are never read is the list of the entries in use. An `int` that is -1 for "none" is an `Option`.
use tizcord.Base.{
  ℕ, zero, suc, ◌+◌, ◌-◌, List, [], ◌∷◌, Text, Bool, false, Option, none, if◌then◌else◌, ◌==◌,
  get_or, set,
}
use tizcord.Client.{Connection}

abbrev pub max_users : ℕ
max_users = 16

abbrev pub ui_max_servers : ℕ
ui_max_servers = 8

abbrev pub ui_max_channels : ℕ
ui_max_channels = 5

abbrev pub max_messages : ℕ
max_messages = 64

abbrev pub max_msg_len : ℕ
max_msg_len = 240

abbrev pub max_pass_len : ℕ
max_pass_len = 32

abbrev pub max_friends : ℕ
max_friends = 64

abbrev pub max_all_users : ℕ
max_all_users = 128

pub data Screen : Type 0 where
  screen_login screen_signup screen_servers screen_friends screen_chat screen_command screen_dms
        screen_users :
      Screen

pub record User : Type 0 where
  pub username : Text
  pub password : Text
  pub server_id : Option ℕ

pub record Message : Type 0 where
  pub sender : Text
  pub body : Text
  pub ts : ℕ

-- `messages` are the first `msg_count` of the array.
pub record UiChannel : Type 0 where
  pub name : Text
  pub messages : List Message
  pub id : ℕ

-- The entry of a member in the arrays `member_names`, `member_is_admin`, `member_is_online` and
-- `member_ids`.
pub record UiMember : Type 0 where
  pub name : Text
  pub is_admin : Bool
  pub is_online : Bool
  pub id : ℕ

pub record UiServer : Type 0 where
  pub id : ℕ
  pub name : Text
  pub description : Text
  pub icon : Text
  pub member_count : ℕ
  pub members : List UiMember
  pub channels : List UiChannel
  pub channel_count : ℕ

pub record UiFriend : Type 0 where
  pub id : ℕ
  pub username : Text
  pub type : ℕ
  pub messages : List Message

pub record UiUser : Type 0 where
  pub id : ℕ
  pub username : Text
  pub status : Text
  pub is_online : ℕ

pub record AuthState : Type 0 where
  pub username : Text
  pub password : Text
  pub on_password : Bool
  pub error : Text
  pub success : Text

-- A `char` array with all its bytes, and the length that the program keeps for its text.
pub record Input : Type 0 where
  pub bytes : List ℕ
  pub len : ℕ

-- `users` are the first `user_count` entries; the array has room for MAX_USERS.
pub record Ui : Type 0 where
  pub users : List User
  pub current_user : Option ℕ
  pub servers : List UiServer
  pub server_count : ℕ
  pub server_cursor : ℕ
  pub current_screen : Screen
  pub previous_screen : Screen
  pub active_server : Option ℕ
  pub active_channel : ℕ
  pub friends : List UiFriend
  pub friend_count : ℕ
  pub friend_cursor : ℕ
  pub active_dm_friend : Option ℕ
  pub all_users : List UiUser
  pub all_user_count : ℕ
  pub user_list_cursor : ℕ
  pub auth : AuthState
  pub chat_input : Input
  pub dm_input : Input
  pub cmd_input : Input
  pub command_status_msg : Text
  pub show_help : Bool
  pub connection : Connection

-- `n` copies, for the arrays that start out as zeros.
abbrev pub replicate {ℓ} : {A : Type ℓ} → ℕ → A → List A
replicate zero a = []
replicate (suc n) a = a ∷ replicate n a

abbrev pub no_channel_entry : UiChannel
no_channel_entry = record { name = []; messages = []; id = 0 }

abbrev pub no_member_entry : UiMember
no_member_entry = record { name = []; is_admin = false; is_online = false; id = 0 }

-- memset(sv, 0, sizeof(*sv))
abbrev pub no_server_entry : UiServer
no_server_entry = record {
  id = 0;
  name = [];
  description = [];
  icon = [];
  member_count = 0;
  members = replicate max_users no_member_entry;
  channels = replicate ui_max_channels no_channel_entry;
  channel_count = 0;
}

abbrev pub no_friend : UiFriend
no_friend = record { id = 0; username = []; type = 0; messages = [] }

abbrev pub no_user_entry : UiUser
no_user_entry = record { id = 0; username = []; status = []; is_online = 0 }

abbrev pub no_input : Input
no_input = record { bytes = replicate max_msg_len 0; len = 0 }

abbrev pub no_auth_state : AuthState
no_auth_state = record {
  username = [];
  password = [];
  on_password = false;
  error = [];
  success = [];
}

-- The initial values of the variables.
abbrev pub initial_ui : Connection → Ui
initial_ui c = record {
  users = [];
  current_user = none;
  servers = replicate ui_max_servers no_server_entry;
  server_count = 0;
  server_cursor = 0;
  current_screen = screen_login;
  previous_screen = screen_login;
  active_server = none;
  active_channel = 0;
  friends = replicate max_friends no_friend;
  friend_count = 0;
  friend_cursor = 0;
  active_dm_friend = none;
  all_users = replicate max_all_users no_user_entry;
  all_user_count = 0;
  user_list_cursor = 0;
  auth = no_auth_state;
  chat_input = no_input;
  dm_input = no_input;
  cmd_input = no_input;
  command_status_msg = [];
  show_help = false;
  connection = c;
}

-- The bytes before the first NUL.
abbrev pub text_of : List ℕ → Text
text_of [] = []
text_of (b ∷ bs) = let rest = text_of bs in if b == 0 then [] else b ∷ rest

-- input[0] = '\0'; input_len = 0;
abbrev pub clear_input : Input → Input
clear_input i = record { bytes = set i.bytes 0 0; len = 0 }

-- input[input_len++] = (char)ch; input[input_len] = '\0';
abbrev pub type_char : ℕ → Input → Input
type_char ch i = record { bytes = set (set i.bytes i.len ch) (i.len + 1) 0; len = i.len + 1 }

-- if (input_len > 0) input[--input_len] = '\0';
abbrev pub erase_char : Input → Input
erase_char i =
    if i.len == 0 then i else record { bytes = set i.bytes (i.len - 1) 0; len = i.len - 1 }

-- input[0] = '/'; input_len = 1;
abbrev pub open_input : Input → Input
open_input i = record { bytes = set i.bytes 0 47; len = 1 }

abbrev pub server_at : Ui → ℕ → UiServer
server_at u i = get_or u.servers i no_server_entry

abbrev pub channel_at : UiServer → ℕ → UiChannel
channel_at s i = get_or s.channels i no_channel_entry

abbrev pub friend_at : Ui → ℕ → UiFriend
friend_at u i = get_or u.friends i no_friend

abbrev pub user_at : Ui → ℕ → UiUser
user_at u i = get_or u.all_users i no_user_entry

abbrev pub write_server : ℕ → UiServer → Ui → Ui
write_server i s u = record u { servers = set u.servers i s }

-- Sending something.
abbrev pub sending : (Connection → Connection) → Ui → Ui
sending f u = record u { connection = f u.connection }
