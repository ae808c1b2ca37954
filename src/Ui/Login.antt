-- ===== src/Ui/Login.antt =====
-- The login and sign-up screens of client/ui.c, and the answers to logins and logouts.
use tizcord.Base.{
  ℕ, ◌-◌, [], ◌∷◌, ◌++◌, Text, Bool, false, not, ◌&&◌, ◌||◌, none, some, if◌then◌else◌, leb, ltb,
  ◌==◌, length, take, codes,
}
use tizcord.Protocol.{
  AuthPayload, auth_login, auth_register, auth_logout, resp_ok, resp_done, max_name_len,
}
use tizcord.Client.{send_register, send_login, list_all_servers_request}
use tizcord.Ui.State.{
  Ui, AuthState, screen_login, screen_signup, screen_servers, sending, clear_input, max_pass_len,
}

-- What getch() returns, by what the handlers test for: '\t', '\n' or KEY_ENTER, 127 or
-- KEY_BACKSPACE, 27, the arrows, KEY_F(n), and every other value.
pub data Key : Type 0 where
  key_tab key_enter key_backspace key_escape key_up key_down : Key
  key_f : ℕ → Key
  key_char : ℕ → Key

abbrev pub is_printable : ℕ → Bool
is_printable ch = leb 32 ch && ltb ch 127

-- The text that the field under the cursor holds.
abbrev pub target : AuthState → Text
target a = if a.on_password then a.password else a.username

abbrev pub write_target : Text → AuthState → AuthState
write_target t a = if a.on_password then record a { password = t } else record a { username = t }

abbrev pub maxlen : AuthState → ℕ
maxlen a = if a.on_password then max_pass_len - 1 else max_name_len - 1

module _ (clock : ℕ → ℕ) where
  -- The case of the Enter key.
  unfoldable pub submit_auth : Bool → Ui → Ui
  submit_auth is_signup u =
      let a = u.auth in
      if length a.username == 0
      then record u { auth = record a { error = codes "Username required." } }
      else if length a.password == 0
      then record u { auth = record a { error = codes "Password required." } }
      else if is_signup
      then sending (send_register clock a.username a.password)
          (record u { auth = record a { success = codes "Waiting for server..."; error = [] } })
      else sending (send_login clock a.username a.password)
          (record u { auth = record a { success = codes "Authenticating..."; error = [] } })

  -- The switch on the key, after the messages were cleared.
  unfoldable pub auth_key : Key → Bool → Ui → Ui
  auth_key key_tab is_signup u = record u {
    auth = record u.auth { on_password = not u.auth.on_password };
  }
  auth_key key_down is_signup u = record u {
    auth = record u.auth { on_password = not u.auth.on_password };
  }
  auth_key key_up is_signup u = record u {
    auth = record u.auth { on_password = not u.auth.on_password };
  }
  auth_key key_backspace is_signup u =
      let t = target u.auth in record u { auth = write_target (take (length t - 1) t) u.auth }
  auth_key key_enter is_signup u = submit_auth is_signup u
  auth_key key_escape is_signup u = u
  auth_key (key_f n) is_signup u =
      if n == 2
      then record u {
        auth = record u.auth { username = []; password = []; on_password = false; error = [] };
        current_screen = if is_signup then screen_login else screen_signup;
      }
      else u
  auth_key (key_char ch) is_signup u =
      let t = target u.auth in
      if is_printable ch && ltb (length t) (maxlen u.auth)
      then record u { auth = write_target (t ++ ch ∷ []) u.auth }
      else u

  unfoldable pub handle_auth_input : Key → Bool → Ui → Ui
  handle_auth_input key is_signup u =
      auth_key key is_signup (record u { auth = record u.auth { error = []; success = [] } })

  -- The session that a positive answer starts. The array `users` has room for MAX_USERS entries and
  -- the code does not look: where it is full the loop of `start_ui` has no result, see `users_full`.
  unfoldable pub accept_login : Ui → Ui
  accept_login u = record (sending (list_all_servers_request clock) u) {
    users =
        u.users
        ++ record {
          username = take (max_name_len - 1) u.auth.username;
          password = take (max_pass_len - 1) u.auth.password;
          server_id = none;
        }
          ∷ [];
    current_user = some (length u.users);
    current_screen = screen_servers;
    auth = record {
      username = [];
      password = [];
      on_password = false;
      error = [];
      success = codes "Authentication Successful!";
    };
  }

  unfoldable pub sign_out : ℕ → Ui → Ui
  sign_out status_code u = record u {
    current_user = none;
    active_server = none;
    active_channel = 0;
    active_dm_friend = none;
    previous_screen = screen_login;
    current_screen = screen_login;
    server_count = 0;
    server_cursor = 0;
    friend_count = 0;
    friend_cursor = 0;
    all_user_count = 0;
    user_list_cursor = 0;
    show_help = false;
    chat_input = clear_input u.chat_input;
    dm_input = clear_input u.dm_input;
    cmd_input = clear_input u.cmd_input;
    command_status_msg = [];
    auth = record {
      username = [];
      password = [];
      on_password = false;
      error =
          if status_code == resp_done
          then codes "Signed out."
          else codes "Signed out: logged in elsewhere";
      success = [];
    };
  }

  unfoldable pub ui_handle_auth_response : AuthPayload → Ui → Ui
  ui_handle_auth_response p u =
      if p.action == auth_register || p.action == auth_login
      then (if p.status_code == resp_ok then accept_login u else record u {
        auth = record u.auth { error = codes "Invalid Username or Password."; success = [] };
      })
      else if p.action == auth_logout
      then sign_out p.status_code u
      else u
