-- ===== src/Ui/Invariant.antt =====
-- The invariant of the client's screens: every index and count stays inside its array, a channel is on
-- the screen only with a server, and a server only in a session.
pub mod Session
pub mod Servers
pub mod People
pub mod Packets
pub mod Keys
pub mod Members
pub mod Progress
pub mod Chat
pub mod Commands
pub mod Loop
use tizcord.Base.{
  ℕ, zero, suc, ◌+◌, ◌-◌, ◌≤◌, ◌<◌, ◌≡◌, refl, sym, ap, ◌∙◌, subst, List, [], ◌∷◌, ◌++◌, Bool, true,
  false, Option, none, some, if◌then◌else◌, length, arith, Bool-cases, inl, inr, All, All-set, set,
  get_or, ◌==◌, length-set, length-append, ltb,
}
use tizcord.Ui.State.{
  Ui, UiServer, UiChannel, UiFriend, Message, Input, Screen, screen_chat, screen_command,
  no_server_entry, no_channel_entry, no_friend, server_at, friend_at, channel_at, write_server,
  max_messages, max_msg_len, max_users, ui_max_servers, ui_max_channels, max_friends, max_all_users,
  clear_input, open_input, erase_char, type_char, initial_ui, replicate,
}
use tizcord.Ui.Servers.{is_command}
use tizcord.Ui.Commands.{is_chat}
use tizcord.Ui.Messages.{take_message, write_friend}
use tizcord.Client.{Connection}

-- What holds of the value, if there is one.
abbrev pub OptAll {ℓ κ} : {A : Type ℓ} → (A → Type κ) → Option A → Type κ
OptAll P none = Unit
OptAll P (some a) = P a

abbrev pub has : Option ℕ → Bool
has none = false
has (some _) = true

abbrev pub ChannelOk : UiChannel → Type 0
ChannelOk c = length c.messages ≤ max_messages

abbrev pub ServerOk : UiServer → Type 0
ServerOk s =
    (length s.members ≡ max_users)
    × (length s.channels ≡ ui_max_channels)
    × (s.channel_count ≤ ui_max_channels)
    × All ChannelOk s.channels

abbrev pub ServersOk : Ui → Type 0
ServersOk u =
    (length u.servers ≡ ui_max_servers)
    × All ServerOk u.servers
    × (u.server_count ≤ ui_max_servers)
    × (u.server_cursor < ui_max_servers)
    × OptAll (λ i. i < ui_max_servers) u.active_server
    × (u.active_channel < ui_max_channels)

abbrev pub FriendOk : UiFriend → Type 0
FriendOk f = length f.messages ≤ max_messages

abbrev pub FriendsOk : Ui → Type 0
FriendsOk u =
    (length u.friends ≡ max_friends)
    × All FriendOk u.friends
    × (u.friend_count ≤ max_friends)
    × (u.friend_cursor < max_friends)
    × OptAll (λ i. i < max_friends) u.active_dm_friend

abbrev pub UsersOk : Ui → Type 0
UsersOk u =
    (length u.all_users ≡ max_all_users)
    × (u.all_user_count ≤ max_all_users)
    × (u.user_list_cursor < max_all_users)

abbrev pub InputOk : Input → Type 0
InputOk i = (length i.bytes ≡ max_msg_len) × (i.len < max_msg_len)

abbrev pub InputsOk : Ui → Type 0
InputsOk u = InputOk u.chat_input × InputOk u.dm_input × InputOk u.cmd_input

abbrev pub SessionOk : Ui → Type 0
SessionOk u =
    ((length u.users ≤ max_users) × OptAll (λ k. k < length u.users) u.current_user)
    × (has u.active_server ≡ true → has u.current_user ≡ true)
    × (is_chat u.current_screen ≡ true → has u.active_server ≡ true)
    × (is_command u.current_screen ≡ true
        → is_chat u.previous_screen ≡ true
        → has u.active_server ≡ true)

abbrev pub IsValid : Ui → Type 0
IsValid u = ServersOk u × FriendsOk u × UsersOk u × InputsOk u × SessionOk u

pub OptAll-some {ℓ κ} :
    {A : Type ℓ} (P : A → Type κ) (o : Option A) (a : A) → OptAll P o → o ≡ some a → P a
OptAll-some P none a h on = absurd cc
OptAll-some P (some b) a h on = go (OptAll-inj on)
  where
    OptAll-inj : some b ≡ some a → b ≡ a
    OptAll-inj q = cc

    go : b ≡ a → P a
    go q = subst P q h

pub choose : (b : Bool) (x y : Ui) → IsValid x → IsValid y → IsValid (if b then x else y)
choose true x y h k = h
choose false x y h k = k

pub pick {ℓ κ} :
    {A : Type ℓ} (P : A → Type κ) (b : Bool) {x y : A} → P x → P y → P (if b then x else y)
pick P true h k = h
pick P false h k = k

-- The same, where the branches know the outcome of the test.
pub choose_on :
    (b : Bool) (x y : Ui)
    → (b ≡ true → IsValid x)
    → (b ≡ false → IsValid y)
    → IsValid (if b then x else y)
choose_on true x y h k = h refl
choose_on false x y h k = k refl

pub on_option :
    {A : Type 0} (o : Option A) (x : Ui) (f : A → Ui)
    → IsValid x
    → ((a : A) → o ≡ some a → IsValid (f a))
    → IsValid (elim o [ none ↦ x | some a ↦ f a ])
on_option none x f h k = h
on_option (some a) x f h k = k a refl

pub pick_option {ℓ κ μ} :
    {A : Type ℓ} {B : Type κ} (P : B → Type μ) (o : Option A) (x : B) (f : A → B)
    → P x
    → ((a : A) → o ≡ some a → P (f a))
    → P (elim o [ none ↦ x | some a ↦ f a ])
pick_option P none x f h k = h
pick_option P (some a) x f h k = k a refl

pub All-get_or {ℓ κ} :
    {A : Type ℓ} (P : A → Type κ) (xs : List A) (i : ℕ) (d : A) → All P xs → P d → P (get_or xs i d)
All-get_or P [] i d h p = p
All-get_or P (x ∷ xs) zero d h p = h.0
All-get_or P (x ∷ xs) (suc i) d h p = All-get_or P xs i d h.1 p

pub All-replicate {ℓ κ} :
    {A : Type ℓ} (P : A → Type κ) (n : ℕ) (a : A) → P a → All P (replicate n a)
All-replicate P zero a h = tt
All-replicate P (suc n) a h = (h, All-replicate P n a h)

pub no_server_entry-ServerOk : ServerOk no_server_entry
no_server_entry-ServerOk = (
  refl,
  refl,
  omega arith,
  (omega arith, (omega arith, (omega arith, (omega arith, (omega arith, tt))))),
)

pub server_at-ServerOk : (u : Ui) (i : ℕ) → IsValid u → ServerOk (server_at u i)
server_at-ServerOk u i h =
    All-get_or ServerOk u.servers i no_server_entry h.0.1 no_server_entry-ServerOk

pub write_server-IsValid :
    (i : ℕ) (s : UiServer) (u : Ui) → ServerOk s → IsValid u → IsValid (write_server i s u)
write_server-IsValid i s u ok h = (
  (
    length-set u.servers i s ∙ h.0.0,
    All-set ServerOk u.servers i s h.0.1 ok,
    h.0.2,
    h.0.3,
    h.0.4,
    h.0.5,
  ),
  h.1,
  h.2,
  h.3,
  h.4,
)

pub write_friend-IsValid :
    (i : ℕ) (f : UiFriend) (u : Ui) → FriendOk f → IsValid u → IsValid (write_friend i f u)
write_friend-IsValid i f u ok h = (
  h.0,
  (length-set u.friends i f ∙ h.1.0, All-set FriendOk u.friends i f h.1.1 ok, h.1.2, h.1.3, h.1.4),
  h.2,
  h.3,
  h.4,
)

pub friend_at-FriendOk : (u : Ui) (i : ℕ) → IsValid u → FriendOk (friend_at u i)
friend_at-FriendOk u i h = All-get_or FriendOk u.friends i no_friend h.1.1 (omega arith)

pub take_message-bounds :
    (frame : ℕ) (m : Message) (messages : List Message)
    → length messages ≤ max_messages
    → length (take_message frame m messages) ≤ max_messages
unfolding take_message
take_message-bounds frame m messages h = ground (arith, h, length-append messages (m ∷ []))

pub clear_input-InputOk : (i : Input) → InputOk i → InputOk (clear_input i)
clear_input-InputOk i h = (length-set i.bytes 0 0 ∙ h.0, omega arith)

pub open_input-InputOk : (i : Input) → InputOk i → InputOk (open_input i)
open_input-InputOk i h = (length-set i.bytes 0 47 ∙ h.0, omega arith)

pub erase_char-InputOk : (i : Input) → InputOk i → InputOk (erase_char i)
erase_char-InputOk i h = elim (Bool-cases (i.len == 0)) [
  | inl empty ↦ rw empty h
  | inr some_left ↦ rw some_left (length-set i.bytes (i.len - 1) 0 ∙ h.0, omega (arith, h.1))
]

pub type_char-InputOk :
    (ch : ℕ) (i : Input) → ltb i.len (max_msg_len - 1) ≡ true → InputOk i → InputOk (type_char ch i)
type_char-InputOk ch i room h = (
  length-set (set i.bytes i.len ch) (i.len + 1) 0 ∙ length-set i.bytes i.len ch ∙ h.0,
  ground arith,
)
