-- ===== src/Ui/Keys/Typing.antt =====
-- Typing into the buffers of client/ui.c, and the bytes that stay in them.
use tizcord.Base.{
  ℕ, suc, ◌+◌, ◌-◌, ◌<◌, ◌≡◌, refl, sym, ap, ◌∙◌, subst, List, [], ◌∷◌, ◌++◌, map, append-nil,
  append_assoc, Text, true, false, Option, none, some, ltb, ◌==◌, length, length-append, length-set,
  set, set-append_at, arith, All,
}
use tizcord.Client.{send_channel_message}
use tizcord.Ui.State.{
  Ui, Input, Screen, screen_chat, server_at, channel_at, sending, text_of, clear_input, type_char,
  max_msg_len,
}
use tizcord.Ui.Login.{Key, key_enter, key_char, is_printable}
use tizcord.Ui.Keys.{open_command, submit_message, handle_chat_input}
use tizcord.Ui.Commands.{finish_command}
use tizcord.Ui.Loop.{Event, key_event, handle_key, handle_event, start_ui}

abbrev pub Printable : Text → Type 0
Printable t = All (λ ch. is_printable ch ≡ true) t

-- The buffer holds the text, a NUL behind it and other bytes, and the length is the text's.
abbrev pub Typed : Input → Text → Type 0
Typed i t =
    (rest : List ℕ) × (i.bytes ≡ t ++ 0 ∷ rest)
    × (i.len ≡ length t)
    × (length i.bytes ≡ max_msg_len)

text_of-append : (t : Text) (rest : List ℕ) → Printable t → text_of (t ++ 0 ∷ rest) ≡ t
text_of-append [] rest h = refl
text_of-append (c ∷ t) rest h =
    let not_nul : (c == 0) ≡ false = ground (arith, h.0) in
    rw not_nul (ap (λ r. c ∷ r) (text_of-append t rest h.1))

clear_input-Typed : (i : Input) (t : Text) → Typed i t → Typed (clear_input i) []
clear_input-Typed i [] h = (h.0, ap (λ bs. set bs 0 0) h.1, refl, length-set i.bytes 0 0 ∙ h.3)
clear_input-Typed i (c ∷ t) h =
    (t ++ 0 ∷ h.0, ap (λ bs. set bs 0 0) h.1, refl, length-set i.bytes 0 0 ∙ h.3)

type_char-Typed :
    (c : ℕ) (i : Input) (t : Text)
    → length t < max_msg_len - 1
    → Typed i t
    → Typed (type_char c i) (t ++ c ∷ [])
type_char-Typed c i t room (rest, holds, len, size) = go rest holds
  where
    long : (rest : List ℕ) → i.bytes ≡ t ++ 0 ∷ rest → length t + suc (length rest) ≡ max_msg_len
    long rest holds = sym (length-append t (0 ∷ rest)) ∙ sym (ap length holds) ∙ size

    go : (rest : List ℕ) → i.bytes ≡ t ++ 0 ∷ rest → Typed (type_char c i) (t ++ c ∷ [])
    go [] holds = absurd (omega (arith, room, long [] holds))
    go (r ∷ rest) holds = (
      rest,
      ap (λ bs. set (set bs i.len c) (i.len + 1) 0) holds
          ∙ ap (λ bs. set bs (i.len + 1) 0) (set-append_at i.len t (r ∷ rest) 0 c len)
          ∙ ap (λ bs. set bs (i.len + 1) 0) (sym (append_assoc t (c ∷ []) (r ∷ rest)))
          ∙ set-append_at (i.len + 1) (t ++ c ∷ []) rest r 0
              (omega (arith, len, length-append t (c ∷ []))),
      omega (arith, len, length-append t (c ∷ [])),
      length-set (set i.bytes i.len c) (i.len + 1) 0 ∙ length-set i.bytes i.len c ∙ size,
    )

-- The keys of a line of text.
abbrev pub keys : Text → List Event
keys text = map (λ ch. key_event (key_char ch)) text

module _ (clock : ℕ → ℕ) where
  on_chat :
      (key : Key) (u : Ui)
      → u.current_screen ≡ screen_chat
      → handle_event clock (key_event key) u ≡ handle_chat_input clock key u
  unfolding handle_event handle_key
  on_chat key u chat = ap (λ (s : Screen). handle_key clock s key u) chat

  type_key :
      (ch : ℕ) (u : Ui)
      → is_printable ch ≡ true
      → u.chat_input.len < max_msg_len - 1
      → handle_chat_input clock (key_char ch) u
        ≡ some (record u { chat_input = type_char ch u.chat_input })
  unfolding handle_chat_input
  type_key ch u printable room =
      let fits : ltb u.chat_input.len (max_msg_len - 1) ≡ true = ground arith in
      rw (printable, fits) refl

  events_step :
      (event : Event) (events : List Event) (u v : Ui)
      → handle_event clock event u ≡ some v
      → start_ui clock (event ∷ events) u ≡ start_ui clock events v
  unfolding start_ui
  events_step event events u v h = rw (h, start_ui) refl

  typing :
      (text t : Text) (events : List Event) (u : Ui)
      → u.current_screen ≡ screen_chat
      → Printable text
      → length t + length text < max_msg_len
      → Typed u.chat_input t
      → (i : Input) × (start_ui clock (keys text ++ events) u
          ≡ start_ui clock events (record u { chat_input = i }))
        × Typed i (t ++ text)
  typing [] t events u chat printable room h =
      (u.chat_input, refl, subst (λ r. Typed u.chat_input r) (sym (append-nil t)) h)
  typing (c ∷ text) t events u chat printable room h =
      let v : Ui = record u { chat_input = type_char c u.chat_input } in
      let (i, runs, typed) =
        typing text (t ++ c ∷ []) events v chat printable.1
          (omega (arith, room, length-append t (c ∷ [])))
          (type_char-Typed c u.chat_input t (omega (arith, room)) h) in
      (
        i,
        events_step (key_event (key_char c)) (keys text ++ events) u v
              (on_chat (key_char c) u chat ∙ type_key c u printable.0 (omega (arith, room, h.2)))
            ∙ runs,
        subst (Typed i) (append_assoc t (c ∷ []) text) typed,
      )

  on_some :
      (o : Option ℕ) (f : ℕ → Option Ui) (a : ℕ)
      → o ≡ some a
      → elim o as (λ x. Option Ui) [ none ↦ none | some i ↦ f i ] ≡ f a
  on_some o f a h =
      ap (λ (x : Option ℕ). elim x as (λ y. Option Ui) [ none ↦ none | some i ↦ f i ]) h

  enter_key :
      (s : ℕ) (text : Text) (u : Ui)
      → u.active_server ≡ some s
      → Printable text
      → 0 < length text
      → Typed u.chat_input text
      → handle_chat_input clock key_enter u
        ≡ some
            (record (sending
              (send_channel_message clock (channel_at (server_at u s) u.active_channel).id text)
              u) { chat_input = clear_input u.chat_input })
  unfolding handle_chat_input submit_message
  enter_key s text u shown printable pos h =
      let some_text : (u.chat_input.len == 0) ≡ false = ground (arith, h.2, pos) in
      let typed : text_of u.chat_input.bytes ≡ text =
        ap text_of h.1 ∙ text_of-append text h.0 printable in
      rw some_text (
        on_some u.active_server
          (λ i.
            some
              (record (sending
                (send_channel_message clock (channel_at (server_at u i) u.active_channel).id
                  (text_of u.chat_input.bytes))
                u) { chat_input = clear_input u.chat_input }))
          s shown
        ∙ ap
            (λ (t : Text).
              some
                (record (sending
                  (send_channel_message clock (channel_at (server_at u s) u.active_channel).id t)
                  u) { chat_input = clear_input u.chat_input }))
            typed)

  -- On the chat screen with a server and an empty buffer, the keys of a text of printable bytes, of
  -- one up to MAX_MSG_LEN - 1, and then Enter call send_channel_message once, with this text and
  -- the channel on the screen, leave an empty buffer, and change nothing else.
  pub chat_line-sends :
      (s : ℕ) (text : Text) (u : Ui)
      → u.current_screen ≡ screen_chat
      → u.active_server ≡ some s
      → Typed u.chat_input []
      → Printable text
      → 0 < length text
      → length text < max_msg_len
      → (i : Input) × (start_ui clock (keys text ++ key_event key_enter ∷ []) u
          ≡ some
              (record (sending
                (send_channel_message clock (channel_at (server_at u s) u.active_channel).id text)
                u) { chat_input = i }))
        × Typed i []
  unfolding start_ui
  chat_line-sends s text u chat shown empty printable pos small =
      let (i, runs, typed) =
        typing text [] (key_event key_enter ∷ []) u chat printable (omega (arith, small)) empty in
      let v : Ui = record u { chat_input = i } in
      (
        clear_input i,
        runs
            ∙ events_step (key_event key_enter) [] v _
                (on_chat key_enter v chat ∙ enter_key s text v shown printable pos typed),
        clear_input-Typed i text typed,
      )

-- The command window opens with the command that closed it last: after a command that begins with a
-- slash was run and the window has closed, F1 shows the command's whole text again, with the length
-- of a single byte.
pub open_command-stale :
    (clock : ℕ → ℕ) (u : Ui) (t : Text)
    → Typed u.cmd_input (47 ∷ t)
    → Printable t
    → let v = open_command (finish_command clock (u, true)) in
      (text_of v.cmd_input.bytes ≡ 47 ∷ t) × (v.cmd_input.len ≡ 1)
unfolding finish_command
open_command-stale clock u t (rest, holds, len, size) printable = (
  ap (λ bs. text_of (set (set bs 0 0) 0 47)) holds ∙ text_of-append (47 ∷ t) rest (refl, printable),
  refl,
)
