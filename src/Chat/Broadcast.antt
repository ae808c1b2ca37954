-- ===== src/Chat/Broadcast.antt =====
-- Who gets a channel's message: `channel_broadcast` of server/tizcord_chat.c.
use tizcord.Base.{
  ℕ, zero, suc, none, some, Bool, not, ◌==◌, ◌||◌, arith, ◌≡◌, refl, sym, ap, ◌∙◌, List, [], ◌∷◌,
  ◌++◌, Option, if◌then◌else◌, length, get_or, for_range, Bool-cases, inl, inr, append_assoc,
  append-nil,
}
use tizcord.Protocol.{Packet}
use tizcord.Db.Env.{Env}
use tizcord.Db.World.{World, ClientNode, send, client_at, no_client}
use tizcord.Chat.Channel.{gets_message, broadcast_to, channel_broadcast}

-- The socket is connected, and it is not the excluded one.
abbrev pub takes_copy : Option ℕ → ℕ → Bool
takes_copy none fd = not (fd == 0)
takes_copy (some excluded_fd) fd = not (fd == 0 || fd == excluded_fd)

-- One copy of the packet for each client that is to get it, in the clients' order.
abbrev pub copies : {Byte : Type 0} → Packet → Option ℕ → List (ClientNode Byte) → List (ℕ × Packet)
copies packet excluded [] = []
copies packet excluded (c ∷ cs) =
    let rest = copies packet excluded cs in
    if takes_copy excluded c.socket_fd then (c.socket_fd, packet) ∷ rest else rest

gets_message-takes_copy :
    (excluded : Option ℕ) (fd : ℕ) → gets_message excluded fd ≡ takes_copy excluded fd
unfolding gets_message
gets_message-takes_copy none zero = refl
gets_message-takes_copy none (suc fd) = ground arith
gets_message-takes_copy (some x) zero = ground arith
gets_message-takes_copy (some x) (suc fd) = ground arith

get_or-middle : {A : Type 0} (xs ys : List A) (y d : A) → get_or (xs ++ y ∷ ys) (length xs) d ≡ y
get_or-middle [] ys y d = refl
get_or-middle (x ∷ xs) ys y d = get_or-middle xs ys y d

length-append_one : {A : Type 0} (xs : List A) (y : A) → length (xs ++ y ∷ []) ≡ suc (length xs)
length-append_one [] y = refl
length-append_one (x ∷ xs) y = ap suc (length-append_one xs y)

module _ (e : Env) (packet : Packet) (sender_fd : Option ℕ) where
  -- The state after these packets were sent.
  abbrev sent_more : World e → List (ℕ × Packet) → World e
  sent_more w s = record w { sent = w.sent ++ s }

  broadcast_to-sent :
      (i : ℕ) (w : World e) (c : ClientNode e.abi.Byte)
      → client_at e w i ≡ c
      → (broadcast_to e packet sender_fd i w).1 ≡ sent_more w (copies packet sender_fd (c ∷ []))
  unfolding broadcast_to send
  broadcast_to-sent i w c at = elim (Bool-cases (takes_copy sender_fd c.socket_fd)) [
    | inl goes ↦ rw (at, gets_message-takes_copy sender_fd c.socket_fd, goes) refl
    | inr stays ↦
        rw (at, gets_message-takes_copy sender_fd c.socket_fd, stays)
          (ap (λ (s : List (ℕ × Packet)). record w { sent = s }) (sym (append-nil w.sent)))
  ]

  copies_cons :
      (c : ClientNode e.abi.Byte) (cs : List (ClientNode e.abi.Byte))
      → copies packet sender_fd (c ∷ []) ++ copies packet sender_fd cs
        ≡ copies packet sender_fd (c ∷ cs)
  copies_cons c cs = elim (Bool-cases (takes_copy sender_fd c.socket_fd)) [
    | inl goes ↦ rw goes refl
    | inr stays ↦ rw stays refl
  ]

  broadcast_from :
      (zs ys : List (ClientNode e.abi.Byte)) (w : World e)
      → w.clients ≡ ys ++ zs
      → (for_range (length zs) (length ys) (broadcast_to e packet sender_fd) w).1
        ≡ sent_more w (copies packet sender_fd zs)
  unfolding for_range
  broadcast_from [] ys w on =
      ap (λ (s : List (ℕ × Packet)). record w { sent = s }) (sym (append-nil w.sent))
  broadcast_from (z ∷ zs) ys w on =
      let w' = sent_more w (copies packet sender_fd (z ∷ [])) in
      let at : client_at e w (length ys) ≡ z =
        ap (λ cs. get_or cs (length ys) no_client) on ∙ get_or-middle ys zs z no_client in
      ap
        (λ (v : World e).
          (for_range (length zs) (suc (length ys)) (broadcast_to e packet sender_fd) v).1)
        (broadcast_to-sent (length ys) w z at)
      ∙ ap (λ (k : ℕ). (for_range (length zs) k (broadcast_to e packet sender_fd) w').1)
          (sym (length-append_one ys z))
      ∙ broadcast_from zs (ys ++ z ∷ []) w' (on ∙ sym (append_assoc ys (z ∷ []) zs))
      ∙ ap (λ (s : List (ℕ × Packet)). record w { sent = s })
          (append_assoc w.sent (copies packet sender_fd (z ∷ [])) (copies packet sender_fd zs)
            ∙ ap (λ t. w.sent ++ t) (copies_cons z zs))

  -- The broadcast sends one copy of the packet to each connected client but the one on the
  -- excluded socket, in the order of the entries, whatever the channel, and changes nothing else.
  pub channel_broadcast-copies :
      (channel_id : ℕ) (w : World e)
      → (channel_broadcast e channel_id packet sender_fd w).1
        ≡ record w { sent = w.sent ++ copies packet sender_fd w.clients }
  unfolding channel_broadcast
  channel_broadcast-copies channel_id w = broadcast_from w.clients [] w refl
