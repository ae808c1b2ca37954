-- ===== src/Wire/Abi.antt =====
-- What the C compiler fixes and no file of the repository says: the bytes of a `TizcordPacket`
-- object. `store` is the object's representation, `load` the object at a buffer's first bytes,
-- and `view t u` the union `u` read through the member that the code uses for the type `t`.
use tizcord.Base.{ℕ, ◌+◌, ◌<◌, ◌≡◌, Bool, true, List, [], ◌∷◌, length, Text, All}
use tizcord.Protocol.{
  Packet, Payload, system, auth, dm, server, channel, social, blank_packet, no_system, max_name_len,
  password_len, message_len, system_message_len, profile_status_len,
}
use tizcord.Wire.Order.{htonl}
use tizcord.Wire.Swap.{member_type, Fits}

pub record Abi : Type 1 where
  pub Byte : Type 0
  pub little : Bool
  pub size : ℕ
  pub store : Packet → List Byte
  pub load : List Byte → Packet
  pub view : ℕ → Payload → Payload

-- The object `p`, its union read through the member of the type `t`.
abbrev pub reread : (ℕ → Payload → Payload) → ℕ → Packet → Packet
reread view t p = record p { payload = view t p.payload }

-- The bytes of a C string before its NUL.
abbrev pub IsText : Text → Type 0
IsText = All (λ c. (0 < c) × (c < 256))

-- A C string that fits an array of `width` bytes with its NUL.
abbrev pub TextFits : ℕ → Text → Type 0
TextFits width t = (length t < width) × IsText t

-- Each text fits its field.
abbrev pub TextsFit : Payload → Type 0
TextsFit (auth a) = TextFits max_name_len a.username × TextFits password_len a.password
TextsFit (dm d) = TextFits message_len d.message
TextsFit (server s) = TextFits max_name_len s.server_name
TextsFit (channel c) = TextFits max_name_len c.channel_name × TextFits message_len c.message
TextsFit (social s) =
    TextFits max_name_len s.target_username × TextFits (profile_status_len + 1) s.target_status
TextsFit (system s) = TextFits system_message_len s.message

-- The language's rules: `sizeof` bytes, a union member that was written is read back, and a copied
-- object is the object, for a packet in network order whose integers and texts fit their fields.
pub record AbiLaws (a : Abi) : Type 0 where
  pub length-store : (p : Packet) → length (a.store p) ≡ a.size
  pub view_member : (t : ℕ) (u : Payload) → member_type u t ≡ true → a.view t u ≡ u
  pub load-store :
      (t : ℕ) (p : Packet)
      → htonl a.little p.packet_type ≡ t
      → member_type p.payload t ≡ true
      → Fits p
      → TextsFit p.payload
      → reread a.view t (a.load (a.store p)) ≡ p

abbrev first_cell : List Packet → Packet
first_cell [] = blank_packet 5 (system no_system)
first_cell (p ∷ _) = p

-- A machine of three cells to a packet, for the properties that hold of any representation.
abbrev pub three_cells : Abi
three_cells = record {
  Byte = Packet;
  little = true;
  size = 3;
  store = λ p. p ∷ p ∷ p ∷ [];
  load = first_cell;
  view = λ t u. u;
}
