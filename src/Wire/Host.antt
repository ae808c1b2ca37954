-- ===== src/Wire/Host.antt =====
-- A representation of packets in bytes of 8 bits, on which the rules of `AbiLaws` hold: integers with
-- the lowest byte first, the fields without gaps, the time before the union, and the union in the
-- width of its largest member.
use tizcord.Base.{
  subst, ==_iff, ℕ, zero, suc, ◌≤◌, ◌≡◌, refl, sym, ap, ◌∙◌, List, [], ◌∷◌, ◌++◌, true, false,
  if◌then◌else◌, ◌==◌, length, length-append, drop, arith,
}
use tizcord.Protocol.{
  Packet, Payload, system, auth, dm, server, channel, social, packet_auth, packet_dm, packet_server,
  packet_channel, packet_social,
}
use tizcord.Wire.Order.{htonl}
use tizcord.Wire.Swap.{member_type, Fits, PayloadFits}
use tizcord.Wire.Abi.{Abi, AbiLaws, TextsFit}
use tizcord.Wire.Codec.{Octet, octet, Codec, drop-append}
use tizcord.Wire.Fields.{
  system_codec, auth_codec, dm_codec, server_codec, channel_codec, social_codec, header_codec,
  Header, header_of,
}

-- The bytes filled up with zeros.
abbrev pub fill : ℕ → List Octet → List Octet
fill zero bs = []
fill (suc n) [] = octet 0 ∷ fill n []
fill (suc n) (b ∷ bs) = b ∷ fill n bs

length-fill : (n : ℕ) (bs : List Octet) → length (fill n bs) ≡ n
length-fill zero bs = refl
length-fill (suc n) [] = ap suc (length-fill n [])
length-fill (suc n) (b ∷ bs) = ap suc (length-fill n bs)

fill_prefix :
    (n : ℕ) (bs : List Octet) → length bs ≤ n → (rest : List Octet) × (fill n bs ≡ bs ++ rest)
fill_prefix n [] h = (fill n [], refl)
fill_prefix zero (b ∷ bs) h = absurd (omega arith)
fill_prefix (suc n) (b ∷ bs) h =
    let (rest, whole) = fill_prefix n bs (omega arith) in (rest, ap (λ t. b ∷ t) whole)

abbrev pub put_member : Payload → List Octet
put_member (system s) = system_codec.put s
put_member (auth a) = auth_codec.put a
put_member (dm d) = dm_codec.put d
put_member (server s) = server_codec.put s
put_member (channel c) = channel_codec.put c
put_member (social s) = social_codec.put s

-- The member that the type selects.
abbrev pub get_member : ℕ → List Octet → Payload
get_member type bs =
    if type == packet_auth
    then auth (auth_codec.get bs)
    else if type == packet_dm
    then dm (dm_codec.get bs)
    else if type == packet_server
    then server (server_codec.get bs)
    else if type == packet_channel
    then channel (channel_codec.get bs)
    else if type == packet_social
    then social (social_codec.get bs)
    else system (system_codec.get bs)

abbrev pub object_of : Header → Payload → Packet
object_of h u = record {
  packet_type = h.packet_type;
  sender_id = h.sender_id;
  list_id = h.list_id;
  list_index = h.list_index;
  list_total = h.list_total;
  list_frame = h.list_frame;
  payload = u;
  timestamp = h.timestamp;
}

abbrev pub store_packet : Packet → List Octet
store_packet p = header_codec.put (header_of p) ++ fill 576 (put_member p.payload)

-- The object is read in network order.
abbrev pub load_packet : List Octet → Packet
load_packet bs =
    let h = header_codec.get bs in
    object_of h (get_member (htonl true h.packet_type) (drop header_codec.width bs))

abbrev pub octet_host : Abi
octet_host = record {
  Byte = Octet;
  little = true;
  size = 612;
  store = store_packet;
  load = load_packet;
  view = λ t u. u;
}

length-store_packet : (p : Packet) → length (store_packet p) ≡ 612
length-store_packet p = omega (
  arith,
  length-append (header_codec.put (header_of p)) (fill 576 (put_member p.payload)),
  header_codec.length-put (header_of p),
  length-fill 576 (put_member p.payload),
)

-- A member that is read from the front of the filled bytes.
from_fill :
    {A : Type 0} (c : Codec A) (a : A) → c.width ≤ 576 → c.Good a → c.get (fill 576 (c.put a)) ≡ a
from_fill c a small good =
    let (rest, whole) = fill_prefix 576 (c.put a) (omega (arith, small, c.length-put a)) in
    ap c.get whole ∙ c.get-put a rest good

get_member-put_member :
    (type : ℕ) (u : Payload)
    → member_type u type ≡ true
    → PayloadFits u
    → TextsFit u
    → get_member type (fill 576 (put_member u)) ≡ u
get_member-put_member type (auth a) tag h t =
    subst (λ (k : ℕ). get_member k (fill 576 (auth_codec.put a)) ≡ auth a)
      (sym ((==_iff type packet_auth).0 tag))
      (ap auth (from_fill auth_codec a (omega arith) (h.0, (h.1, (t.0, t.1)))))
get_member-put_member type (dm d) tag h t =
    subst (λ (k : ℕ). get_member k (fill 576 (dm_codec.put d)) ≡ dm d)
      (sym ((==_iff type packet_dm).0 tag))
      (ap dm (from_fill dm_codec d (omega arith) (h.0, (h.1, (h.2, (h.3, t))))))
get_member-put_member type (server s) tag h t =
    subst (λ (k : ℕ). get_member k (fill 576 (server_codec.put s)) ≡ server s)
      (sym ((==_iff type packet_server).0 tag))
      (ap server (from_fill server_codec s (omega arith) (h.0, (h.1, (h.2, (h.3, (h.4, t)))))))
get_member-put_member type (channel c) tag h t =
    subst (λ (k : ℕ). get_member k (fill 576 (channel_codec.put c)) ≡ channel c)
      (sym ((==_iff type packet_channel).0 tag))
      (ap channel
        (from_fill channel_codec c (omega arith) (h.0, (h.1, (h.2, (h.3, (t.0, (h.4, t.1))))))))
get_member-put_member type (social s) tag h t =
    subst (λ (k : ℕ). get_member k (fill 576 (social_codec.put s)) ≡ social s)
      (sym ((==_iff type packet_social).0 tag))
      (ap social (from_fill social_codec s (omega arith) (h.0, (h.1, (h.2, (h.3, (t.0, t.1)))))))
get_member-put_member type (system s) tag h t =
    let not_auth : (type == packet_auth) ≡ false = ground (arith, tag) in
    let not_dm : (type == packet_dm) ≡ false = ground (arith, tag) in
    let not_server : (type == packet_server) ≡ false = ground (arith, tag) in
    let not_channel : (type == packet_channel) ≡ false = ground (arith, tag) in
    let not_social : (type == packet_social) ≡ false = ground (arith, tag) in
    rw (not_auth, not_dm, not_server, not_channel, not_social)
      (ap system (from_fill system_codec s (omega arith) (h.0, (h.1, t))))

load_packet-store_packet :
    (t : ℕ) (p : Packet)
    → htonl true p.packet_type ≡ t
    → member_type p.payload t ≡ true
    → Fits p
    → TextsFit p.payload
    → load_packet (store_packet p) ≡ p
load_packet-store_packet t p type tag fits texts =
    let union = fill 576 (put_member p.payload) in
    let header : header_codec.get (store_packet p) ≡ header_of p =
      header_codec.get-put (header_of p) union (
        fits.packet_type,
        (
          fits.sender_id,
          (fits.list_id, (fits.list_index, (fits.list_total, (fits.list_frame, fits.timestamp)))),
        ),
      ) in
    let behind : drop header_codec.width (store_packet p) ≡ union =
      drop-append header_codec.width (header_codec.put (header_of p)) union
        (header_codec.length-put (header_of p)) in
    ap
      (λ (h : Header).
        object_of h
          (get_member (htonl true h.packet_type) (drop header_codec.width (store_packet p))))
      header
    ∙ ap (λ (bs : List Octet). object_of (header_of p) (get_member (htonl true p.packet_type) bs))
        behind
    ∙ ap (λ (k : ℕ). object_of (header_of p) (get_member k union)) type
    ∙ ap (object_of (header_of p)) (get_member-put_member t p.payload tag fits.payload texts)

pub octet_host-AbiLaws : AbiLaws octet_host
octet_host-AbiLaws = record {
  length-store = length-store_packet;
  view_member = λ t u h. refl;
  load-store = load_packet-store_packet;
}
