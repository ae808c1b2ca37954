-- ===== src/TizcordServer/Collect.antt =====
-- The accumulators of server/tizcord_server.c and the callbacks that fill them.
use Prim.Native.Nat.{bit_or}
use tizcord.Base.{
  ℕ, ◌+◌, ◌-◌, List, [], ◌∷◌, ◌++◌, Text, Bool, true, false, none, some, if◌then◌else◌, leb, ltb,
  ◌==◌, ◌&&◌, take, any, pure,
}
use tizcord.Protocol.{max_name_len}
use tizcord.Db.Env.{Env}
use tizcord.Db.World.{Action, ClientNode, max_servers, max_channels, max_server_members}
use tizcord.Reply.{ListItems}

abbrev pub member_flag_admin : ℕ
member_flag_admin = 1

abbrev pub member_flag_online : ℕ
member_flag_online = 2

-- The arrays hold the first `count` entries.
pub record ServerListAccumulator : Type 0 where
  pub names : List Text
  pub ids : List ℕ
  pub member_counts : List ℕ
  pub count : ℕ
  pub truncated : Bool

pub record ChannelListAccumulator : Type 0 where
  pub names : List Text
  pub ids : List ℕ
  pub count : ℕ
  pub truncated : Bool

pub record MemberListAccumulator : Type 0 where
  pub names : List Text
  pub ids : List ℕ
  pub status_codes : List ℕ
  pub count : ℕ
  pub truncated : Bool

abbrev pub no_servers : ServerListAccumulator
no_servers = record { names = []; ids = []; member_counts = []; count = 0; truncated = false }

abbrev pub no_channels : ChannelListAccumulator
no_channels = record { names = []; ids = []; count = 0; truncated = false }

abbrev pub no_members : MemberListAccumulator
no_members = record { names = []; ids = []; status_codes = []; count = 0; truncated = false }

-- Some connected, authenticated client has the user's id.
abbrev pub is_online : {Byte : Type 0} → ℕ → List (ClientNode Byte) → Bool
is_online user_id clients =
    any (λ c. ltb 0 c.socket_fd && c.is_authenticated && c.id == user_id) clients

abbrev pub collect_server : ℕ → Text → ℕ → ServerListAccumulator → ServerListAccumulator
collect_server server_id server_name member_count acc =
    if leb max_servers acc.count then record acc { truncated = true } else record {
      names = acc.names ++ take (max_name_len - 1) server_name ∷ [];
      ids = acc.ids ++ server_id ∷ [];
      member_counts = acc.member_counts ++ member_count ∷ [];
      count = acc.count + 1;
      truncated = acc.truncated;
    }

abbrev pub collect_channel : ℕ → Text → ChannelListAccumulator → ChannelListAccumulator
collect_channel channel_id channel_name acc =
    if leb max_channels acc.count then record acc { truncated = true } else record {
      names = acc.names ++ take (max_name_len - 1) channel_name ∷ [];
      ids = acc.ids ++ channel_id ∷ [];
      count = acc.count + 1;
      truncated = acc.truncated;
    }

-- The bit set that a member's row shows: admin, and online.
abbrev pub member_status : ℕ → Bool → ℕ
member_status is_admin online =
    let flags = if is_admin == 0 then 0 else member_flag_admin in
    if online then bit_or flags member_flag_online else flags

abbrev pub collect_member : ℕ → Text → ℕ → Bool → MemberListAccumulator → MemberListAccumulator
collect_member user_id username is_admin online acc =
    if leb max_server_members acc.count then record acc { truncated = true } else record {
      names = acc.names ++ take (max_name_len - 1) username ∷ [];
      ids = acc.ids ++ user_id ∷ [];
      status_codes = acc.status_codes ++ member_status is_admin online ∷ [];
      count = acc.count + 1;
      truncated = acc.truncated;
    }

abbrev pub server_items : ServerListAccumulator → ListItems
server_items acc = record {
  items = acc.names;
  item_ids = acc.ids;
  item_counts = some acc.member_counts;
}

abbrev pub channel_items : ChannelListAccumulator → ListItems
channel_items acc = record { items = acc.names; item_ids = acc.ids; item_counts = none }

abbrev pub member_items : MemberListAccumulator → ListItems
member_items acc = record {
  items = acc.names;
  item_ids = acc.ids;
  item_counts = some acc.status_codes;
}

module _ (e : Env) where
  unfoldable pub collect_server_list_item :
      ℕ → Text → ℕ → ServerListAccumulator → Action e ServerListAccumulator
  collect_server_list_item server_id server_name member_count acc =
      pure (collect_server server_id server_name member_count acc)

  unfoldable pub collect_channel_list_item :
      ℕ → Text → ChannelListAccumulator → Action e ChannelListAccumulator
  collect_channel_list_item channel_id channel_name acc =
      pure (collect_channel channel_id channel_name acc)

  unfoldable pub collect_member_list_item :
      ℕ → Text → ℕ → MemberListAccumulator → Action e MemberListAccumulator
  collect_member_list_item user_id username is_admin acc w =
      (collect_member user_id username is_admin (is_online user_id w.clients) acc, w)
