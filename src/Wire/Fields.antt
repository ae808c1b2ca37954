-- ===== src/Wire/Fields.antt =====
-- The fields of a packet's integers and of the members of its union as bytes, in their order and without
-- gaps.
use tizcord.Base.{ℕ, refl}
use tizcord.Protocol.{
  Packet, SystemPayload, AuthPayload, DmPayload, ServerPayload, ChannelPayload, SocialPayload,
}
use tizcord.Wire.Codec.{Codec, word, text, both, via}

abbrev pub system_codec : Codec SystemPayload
system_codec =
    via (both (word 4) (both (word 4) (text 256))) (λ s. (s.action, (s.status_code, s.message)))
      (λ q. record { action = q.0; status_code = q.1.0; message = q.1.1 }) (λ s. refl)

abbrev pub auth_codec : Codec AuthPayload
auth_codec =
    via (both (word 4) (both (word 4) (both (text 32) (text 64))))
      (λ a. (a.action, (a.status_code, (a.username, a.password))))
      (λ q. record { action = q.0; status_code = q.1.0; username = q.1.1.0; password = q.1.1.1 })
      (λ a. refl)

abbrev pub dm_codec : Codec DmPayload
dm_codec =
    via (both (word 4) (both (word 4) (both (word 4) (both (word 8) (text 512)))))
      (λ d. (d.action, (d.status_code, (d.recipient_id, (d.message_id, d.message)))))
      (λ q. record {
        action = q.0;
        status_code = q.1.0;
        recipient_id = q.1.1.0;
        message_id = q.1.1.1.0;
        message = q.1.1.1.1;
      })
      (λ d. refl)

abbrev pub server_codec : Codec ServerPayload
server_codec =
    via (both (word 4) (both (word 8) (both (word 8) (both (word 4) (both (word 4) (text 32))))))
      (λ s. (
        s.action,
        (s.server_id, (s.target_user_id, (s.status_code, (s.member_count, s.server_name)))),
      ))
      (λ q. record {
        action = q.0;
        server_id = q.1.0;
        target_user_id = q.1.1.0;
        status_code = q.1.1.1.0;
        member_count = q.1.1.1.1.0;
        server_name = q.1.1.1.1.1;
      })
      (λ s. refl)

abbrev pub channel_codec : Codec ChannelPayload
channel_codec =
    via
      (both (word 4)
        (both (word 8) (both (word 4) (both (word 8) (both (text 32) (both (word 8) (text 512)))))))
      (λ c. (
        c.action,
        (c.server_id, (c.status_code, (c.channel_id, (c.channel_name, (c.message_id, c.message))))),
      ))
      (λ q. record {
        action = q.0;
        server_id = q.1.0;
        status_code = q.1.1.0;
        channel_id = q.1.1.1.0;
        channel_name = q.1.1.1.1.0;
        message_id = q.1.1.1.1.1.0;
        message = q.1.1.1.1.1.1;
      })
      (λ c. refl)

abbrev pub social_codec : Codec SocialPayload
social_codec =
    via (both (word 4) (both (word 4) (both (word 4) (both (word 8) (both (text 32) (text 65))))))
      (λ s. (
        s.status,
        (s.action, (s.status_code, (s.target_user_id, (s.target_username, s.target_status)))),
      ))
      (λ q. record {
        status = q.0;
        action = q.1.0;
        status_code = q.1.1.0;
        target_user_id = q.1.1.1.0;
        target_username = q.1.1.1.1.0;
        target_status = q.1.1.1.1.1;
      })
      (λ s. refl)

-- The integers around the union.
pub record Header : Type 0 where
  pub packet_type : ℕ
  pub sender_id : ℕ
  pub list_id : ℕ
  pub list_index : ℕ
  pub list_total : ℕ
  pub list_frame : ℕ
  pub timestamp : ℕ

abbrev pub header_codec : Codec Header
header_codec =
    via
      (both (word 4)
        (both (word 8) (both (word 4) (both (word 4) (both (word 4) (both (word 4) (word 8)))))))
      (λ h. (
        h.packet_type,
        (h.sender_id, (h.list_id, (h.list_index, (h.list_total, (h.list_frame, h.timestamp))))),
      ))
      (λ q. record {
        packet_type = q.0;
        sender_id = q.1.0;
        list_id = q.1.1.0;
        list_index = q.1.1.1.0;
        list_total = q.1.1.1.1.0;
        list_frame = q.1.1.1.1.1.0;
        timestamp = q.1.1.1.1.1.1;
      })
      (λ h. refl)

abbrev pub header_of : Packet → Header
header_of p = record {
  packet_type = p.packet_type;
  sender_id = p.sender_id;
  list_id = p.list_id;
  list_index = p.list_index;
  list_total = p.list_total;
  list_frame = p.list_frame;
  timestamp = p.timestamp;
}
