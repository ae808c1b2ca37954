-- ===== src/TizcordServer/Guards.antt =====
-- Who may change servers and memberships: the guards of server/tizcord_server.c.
use tizcord.Base.{
  ℕ, ◌≡◌, refl, [], ◌∷◌, false, none, if◌then◌else◌, Bool-cases, inl, inr, ◌>>=◌, ◌>>◌, ◌||◌, Text,
  length, ◌==◌, ◌⊎◌, ◌++◌, subst, sym, ==_iff,
}
use tizcord.Protocol.{
  ServerPayload, blank_packet, packet_server, resp_err_invalid, resp_err_unauthorized, server_join,
  server_leave, server_create, server_delete, server_list, server_list_channels,
  server_list_members, server_list_joined, server_kick_member,
}
use tizcord.Reply.{action_payload, send_action_response, send_packet_to_client}
use tizcord.Words.{not_positive64}
use tizcord.Db.Env.{Env}
use tizcord.Db.World.{World, Action, client_at, send}
use tizcord.TizcordServer.Lists.{
  respond, list_tizcord_servers, list_tizcord_channels, list_joined_servers, list_members,
}
use tizcord.TizcordServer.Requests.{
  join_tizcord_server, leave_tizcord_server, create_tizcord_server, delete_tizcord_server,
  kick_server_member, handle_server_packet,
}

-- The state after a request was refused: the client got one reply, with the request's action and
-- an error, and nothing else changed.
abbrev pub Refused : (e : Env) → ℕ → World e → ℕ → World e → Type 0
Refused e i w action w' =
    (code : ℕ) × ((code ≡ resp_err_invalid) ⊎ (code ≡ resp_err_unauthorized))
    × (w' ≡ record w {
      sent =
          w.sent
          ++ (
            (client_at e w i).socket_fd,
            blank_packet packet_server (action_payload packet_server action code none),
          )
            ∷ [];
    })

module _ (e : Env) (i : ℕ) (w : World e) (out : (client_at e w i).is_authenticated ≡ false) where
  join_tizcord_server-Refused : (s : ℕ) → Refused e i w server_join (join_tizcord_server e i s w).1
  unfolding join_tizcord_server ◌>>=◌ respond send_action_response send_packet_to_client send
  join_tizcord_server-Refused s = elim (Bool-cases (not_positive64 s)) [
    | inl bad ↦ rw bad (resp_err_invalid, inl refl, refl)
    | inr good ↦ rw (good, out) (resp_err_unauthorized, inr refl, refl)
  ]

  leave_tizcord_server-Refused :
      (s : ℕ) → Refused e i w server_leave (leave_tizcord_server e i s w).1
  unfolding leave_tizcord_server ◌>>=◌ respond send_action_response send_packet_to_client send
  leave_tizcord_server-Refused s = elim (Bool-cases (not_positive64 s)) [
    | inl bad ↦ rw bad (resp_err_invalid, inl refl, refl)
    | inr good ↦ rw (good, out) (resp_err_unauthorized, inr refl, refl)
  ]

  create_tizcord_server-Refused :
      (n : Text) → Refused e i w server_create (create_tizcord_server e i n w).1
  unfolding create_tizcord_server ◌>>=◌ respond send_action_response send_packet_to_client send
  create_tizcord_server-Refused n = elim (Bool-cases (length n == 0)) [
    | inl bad ↦ rw bad (resp_err_invalid, inl refl, refl)
    | inr good ↦ rw (good, out) (resp_err_unauthorized, inr refl, refl)
  ]

  delete_tizcord_server-Refused :
      (s : ℕ) → Refused e i w server_delete (delete_tizcord_server e i s w).1
  unfolding delete_tizcord_server ◌>>=◌ respond send_action_response send_packet_to_client send
  delete_tizcord_server-Refused s = elim (Bool-cases (not_positive64 s)) [
    | inl bad ↦ rw bad (resp_err_invalid, inl refl, refl)
    | inr good ↦ rw (good, out) (resp_err_unauthorized, inr refl, refl)
  ]

  kick_server_member-Refused :
      (s t : ℕ) → Refused e i w server_kick_member (kick_server_member e i s t w).1
  unfolding kick_server_member ◌>>=◌ respond send_action_response send_packet_to_client send
  kick_server_member-Refused s t = elim (Bool-cases (not_positive64 s || not_positive64 t)) [
    | inl bad ↦ rw bad (resp_err_invalid, inl refl, refl)
    | inr good ↦ rw (good, out) (resp_err_unauthorized, inr refl, refl)
  ]

  list_tizcord_servers-Refused : Refused e i w server_list (list_tizcord_servers e i w).1
  unfolding list_tizcord_servers ◌>>=◌ respond send_action_response send_packet_to_client send
  list_tizcord_servers-Refused = rw out (resp_err_unauthorized, inr refl, refl)

  list_joined_servers-Refused : Refused e i w server_list_joined (list_joined_servers e i w).1
  unfolding list_joined_servers ◌>>=◌ respond send_action_response send_packet_to_client send
  list_joined_servers-Refused = rw out (resp_err_unauthorized, inr refl, refl)

  list_tizcord_channels-Refused :
      (s : ℕ) → Refused e i w server_list_channels (list_tizcord_channels e i s w).1
  unfolding list_tizcord_channels ◌>>=◌ respond send_action_response send_packet_to_client send
  list_tizcord_channels-Refused s = elim (Bool-cases (not_positive64 s)) [
    | inl bad ↦ rw bad (resp_err_invalid, inl refl, refl)
    | inr good ↦ rw (good, out) (resp_err_unauthorized, inr refl, refl)
  ]

  list_members-Refused : (s : ℕ) → Refused e i w server_list_members (list_members e i s w).1
  unfolding list_members ◌>>=◌ respond send_action_response send_packet_to_client send
  list_members-Refused s = elim (Bool-cases (not_positive64 s)) [
    | inl bad ↦ rw bad (resp_err_invalid, inl refl, refl)
    | inr good ↦ rw (good, out) (resp_err_unauthorized, inr refl, refl)
  ]

  Refused-if :
      (a k : ℕ) (m n : Action e (Unit {0}))
      → Refused e i w k (m w).1
      → Refused e i w a (n w).1
      → Refused e i w a ((if a == k then m else n) w).1
  Refused-if a k m n hit rest = elim (Bool-cases (a == k)) [
    | inl same ↦ rw same (subst (λ b. Refused e i w b (m w).1) (sym ((==_iff a k).0 same)) hit)
    | inr other ↦ rw other rest
  ]

  -- No request of a client that is not logged in changes the database, a client's entry or a list
  -- id: it is answered by one packet to that client, with the request's action and the status
  -- RESP_ERR_INVALID or RESP_ERR_UNAUTHORIZED.
  pub handle_server_packet-Refused :
      (p : ServerPayload) → Refused e i w p.action (handle_server_packet e i p w).1
  unfolding handle_server_packet ◌>>◌ ◌>>=◌ respond send_action_response send_packet_to_client send
  handle_server_packet-Refused p =
      Refused-if p.action server_join _ _ (join_tizcord_server-Refused p.server_id) (
        Refused-if p.action server_leave _ _ (leave_tizcord_server-Refused p.server_id) (
          Refused-if p.action server_create _ _ (create_tizcord_server-Refused p.server_name) (
            Refused-if p.action server_delete _ _ (delete_tizcord_server-Refused p.server_id) (
              Refused-if p.action server_list _ _ list_tizcord_servers-Refused (
                Refused-if p.action server_list_channels _ _
                  (list_tizcord_channels-Refused p.server_id)
                  (Refused-if p.action server_list_members _ _ (list_members-Refused p.server_id) (
                    Refused-if p.action server_list_joined _ _ list_joined_servers-Refused (
                      Refused-if p.action server_kick_member _ _
                        (kick_server_member-Refused p.server_id p.target_user_id)
                        (resp_err_invalid, inl refl, refl)))))))))
