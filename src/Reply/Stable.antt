-- ===== src/Reply/Stable.antt =====
-- What the responses of server/client_helper.c leave as it was: see `Db.Stable`.
use tizcord.Base.{
  ℕ, zero, suc, true, false, Option, Keeps, Keeps-if, Text, Keeps-pure, Keeps-bind, Keeps-option,
  ◌==◌,
}
use tizcord.Protocol.{Packet}
use tizcord.Db.Env.{Env}
use tizcord.Db.World.{World}
use tizcord.Db.Stable.{Stable, Keeps-send}
use tizcord.Reply.{
  ListItems, item_payload, empty_payload, allocate_list_id, send_packet_to_client,
  send_action_response, send_items, send_list_response,
}

module _ (e : Env) (P : World e → Type 0) (st : Stable e P) where
  pub Keeps-allocate_list_id : Keeps P (allocate_list_id e)
  unfolding allocate_list_id
  Keeps-allocate_list_id = record { at = λ w h. st.lists w _ h }

  pub Keeps-send_packet_to_client : (fd : ℕ) (p : Packet) → Keeps P (send_packet_to_client e fd p)
  unfolding send_packet_to_client
  Keeps-send_packet_to_client fd p = Keeps-send e P st fd p

  pub Keeps-send_action_response :
      (fd t a c : ℕ) (m : Option Text) → Keeps P (send_action_response e fd t a c m)
  unfolding send_action_response
  Keeps-send_action_response fd t a c m = Keeps-send_packet_to_client fd _

  pub Keeps-send_items :
      (fd t a id : ℕ) (l : ListItems) (count n i : ℕ) → Keeps P (send_items e fd t a id l count n i)
  unfolding send_items
  Keeps-send_items fd t a id l count zero i = Keeps-pure _
  Keeps-send_items fd t a id l count (suc n) i =
      Keeps-option (item_payload t a l i) _ _ (Keeps-pure _) λ u.
        Keeps-bind _ _ (Keeps-send_packet_to_client fd _)
          (elim [ false ↦ Keeps-pure _ | true ↦ Keeps-send_items fd t a id l count n (suc i) ])

  pub Keeps-send_list_response :
      (fd t a : ℕ) (l : ListItems) (count : ℕ) → Keeps P (send_list_response e fd t a l count)
  unfolding send_list_response
  Keeps-send_list_response fd t a l count = Keeps-if _ _ _ (Keeps-pure _) (
      Keeps-bind _ _ Keeps-allocate_list_id λ id.
        Keeps-if (count == 0) _ _
          (Keeps-option (empty_payload t a) _ _ (Keeps-pure _)
            (λ u. Keeps-send_packet_to_client fd _))
          (Keeps-send_items fd t a id l count count 0))
