-- ===== src/Wire/Send.antt =====
-- `packet_send` of shared/packet_helper.c. The answers of the successive calls of send(2) are a
-- list; when it is used up before the loop has ended, the call is still waiting.
use tizcord.Base.{
  sym, append-nil, All, ◌≤◌, ℕ, ◌+◌, ◌<◌, ◌≤◌, ◌≡◌, refl, List, [], ◌∷◌, ◌++◌, arith, ltb,
  if◌then◌else◌, length, take, drop, drop_all, drop-drop, take-append-drop, append_assoc, ◌∙◌, ◌==◌,
  All, true, false, Bool-cases, inl, inr,
}
use tizcord.Protocol.{Packet}
use tizcord.Wire.Swap.{swap_packet}
use tizcord.Wire.Abi.{Abi}

-- send(2): the bytes taken, -1 with EINTR, or -1 with another errno.
pub data SendAnswer : Type 0 where
  wrote : ℕ → SendAnswer
  interrupted : SendAnswer
  failed : SendAnswer

pub data SendStatus : Type 0 where
  sent_all waiting broken : SendStatus

module _ {Byte : Type 0} (bytes : List Byte) where
  -- The loop from `offset`: its end, and the bytes that left in it.
  unfoldable pub send_loop : ℕ → List SendAnswer → SendStatus × List Byte
  send_loop offset [] = if ltb offset (length bytes) then (waiting, []) else (sent_all, [])
  send_loop offset (answer ∷ answers) = elim (ltb offset (length bytes)) [
    | false ↦ (sent_all, [])
    | true ↦ elim answer [
      | interrupted ↦ send_loop offset answers
      | failed ↦ (broken, [])
      | wrote count ↦ elim (count == 0) [
        | true ↦ (broken, [])
        | false ↦
            let (status, out) = send_loop (offset + count) answers in
            (status, take count (drop offset bytes) ++ out)
      ]
    ]
  ]

-- The object goes out in network order, from its first byte.
unfoldable pub packet_send : (a : Abi) → Packet → List SendAnswer → SendStatus × List a.Byte
unfolding send_loop swap_packet
packet_send a packet answers =
    let wire = swap_packet a.view a.little packet packet.packet_type in
    send_loop (a.store wire) 0 answers

-- An answer by which the loop goes on.
abbrev pub IsProgress : SendAnswer → Type 0
IsProgress (wrote n) = 0 < n
IsProgress interrupted = Unit
IsProgress failed = ⊥

abbrev pub written : List SendAnswer → ℕ
written [] = 0
written (wrote n ∷ answers) = n + written answers
written (interrupted ∷ answers) = written answers
written (failed ∷ answers) = written answers

module _ {Byte : Type 0} (bytes : List Byte) where
  send_loop_stop :
      (offset : ℕ) (answers : List SendAnswer)
      → ltb offset (length bytes) ≡ false
      → send_loop bytes offset answers ≡ (sent_all, [])
  unfolding send_loop
  send_loop_stop offset [] stop = ground arith
  send_loop_stop offset (a ∷ answers) stop = ground arith

  send_loop_interrupted :
      (offset : ℕ) (answers : List SendAnswer)
      → ltb offset (length bytes) ≡ true
      → send_loop bytes offset (interrupted ∷ answers) ≡ send_loop bytes offset answers
  unfolding send_loop
  send_loop_interrupted offset answers more = ground arith

  send_loop_failed :
      (offset : ℕ) (answers : List SendAnswer)
      → ltb offset (length bytes) ≡ true
      → send_loop bytes offset (failed ∷ answers) ≡ (broken, [])
  unfolding send_loop
  send_loop_failed offset answers more = ground arith

  send_loop_empty :
      (offset : ℕ) → (send_loop bytes offset []).1 ++ drop offset bytes ≡ drop offset bytes
  unfolding send_loop
  send_loop_empty offset = ground arith

  send_loop_done : (offset : ℕ) → (send_loop bytes offset []).0 ≡ sent_all → length bytes ≤ offset
  unfolding send_loop
  send_loop_done offset h = ground arith

  send_loop_wrote_none :
      (offset n : ℕ) (answers : List SendAnswer)
      → ltb offset (length bytes) ≡ true
      → (n == 0) ≡ true
      → send_loop bytes offset (wrote n ∷ answers) ≡ (broken, [])
  unfolding send_loop
  send_loop_wrote_none offset n answers more none_sent = ground arith

  send_loop_wrote :
      (offset n : ℕ) (answers : List SendAnswer)
      → ltb offset (length bytes) ≡ true
      → (n == 0) ≡ false
      → let r = send_loop bytes (offset + n) answers in
        send_loop bytes offset (wrote n ∷ answers) ≡ (r.0, take n (drop offset bytes) ++ r.1)
  unfolding send_loop
  send_loop_wrote offset n answers more some_sent = ground arith

  -- What left is a prefix of what was to be sent, and all of it where the loop ended well.
  send_loop_prefix :
      (offset : ℕ) (answers : List SendAnswer)
      → (rest : List Byte) × ((send_loop bytes offset answers).1 ++ rest ≡ drop offset bytes)
        × ((send_loop bytes offset answers).0 ≡ sent_all → rest ≡ [])
  send_loop_prefix offset [] = (
    drop offset bytes,
    send_loop_empty offset,
    λ h. drop_all offset bytes (send_loop_done offset h),
  )
  send_loop_prefix offset (failed ∷ answers) = elim (Bool-cases (ltb offset (length bytes))) [
    | inl more ↦ rw (send_loop_failed offset answers more) (drop offset bytes, refl, λ h. cc)
    | inr stop ↦
        rw (send_loop_stop offset (failed ∷ answers) stop)
          (drop offset bytes, refl, λ h. drop_all offset bytes (ground arith))
  ]
  send_loop_prefix offset (interrupted ∷ answers) = elim (Bool-cases (ltb offset (length bytes))) [
    | inl more ↦ rw (send_loop_interrupted offset answers more) (send_loop_prefix offset answers)
    | inr stop ↦
        rw (send_loop_stop offset (interrupted ∷ answers) stop)
          (drop offset bytes, refl, λ h. drop_all offset bytes (ground arith))
  ]
  send_loop_prefix offset (wrote n ∷ answers) = elim (Bool-cases (ltb offset (length bytes))) [
    | inl more ↦ elim (Bool-cases (n == 0)) [
      | inl none_sent ↦
          rw (send_loop_wrote_none offset n answers more none_sent)
            (drop offset bytes, refl, λ h. cc)
      | inr some_sent ↦
          let (rest, whole, ends) = send_loop_prefix (offset + n) answers in
          rw (send_loop_wrote offset n answers more some_sent) (
            rest,
            append_assoc (take n (drop offset bytes)) _ rest
                ∙ (rw (whole, ← drop-drop offset n bytes) (take-append-drop n (drop offset bytes))),
            ends,
          )
    ]
    | inr stop ↦
        rw (send_loop_stop offset (wrote n ∷ answers) stop)
          (drop offset bytes, refl, λ h. drop_all offset bytes (ground arith))
  ]

  send_loop_total :
      (offset : ℕ) (answers : List SendAnswer)
      → All IsProgress answers
      → length bytes ≤ offset + written answers
      → (send_loop bytes offset answers).0 ≡ sent_all
  unfolding send_loop
  send_loop_total offset [] h enough = ground arith
  send_loop_total offset (wrote n ∷ answers) h enough =
      ground (arith, send_loop_total (offset + n) answers h.1)
  send_loop_total offset (interrupted ∷ answers) h enough =
      ground (arith, send_loop_total offset answers h.1)
  send_loop_total offset (failed ∷ answers) h enough = absurd h.0

-- A call that reports success has sent the whole packet in network order, whatever the sizes of
-- the partial writes and however often it was interrupted.
pub packet_send-whole :
    (a : Abi) (packet : Packet) (answers : List SendAnswer)
    → (packet_send a packet answers).0 ≡ sent_all
    → (packet_send a packet answers).1
      ≡ a.store (swap_packet a.view a.little packet packet.packet_type)
unfolding packet_send
packet_send-whole a packet answers h =
    let bytes = a.store (swap_packet a.view a.little packet packet.packet_type) in
    let (rest, whole, ends) = send_loop_prefix bytes 0 answers in
    sym (append-nil _) ∙ (rw (← ends h) whole)

-- When each stored packet has `sizeof` bytes, each call of send(2) takes some bytes or is interrupted,
-- and together they take `sizeof` bytes, the call returns success.
pub packet_send-total :
    (a : Abi) (packet : Packet) (answers : List SendAnswer)
    → ((p : Packet) → length (a.store p) ≡ a.size)
    → All IsProgress answers
    → a.size ≤ written answers
    → (packet_send a packet answers).0 ≡ sent_all
unfolding packet_send
packet_send-total a packet answers size h enough =
    let wire = swap_packet a.view a.little packet packet.packet_type in
    send_loop_total (a.store wire) 0 answers h (omega (arith, size wire))
