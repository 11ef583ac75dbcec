-- ===== src/Proto/Frames/Laws.antt =====
-- proto/proto.h: what is sent in a frame, and what is received, for all the ways in which the system
-- cuts the bytes.
use my_simple_db.Prelude.{
  ℕ, zero, suc, ◌+◌, ◌-◌, ◌^◌, ◌<◌, ◌≤◌, ◌≡◌, ◌⊎◌, refl, sym, ap, ◌∙◌, Bool, true, false, not, ◌&&◌,
  ◌||◌, none, some, List, [], ◌∷◌, ◌++◌, ◌==◌, ltb, length, take, drop, arith, inl, inr, Bool-cases,
  length-append, subst, take-append, length-drop, drop-append, drop-append_le, drop_add,
  take-append_lt, take-append_ge,
}
use mathlib.Core.List.{append_assoc, append-nil}
use my_simple_db.Proto.{be_bytes, be_value, to_u32}
use my_simple_db.Proto.Cells.{length-be_bytes, be_value_4}
use my_simple_db.Proto.Frames.{
  MsgType, msg_code, RecvEvent, SendEvent, recv_exact, recv_frame, send_exact, send_frame,
  frame_bytes,
}

-- The bytes that arrive, over all the events.
unfoldable pub stream : List RecvEvent → List ℕ
stream [] = []
stream (RecvEvent.interrupted ∷ events) = stream events
stream (RecvEvent.failed ∷ events) = stream events
stream (RecvEvent.arrived bytes ∷ events) = bytes ++ stream events

-- A connection on which no call fails, and which does not close before its last byte.
abbrev pub IsAlive : List RecvEvent → Type 0
IsAlive [] = Unit
IsAlive (RecvEvent.interrupted ∷ events) = IsAlive events
IsAlive (RecvEvent.failed ∷ events) = ⊥
IsAlive (RecvEvent.arrived bytes ∷ events) = (0 < length bytes) × IsAlive events

-- What is left gives the bytes after the first `n`.
abbrev Leaves : ℕ → List RecvEvent → Type 0
Leaves n events =
    (left : List RecvEvent) × (recv_exact n events ≡ some (take n (stream events), left))
    × (stream left ≡ drop n (stream events))
    × IsAlive left

-- A call for no bytes.
nothing_asked : (events : List RecvEvent) → recv_exact 0 events ≡ some ([], events)
unfolding recv_exact
nothing_asked [] = refl
nothing_asked (RecvEvent.interrupted ∷ events) = refl
nothing_asked (RecvEvent.failed ∷ events) = refl
nothing_asked (RecvEvent.arrived bytes ∷ events) = refl

none_left : (n : ℕ) (events : List RecvEvent) → IsAlive events → (n == 0) ≡ true → Leaves n events
none_left n events alive e =
    let zero_asked : 0 ≡ n = ground (arith, e) in
    subst (λ k. Leaves k events) zero_asked (events, nothing_asked events, refl, alive)

-- However the bytes are cut, the loop gives the first `n` of them, and leaves the others.
pub recv_exact_lem :
    (events : List RecvEvent) (n : ℕ)
    → IsAlive events
    → n ≤ length (stream events)
    → Leaves n events
unfolding stream recv_exact
recv_exact_lem [] n alive enough = none_left n [] alive (ground (arith, enough))
recv_exact_lem (RecvEvent.interrupted ∷ events) n alive enough = elim (Bool-cases (n == 0)) [
  | inl zero_asked ↦ none_left n (RecvEvent.interrupted ∷ events) alive zero_asked
  | inr some_asked ↦
      let ih = recv_exact_lem events n alive enough in (ih.0, rw some_asked ih.1, ih.2, ih.3)
]
recv_exact_lem (RecvEvent.failed ∷ events) n alive enough = absurd alive
recv_exact_lem (RecvEvent.arrived bytes ∷ events) n alive enough = elim (Bool-cases (n == 0)) [
  | inl zero_asked ↦ none_left n (RecvEvent.arrived bytes ∷ events) alive zero_asked
  | inr some_asked ↦
      let full : (length bytes == 0) ≡ false = ground (arith, alive.0) in
      elim (Bool-cases (ltb n (length bytes))) [
        | inl more ↦
            let h : n < length bytes = ground (arith, more) in
            (
              RecvEvent.arrived (drop n bytes) ∷ events,
              rw (some_asked, full, more, take-append_lt n bytes (stream events) h) refl,
              sym (drop-append_le n bytes (stream events) (omega (arith, h))),
              (omega (arith, h, length-drop n bytes), alive.1),
            )
        | inr all ↦
            let k = n - length bytes in
            let size : n ≡ length bytes + k = ground (arith, all) in
            let ih =
              recv_exact_lem events k alive.1
                (omega (arith, enough, size, length-append bytes (stream events))) in
            (
              ih.0,
              rw (some_asked, full, all, ih.1, take-append_ge n k bytes (stream events) size) refl,
              ih.2
                  ∙ sym (
                      ap (λ j. drop j (bytes ++ stream events)) size
                      ∙ (drop_add (length bytes) k (bytes ++ stream events)
                          ∙ ap (drop k) (drop-append (length bytes) bytes (stream events) refl))),
              ih.3,
            )
      ]
]

-- The first bytes of a stream that is known.
recv_known :
    (events : List RecvEvent) (s rest : List ℕ)
    → IsAlive events
    → stream events ≡ s ++ rest
    → (left : List RecvEvent) × (recv_exact (length s) events ≡ some (s, left))
      × (stream left ≡ rest)
      × IsAlive left
recv_known events s rest alive e =
    let got =
      recv_exact_lem events (length s) alive (omega (arith, ap length e, length-append s rest)) in
    (
      got.0,
      got.1 ∙ ap (λ z. some (z, got.0)) (ap (take (length s)) e ∙ take-append s rest),
      got.2 ∙ (ap (drop (length s)) e ∙ drop-append (length s) s rest refl),
      got.3,
    )

abbrev refused : ℕ → ℕ → Bool
refused max_payload len = ltb len 1 || (not (max_payload == 0) && ltb max_payload len)

-- Over a connection that is alive, however the system cuts the bytes and interrupts the calls, a
-- frame is received that has arrived, where it is at most 2^32 - 1 bytes after the length and
-- within the limit (0 is none), and what arrived after it is left.
pub recv_frame-frame_bytes :
    (max_payload : ℕ) (type : MsgType) (body rest : List ℕ) (events : List RecvEvent)
    → length body + 1 < 2 ^ 32
    → (max_payload ≡ 0) ⊎ (length body + 1 ≤ max_payload)
    → IsAlive events
    → stream events ≡ frame_bytes type body ++ rest
    → (left : List RecvEvent) × (recv_frame max_payload events ≡ some ((msg_code type, body), left))
      × (stream left ≡ rest)
      × IsAlive left
unfolding recv_frame
recv_frame-frame_bytes max_payload type body rest events small fits alive e =
    let n = 1 + length body in
    let len : to_u32 (1 + to_u32 (length body)) ≡ n = omega (arith, small) in
    let header : stream events ≡ be_bytes 4 n ++ (msg_code type ∷ (body ++ rest)) =
      e
      ∙ (ap (λ k. (be_bytes 4 k ++ (msg_code type ∷ body)) ++ rest) len
          ∙ append_assoc (be_bytes 4 n) _ rest) in
    let one = recv_known events (be_bytes 4 n) _ alive header in
    let two = recv_known one.0 (msg_code type ∷ body) rest one.3 one.2 in
    let accepted : refused max_payload n ≡ false = allowed fits in
    let value : be_value 0 (be_bytes 4 n) ≡ n = be_value_4 n (omega (arith, small)) in
    let size : suc (length body) ≡ n = omega arith in
    let first : recv_exact 4 events ≡ some (be_bytes 4 n, one.0) =
      ap (λ k. recv_exact k events) (sym (length-be_bytes 4 n)) ∙ one.1 in
    let second : recv_exact n one.0 ≡ some (msg_code type ∷ body, two.0) =
      ap (λ k. recv_exact k one.0) (sym size) ∙ two.1 in
    (two.0, rw (first, value, accepted, second) refl, two.2, two.3)
  where
    allowed :
        (max_payload ≡ 0) ⊎ (length body + 1 ≤ max_payload)
        → refused max_payload (1 + length body) ≡ false
    allowed (inl none_set) = ground (arith, none_set)
    allowed (inr inside) = ground (arith, inside)

-- A length of zero, or beyond the limit that is set, is refused, whatever follows.
pub recv_frame-refused :
    (max_payload n : ℕ) (rest : List ℕ) (events : List RecvEvent)
    → n < 2 ^ 32
    → (n ≡ 0) ⊎ ((0 < max_payload) × (max_payload < n))
    → IsAlive events
    → stream events ≡ be_bytes 4 n ++ rest
    → recv_frame max_payload events ≡ none
unfolding recv_frame
recv_frame-refused max_payload n rest events small bad alive e =
    let one = recv_known events (be_bytes 4 n) rest alive e in
    let first : recv_exact 4 events ≡ some (be_bytes 4 n, one.0) =
      ap (λ k. recv_exact k events) (sym (length-be_bytes 4 n)) ∙ one.1 in
    let forbidden : refused max_payload n ≡ true = denied bad in
    rw (first, be_value_4 n small, forbidden) refl
  where
    denied : (n ≡ 0) ⊎ ((0 < max_payload) × (max_payload < n)) → refused max_payload n ≡ true
    denied (inl nothing) = ground (arith, nothing)
    denied (inr big) = ground (arith, big)

take-drop : (n : ℕ) (xs : List ℕ) → take n xs ++ drop n xs ≡ xs
take-drop zero xs = refl
take-drop (suc n) [] = refl
take-drop (suc n) (x ∷ xs) = ap (λ ys. x ∷ ys) (take-drop n xs)

-- What reached the system when the loop of send_exact ends well is the whole buffer, and otherwise
-- a part of it from the start on.
pub send_exact_lem :
    (events : List SendEvent) (buf : List ℕ)
    → (unsent : List ℕ) × (buf ≡ (send_exact buf events).0 ++ unsent)
      × ((send_exact buf events).1 ≡ some true → unsent ≡ [])
unfolding send_exact
send_exact_lem events [] = ([], refl, λ e. refl)
send_exact_lem [] (b ∷ buf) = (b ∷ buf, refl, λ e. absurd (cc e))
send_exact_lem (SendEvent.interrupted ∷ events) (b ∷ buf) = send_exact_lem events (b ∷ buf)
send_exact_lem (SendEvent.failed ∷ events) (b ∷ buf) = (b ∷ buf, refl, λ e. absurd (cc e))
send_exact_lem (SendEvent.sent n ∷ events) (b ∷ buf) =
    let ih = send_exact_lem events (drop n (b ∷ buf)) in
    (
      ih.0,
      sym (take-drop n (b ∷ buf))
          ∙ (ap (λ z. take n (b ∷ buf) ++ z) ih.1 ∙ sym (append_assoc (take n (b ∷ buf)) _ ih.0)),
      ih.2,
    )

-- A frame whose sending ended well is received: where its bytes, and then others, arrive over a
-- connection that is alive, cut in any way, recv_frame gives its type and its body and leaves the
-- others, for a body that is at most 2^32 - 2 bytes and within the limit (0 is none).
pub recv_frame-send_frame :
    (max_payload : ℕ) (type : MsgType) (body rest : List ℕ) (sends : List SendEvent)
    (events : List RecvEvent)
    → length body + 1 < 2 ^ 32
    → (max_payload ≡ 0) ⊎ (length body + 1 ≤ max_payload)
    → (send_frame type body sends).1 ≡ some true
    → IsAlive events
    → stream events ≡ (send_frame type body sends).0 ++ rest
    → (left : List RecvEvent) × (recv_frame max_payload events ≡ some ((msg_code type, body), left))
      × (stream left ≡ rest)
      × IsAlive left
unfolding send_frame
recv_frame-send_frame max_payload type body rest sends events small fits done alive e =
    let sent = send_exact_lem sends (frame_bytes type body) in
    let whole : (send_exact (frame_bytes type body) sends).0 ≡ frame_bytes type body = sym (
      sent.1
      ∙ (ap (λ z. (send_exact (frame_bytes type body) sends).0 ++ z) (sent.2 done)
          ∙ append-nil _)) in
    recv_frame-frame_bytes max_payload type body rest events small fits alive
      (e ∙ ap (λ z. z ++ rest) whole)
