-- ===== src/Proto/Frames.antt =====
-- proto/proto.h: frames over a socket. What the calls of ::recv and ::send return is a list of
-- events, an argument: a ::recv gives some of the bytes that have arrived, at most as many as it is
-- asked for, and the rest of them stay. At the end of the events of ::recv the peer has closed; at
-- the end of those of ::send the call waits.
pub mod Laws
use my_simple_db.Prelude.{
  ℕ, zero, suc, ◌+◌, ◌-◌, ◌%◌, ◌^◌, Bool, true, false, not, ◌&&◌, ◌||◌, Option, none, some, List,
  [], ◌∷◌, ◌++◌, ◌==◌, ltb, if◌then◌else◌, length, take, drop, get_or,
}
use my_simple_db.Proto.{◌>>=◌, Taken, be_bytes, be_value, to_u32, guard}

abbrev pub frame_header_size : ℕ
frame_header_size = 4

abbrev pub max_request_payload : ℕ
max_request_payload = 268435456

pub data MsgType : Type 0 where
  query ok error result_set_head result_set_batch result_set_end notice : MsgType

abbrev pub msg_code : MsgType → ℕ
msg_code MsgType.query = 1
msg_code MsgType.ok = 2
msg_code MsgType.error = 3
msg_code MsgType.result_set_head = 4
msg_code MsgType.result_set_batch = 5
msg_code MsgType.result_set_end = 6
msg_code MsgType.notice = 7

-- EINTR, another error, and bytes that have arrived.
pub data RecvEvent : Type 0 where
  interrupted failed : RecvEvent
  arrived : List ℕ → RecvEvent

abbrev pub Received : Type 0 → Type 0
Received A = Option (A × List RecvEvent)

-- `n` is the number of bytes that are still to come.
unfoldable pub recv_exact : ℕ → List RecvEvent → Received (List ℕ)
recv_exact n [] = guard (n == 0) (some ([], []))
recv_exact n (RecvEvent.interrupted ∷ events) =
    let rest = recv_exact n events in
    if n == 0 then some ([], RecvEvent.interrupted ∷ events) else rest
recv_exact n (RecvEvent.failed ∷ events) = guard (n == 0) (some ([], RecvEvent.failed ∷ events))
recv_exact n (RecvEvent.arrived bytes ∷ events) =
    let rest = recv_exact (n - length bytes) events in
    if n == 0
    then some ([], RecvEvent.arrived bytes ∷ events)
    else if length bytes == 0
    then none
    else if ltb n (length bytes)
    then some (take n bytes, RecvEvent.arrived (drop n bytes) ∷ events)
    else rest >>= λ r. some (bytes ++ r.0, r.1)

-- The type byte, which can be any, and the body.
unfoldable pub recv_frame : ℕ → List RecvEvent → Received (ℕ × List ℕ)
recv_frame max_payload events = do
  len_net ← recv_exact frame_header_size events
  let len = be_value 0 len_net.0
  guard (not (ltb len 1 || (not (max_payload == 0) && ltb max_payload len))) (do
    payload ← recv_exact len len_net.1
    some ((get_or payload.0 0 0, drop 1 payload.0), payload.1))

-- EINTR, another error, and the number of bytes that the system took, at most what it was given.
pub data SendEvent : Type 0 where
  interrupted failed : SendEvent
  sent : ℕ → SendEvent

-- What has reached the system, and the result, where the loop ends.
unfoldable pub send_exact : List ℕ → List SendEvent → List ℕ × Option Bool
send_exact [] events = ([], some true)
send_exact (b ∷ buf) [] = ([], none)
send_exact (b ∷ buf) (SendEvent.interrupted ∷ events) = send_exact (b ∷ buf) events
send_exact (b ∷ buf) (SendEvent.failed ∷ events) = ([], some false)
send_exact (b ∷ buf) (SendEvent.sent n ∷ events) =
    let rest = send_exact (drop n (b ∷ buf)) events in (take n (b ∷ buf) ++ rest.0, rest.1)

-- The length is a uint32_t.
abbrev pub frame_bytes : MsgType → List ℕ → List ℕ
frame_bytes type body = be_bytes 4 (to_u32 (1 + to_u32 (length body))) ++ (msg_code type ∷ body)

unfoldable pub send_frame : MsgType → List ℕ → List SendEvent → List ℕ × Option Bool
send_frame type body events = send_exact (frame_bytes type body) events
