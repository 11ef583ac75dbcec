-- ===== src/Tests/Proto.antt =====
-- Frames, result sets and messages.
use my_simple_db.Prelude.{ℕ, ◌≡◌, ◌↔◌, ◌≤◌, refl, arith, true, some, none, List, [], ◌∷◌, inr}
use my_simple_db.Prelude.Int.{negsuc}
use my_simple_db.Common.{ErrCode}
use my_simple_db.Proto.{CellVal, be_bytes}
use my_simple_db.Proto.Results.{encode_rs_head, decode_rs_head, encode_rs_batch, decode_rs_batch}
use my_simple_db.Proto.Results.Laws.{decode_rs_head-encode_rs_head, decode_rs_batch-encode_rs_batch}
use my_simple_db.Proto.Messages.{
  CommandTag, encode_command, decode_command, encode_error, decode_error, encode_notice,
  decode_notice,
}
use my_simple_db.Proto.Messages.Laws.{
  decode_command-encode_command, decode_error-encode_error, decode_notice-encode_notice,
}
use my_simple_db.Proto.Frames.{MsgType, RecvEvent, SendEvent, recv_frame, send_frame, send_exact}
use my_simple_db.Proto.Frames.Laws.{stream, IsAlive, recv_frame-send_frame, recv_frame-refused}

-- "id" and an empty name
abbrev names : List (List ℕ)
names = (105 ∷ 100 ∷ []) ∷ [] ∷ []

decode_rs_head-encode_rs_head_example : decode_rs_head (encode_rs_head names) ≡ some names
decode_rs_head-encode_rs_head_example =
    decode_rs_head-encode_rs_head names (omega arith) (omega arith, (omega arith, tt))

abbrev batch : List (List CellVal)
batch =
    (CellVal.int64 (negsuc 4) ∷ CellVal.string (97 ∷ []) ∷ [])
    ∷ (CellVal.null ∷ CellVal.bool true ∷ [])
    ∷ []

decode_rs_batch-encode_rs_batch_example : decode_rs_batch (encode_rs_batch batch) 2 [] ≡ some batch
decode_rs_batch-encode_rs_batch_example =
    decode_rs_batch-encode_rs_batch 2 [] batch (omega arith)
      ((refl, (omega arith, (omega arith, tt))), ((refl, (tt, (tt, tt))), tt))

decode_command-encode_command_example :
    decode_command (encode_command CommandTag.update 300) ≡ some (CommandTag.update, 300)
decode_command-encode_command_example =
    decode_command-encode_command CommandTag.update 300 (omega arith)

decode_error-encode_error_example :
    decode_error (encode_error ErrCode.syntax_error (63 ∷ [])) ≡ some (22, 63 ∷ [])
decode_error-encode_error_example = decode_error-encode_error ErrCode.syntax_error (63 ∷ [])

decode_notice-encode_notice_example :
    (decode_notice (encode_notice 10 []) ≡ some (10, [])) ↔ (10 ≤ 9)
decode_notice-encode_notice_example = decode_notice-encode_notice 10 []

-- The frame 0 0 0 2 1 83, sent in two parts.
abbrev sends : List SendEvent
sends = SendEvent.sent 3 ∷ SendEvent.interrupted ∷ SendEvent.sent 9 ∷ []

abbrev events : List RecvEvent
events =
    RecvEvent.arrived (0 ∷ 0 ∷ [])
    ∷ RecvEvent.interrupted
    ∷ RecvEvent.arrived (0 ∷ 2 ∷ 1 ∷ 83 ∷ 0 ∷ [])
    ∷ []

sent_whole : send_frame MsgType.query (83 ∷ []) sends ≡ (0 ∷ 0 ∷ 0 ∷ 2 ∷ 1 ∷ 83 ∷ [], some true)
unfolding send_frame send_exact be_bytes
sent_whole = refl

recv_frame-send_frame_example :
    (left : List RecvEvent) × (recv_frame 100 events ≡ some ((1, 83 ∷ []), left))
    × (stream left ≡ 0 ∷ [])
    × IsAlive left
unfolding stream send_frame send_exact be_bytes
recv_frame-send_frame_example =
    recv_frame-send_frame 100 MsgType.query (83 ∷ []) (0 ∷ []) sends events (omega arith)
      (inr (omega arith)) refl (omega arith, (omega arith, tt)) refl

recv_frame-refused_example : recv_frame 1 events ≡ none
unfolding stream be_bytes
recv_frame-refused_example =
    recv_frame-refused 1 2 (1 ∷ 83 ∷ 0 ∷ []) events (omega arith) (inr (omega arith, omega arith))
      (omega arith, (omega arith, tt)) refl
