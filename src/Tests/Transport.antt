-- ===== src/Tests/Transport.antt =====
-- Examples for the frames and the messages.
use ttrpc.Prelude.{
  ℕ, ◌≤◌, map, take, ◌+◌, ◌≡◌, refl, none, some, List, [], ◌∷◌, ◌++◌, arith, nat_eq, string_eq,
  length,
}
use ttrpc.Channel.Broken.{limited}
use ttrpc.Channel.Cut.{arrived, cut_connection}
use ttrpc.Errors.{broken_pipe, unexpected_eof, eof, exceeded}
use ttrpc.Frame.{MessageHeader, encode_header, decode_header}
use ttrpc.Channel.{read_message_header, read_full, recv_body, recv_payload, Reader, recv, received}
use ttrpc.Channel.Recv.{IsMessage, recv_takes, recv_oversized_lem}
use ttrpc.Channel.Sequence.{Packet, send_all, recv_all, arrival, after_last, recv_all-send_all}
use ttrpc.Tests.{length-zeros, zeros, open_writer, open_writer-IsOpen}

abbrev packets : List Packet
packets =
    record { stream_id = 1; type = 1; flags = 0; payload = some (7 ∷ 8 ∷ []) }
    ∷ record { stream_id = 3; type = 3; flags = 5; payload = none }
    ∷ []

recv_all-send_all_example :
    recv_all 3 (record { pending = (send_all packets open_writer).conn.wire; fault = eof })
    ≡ arrival (record { stream_id = 1; type = 1; flags = 0; payload = some (7 ∷ 8 ∷ []) })
      ∷ arrival (record { stream_id = 3; type = 3; flags = 5; payload = none })
      ∷ after_last eof
      ∷ []
recv_all-send_all_example = recv_all-send_all packets open_writer eof open_writer-IsOpen refl refl (
  (omega arith, omega arith, omega arith, omega arith),
  ((omega arith, omega arith, omega arith, omega arith), tt),
)

-- A response of two bytes on stream 5, and three bytes more.
abbrev input : Reader
input = record {
  pending = 0 ∷ 0 ∷ 0 ∷ 2 ∷ 0 ∷ 0 ∷ 0 ∷ 5 ∷ 2 ∷ 0 ∷ 9 ∷ 9 ∷ 1 ∷ 2 ∷ 3 ∷ [];
  fault = eof;
}

input-error : (recv input).0.error ≡ none
unfolding recv read_message_header read_full recv_body recv_payload decode_header
input-error = refl

recv_takes_example :
    IsMessage (recv input).0
    × (15 ≡ 10 + (recv input).0.header.size + length (recv input).1.pending)
recv_takes_example = recv_takes input input-error

abbrev big : MessageHeader
big = record { size = 4194305; stream_id = 1; type = 1; flags = 0 }

recv_oversized_example :
    recv (record { pending = encode_header big ++ (zeros 4194305 ++ 5 ∷ 6 ∷ []); fault = eof })
    ≡ (received big none (some (exceeded 4194305)), record { pending = 5 ∷ 6 ∷ []; fault = eof })
recv_oversized_example =
    recv_oversized_lem big (zeros 4194305) (5 ∷ 6 ∷ []) eof
      (record {
        size_range = omega arith;
        stream_id_range = omega arith;
        type_range = omega arith;
        flags_range = omega arith;
      })
      (omega arith) (length-zeros 4194305)

-- A connection that breaks in the middle of the second message's header
cut_connection_example :
    (k : ℕ) × (k ≤ 2)
    × (arrived 3 (record {
      pending = (send_all packets (limited (some (15, broken_pipe)))).conn.wire;
      fault = unexpected_eof;
    })
        ≡ map arrival (take k packets))
cut_connection_example = cut_connection packets (some (15, broken_pipe)) 3 unexpected_eof (
  (omega arith, omega arith, omega arith, omega arith),
  ((omega arith, omega arith, omega arith, omega arith), tt),
)
