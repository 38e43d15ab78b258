-- ===== src/Batch/Frames/Tests.antt =====
-- The frames of a batch response on concrete messages.
use orpc.Prelude.{ℕ, Option, none, some, List, [], ◌∷◌, ◌≡◌, refl, arith}
use orpc.Batch.Frames.{
  MessageCodec, frame, drain, drain_all, decode_from, decode_length_prefixed_stream,
  decode_blob_from, decode_length_prefixed_blob, Sent, message, idle,
}
use orpc.Batch.Frames.Chunks.{concat, decode_length_prefixed_stream-eq-drain_all}
use orpc.Batch.Frames.Sending.{IsLawful, stream_round_trip}

frames : Unit {0}
unfolding frame drain drain_all decode_from decode_length_prefixed_stream decode_blob_from
    decode_length_prefixed_blob
frames = tt

-- a message is a number, which two bytes carry
abbrev decode : List ℕ → Option ℕ
decode (a ∷ b ∷ []) = some b
decode _ = none

abbrev codec : MessageCodec ℕ
codec = record { encode = λ m. 1 ∷ m ∷ []; decode = decode }

codec-IsLawful : IsLawful codec
codec-IsLawful = record {
  decodes = λ m. refl;
  has_bytes = λ m. omega arith;
  fits = λ m. omega arith;
}

abbrev sent : List (Sent ℕ)
sent = message 7 ∷ idle ∷ message 8 ∷ []

abbrev chunks : List (List ℕ)
chunks =
    (0 ∷ 0 ∷ [])
    ∷ (0 ∷ 2 ∷ 1 ∷ 7 ∷ 0 ∷ 0 ∷ [])
    ∷ []
    ∷ (0 ∷ 0 ∷ 0 ∷ 0 ∷ 0 ∷ 2 ∷ 1 ∷ [])
    ∷ (8 ∷ [])
    ∷ []

-- Bytes that are left are no error of a stream, but they are one of a blob.
frame_tests :
    (decode_length_prefixed_stream codec ((0 ∷ 0 ∷ 0 ∷ []) ∷ [])
      ≡ record { messages = []; left = some (0 ∷ 0 ∷ 0 ∷ []) })
    × (decode_length_prefixed_blob codec (0 ∷ 0 ∷ 0 ∷ []) ≡ record { messages = []; left = none })
    × (decode_length_prefixed_stream codec ((0 ∷ 0 ∷ 0 ∷ 1 ∷ 5 ∷ []) ∷ [])
        ≡ record { messages = []; left = none })
unfolding frames
frame_tests = (refl, refl, refl)

stream_round_trip_example :
    decode_length_prefixed_stream codec chunks ≡ record { messages = 7 ∷ 8 ∷ []; left = some [] }
stream_round_trip_example = stream_round_trip codec sent chunks codec-IsLawful refl

decode_stream_example :
    decode_length_prefixed_stream codec chunks ≡ drain_all codec (concat codec chunks)
decode_stream_example = decode_length_prefixed_stream-eq-drain_all codec chunks
