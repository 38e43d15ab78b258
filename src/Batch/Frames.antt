-- ===== src/Batch/Frames.antt =====
-- The frames of a batch response: packages/server/src/plugins/batch.ts writes them, and
-- `decodeLengthPrefixedStream` and `decodeLengthPrefixedBlob` of packages/client/src/plugins/batch.ts
-- read them. A byte is a number; the encoding of one message is of the peer library.
pub mod Chunks
pub mod Sending
mod Tests
use orpc.Prelude.{
  ℕ, zero, suc, ◌+◌, ◌*◌, ◌/◌, ◌%◌, Bool, true, false, Option, none, some, List, [], ◌∷◌, ◌++◌, ltb,
  ◌==◌, drop, length, if◌then◌else◌,
}

-- `encodePeerMessage`, and `decodePeerMessage` with the test that a server sends such a message
pub record MessageCodec (M : Type 0) : Type 0 where
  pub encode : M → List ℕ
  pub decode : List ℕ → Option M

abbrev pub take : ℕ → List ℕ → List ℕ
take zero xs = []
take (suc n) [] = []
take (suc n) (x ∷ xs) = x ∷ take n xs

-- `setUint32(0, n, false)`
abbrev pub set_uint32 : ℕ → List ℕ
set_uint32 n = n / 16777216 % 256 ∷ n / 65536 % 256 ∷ n / 256 % 256 ∷ n % 256 ∷ []

-- `getUint32(0, false)`
abbrev pub get_uint32 : ℕ → ℕ → ℕ → ℕ → ℕ
get_uint32 a b c d = ((a * 256 + b) * 256 + c) * 256 + d

-- what stands first in the buffer
pub data Frame : Type 0 where
  keep_alive : List ℕ → Frame
  whole : List ℕ → List ℕ → Frame
  partial : Frame

abbrev pub framed : ℕ → List ℕ → Frame
framed n rest =
    if n == 0
    then keep_alive rest
    else if ltb (length rest) n
    then partial
    else whole (take n rest) (drop n rest)

unfoldable pub frame : List ℕ → Frame
frame (a ∷ b ∷ c ∷ d ∷ rest) = framed (get_uint32 a b c d) rest
frame _ = partial

-- The messages that the peer is given, and the bytes that are left; `none` is a throw.
pub record Decoded (M : Type 0) : Type 0 where
  pub messages : List M
  pub left : Option (List ℕ)

module _ {M : Type 0} where
  abbrev pub behind : List M → Decoded M → Decoded M
  behind ms d = record d { messages = ms ++ d.messages }

  abbrev pub stop : Option (List ℕ) → Decoded M
  stop left = record { messages = []; left = left }

  module _ (codec : MessageCodec M) where
    -- `while (buffer.length >= 4)`; every round takes at least four bytes
    unfoldable pub drain : ℕ → List ℕ → Decoded M
    unfolding frame
    drain zero buffer = stop (some buffer)
    drain (suc fuel) buffer = elim (frame buffer) [
      | partial ↦ stop (some buffer)
      | keep_alive rest ↦ drain fuel rest
      | whole bytes rest ↦ elim (codec.decode bytes) [
        | none ↦ stop none
        | some m ↦ behind (m ∷ []) (drain fuel rest)
      ]
    ]

    unfoldable pub drain_all : List ℕ → Decoded M
    unfolding drain
    drain_all buffer = drain (length buffer) buffer

    -- `while (true)`, from a buffer: each read gives a chunk, and the last one none
    unfoldable pub decode_from : List ℕ → List (List ℕ) → Decoded M
    unfolding drain_all
    decode_from buffer [] = drain_all buffer
    decode_from buffer (chunk ∷ chunks) =
        let d = drain_all (buffer ++ chunk) in
        elim d.left [ none ↦ d | some left ↦ behind d.messages (decode_from left chunks) ]

    unfoldable pub decode_length_prefixed_stream : List (List ℕ) → Decoded M
    unfolding decode_from
    decode_length_prefixed_stream chunks = decode_from [] chunks

    abbrev pub decode_message : Option M → Decoded M → Decoded M
    decode_message none later = stop none
    decode_message (some m) later = behind (m ∷ []) later

    -- `while (offset < buffer.length)`, on the bytes behind the offset
    unfoldable pub decode_blob_from : ℕ → List ℕ → Decoded M
    decode_blob_from zero buffer = stop (some buffer)
    decode_blob_from (suc fuel) [] = stop (some [])
    decode_blob_from (suc fuel) (a ∷ b ∷ c ∷ d ∷ rest) =
        let n = get_uint32 a b c d in
        let later = decode_blob_from fuel (drop n rest) in
        if ltb (length rest) n then stop none else decode_message (codec.decode (take n rest)) later
    decode_blob_from (suc fuel) _ = stop none

    unfoldable pub decode_length_prefixed_blob : List ℕ → Decoded M
    unfolding decode_blob_from
    decode_length_prefixed_blob buffer = decode_blob_from (suc (length buffer)) buffer

    -- What the server sends: a message, or a frame of no bytes when the stream is idle.
    abbrev pub length_prefixed : M → List ℕ
    length_prefixed m = set_uint32 (length (codec.encode m)) ++ codec.encode m

-- what the server enqueues
pub data Sent (M : Type 0) : Type 0 where
  message : M → Sent M
  idle : Sent M

module _ {M : Type 0} (codec : MessageCodec M) where
  abbrev pub sent_bytes : List (Sent M) → List ℕ
  sent_bytes [] = []
  sent_bytes (message m ∷ sent) = length_prefixed codec m ++ sent_bytes sent
  sent_bytes (idle ∷ sent) = set_uint32 0 ++ sent_bytes sent

  -- the body of a buffered response
  abbrev pub blob_bytes : List M → List ℕ
  blob_bytes [] = []
  blob_bytes (m ∷ ms) = length_prefixed codec m ++ blob_bytes ms
