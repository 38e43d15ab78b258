-- ===== src/Batch/Frames/Sending.antt =====
-- What the server writes is what the client reads.
use orpc.Prelude.{
  ℕ, zero, suc, ◌/◌, ◌%◌, ◌<◌, false, some, List, [], ◌∷◌, ◌++◌, ◌≡◌, refl, ap, ◌∙◌, arith, ltb,
  ◌==◌, drop, length, length-append,
}
use orpc.Batch.Frames.{
  MessageCodec, take, get_uint32, whole, framed, frame, behind, drain, drain_all,
  decode_length_prefixed_stream, decode_blob_from, decode_length_prefixed_blob, length_prefixed,
  Sent, message, idle, sent_bytes, blob_bytes,
}
use orpc.Batch.Frames.Chunks.{
  concat, drain_all-keep_alive, drain_all-whole, decode_length_prefixed_stream-eq-drain_all,
}

-- What the program relies on of the encoding of messages: it decodes, is not empty, and its length is
-- a number of 32 bits.
pub record IsLawful {M : Type 0} (codec : MessageCodec M) : Type 0 where
  pub decodes : (m : M) → codec.decode (codec.encode m) ≡ some m
  pub has_bytes : (m : M) → 0 < length (codec.encode m)
  pub fits : (m : M) → length (codec.encode m) < 4294967296

abbrev pub messages_of : {M : Type 0} → List (Sent M) → List M
messages_of [] = []
messages_of (message m ∷ sent) = m ∷ messages_of sent
messages_of (idle ∷ sent) = messages_of sent

take-length : (xs ys : List ℕ) → take (length xs) (xs ++ ys) ≡ xs
take-length [] ys = refl
take-length (x ∷ xs) ys = ap (λ (l : List ℕ). x ∷ l) (take-length xs ys)

drop-length : (xs ys : List ℕ) → drop (length xs) (xs ++ ys) ≡ ys
drop-length [] ys = refl
drop-length (x ∷ xs) ys = drop-length xs ys

get-set_uint32 :
    (n : ℕ)
    → n < 4294967296
    → get_uint32 (n / 16777216 % 256) (n / 65536 % 256) (n / 256 % 256) (n % 256) ≡ n
get-set_uint32 n h = omega arith

framed-whole : (xs ys : List ℕ) → 0 < length xs → framed (length xs) (xs ++ ys) ≡ whole xs ys
framed-whole xs ys h =
    let present : (length xs == 0) ≡ false = ground arith in
    let complete : ltb (length (xs ++ ys)) (length xs) ≡ false =
      ground (arith, length-append xs ys) in
    rw (present, complete, take-length xs ys, drop-length xs ys) refl

module _ {M : Type 0} (codec : MessageCodec M) (lawful : IsLawful codec) where
  frame-length_prefixed :
      (m : M) (ys : List ℕ) → frame (length_prefixed codec m ++ ys) ≡ whole (codec.encode m) ys
  unfolding frame
  frame-length_prefixed m ys =
      rw (get-set_uint32 (length (codec.encode m)) (lawful.fits m))
        (framed-whole (codec.encode m) ys (lawful.has_bytes m))

  drain_all-sent_bytes :
      (sent : List (Sent M))
      → drain_all codec (sent_bytes codec sent)
        ≡ record { messages = messages_of sent; left = some [] }
  unfolding drain_all drain
  drain_all-sent_bytes [] = refl
  drain_all-sent_bytes (message m ∷ sent) =
      drain_all-whole codec (sent_bytes codec (message m ∷ sent)) (codec.encode m)
        (sent_bytes codec sent) m (frame-length_prefixed m (sent_bytes codec sent))
        (omega (arith, length-append (codec.encode m) (sent_bytes codec sent))) (lawful.decodes m)
      ∙ ap (behind (m ∷ [])) (drain_all-sent_bytes sent)
  drain_all-sent_bytes (idle ∷ sent) =
      drain_all-keep_alive codec (sent_bytes codec (idle ∷ sent)) (sent_bytes codec sent)
        (unfold frame in refl) (omega arith)
      ∙ drain_all-sent_bytes sent

-- If the encoding of messages is lawful: a streamed batch response, with keep-alive frames anywhere
-- between its messages and cut into chunks anywhere, decodes to the messages that the server sent, in
-- order, with no error and no byte left.
pub stream_round_trip :
    {M : Type 0} (codec : MessageCodec M) (sent : List (Sent M)) (chunks : List (List ℕ))
    → IsLawful codec
    → concat codec chunks ≡ sent_bytes codec sent
    → decode_length_prefixed_stream codec chunks
      ≡ record { messages = messages_of sent; left = some [] }
stream_round_trip codec sent chunks lawful h =
    decode_length_prefixed_stream-eq-drain_all codec chunks
    ∙ ap (drain_all codec) h
    ∙ drain_all-sent_bytes codec lawful sent

decode_blob_from-blob_bytes :
    {M : Type 0} (codec : MessageCodec M) (lawful : IsLawful codec) (fuel : ℕ) (ms : List M)
    → length (blob_bytes codec ms) < fuel
    → decode_blob_from codec fuel (blob_bytes codec ms) ≡ record { messages = ms; left = some [] }
unfolding decode_blob_from
decode_blob_from-blob_bytes codec lawful zero ms h = absurd (omega arith)
decode_blob_from-blob_bytes codec lawful (suc fuel) [] h = refl
decode_blob_from-blob_bytes codec lawful (suc fuel) (m ∷ ms) h =
    let bytes = codec.encode m in
    let later = blob_bytes codec ms in
    let complete : ltb (length (bytes ++ later)) (length bytes) ≡ false =
      ground (arith, length-append bytes later) in
    let ih =
      decode_blob_from-blob_bytes codec lawful fuel ms (omega (arith, length-append bytes later)) in
    rw
      (
        get-set_uint32 (length bytes) (lawful.fits m),
        complete,
        take-length bytes later,
        drop-length bytes later,
        lawful.decodes m,
        ih,
      )
      refl

-- If the encoding of messages is lawful: the body of a buffered batch response with binary messages
-- decodes to the messages that the server put into it, in order.
pub blob_round_trip :
    {M : Type 0} (codec : MessageCodec M) (ms : List M)
    → IsLawful codec
    → decode_length_prefixed_blob codec (blob_bytes codec ms)
      ≡ record { messages = ms; left = some [] }
unfolding decode_length_prefixed_blob
blob_round_trip codec ms lawful =
    decode_blob_from-blob_bytes codec lawful (suc (length (blob_bytes codec ms))) ms (omega arith)
