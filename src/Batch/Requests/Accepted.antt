-- ===== src/Batch/Requests/Accepted.antt =====
-- Which batches the server runs, and that it runs those of the client.
use orpc.Prelude.{
  ℕ, String, true, false, Option, none, some, List, [], ◌∷◌, map, ◌≡◌, ◌↔◌, refl, suc, ap, subst,
  arith, any, ◌≤◌, ◌&&◌, ◌||◌, ltb, length, All,
}
use orpc.Batch.Groups.{Method, get, query, unsafe, is_get, is_query, Request, batch, BatchOptions}
use orpc.Batch.Groups.Carrying.{fits, IsCarriedBy, IsSound}
use orpc.Batch.Requests.{
  PeerMessage, request_message, other_message, Payload, missing, unreadable, invalid, messages,
  BatchRequest, Mode, runs, mode_of, is_foreign, check_messages, judge, routing_interceptor,
}

-- A batch by a safe method holds no request by another.
abbrev pub IsSafe : Method → PeerMessage → Type 0
IsSafe get (request_message m r) = m ≡ get
IsSafe query (request_message m r) = m ≡ query
IsSafe (unsafe a) (request_message m r) = Unit {0}
IsSafe outer (other_message r) = Unit {0}

IsSafe-messages :
    (outer : Method) (list : List PeerMessage)
    → ((is_get outer || is_query outer) && any (is_foreign outer) list) ≡ false
    → All (IsSafe outer) list
IsSafe-messages outer [] h = tt
IsSafe-messages get (request_message get r ∷ list) h = (refl, IsSafe-messages get list h)
IsSafe-messages get (request_message query r ∷ list) h = absurd (cc)
IsSafe-messages get (request_message (unsafe a) r ∷ list) h = absurd (cc)
IsSafe-messages get (other_message r ∷ list) h = (tt, IsSafe-messages get list h)
IsSafe-messages query (request_message get r ∷ list) h = absurd (cc)
IsSafe-messages query (request_message query r ∷ list) h = (refl, IsSafe-messages query list h)
IsSafe-messages query (request_message (unsafe a) r ∷ list) h = absurd (cc)
IsSafe-messages query (other_message r ∷ list) h = (tt, IsSafe-messages query list h)
IsSafe-messages (unsafe a) (request_message m r ∷ list) h =
    (tt, IsSafe-messages (unsafe a) list refl)
IsSafe-messages (unsafe a) (other_message r ∷ list) h = (tt, IsSafe-messages (unsafe a) list refl)

IsSafe-messages_back :
    (outer : Method) (list : List PeerMessage)
    → All (IsSafe outer) list
    → ((is_get outer || is_query outer) && any (is_foreign outer) list) ≡ false
IsSafe-messages_back get [] h = refl
IsSafe-messages_back query [] h = refl
IsSafe-messages_back (unsafe a) list h = refl
IsSafe-messages_back get (request_message m r ∷ list) h =
    ground (arith, IsSafe-messages_back get list h.1)
IsSafe-messages_back get (other_message r ∷ list) h = IsSafe-messages_back get list h.1
IsSafe-messages_back query (request_message m r ∷ list) h =
    ground (arith, IsSafe-messages_back query list h.1)
IsSafe-messages_back query (other_message r ∷ list) h = IsSafe-messages_back query list h.1

-- what the server demands of a batch that it runs
abbrev pub IsAcceptable : ℕ → BatchRequest → Mode → List PeerMessage → Type 0
IsAcceptable max_size r mode list =
    (header : String) × (r.orpc_batch ≡ some header)
    × (mode ≡ mode_of header)
    × (r.payload ≡ messages list)
    × (length list ≤ max_size)
    × All (IsSafe r.method) list

check_messages_lem :
    (max_size : ℕ) (mode mode' : Mode) (outer : Method) (list list' : List PeerMessage)
    → check_messages max_size mode outer list ≡ runs mode' list'
    → (mode' ≡ mode) × (list ≡ list') × (length list ≤ max_size) × All (IsSafe outer) list
unfolding check_messages
check_messages_lem max_size mode mode' outer list list' h =
    ground (arith, IsSafe-messages outer list)

abbrev IsAccepted : ℕ → Method → Option String → Payload → Mode → List PeerMessage → Type 0
IsAccepted max_size method o payload mode list =
    (header : String) × (o ≡ some header)
    × (mode ≡ mode_of header)
    × (payload ≡ messages list)
    × (length list ≤ max_size)
    × All (IsSafe method) list

judge-IsAccepted :
    (max_size : ℕ) (method : Method) (o : Option String) (payload : Payload) (mode : Mode)
    (list : List PeerMessage)
    → judge max_size method o payload ≡ runs mode list
    → IsAccepted max_size method o payload mode list
unfolding judge
judge-IsAccepted max_size method none payload mode list h = absurd (cc)
judge-IsAccepted max_size method (some header) missing mode list h = absurd (cc)
judge-IsAccepted max_size method (some header) unreadable mode list h = absurd (cc)
judge-IsAccepted max_size method (some header) invalid mode list h = absurd (cc)
judge-IsAccepted max_size method (some header) (messages list') mode list h =
    let (same, equal, fits, safe) =
      check_messages_lem max_size (mode_of header) mode method list' list h in
    (
      header,
      refl,
      same,
      ap messages equal,
      subst (λ (l : List PeerMessage). length l ≤ max_size) equal fits,
      subst (All (IsSafe method)) equal safe,
    )

check_messages_accepts :
    (max_size : ℕ) (mode : Mode) (outer : Method) (list : List PeerMessage)
    → length list ≤ max_size
    → All (IsSafe outer) list
    → check_messages max_size mode outer list ≡ runs mode list
unfolding check_messages
check_messages_accepts max_size mode outer list l a =
    let safe = IsSafe-messages_back outer list a in
    let short : ltb max_size (length list) ≡ false = ground arith in
    rw (safe, short, check_messages) refl

-- The server runs a request as a batch in a mode, with messages, exactly if it has the batch header,
-- which names the mode, its payload is these messages, they are no more than allowed, and none of them is
-- a request by another method than the batch, if the batch is a GET or a QUERY.
pub routing_interceptor_iff :
    (max_size : ℕ) (r : BatchRequest) (mode : Mode) (list : List PeerMessage)
    → (routing_interceptor max_size r ≡ runs mode list) ↔ IsAcceptable max_size r mode list
unfolding routing_interceptor judge
routing_interceptor_iff max_size r mode list = (
  λ h. judge-IsAccepted max_size r.method r.orpc_batch r.payload mode list h,
  λ (header, e, m, p, l, a).
      rw (e, p, m, judge) (check_messages_accepts max_size (mode_of header) r.method list l a),
)

-- the messages of a batch that the client sends
abbrev pub messages_for : List Request → List PeerMessage
messages_for items = map (λ (r : Request). request_message r.method r.promise) items

is_get-eq : (m : Method) → is_get m ≡ true → m ≡ get
is_get-eq get h = refl
is_get-eq query h = absurd (cc)
is_get-eq (unsafe a) h = absurd (cc)

is_query-eq : (m : Method) → is_query m ≡ true → m ≡ query
is_query-eq get h = absurd (cc)
is_query-eq query h = refl
is_query-eq (unsafe a) h = absurd (cc)

carried-IsSafe :
    (m : Method) (items : List Request)
    → All (IsCarriedBy m) items
    → All (IsSafe m) (messages_for items)
carried-IsSafe m [] h = tt
carried-IsSafe get (r ∷ items) h = (is_get-eq r.method h.0, carried-IsSafe get items h.1)
carried-IsSafe query (r ∷ items) h = (is_query-eq r.method h.0, carried-IsSafe query items h.1)
carried-IsSafe (unsafe a) (r ∷ items) h = (tt, carried-IsSafe (unsafe a) items h.1)

length-map : (items : List Request) → length (messages_for items) ≡ length items
length-map [] = refl
length-map (r ∷ items) = ap suc (length-map items)

-- A batch that the client sends is run by the server, in the mode and with all the requests of it, if
-- the server allows as many messages.
pub batch_is_run :
    (o : BatchOptions) (m : Method) (items : List Request) (max_size : ℕ) (header : String)
    → IsSound o (batch m items)
    → length items ≤ max_size
    → routing_interceptor max_size
        (record { orpc_batch = some header; method = m; payload = messages (messages_for items) })
      ≡ runs (mode_of header) (messages_for items)
batch_is_run o m items max_size header sound l =
    (routing_interceptor_iff max_size
        (record { orpc_batch = some header; method = m; payload = messages (messages_for items) })
        (mode_of header) (messages_for items)).1
      (header, refl, refl, refl, omega (arith, length-map items), carried-IsSafe m items sound.0)
