-- ===== src/Batch/Requests/Tests.antt =====
-- Concrete batch requests, from the client and from elsewhere.
use orpc.Prelude.{none, some, List, [], ◌∷◌, ◌≡◌, ◌↔◌, refl, arith}
use orpc.Batch.Groups.{Method, get, unsafe, Request, batch}
use orpc.Batch.Groups.Carrying.{IsSound}
use orpc.Batch.Groups.Tests.{call, options}
use orpc.Batch.Requests.{
  PeerMessage, request_message, messages, BatchRequest, buffered, passes_on, responds, runs,
  mode_of, check_messages, judge, routing_interceptor, raises, handle_individual_request,
}
use orpc.Batch.Requests.Accepted.{IsAcceptable, messages_for, routing_interceptor_iff, batch_is_run}

serving : Unit {0}
unfolding check_messages judge routing_interceptor handle_individual_request
serving = tt

abbrev list : List PeerMessage
list = request_message get 1 ∷ request_message (unsafe 4) 2 ∷ []

abbrev request : Method → List PeerMessage → BatchRequest
request m ms = record { orpc_batch = some "buffered"; method = m; payload = messages ms }

serving_tests :
    (routing_interceptor 10 (record (request get list) { orpc_batch = none }) ≡ passes_on)
    × (routing_interceptor 10 (request get list) ≡ responds 400)
    × (routing_interceptor 10 (request (unsafe 0) list) ≡ runs buffered list)
    × (routing_interceptor 1 (request (unsafe 0) list) ≡ responds 413)
    × (handle_individual_request (raises 3) ≡ (500, some 3))
unfolding serving
serving_tests = (refl, refl, refl, refl, refl)

routing_interceptor_iff_example :
    (routing_interceptor 10 (request (unsafe 0) list) ≡ runs buffered list)
    ↔ IsAcceptable 10 (request (unsafe 0) list) buffered list
routing_interceptor_iff_example = routing_interceptor_iff 10 (request (unsafe 0) list) buffered list

abbrev gets : List Request
gets = call 1 get 0 ∷ call 3 get 0 ∷ []

gets-IsSound : IsSound options (batch get gets)
gets-IsSound = ((refl, (refl, tt)), omega arith, 3, refl, omega arith, refl, refl)

batch_is_run_example :
    routing_interceptor 5 (record {
      orpc_batch = some "streaming";
      method = get;
      payload = messages (messages_for gets);
    })
    ≡ runs (mode_of "streaming") (messages_for gets)
batch_is_run_example = batch_is_run options get gets 5 "streaming" gets-IsSound (omega arith)
