-- ===== src/Batch/Requests.antt =====
-- What packages/server/src/plugins/batch.ts does with a request: whether it is a batch, whether it is
-- refused, and the response to one of its subrequests. The message format is of the peer library.
pub mod Accepted
mod Tests
use orpc.Prelude.{
  ℕ, String, Bool, true, false, Option, none, some, List, [], ◌∷◌, any, not, ◌&&◌, ◌||◌, ltb, ◌==◌,
  str_eq, length, if◌then◌else◌,
}
use orpc.Batch.Groups.{Method, get, query, unsafe, is_get, is_query}

-- `ClientPeerSendMessage`: a request with the method of its subrequest, or something else
pub data PeerMessage : Type 0 where
  request_message : Method → ℕ → PeerMessage
  other_message : ℕ → PeerMessage

-- what the `data` parameter or the body gives
pub data Payload : Type 0 where
  -- there is no `data` parameter, or it is empty
  missing : Payload
  -- the parameter is no JSON, or the body cannot be read
  unreadable : Payload
  -- it is no array, or holds something that is no message
  invalid : Payload
  messages : List PeerMessage → Payload

pub record BatchRequest : Type 0 where
  -- `flattenStandardHeader(headers['orpc-batch'])`
  pub orpc_batch : Option String
  pub method : Method
  pub payload : Payload

pub data Mode : Type 0 where
  buffered streaming : Mode

pub data Verdict : Type 0 where
  -- `interceptorOptions.next()`
  passes_on : Verdict
  responds : ℕ → Verdict
  runs : Mode → List PeerMessage → Verdict

abbrev pub mode_of : String → Mode
mode_of header = if str_eq header "buffered" then buffered else streaming

abbrev pub same_method : Method → Method → Bool
same_method get m = is_get m
same_method query m = is_query m
same_method (unsafe a) get = false
same_method (unsafe a) query = false
same_method (unsafe a) (unsafe b) = a == b

-- a request message whose method is not the one of the batch
abbrev pub is_foreign : Method → PeerMessage → Bool
is_foreign outer (request_message m r) = not (same_method outer m)
is_foreign outer (other_message r) = false

-- the checks of the messages: their methods and their number
unfoldable pub check_messages : ℕ → Mode → Method → List PeerMessage → Verdict
check_messages max_size mode outer list =
    if (is_get outer || is_query outer) && any (is_foreign outer) list
    then responds 400
    else if ltb max_size (length list)
    then responds 413
    else runs mode list

-- the payload of a request with the batch header, or of another
unfoldable pub judge : ℕ → Method → Option String → Payload → Verdict
unfolding check_messages
judge max_size method none payload = passes_on
judge max_size method (some header) missing = responds 400
judge max_size method (some header) unreadable = responds 400
judge max_size method (some header) invalid = responds 400
judge max_size method (some header) (messages list) =
    check_messages max_size (mode_of header) method list

unfoldable pub routing_interceptor : ℕ → BatchRequest → Verdict
unfolding judge
routing_interceptor max_size r = judge max_size r.method r.orpc_batch r.payload

-- what the rest of the chain does with a subrequest
pub data Routed : Type 0 where
  matched : ℕ → Routed
  unmatched : Routed
  raises : ℕ → Routed

-- `handleIndividualRequest`: the status of the response, and the error that is left unhandled
unfoldable pub handle_individual_request : Routed → ℕ × Option ℕ
handle_individual_request (matched status) = (status, none)
handle_individual_request unmatched = (404, none)
handle_individual_request (raises e) = (500, some e)
