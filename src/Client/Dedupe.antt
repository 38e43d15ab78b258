-- ===== src/Client/Dedupe.antt =====
-- packages/client/src/plugins/dedupe.ts: `DedupeLinkPlugin`. A caller is named by its promise, a group by
-- its place among the groups, and a response and an error are numbers. What the transport and the
-- groups' contexts do is an argument.
pub mod Pending
pub mod Settling
mod Tests
use orpc.Prelude.{
  ℕ, zero, suc, ◌+◌, String, Bool, true, false, Option, none, some, List, [], ◌∷◌, ◌++◌, map, not,
  ◌&&◌, ◌||◌, ltb, ◌==◌, str_eq, length, if◌then◌else◌,
}

pub data Body : Type 0 where
  blob form_data url_search_params stream iterator : Body
  -- anything else, by its JSON
  json : String → Body

-- what the plugin reads of the options of a call
pub record Call : Type 0 where
  pub promise : ℕ
  pub body : Body
  pub signal : Option ℕ
  pub is_aborted : Bool
  -- `filter`
  pub is_filtered : Bool
  -- the first group whose condition holds
  pub group : Option ℕ
  -- path, headers, method and URL, by their JSON
  pub path : String
  pub headers : String
  pub method : String
  pub url : String

abbrev pub is_plain : Body → Bool
is_plain (json s) = true
is_plain _ = false

unfoldable pub can_dedupe_request : Call → Bool
can_dedupe_request c = is_plain c.body && not c.is_aborted

abbrev pub body_json : Body → String
body_json (json s) = s
body_json _ = ""

-- `createRequestKey`: `stringify` writes the object of the five parts
abbrev pub Stringify : Type 0
Stringify = String → String → String → String → String → String

abbrev pub create_request_key : Stringify → Call → String
create_request_key stringify c = stringify c.path (body_json c.body) c.headers c.method c.url

pub record PendingRequest : Type 0 where
  pub request_key : String
  pub options : Call
  pub matched_options : List Call
  pub signals : List (Option ℕ)
  pub resolves : List ℕ
  pub rejects : List ℕ

abbrev pub Queue : Type 0
Queue = List (ℕ × List PendingRequest)

abbrev pub join_request : PendingRequest → Call → PendingRequest
join_request item c = record item {
  matched_options = item.matched_options ++ c ∷ [];
  signals = item.signals ++ c.signal ∷ [];
  resolves = item.resolves ++ c.promise ∷ [];
  rejects = item.rejects ++ c.promise ∷ [];
}

module _ (stringify : Stringify) where
  abbrev pub new_request : Call → PendingRequest
  new_request c = record {
    request_key = create_request_key stringify c;
    options = c;
    matched_options = c ∷ [];
    signals = c.signal ∷ [];
    resolves = c.promise ∷ [];
    rejects = c.promise ∷ [];
  }

  -- `queue.find(...)`, and the push
  unfoldable pub put_request : List PendingRequest → Call → List PendingRequest
  put_request [] c = new_request c ∷ []
  put_request (item ∷ items) c =
      if str_eq item.request_key (create_request_key stringify c)
      then join_request item c ∷ items
      else item ∷ put_request items c

  unfoldable pub enqueue : Queue → ℕ → Call → Queue
  unfolding put_request
  enqueue [] g c = (g, put_request [] c) ∷ []
  enqueue ((h, items) ∷ queue) g c =
      if h == g then (h, put_request items c) ∷ queue else (h, items) ∷ enqueue queue g c

  -- The interceptor: whether the call goes on at once, and the queue.
  unfoldable pub intercept : Queue → Call → Bool × Queue
  unfolding enqueue can_dedupe_request
  intercept queue c =
      if not (can_dedupe_request c) || not c.is_filtered
      then (true, queue)
      else elim c.group [ none ↦ (true, queue) | some g ↦ (false, enqueue queue g c) ]

  unfoldable pub intercept_all : Queue → List Call → Queue
  unfolding intercept
  intercept_all queue [] = queue
  intercept_all queue (c ∷ calls) = intercept_all (intercept queue c).1 calls

pub data Answer : Type 0 where
  resolves_with : ℕ → Answer
  rejects_with : ℕ → Answer

pub record Transport : Type 0 where
  -- `item.options.next(item.options)`
  pub next : Call → Answer
  -- the context of a group, or what it throws
  pub context : ℕ → List Call → Answer
  -- `item.options.next({ ... })`, with the joined signals and the context
  pub next_joined : Call → List (Option ℕ) → ℕ → Answer

-- A promise resolves with the response itself or with a replica of it, or rejects.
pub data Settlement : Type 0 where
  resolved : ℕ → ℕ → Settlement
  resolved_replica : ℕ → ℕ → ℕ → Settlement
  rejected : ℕ → ℕ → Settlement

abbrev pub reject_each : List ℕ → ℕ → List Settlement
reject_each [] e = []
reject_each (p ∷ promises) e = rejected p e ∷ reject_each promises e

-- `item.resolves[0]?.(response)`
abbrev pub resolve_first : List ℕ → ℕ → List Settlement
resolve_first [] r = []
resolve_first (p ∷ promises) r = resolved p r ∷ []

-- `resolve(replicatedResponses.pop()!)`, for as many replicas as there are promises
abbrev pub resolve_replicas : List ℕ → ℕ → List Settlement
resolve_replicas [] r = []
resolve_replicas (p ∷ promises) r =
    resolved_replica p r (length promises) ∷ resolve_replicas promises r

-- `shouldDedupe`
abbrev pub should_dedupe : List Call → Bool
should_dedupe items = ltb 1 (length items)

module _ (t : Transport) where
  abbrev pub settle_alone : PendingRequest → Answer → List Settlement
  settle_alone item (resolves_with r) = resolve_first item.resolves r
  settle_alone item (rejects_with e) = reject_each item.rejects e

  abbrev pub settle_joined : PendingRequest → Answer → List Settlement
  settle_joined item (resolves_with r) = resolve_replicas item.resolves r
  settle_joined item (rejects_with e) = reject_each item.rejects e

  abbrev pub call_joined : PendingRequest → Answer → List Settlement
  call_joined item (resolves_with context) =
      settle_joined item (t.next_joined item.options item.signals context)
  call_joined item (rejects_with e) = reject_each item.rejects e

  unfoldable pub execute : ℕ → PendingRequest → List Settlement
  execute g item =
      if should_dedupe item.matched_options
      then call_joined item (t.context g item.matched_options)
      else settle_alone item (t.next item.options)

  unfoldable pub execute_each : ℕ → List PendingRequest → List Settlement
  unfolding execute
  execute_each g [] = []
  execute_each g (item ∷ items) = execute g item ++ execute_each g items

  unfoldable pub process_pending_requests : Queue → List Settlement
  unfolding execute_each
  process_pending_requests [] = []
  process_pending_requests ((g, items) ∷ queue) =
      execute_each g items ++ process_pending_requests queue
