-- ===== src/Batch/Groups.antt =====
-- How packages/client/src/plugins/batch.ts groups requests and splits the groups: the interceptor,
-- `processPendingBatches` and `executeBatch`, up to the request that carries a batch. A caller is named
-- by its promise, and a group by its place among the groups. `none` means that the fuel ran out.
pub mod Covering
pub mod Carrying
pub mod Tests
use orpc.Prelude.{
  ℕ, zero, suc, ◌+◌, ◌/◌, Bool, true, false, Option, none, some, List, [], ◌∷◌, ◌++◌, not, ◌||◌,
  ◌&&◌, ltb, ◌==◌, length, drop, all, if◌then◌else◌,
}

pub data Method : Type 0 where
  get query : Method
  unsafe : ℕ → Method

abbrev pub is_get : Method → Bool
is_get get = true
is_get query = false
is_get (unsafe m) = false

abbrev pub is_query : Method → Bool
is_query get = false
is_query query = true
is_query (unsafe m) = false

-- what the plugin reads of a request
pub record Request : Type 0 where
  pub promise : ℕ
  pub method : Method
  -- the body is a blob, a stream or an iterator
  pub is_special : Bool
  pub aborted : Bool
  -- `filter`
  pub is_filtered : Bool
  -- the first group whose condition holds
  pub group : Option ℕ

abbrev pub Queue : Type 0
Queue = List (ℕ × List Request)

-- `this.queue.get(group)`, with the push
unfoldable pub enqueue : Queue → ℕ → Request → Queue
enqueue [] g r = (g, r ∷ []) ∷ []
enqueue ((h, items) ∷ queue) g r =
    if h == g then (h, items ++ r ∷ []) ∷ queue else (h, items) ∷ enqueue queue g r

-- The interceptor: whether the request goes on at once, and the queue.
unfoldable pub intercept : Queue → Request → Bool × Queue
unfolding enqueue
intercept queue r =
    if r.is_special || r.aborted || not r.is_filtered
    then (true, queue)
    else elim r.group [ none ↦ (true, queue) | some g ↦ (false, enqueue queue g r) ]

-- the options of the plugin: a result, or a throw
pub data Given : Type 0 where
  gives : ℕ → Given
  throws : Given

pub record BatchOptions : Type 0 where
  pub max_size : List Request → Given
  -- whether `url`, `headers` and `mode` are there, since each of them may throw
  pub is_prepared : List Request → Bool
  -- whether `mapSubrequest` returns, for a request of the batch, which is sent with the last of them
  pub is_mapped : List Request → Request → Bool
  -- `newUrl.length`
  pub url_length : List Request → ℕ
  pub max_url_length : List Request → Given
  -- whether the `context` and the `path` of the group are there
  pub is_addressed : List Request → Bool

-- what becomes of a part of a group
pub data Part : Type 0 where
  -- a request that goes on alone
  alone : Request → Part
  -- the batch request, with its method
  batch : Method → List Request → Part
  -- an option threw within the `try`, so that the peer is closed, and every caller gets the error
  rejected : List Request → Part
  -- an option threw outside of every `try`
  lost : List Request → Part

abbrev pub half : {A : Type 0} → List A → ℕ
half items = (length items + 1) / 2

abbrev pub take : {A : Type 0} → ℕ → List A → List A
take zero xs = []
take (suc n) [] = []
take (suc n) (x ∷ xs) = x ∷ take n xs

-- `splitInHalf` of packages/shared/src/array.ts
abbrev pub split_in_half : {A : Type 0} → List A → List A × List A
split_in_half items = (take (half items) items, drop (half items) items)

-- `Promise.all`
abbrev pub both : Option (List Part) → Option (List Part) → Option (List Part)
both none q = none
both (some p) none = none
both (some p) (some q) = some (p ++ q)

abbrev pub is_too_big : ℕ → Given → Bool
is_too_big n (gives m) = ltb m n
is_too_big n throws = false

abbrev pub has_thrown : Given → Bool
has_thrown (gives n) = false
has_thrown throws = true

-- `items.filter(...)`
abbrev pub only : (Method → Bool) → List Request → List Request
only p [] = []
only p (r ∷ items) = if p r.method then r ∷ only p items else only p items

abbrev pub is_unsafe : Method → Bool
is_unsafe m = not (is_get m) && not (is_query m)

module _ (o : BatchOptions) where
  -- what the first option that throws within the `try` keeps from being sent
  abbrev pub is_rejected : Method → List Request → Bool
  is_rejected m items =
      is_get m && has_thrown (o.max_url_length items) || not (o.is_addressed items)

  -- `newUrl.length > maxUrlLength`
  abbrev pub is_too_long : List Request → Bool
  is_too_long items = is_too_big (o.url_length items) (o.max_url_length items)

  -- `executeBatch`, for at least two requests: it splits the group, or sends it
  unfoldable pub send : Method → List Request → Option (List Part) → Option (List Part)
  send m items split =
      if is_too_big (length items) (o.max_size items)
      then split
      else if o.is_prepared items && all (o.is_mapped items) items
      then if is_get m && is_too_long items
        then split
        else if is_rejected m items
        then some (rejected items ∷ [])
        else some (batch m items ∷ [])
      else some (lost items ∷ [])

  unfoldable pub execute_batch : ℕ → Method → List Request → Option (List Part)
  unfolding send
  execute_batch zero m items = none
  execute_batch (suc fuel) m [] = some []
  execute_batch (suc fuel) m (r ∷ []) = some (alone r ∷ [])
  execute_batch (suc fuel) m (r ∷ s ∷ items) =
      let group = r ∷ s ∷ items in
      let split =
        both (execute_batch fuel m (split_in_half group).0)
          (execute_batch fuel m (split_in_half group).1) in
      elim (o.max_size group) [ throws ↦ some (lost group ∷ []) | gives n ↦ send m group split ]

  -- the method `POST`, which carries what is neither `GET` nor `QUERY`, is named by a number
  unfoldable pub process_pending_batches : ℕ → ℕ → Queue → Option (List Part)
  unfolding execute_batch
  process_pending_batches fuel post [] = some []
  process_pending_batches fuel post ((g, items) ∷ queue) =
      both (execute_batch fuel get (only is_get items)) (
        both (execute_batch fuel query (only is_query items)) (
          both (execute_batch fuel (unsafe post) (only is_unsafe items))
            (process_pending_batches fuel post queue)))
