-- ===== src/Client/Dedupe/Settling.antt =====
-- Every caller is settled once.
use orpc.Prelude.{
  ℕ, suc, ◌+◌, ◌≤◌, Option, none, some, List, [], ◌∷◌, ◌++◌, ◌≡◌, inl, inr, refl, ap, ◌∙◌, arith,
  ◌==◌, str_eq, length, if◌then◌else◌, Bool-cases, All,
}
use native.Mathlib.Nat.{zero-add}
use orpc.Client.Dedupe.{
  Call, Stringify, create_request_key, PendingRequest, Queue, put_request, enqueue, intercept,
  intercept_all, Answer, resolves_with, rejects_with, Transport, Settlement, resolved,
  resolved_replica, rejected, reject_each, resolve_first, resolve_replicas, should_dedupe,
  settle_alone, settle_joined, call_joined, execute, execute_each, process_pending_requests,
}
use orpc.Client.Dedupe.Pending.{
  promises_of, IsShared, IsWellFormed, waits_in, enqueued, intercept-queue,
  intercept_all-IsWellFormed,
}

-- how often a promise is settled, stands in a list, and belongs to a call
abbrev pub settlements_of : ℕ → List Settlement → ℕ
settlements_of p [] = 0
settlements_of p (resolved q r ∷ l) = (if q == p then 1 else 0) + settlements_of p l
settlements_of p (resolved_replica q r i ∷ l) = (if q == p then 1 else 0) + settlements_of p l
settlements_of p (rejected q e ∷ l) = (if q == p then 1 else 0) + settlements_of p l

abbrev count : ℕ → List ℕ → ℕ
count p [] = 0
count p (q ∷ l) = (if q == p then 1 else 0) + count p l

abbrev pub waits_once : ℕ → Call → Option ℕ → ℕ
waits_once p c none = 0
waits_once p c (some g) = if c.promise == p then 1 else 0

-- the calls that wait, with a promise
abbrev pub waiting_calls : ℕ → List Call → ℕ
waiting_calls p [] = 0
waiting_calls p (c ∷ calls) = waits_once p c (waits_in c) + waiting_calls p calls

settlements_of-append :
    (p : ℕ) (k l : List Settlement)
    → settlements_of p (k ++ l) ≡ settlements_of p k + settlements_of p l
settlements_of-append p [] l = omega arith
settlements_of-append p (resolved q r ∷ k) l = omega (arith, settlements_of-append p k l)
settlements_of-append p (resolved_replica q r i ∷ k) l = omega (arith, settlements_of-append p k l)
settlements_of-append p (rejected q e ∷ k) l = omega (arith, settlements_of-append p k l)

reject_each-count : (p e : ℕ) (l : List ℕ) → settlements_of p (reject_each l e) ≡ count p l
reject_each-count p e [] = refl
reject_each-count p e (q ∷ l) = omega (arith, reject_each-count p e l)

resolve_replicas-count :
    (p r : ℕ) (l : List ℕ) → settlements_of p (resolve_replicas l r) ≡ count p l
resolve_replicas-count p r [] = refl
resolve_replicas-count p r (q ∷ l) = omega (arith, resolve_replicas-count p r l)

resolve_first-count :
    (p r : ℕ) (l : List ℕ) → length l ≤ 1 → settlements_of p (resolve_first l r) ≡ count p l
resolve_first-count p r [] h = refl
resolve_first-count p r (q ∷ []) h = refl
resolve_first-count p r (q ∷ s ∷ l) h = absurd (omega arith)

length-promises_of : (calls : List Call) → length (promises_of calls) ≡ length calls
length-promises_of [] = refl
length-promises_of (c ∷ calls) = ap suc (length-promises_of calls)

abbrev pub callers : List PendingRequest → List ℕ
callers [] = []
callers (item ∷ items) = promises_of item.matched_options ++ callers items

abbrev pub all_callers : Queue → List ℕ
all_callers [] = []
all_callers ((g, items) ∷ queue) = callers items ++ all_callers queue

count-append : (p : ℕ) (k l : List ℕ) → count p (k ++ l) ≡ count p k + count p l
count-append p [] l = omega arith
count-append p (q ∷ k) l = omega (arith, count-append p k l)

module _ (stringify : Stringify) (t : Transport) (p : ℕ) where
  settle_alone-count :
      (item : PendingRequest) (a : Answer)
      → IsShared stringify item
      → length item.matched_options ≤ 1
      → settlements_of p (settle_alone t item a) ≡ count p (promises_of item.matched_options)
  settle_alone-count item (resolves_with r) v h =
      resolve_first-count p r item.resolves
        (omega (arith, ap length v.resolves_all, length-promises_of item.matched_options))
      ∙ ap (count p) v.resolves_all
  settle_alone-count item (rejects_with e) v h =
      reject_each-count p e item.rejects ∙ ap (count p) v.rejects_all

  settle_joined-count :
      (item : PendingRequest) (a : Answer)
      → IsShared stringify item
      → settlements_of p (settle_joined t item a) ≡ count p (promises_of item.matched_options)
  settle_joined-count item (resolves_with r) v =
      resolve_replicas-count p r item.resolves ∙ ap (count p) v.resolves_all
  settle_joined-count item (rejects_with e) v =
      reject_each-count p e item.rejects ∙ ap (count p) v.rejects_all

  call_joined-count :
      (item : PendingRequest) (a : Answer)
      → IsShared stringify item
      → settlements_of p (call_joined t item a) ≡ count p (promises_of item.matched_options)
  call_joined-count item (resolves_with context) v =
      settle_joined-count item (t.next_joined item.options item.signals context) v
  call_joined-count item (rejects_with e) v =
      reject_each-count p e item.rejects ∙ ap (count p) v.rejects_all

  execute-count :
      (g : ℕ) (item : PendingRequest)
      → IsShared stringify item
      → settlements_of p (execute t g item) ≡ count p (promises_of item.matched_options)
  unfolding execute
  execute-count g item v = elim (Bool-cases (should_dedupe item.matched_options)) [
    | inl e ↦ rw (e, execute) (call_joined-count item (t.context g item.matched_options) v)
    | inr e ↦ rw (e, execute) (settle_alone-count item (t.next item.options) v (ground arith))
  ]

  execute_each-count :
      (g : ℕ) (items : List PendingRequest)
      → All (IsShared stringify) items
      → settlements_of p (execute_each t g items) ≡ count p (callers items)
  unfolding execute_each
  execute_each-count g [] h = refl
  execute_each-count g (item ∷ items) h = omega (
    arith,
    settlements_of-append p (execute t g item) (execute_each t g items),
    count-append p (promises_of item.matched_options) (callers items),
    execute-count g item h.0,
    execute_each-count g items h.1,
  )

  process-count :
      (queue : Queue)
      → IsWellFormed stringify queue
      → settlements_of p (process_pending_requests t queue) ≡ count p (all_callers queue)
  unfolding process_pending_requests
  process-count [] h = refl
  process-count ((g, items) ∷ queue) h = omega (
    arith,
    settlements_of-append p (execute_each t g items) (process_pending_requests t queue),
    count-append p (callers items) (all_callers queue),
    execute_each-count g items h.0.0,
    process-count queue h.1,
  )

module _ (stringify : Stringify) (p : ℕ) where
  promises_of-snoc :
      (calls : List Call) (c : Call)
      → count p (promises_of (calls ++ c ∷ []))
        ≡ count p (promises_of calls) + (if c.promise == p then 1 else 0)
  promises_of-snoc [] c = omega arith
  promises_of-snoc (d ∷ calls) c = omega (arith, promises_of-snoc calls c)

  put_request-count :
      (items : List PendingRequest) (c : Call)
      → count p (callers (put_request stringify items c))
        ≡ count p (callers items) + (if c.promise == p then 1 else 0)
  unfolding put_request
  put_request-count [] c = omega arith
  put_request-count (item ∷ items) c =
      elim (Bool-cases (str_eq item.request_key (create_request_key stringify c))) [
        | inl e ↦
            rw (e, put_request)
              (omega (
                arith,
                count-append p (promises_of (item.matched_options ++ c ∷ [])) (callers items),
                count-append p (promises_of item.matched_options) (callers items),
                promises_of-snoc item.matched_options c,
              ))
        | inr e ↦
            rw (e, put_request)
              (omega (
                arith,
                count-append p (promises_of item.matched_options)
                    (callers (put_request stringify items c)),
                count-append p (promises_of item.matched_options) (callers items),
                put_request-count items c,
              ))
      ]

  enqueue-count :
      (queue : Queue) (g : ℕ) (c : Call)
      → count p (all_callers (enqueue stringify queue g c))
        ≡ count p (all_callers queue) + (if c.promise == p then 1 else 0)
  unfolding enqueue
  enqueue-count [] g c = omega arith
  enqueue-count ((k, items) ∷ queue) g c = elim (Bool-cases (k == g)) [
    | inl e ↦
        rw (e, enqueue)
          (omega (
            arith,
            count-append p (callers (put_request stringify items c)) (all_callers queue),
            count-append p (callers items) (all_callers queue),
            put_request-count items c,
          ))
    | inr e ↦
        rw (e, enqueue)
          (omega (
            arith,
            count-append p (callers items) (all_callers (enqueue stringify queue g c)),
            count-append p (callers items) (all_callers queue),
            enqueue-count queue g c,
          ))
  ]

  enqueued-count :
      (queue : Queue) (c : Call) (o : Option ℕ)
      → count p (all_callers (enqueued stringify queue c o))
        ≡ count p (all_callers queue) + waits_once p c o
  enqueued-count queue c none = omega arith
  enqueued-count queue c (some g) = enqueue-count queue g c

  intercept_all-count :
      (queue : Queue) (calls : List Call)
      → count p (all_callers (intercept_all stringify queue calls))
        ≡ count p (all_callers queue) + waiting_calls p calls
  unfolding intercept_all
  intercept_all-count queue [] = omega arith
  intercept_all-count queue (c ∷ calls) = omega (
    arith,
    intercept_all-count (intercept stringify queue c).1 calls,
    ap (λ (q : Queue). count p (all_callers q)) (intercept-queue stringify queue c),
    enqueued-count queue c (waits_in c),
  )

-- Whatever calls come in before the pending requests are processed, and however the transport answers,
-- throws and a failing context included: a promise is settled as often as there are calls with it that
-- wait, so every such caller gets exactly one answer and no one else gets any.
pub process_settles_once :
    (stringify : Stringify) (t : Transport) (calls : List Call) (p : ℕ)
    → settlements_of p (process_pending_requests t (intercept_all stringify [] calls))
      ≡ waiting_calls p calls
process_settles_once stringify t calls p =
    process-count stringify t p (intercept_all stringify [] calls)
      (intercept_all-IsWellFormed stringify [] calls tt)
    ∙ intercept_all-count stringify p [] calls
    ∙ zero-add (waiting_calls p calls)
