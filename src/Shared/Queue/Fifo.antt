-- ===== src/Shared/Queue/Fifo.antt =====
-- A run of pushes and pulls over many ids: what each id's promises receive.
use orpc.Prelude.{
  ℕ, String, Bool, true, false, Option, none, some, List, [], ◌∷◌, ◌++◌, ◌≡◌, ◌⊎◌, inl, inr, refl,
  sym, ap, ◌∙◌, arith, eq_iff, str_eq, if◌then◌else◌, zip,
}
use orpc.Prelude.JsMap.{get-set, get-delete}
use mathlib.Core.List.{append_assoc}
use orpc.Shared.Queue.{
  AsyncIdQueue, Settlement, resolved, rejected, Pulled, item, pending, push, pull, open_queue,
  close, is_open,
}
use orpc.Shared.Queue.Channel.{
  Channel, channel, pushed, pulled, new_channel, push-Implements, pull-Implements,
}

-- a call of a method; `pull` with the promise that it returns, `close` with the id and the reason
pub data Call (T : Type 0) : Type 0 where
  open_call : String → Call T
  close_call : Option String → Option ℕ → Call T
  push_call : String → T → Call T
  pull_call : String → ℕ → Call T

module _ {T : Type 0} where
  abbrev pub received : List (Settlement T) → List (ℕ × T)
  received [] = []
  received (resolved w x ∷ ss) = (w, x) ∷ received ss
  received (rejected w r ∷ ss) = received ss

  abbrev pub received_by : ℕ → Pulled T → List (ℕ × T)
  received_by p (item x) = (p, x) ∷ []
  received_by p pending = []

  abbrev pub after_push :
      AsyncIdQueue T → Option (AsyncIdQueue T × List (Settlement T)) → AsyncIdQueue T × List (ℕ × T)
  after_push q none = (q, [])
  after_push q (some (q', ss)) = (q', received ss)

  abbrev pub after_pull :
      AsyncIdQueue T → ℕ → Option (AsyncIdQueue T × Pulled T) → AsyncIdQueue T × List (ℕ × T)
  after_pull q p none = (q, [])
  after_pull q p (some (q', r)) = (q', received_by p r)

  -- One call: the next queue, and the promises that receive an item. A throw changes nothing.
  -- No promise receives anything of an open or a close.
  unfoldable pub step : AsyncIdQueue T → Call T → AsyncIdQueue T × List (ℕ × T)
  step q (open_call k) = (open_queue q k, [])
  step q (close_call target reason) = ((close q target reason).0, [])
  step q (push_call k x) = after_push q (push q k x)
  step q (pull_call k p) = after_pull q p (pull q k p)

  -- whether the call is one of the id; a close without an id is one of every id
  abbrev pub is_of : String → Call T → Bool
  is_of id (open_call k) = str_eq k id
  is_of id (close_call none reason) = true
  is_of id (close_call (some k) reason) = str_eq k id
  is_of id (push_call k x) = str_eq k id
  is_of id (pull_call k p) = str_eq k id

  -- The deliveries on one id, in the order in which they happen.
  unfoldable pub deliveries : String → AsyncIdQueue T → List (Call T) → List (ℕ × T)
  unfolding step
  deliveries id q [] = []
  deliveries id q (op ∷ ops) =
      (if is_of id op then (step q op).1 else []) ++ deliveries id (step q op).0 ops

  abbrev pub pushes_to : String → List (Call T) → List T
  pushes_to id [] = []
  pushes_to id (push_call k x ∷ ops) =
      if str_eq k id then x ∷ pushes_to id ops else pushes_to id ops
  pushes_to id (open_call k ∷ ops) = pushes_to id ops
  pushes_to id (close_call k r ∷ ops) = pushes_to id ops
  pushes_to id (pull_call k p ∷ ops) = pushes_to id ops

  abbrev pub pulls_from : String → List (Call T) → List ℕ
  pulls_from id [] = []
  pulls_from id (open_call k ∷ ops) = pulls_from id ops
  pulls_from id (close_call k r ∷ ops) = pulls_from id ops
  pulls_from id (push_call k x ∷ ops) = pulls_from id ops
  pulls_from id (pull_call k p ∷ ops) =
      if str_eq k id then p ∷ pulls_from id ops else pulls_from id ops

  -- no call closes the id
  abbrev pub IsKept : String → List (Call T) → Type 0
  IsKept id [] = Unit
  IsKept id (close_call none r ∷ ops) = ⊥
  IsKept id (close_call (some k) r ∷ ops) = (str_eq k id ≡ false) × IsKept id ops
  IsKept id (open_call k ∷ ops) = IsKept id ops
  IsKept id (push_call k x ∷ ops) = IsKept id ops
  IsKept id (pull_call k p ∷ ops) = IsKept id ops

  abbrev pub IsOneSided : Channel T → Type 0
  IsOneSided c = (c.items ≡ []) ⊎ (c.pulls ≡ [])

  -- The calls on an id that is open pair its pulls with its pushes in order.
  abbrev PairsUp : String → List (Call T) → Type 0
  PairsUp id ops =
      (q : AsyncIdQueue T) (c : Channel T)
      → channel q id ≡ some c
      → IsOneSided c
      → IsKept id ops
      → deliveries id q ops ≡ zip (c.pulls ++ pulls_from id ops) (c.items ++ pushes_to id ops)

  pub push-IsOneSided : (x : T) (c : Channel T) → IsOneSided c → IsOneSided (pushed x c).0
  push-IsOneSided x c h = ground arith

  pub pull-IsOneSided : (p : ℕ) (c : Channel T) → IsOneSided c → IsOneSided (pulled p c).0
  pull-IsOneSided p c h = ground arith

  pub zip-pushed :
      (x : T) (c : Channel T) (ps : List ℕ) (xs : List T)
      → IsOneSided c
      → received (pushed x c).1 ++ zip ((pushed x c).0.pulls ++ ps) ((pushed x c).0.items ++ xs)
        ≡ zip (c.pulls ++ ps) (c.items ++ x ∷ xs)
  zip-pushed x c ps xs h = ground (arith, append_assoc c.items (x ∷ []) xs)

  pub zip-pulled :
      (p : ℕ) (c : Channel T) (ps : List ℕ) (xs : List T)
      → IsOneSided c
      → received_by p (pulled p c).1
          ++ zip ((pulled p c).0.pulls ++ ps) ((pulled p c).0.items ++ xs)
        ≡ zip (c.pulls ++ p ∷ ps) (c.items ++ xs)
  zip-pulled p c ps xs h = ground (arith, append_assoc c.pulls (p ∷ []) ps)

  zip-nil : (ps : List ℕ) → zip {B = T} ps [] ≡ []
  zip-nil [] = refl
  zip-nil (p ∷ ps) = refl

  pub zip-idle : (c : Channel T) → IsOneSided c → zip (c.pulls ++ []) (c.items ++ []) ≡ []
  zip-idle c (inl e) = rw e (zip-nil (c.pulls ++ []))
  zip-idle c (inr e) = rw e

  -- an open changes no channel that is open
  channel-open_kept :
      (q : AsyncIdQueue T) (id k : String) (c : Channel T)
      → channel q id ≡ some c
      → channel (open_queue q k) id ≡ some c
  unfolding open_queue is_open
  channel-open_kept q id k c h = ground (arith, get-set q.open_ids k tt id, eq_iff k id)

  channel-close_other :
      (q : AsyncIdQueue T) (id k : String) (r : Option ℕ)
      → str_eq k id ≡ false
      → channel (close q (some k) r).0 id ≡ channel q id
  unfolding close is_open
  channel-close_other q id k r h =
      rw (get-delete q.open_ids k id, get-delete q.queues k id, get-delete q.waiters k id, h) refl

  abbrev no_items : List (ℕ × T)
  no_items = []

  no_delivery : (b : Bool) → (if b then no_items else no_items) ≡ no_items
  no_delivery true = refl
  no_delivery false = refl

  deliveries-eq-zip : (id : String) (ops : List (Call T)) → PairsUp id ops
  unfolding deliveries
  deliveries-eq-zip id [] q c is one kept = sym (zip-idle c one)
  deliveries-eq-zip id (open_call k ∷ ops) q c is one kept =
      ap (λ l. l ++ deliveries id (open_queue q k) ops) (no_delivery (str_eq k id))
      ∙ deliveries-eq-zip id ops (open_queue q k) c (channel-open_kept q id k c is) one kept
  deliveries-eq-zip id (close_call none r ∷ ops) q c is one kept = absurd kept
  deliveries-eq-zip id (close_call (some k) r ∷ ops) q c is one kept =
      ap (λ l. l ++ deliveries id (close q (some k) r).0 ops) (no_delivery (str_eq k id))
      ∙ deliveries-eq-zip id ops (close q (some k) r).0 c (channel-close_other q id k r kept.0 ∙ is)
          one kept.1
  deliveries-eq-zip id (push_call k x ∷ ops) q c is one kept = elim (push-Implements q k x) [
    | inl (shut, fails) ↦ ground (arith, eq_iff k id, deliveries-eq-zip id ops q c is one kept)
    | inr (ck, q', opened, ok, others) ↦ ground (
      arith,
      eq_iff k id,
      others id,
      zip-pushed x c (pulls_from id ops) (pushes_to id ops) one,
      push-IsOneSided x c one,
      deliveries-eq-zip id ops q' c,
      deliveries-eq-zip id ops q' (pushed x c).0,
    )
  ]
  deliveries-eq-zip id (pull_call k p ∷ ops) q c is one kept = elim (pull-Implements q k p) [
    | inl (shut, fails) ↦ ground (arith, eq_iff k id, deliveries-eq-zip id ops q c is one kept)
    | inr (ck, q', opened, ok, others) ↦ ground (
      arith,
      eq_iff k id,
      others id,
      zip-pulled p c (pulls_from id ops) (pushes_to id ops) one,
      pull-IsOneSided p c one,
      deliveries-eq-zip id ops q' c,
      deliveries-eq-zip id ops q' (pulled p c).0,
    )
  ]

-- On an id whose queue was just opened, up to the next close of it, whatever the calls on it and on
-- other ids are, opens of it and closes of others included: the n-th pull of the id receives the n-th
-- item pushed to it, in this order, and no promise receives anything else.
pub deliveries_fifo :
    {T : Type 0} (id : String) (ops : List (Call T)) (q : AsyncIdQueue T)
    → channel q id ≡ some new_channel
    → IsKept id ops
    → deliveries id q ops ≡ zip (pulls_from id ops) (pushes_to id ops)
deliveries_fifo id ops q h kept = deliveries-eq-zip id ops q new_channel h (inl refl) kept
