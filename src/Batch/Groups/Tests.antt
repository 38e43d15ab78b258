-- ===== src/Batch/Groups/Tests.antt =====
-- Concrete requests in two groups.
use orpc.Prelude.{ℕ, true, false, some, [], ◌∷◌, ◌≡◌, refl, arith, length, List, ◌==◌}
use orpc.Batch.Groups.{
  Method, get, query, unsafe, Request, Queue, enqueue, intercept, gives, throws, BatchOptions,
  alone, batch, rejected, lost, send, execute_batch, process_pending_batches,
}
use orpc.Batch.Groups.Carrying.{Carries, calls_of, queued, process_pending_batches-Carries}

batching : Unit {0}
unfolding enqueue intercept send execute_batch process_pending_batches
batching = tt

abbrev pub call : ℕ → Method → ℕ → Request
call p m g = record {
  promise = p;
  method = m;
  is_special = false;
  aborted = false;
  is_filtered = true;
  group = some g;
}

-- at most three requests in a batch, and two in a URL
abbrev pub options : BatchOptions
options = record {
  max_size = λ items. gives 3;
  is_prepared = λ items. true;
  is_mapped = λ items r. true;
  url_length = λ items. length items;
  max_url_length = λ items. gives 2;
  is_addressed = λ items. true;
}

abbrev broken : BatchOptions
broken = record options { max_size = λ items. throws }

-- the second request is not mapped
abbrev unmapped : BatchOptions
unmapped = record options { is_mapped = λ items r. r.promise == 1 }

abbrev unlimited : BatchOptions
unlimited = record options { max_url_length = λ items. throws }

abbrev two : List Request
two = call 1 get 0 ∷ call 3 get 0 ∷ []

abbrev queue : Queue
queue =
    (0, call 1 get 0 ∷ call 2 (unsafe 7) 0 ∷ call 3 get 0 ∷ call 4 get 0 ∷ call 5 query 0 ∷ [])
    ∷ (1, call 6 (unsafe 8) 1 ∷ call 7 (unsafe 9) 1 ∷ [])
    ∷ []

batch_tests :
    (intercept [] (call 1 get 4) ≡ (false, (4, call 1 get 4 ∷ []) ∷ []))
    × (process_pending_batches options 9 9 queue
        ≡ some (
            batch get (call 1 get 0 ∷ call 3 get 0 ∷ [])
            ∷ alone (call 4 get 0)
            ∷ alone (call 5 query 0)
            ∷ alone (call 2 (unsafe 7) 0)
            ∷ batch (unsafe 9) (call 6 (unsafe 8) 1 ∷ call 7 (unsafe 9) 1 ∷ [])
            ∷ []))
    × (execute_batch broken 3 get two ≡ some (lost two ∷ []))
    × (execute_batch unmapped 3 get two ≡ some (lost two ∷ []))
    × (execute_batch unlimited 3 get two ≡ some (rejected two ∷ []))
    × (execute_batch unlimited 3 query two ≡ some (batch query two ∷ []))
unfolding batching
batch_tests = (refl, refl, refl, refl, refl, refl)

process_pending_batches_example :
    Carries options (λ p. calls_of p (queued queue)) (process_pending_batches options 9 9 queue)
process_pending_batches_example = process_pending_batches-Carries options 9 9 queue (omega arith)
