-- ===== src/Client/Retry/Reconnecting.antt =====
-- packages/client/src/plugins/retry.ts: the iterator that `RetryLinkPlugin` gives for an output that is
-- an iterator. What its connections do is a function of the connection, and the reads are counted.
use orpc.Prelude.{ℕ, zero, suc, Bool, Option, none, some, List, [], ◌∷◌, ◌++◌, if◌then◌else◌}
use orpc.Client.Retry.{resolves, rejects, Environment, Action, Called, call_next}

-- `getEventMeta`
pub record EventMeta : Type 0 where
  pub id : Option ℕ
  pub retry : Option ℕ

-- what `current.next()` does, with the meta of the value or of the error
pub data Read : Type 0 where
  gives : ℕ → EventMeta → Read
  fails : ℕ → EventMeta → Read

pub record Connections : Type 0 where
  -- what the n-th call of `current.next()` does
  pub reads : ℕ → Read
  -- what the transport and the caller do in the n-th `callNext`
  pub environment : ℕ → Environment
  -- whether the result of a call is an iterator
  pub is_iterator : ℕ → Bool
  -- `isIteratorAborted`, behind the n-th `callNext`
  pub is_iterator_aborted : ℕ → Bool
  -- the error that `current.return?.()` throws behind the n-th `callNext`, if it does
  pub return_error : ℕ → Option ℕ

pub record Reconnector : Type 0 where
  pub last_event_id : Option ℕ
  pub last_event_retry : Option ℕ
  pub attempt : ℕ
  pub reads_done : ℕ
  pub calls_done : ℕ

pub data Settled : Type 0 where
  returns : ℕ → Settled
  throws : ℕ → Settled
  throws_type_error : Settled

pub record Pulled : Type 0 where
  pub actions : List Action
  pub after : Reconnector
  pub settled : Settled

-- `new ?? old`
abbrev pub newest : Option ℕ → Option ℕ → Option ℕ
newest none old = old
newest (some v) old = some v

-- `lastEventId = meta?.id ?? lastEventId`, and the same for `retry`; one more read is done
unfoldable pub remember : EventMeta → Reconnector → Reconnector
remember m s = record s {
  last_event_id = newest m.id s.last_event_id;
  last_event_retry = newest m.retry s.last_event_retry;
  reads_done = suc s.reads_done;
}

-- one more `callNext` is done
abbrev pub called_next : Called → Reconnector → Reconnector
called_next c s = record s { attempt = c.attempt; calls_done = suc s.calls_done }

abbrev pub settle : List Action → Reconnector → Settled → Option Pulled
settle actions s r = some (record { actions = actions; after = s; settled = r })

abbrev pub put_before : List Action → Option Pulled → Option Pulled
put_before actions none = none
put_before actions (some p) = some (record p { actions = actions ++ p.actions })

-- `await current.return?.(); throw error`
abbrev pub closing_error : Option ℕ → ℕ → Settled
closing_error none e = throws e
closing_error (some f) e = throws f

module _ (w : Connections) where
  -- `catch`, behind `callNext({ error })`: the call, the error that was caught, and the next turn
  unfoldable pub reconnected : Called → ℕ → Reconnector → Option Pulled → Option Pulled
  reconnected c e s later = elim c.ended [
    | rejects f ↦ settle c.actions s (throws f)
    | resolves r ↦
        if w.is_iterator r
        then if w.is_iterator_aborted s.calls_done
          then settle c.actions s (closing_error (w.return_error s.calls_done) e)
          else put_before c.actions later
        else settle c.actions s throws_type_error
  ]

  -- The loop of the iterator's `next`. A `callNext` has `rounds` rounds of fuel.
  unfoldable pub pull : ℕ → ℕ → ℕ → Reconnector → Option Pulled
  unfolding reconnected remember
  pull max_attempts rounds zero s = none
  pull max_attempts rounds (suc fuel) s = elim (w.reads s.reads_done) [
    | gives v m ↦ settle [] (remember m s) (returns v)
    | fails e m ↦
        let s' = remember m s in
        elim (call_next (w.environment s'.calls_done) max_attempts s'.last_event_id rounds 0
          s'.attempt (some e)) [
            | none ↦ none
            | some c ↦
                reconnected c e (called_next c s')
                  (pull max_attempts rounds fuel (called_next c s'))
          ]
  ]

-- The consumer calls `next` again and again.
unfoldable pub pull_all :
    Connections → ℕ → ℕ → ℕ → ℕ → Reconnector → Option (List Action × List Settled)
unfolding pull
pull_all w max_attempts rounds fuel zero s = some ([], [])
pull_all w max_attempts rounds fuel (suc n) s = elim (pull w max_attempts rounds fuel s) [
  | none ↦ none
  | some p ↦ elim (pull_all w max_attempts rounds fuel n p.after) [
    | none ↦ none
    | some (actions, results) ↦ some (p.actions ++ actions, p.settled ∷ results)
  ]
]
