-- ===== src/Publisher/Iterator.antt =====
-- packages/publisher/src/publisher.ts: the iterator that `Publisher.subscribe` returns. A promise of
-- a pull and an error are numbers; settling a promise is an output of the operation, and so is the
-- call of `unsubscribe`, which is awaited and so may come later. The signal is its `aborted` flag; a
-- call of `abort_signal` is the event that the signal dispatches. A subscription that fails is a call
-- of `terminate` with the error.
pub mod Pulls
pub mod Buffer
pub mod Order
use orpc.Prelude.{
  ℕ, zero, suc, Bool, true, false, Option, none, some, List, [], ◌∷◌, ◌++◌, map, length, ltb, drop,
  if◌then◌else◌,
}

pub data TerminalState : Type 0 where
  error : ℕ → TerminalState
  cancelled : TerminalState

-- how a promise is settled: with a payload, with the end, or with an error
pub data Outcome (T : Type 0) : Type 0 where
  value : T → Outcome T
  done : Outcome T
  throws : ℕ → Outcome T

pub record EventIterator (T : Type 0) : Type 0 where
  pub buffered_events : List T
  pub pull_resolvers : List ℕ
  pub terminal_state : Option TerminalState
  pub aborted : Bool
  -- whether the subscription succeeds, and so gives an `unsubscribe`
  pub is_subscribed : Bool

-- the next state, the promises that are settled, and whether `unsubscribe` is called
pub record Effect (T : Type 0) : Type 0 where
  pub state : EventIterator T
  pub settled : List (ℕ × Outcome T)
  pub unsubscribes : Bool

-- `length > maxBufferedEvents`; `none` is no bound
abbrev pub is_over : Option ℕ → ℕ → Bool
is_over none n = false
is_over (some bound) n = ltb bound n

module _ {T : Type 0} where
  abbrev pub new_iterator : Bool → EventIterator T
  new_iterator is_subscribed = record {
    buffered_events = [];
    pull_resolvers = [];
    terminal_state = none;
    aborted = false;
    is_subscribed = is_subscribed;
  }

  unfoldable pub push_bounded : Option ℕ → List T → T → List T
  push_bounded bound xs x =
      let ys = xs ++ x ∷ [] in if is_over bound (length ys) then drop 1 ys else ys

  -- the listener that is subscribed
  unfoldable pub receive : Option ℕ → T → EventIterator T → Effect T
  unfolding push_bounded
  receive bound x s =
      if s.aborted
      then record { state = s; settled = []; unsubscribes = false }
      else elim s.pull_resolvers [
        | p ∷ ps ↦ record {
          state = record s { pull_resolvers = ps };
          settled = (p, value x) ∷ [];
          unsubscribes = false;
        }
        | [] ↦ record {
          state = record s { buffered_events = push_bounded bound s.buffered_events x };
          settled = [];
          unsubscribes = false;
        }
      ]

  abbrev pub ending : TerminalState → Outcome T
  ending (error e) = throws e
  ending cancelled = done

  -- `pullResolvers.length = 0` and `bufferedEvents.length = 0`
  abbrev pub clear_aborted : EventIterator T → EventIterator T
  clear_aborted s = if s.aborted then record s { pull_resolvers = []; buffered_events = [] } else s

  unfoldable pub terminate : TerminalState → EventIterator T → Effect T
  terminate t s = elim s.terminal_state [
    | some old ↦ record { state = s; settled = []; unsubscribes = false }
    | none ↦ record {
      state = clear_aborted (record s { terminal_state = some t });
      settled = map (λ p. (p, ending t)) s.pull_resolvers;
      unsubscribes = s.is_subscribed;
    }
  ]

  -- the signal is aborted, and then calls `abortListener` if it is still registered
  unfoldable pub abort_signal : ℕ → EventIterator T → Effect T
  abort_signal reason s =
      if s.aborted
      then record { state = s; settled = []; unsubscribes = false }
      else terminate (error reason) (record s { aborted = true })

  unfoldable pub pull_buffered : ℕ → EventIterator T → Effect T
  pull_buffered p s = elim s.buffered_events [
    | x ∷ xs ↦ record {
      state = record s { buffered_events = xs };
      settled = (p, value x) ∷ [];
      unsubscribes = false;
    }
    | [] ↦ elim s.terminal_state [
      | some t ↦ record { state = s; settled = (p, ending t) ∷ []; unsubscribes = false }
      | none ↦ record {
        state = record s { pull_resolvers = s.pull_resolvers ++ p ∷ [] };
        settled = [];
        unsubscribes = false;
      }
    ]
  ]

  -- the first function that `AsyncIteratorClass` is given
  unfoldable pub pull : ℕ → EventIterator T → Effect T
  unfolding pull_buffered
  pull p s = elim s.terminal_state [
    | some cancelled ↦ record { state = s; settled = (p, done) ∷ []; unsubscribes = false }
    | _ ↦ pull_buffered p s
  ]

pub data Call (T : Type 0) : Type 0 where
  receive_call : T → Call T
  pull_call : ℕ → Call T
  terminate_call : TerminalState → Call T
  abort_call : ℕ → Call T

module _ {T : Type 0} (bound : Option ℕ) where
  unfoldable pub call : Call T → EventIterator T → Effect T
  call (receive_call x) s = receive bound x s
  call (pull_call p) s = pull p s
  call (terminate_call t) s = terminate t s
  call (abort_call reason) s = abort_signal reason s

  abbrev pub run : List (Call T) → EventIterator T → EventIterator T
  run [] s = s
  run (c ∷ cs) s = run cs (call c s).state

  abbrev pub settlements : List (Call T) → EventIterator T → List (ℕ × Outcome T)
  settlements [] s = []
  settlements (c ∷ cs) s = (call c s).settled ++ settlements cs (call c s).state

  -- how often `unsubscribe` is called
  abbrev pub unsubscriptions : List (Call T) → EventIterator T → ℕ
  unsubscriptions [] s = 0
  unsubscriptions (c ∷ cs) s =
      let later = unsubscriptions cs (call c s).state in
      if (call c s).unsubscribes then suc later else later
