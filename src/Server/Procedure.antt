-- ===== src/Server/Procedure.antt =====
-- packages/server/src/procedure-client.ts: `executeProcedureInternal`. A middleware is the program of
-- its calls of `next`, and may call it any number of times and go on from a rejection. Validators
-- and the handler are functions; what happens in order is a list of events.
pub mod Stages
pub mod Inputs
pub mod Extending
pub mod Onion
mod Tests
use orpc.Prelude.{
  ℕ, zero, suc, ◌+◌, ◌-◌, Bool, true, false, Option, none, some, List, [], ◌∷◌, ◌++◌, ◌&&◌, ◌||◌,
  not, or_else, length, get_elem?, ltb, ◌==◌, if◌then◌else◌,
}
use orpc.Shared.Object.{Value, leaf, plain, Fields, end, is_plain_object, spread, merge_two_levels}

pub record OrpcError : Type 0 where
  pub code : ℕ
  pub defined : Bool
  pub inferable : Bool

-- what a call rejects with: a failed schema, by its index, a schema that is not there, or an error
pub data Failure : Type 0 where
  bad_input : ℕ → Failure
  bad_output : ℕ → Failure
  type_error : Failure
  raised : OrpcError → Failure

pub data Outcome (A : Type 0) : Type 0 where
  ok : A → Outcome A
  fails : Failure → Outcome A

-- `validate` of a schema: the value, or issues
abbrev pub Schema : Type 0
Schema = Value → Option Value

-- what `next` resolves to
abbrev pub Passed : Type 0
Passed = Value × Fields

-- what a middleware does: it resolves, rejects, or calls `next` and goes on from how that ends
pub data Program : Type 0 where
  resolves : Passed → Program
  rejects : Failure → Program
  calls : Option Fields → (Outcome Passed → Program) → Program

pub record OrderedMiddleware : Type 0 where
  pub middleware : Fields → Value → Program
  pub input_schemas_length_at_use : Option ℕ
  pub output_schemas_length_at_use : Option ℕ

pub data Handled : Type 0 where
  returns : Value → Handled
  returns_error : OrpcError → Handled
  throws : Failure → Handled

pub record Procedure : Type 0 where
  pub input_schemas : List Schema
  pub output_schemas : List Schema
  pub ordered_middlewares : List OrderedMiddleware
  pub handler : Fields → Value → Handled
  pub disable_input_validation : Bool
  pub disable_output_validation : Bool
  pub opaque_returned_errors : Bool

-- a schema validates, or the handler is called
pub data Event : Type 0 where
  validates_input : ℕ → Value → Event
  validates_output : ℕ → Value → Event
  handles : Fields → Value → Event

abbrev pub Run : Type 0 → Type 0
Run A = List Event × Outcome A

abbrev pub after : {A : Type 0} → List Event → Run A → Run A
after es (fs, r) = (es ++ fs, r)

infixl 5 ◌>>=◌
abbrev pub ◌>>=◌ : {A B : Type 0} → Run A → (A → Run B) → Run B
(es, ok a) >>= f = after es (f a)
(es, fails e) >>= f = (es, fails e)

abbrev pub pure : {A : Type 0} → A → Run A
pure a = ([], ok a)

-- `validateInput` and `validateOutput`
abbrev pub judged : Event → Failure → Option Value → Run Value
judged e failure none = (e ∷ [], fails failure)
judged e failure (some v) = (e ∷ [], ok v)

unfoldable pub validate_input : ℕ → Option Schema → Value → Run Value
validate_input i none v = ([], fails type_error)
validate_input i (some schema) v = judged (validates_input i v) (bad_input i) (schema v)

unfoldable pub validate_output : ℕ → Option Schema → Value → Run Value
validate_output i none v = ([], fails type_error)
validate_output i (some schema) v = judged (validates_output i v) (bad_output i) (schema v)

module _ (p : Procedure) (original : Value) where
  -- what the schema at an index is given
  abbrev pub candidate : Value → Value
  candidate current =
      if ltb 1 (length p.input_schemas) && is_plain_object current then original else current

  abbrev pub combined : ℕ → Value → Value → Value
  combined i current validated = if i == 0 then validated else merge_two_levels current validated

  -- the loop over `n` input schemas from index `i`
  unfoldable pub validate_inputs : ℕ → ℕ → Value → Run Value
  unfolding validate_input
  validate_inputs zero i current = pure current
  validate_inputs (suc n) i current = do
    validated ← validate_input i (get_elem? p.input_schemas i) (candidate current)
    validate_inputs n (suc i) (combined i current validated)

-- the loop over `n` output schemas down to index `i`, the last first
unfoldable pub validate_outputs : Procedure → ℕ → ℕ → Value → Run Value
unfolding validate_output
validate_outputs p zero i current = pure current
validate_outputs p (suc n) i current = do
  validated ← validate_output (i + n) (get_elem? p.output_schemas (i + n)) current
  validate_outputs p n i validated

-- an error that the handler returns is thrown; unless it is opaque or inferable already, as inferable
unfoldable pub returned_error : Bool → OrpcError → Failure
returned_error opaque e =
    if opaque || (e.inferable && not e.defined)
    then raised e
    else raised (record e { defined = false; inferable = true })

abbrev pub handled : Procedure → Handled → Outcome Value
handled p (returns v) = ok v
handled p (returns_error e) = fails (returned_error p.opaque_returned_errors e)
handled p (throws e) = fails e

-- a middleware's program, with `next` as given
unfoldable pub interpret : Program → (Option Fields → Run Passed) → Run Passed
interpret (resolves r) next = pure r
interpret (rejects e) next = ([], fails e)
interpret (calls c go) next = after (next c).0 (interpret (go (next c).1) next)

abbrev pub input_end : Procedure → List OrderedMiddleware → ℕ
input_end p [] = length p.input_schemas
input_end p (m ∷ ms) = or_else m.input_schemas_length_at_use 0

abbrev pub output_end : Procedure → List OrderedMiddleware → ℕ
output_end p [] = length p.output_schemas
output_end p (m ∷ ms) = or_else m.output_schemas_length_at_use 0

-- the schemas of a stage, unless validation is disabled
abbrev pub check_inputs : Procedure → Value → ℕ → ℕ → Value → Run Value
check_inputs p original first last v =
    if p.disable_input_validation then pure v else validate_inputs p original (last - first) first v

abbrev pub check_outputs : Procedure → ℕ → ℕ → Value → Run Value
check_outputs p first last v =
    if p.disable_output_validation then pure v else validate_outputs p (last - first) first v

-- `next(midIndex, context, input)`: the middlewares that are left, and where the schemas of the stage
-- begin
unfoldable pub next :
    Procedure → Value → ℕ → ℕ → List OrderedMiddleware → Fields → Value → Run Passed
next p original input_start output_start [] context input = do
  current ← check_inputs p original input_start (input_end p []) input
  output ← (handles context current ∷ [], handled p (p.handler context current))
  checked ← check_outputs p output_start (output_end p []) output
  pure (checked, context)
next p original input_start output_start (m ∷ ms) context input = do
  current ← check_inputs p original input_start (input_end p (m ∷ ms)) input
  result ← interpret (m.middleware context current) (λ c.
      next p original (input_end p (m ∷ ms)) (output_end p (m ∷ ms)) ms
        (spread context (or_else c end)) current)
  checked ← check_outputs p output_start (output_end p (m ∷ ms)) result.0
  pure (checked, spread context result.1)

unfoldable pub execute_procedure : Procedure → Fields → Value → Run Value
execute_procedure p context input = do
  result ← next p input 0 0 p.ordered_middlewares context input
  pure result.0
