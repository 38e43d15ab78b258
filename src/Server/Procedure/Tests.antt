-- ===== src/Server/Procedure/Tests.antt =====
-- A procedure of packages/server/src/procedure-client.ts with two middlewares and two schemas of each
-- kind.
use orpc.Prelude.{
  ℕ, ◌+◌, false, none, some, List, [], ◌∷◌, ◌≡◌, refl, arith, All, ltb, if◌then◌else◌,
}
use orpc.Shared.Object.{leaf, plain, end, field, spread, set_field, merge_two_levels}
use orpc.Server.Procedure.{
  Procedure, OrderedMiddleware, Schema, handles, validates_input, validates_output, ok, fails,
  bad_input, resolves, calls, returns, execute_procedure, next, interpret, validate_inputs,
  validate_outputs, validate_input, validate_output, returned_error, handled,
}
use orpc.Server.Procedure.Stages.{chain}
use orpc.Server.Procedure.Inputs.{IsValidated, handler_input-IsValidated}
use orpc.Server.Procedure.Extending.{passes_on}
use orpc.Server.Procedure.Onion.{execute_procedure-onion}

procedures : Unit {0}
unfolding execute_procedure next interpret validate_inputs validate_outputs validate_input
    validate_output returned_error spread set_field merge_two_levels
procedures = tt

abbrev adds : ℕ → Schema
adds k (leaf n) = some (leaf (n + k))
adds k (plain fs) = none

abbrev below : ℕ → Schema
below k (leaf n) = if ltb n k then some (leaf n) else none
below k (plain fs) = none

abbrev with_user : OrderedMiddleware
with_user = record {
  middleware = λ context v. calls (some (field "user" (leaf 1) end)) passes_on;
  input_schemas_length_at_use = some 1;
  output_schemas_length_at_use = none;
}

-- it tries twice
abbrev again : OrderedMiddleware
again = record {
  middleware =
      λ context v. calls none (λ o. elim o [ ok r ↦ resolves r | fails e ↦ calls none passes_on ]);
  input_schemas_length_at_use = some 2;
  output_schemas_length_at_use = some 1;
}

abbrev procedure : List OrderedMiddleware → Procedure
procedure ms = record {
  input_schemas = below 10 ∷ adds 1 ∷ [];
  output_schemas = adds 2 ∷ below 9 ∷ [];
  ordered_middlewares = ms;
  handler = λ context v. returns v;
  disable_input_validation = false;
  disable_output_validation = false;
  opaque_returned_errors = false;
}

procedure_tests :
    (execute_procedure (procedure (with_user ∷ again ∷ [])) end (leaf 5) ≡ (
      validates_input 0 (leaf 5)
          ∷ validates_input 1 (leaf 5)
          ∷ handles (field "user" (leaf 1) end) (leaf 6)
          ∷ validates_output 1 (leaf 6)
          ∷ validates_output 0 (leaf 6)
          ∷ [],
      ok (leaf 8),
    ))
    × ((execute_procedure (procedure []) end (leaf 11)).1 ≡ fails (bad_input 0))
unfolding procedures
procedure_tests = (refl, refl)

handler_input-IsValidated_example :
    All
      (IsValidated (procedure (with_user ∷ again ∷ [])) (leaf 9))
      (execute_procedure (procedure (with_user ∷ again ∷ [])) end (leaf 9)).0
handler_input-IsValidated_example =
    handler_input-IsValidated (procedure (with_user ∷ again ∷ [])) (leaf 9) end refl
      (omega arith, (omega arith, omega arith))

execute_procedure-onion_example :
    (execute_procedure (procedure (with_user ∷ [])) end (leaf 5)).1
    ≡ chain (validate_inputs (procedure (with_user ∷ [])) (leaf 5) 2 0 (leaf 5)).1 (λ v.
      chain
        (handled (procedure (with_user ∷ [])) (returns v))
        (λ o. (validate_outputs (procedure (with_user ∷ [])) 2 0 o).1))
execute_procedure-onion_example =
    execute_procedure-onion (procedure (with_user ∷ [])) end (leaf 5)
      (field "user" (leaf 1) end ∷ []) refl refl
      (omega arith, omega arith, (omega arith, omega arith)) ((λ context v. refl), tt)
