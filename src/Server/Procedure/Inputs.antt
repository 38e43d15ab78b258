-- ===== src/Server/Procedure/Inputs.antt =====
-- What the handler is given, whatever the middlewares do.
use orpc.Prelude.{
  ℕ, ◌+◌, ◌-◌, ◌≤◌, false, List, [], ◌∷◌, ◌≡◌, refl, arith, All, length, or_else, ap, sym, ◌∙◌,
  Bool-cases, inl, inr,
}
use orpc.Shared.Object.{Value, Fields, end, spread}
use orpc.Server.Procedure.{
  Procedure, OrderedMiddleware, Event, handles, validates_input, validates_output, Run, ok, ◌>>=◌,
  pure, validate_inputs, interpret, Passed, next, execute_procedure, input_end, output_end,
  check_inputs, check_outputs, handled,
}
use orpc.Server.Procedure.Stages.{
  bind-All, interpret-All, chain, ends, ends-add, ends-eq, validate_inputs-All,
  validate_outputs-All,
}

-- the middlewares were used at growing numbers of input schemas, from `k` on
abbrev pub IsOrdered : Procedure → ℕ → List OrderedMiddleware → Type 0
IsOrdered p k [] = k ≤ input_end p []
IsOrdered p k (m ∷ ms) = (k ≤ input_end p (m ∷ ms)) × IsOrdered p (input_end p (m ∷ ms)) ms

module _ (p : Procedure) (original : Value) where
  -- what the first `n` schemas make of the original input
  abbrev pub IsStaged : ℕ → Value → Type 0
  IsStaged n v = (validate_inputs p original n 0 original).1 ≡ ok v

  -- the handler is called with what all schemas make of the original input
  abbrev pub IsValidated : Event → Type 0
  IsValidated (handles context v) = IsStaged (length p.input_schemas) v
  IsValidated (validates_input i v) = Unit
  IsValidated (validates_output i v) = Unit

  module _ (enabled : p.disable_input_validation ≡ false) where
    check_inputs-enabled :
        (first last : ℕ) (v : Value)
        → check_inputs p original first last v ≡ validate_inputs p original (last - first) first v
    check_inputs-enabled first last v = simp enabled refl

    check_inputs-IsStaged :
        (first last : ℕ) (v w : Value)
        → first ≤ last
        → IsStaged first v
        → (check_inputs p original first last v).1 ≡ ok w
        → IsStaged last w
    check_inputs-IsStaged first last v w h s e =
        ends-eq p original last (first + (last - first)) 0 0 original (omega arith) refl
        ∙ ends-add p original first (last - first) 0 original
        ∙ ap (λ o. chain o (λ u. ends p original (last - first) (0 + first) u)) s
        ∙ ends-eq p original (last - first) (last - first) (0 + first) first v refl (omega arith)
        ∙ sym (ap (λ r. r.1) (check_inputs-enabled first last v))
        ∙ e

    check_inputs-All :
        (first last : ℕ) (v : Value) → All IsValidated (check_inputs p original first last v).0
    check_inputs-All first last v =
        rw (check_inputs-enabled first last v)
          (validate_inputs-All p original IsValidated (λ i u. tt) (last - first) first v)

    check_outputs-All :
        (first last : ℕ) (v : Value) → All IsValidated (check_outputs p first last v).0
    check_outputs-All first last v = elim (Bool-cases p.disable_output_validation) [
      | inl e ↦ simp e tt
      | inr e ↦
          simp e (validate_outputs-All p original IsValidated (λ i u. tt) (last - first) first v)
    ]

    -- what follows a stage: the output schemas
    abbrev finish : ℕ → ℕ → Fields → Value → Run Passed
    finish l last context o = check_outputs p l last o >>= λ c. pure (c, context)

    finish-All :
        (l last : ℕ) (r : Run Value) (context : Fields)
        → All IsValidated r.0
        → All IsValidated (r >>= finish l last context).0
    finish-All l last r context h = bind-All IsValidated r (finish l last context) h (λ o e.
        bind-All IsValidated (check_outputs p l last o) _ (check_outputs-All l last o) (λ c f. tt))

    next-All :
        (ms : List OrderedMiddleware) (k l : ℕ) (context : Fields) (v : Value)
        → IsOrdered p k ms
        → IsStaged k v
        → All IsValidated (next p original k l ms context v).0
    unfolding next
    next-All [] k l context v o s =
        bind-All IsValidated (check_inputs p original k (input_end p []) v) _
          (check_inputs-All k (input_end p []) v)
          (λ w e.
            finish-All l (output_end p []) (handles context w ∷ [], handled p (p.handler context w))
              context (check_inputs-IsStaged k (input_end p []) v w o s e, tt))
    next-All (m ∷ ms) k l context v (o, os) s =
        bind-All IsValidated (check_inputs p original k (input_end p (m ∷ ms)) v) _
          (check_inputs-All k (input_end p (m ∷ ms)) v)
          (λ w e.
            bind-All IsValidated
              (interpret (m.middleware context w) (λ c.
                next p original (input_end p (m ∷ ms)) (output_end p (m ∷ ms)) ms
                  (spread context (or_else c end)) w))
              _
              (interpret-All IsValidated (m.middleware context w) _ (λ c.
                next-All ms (input_end p (m ∷ ms)) (output_end p (m ∷ ms))
                  (spread context (or_else c end)) w os
                  (check_inputs-IsStaged k (input_end p (m ∷ ms)) v w o s e)))
              (λ r f.
                bind-All IsValidated (check_outputs p l (output_end p (m ∷ ms)) r.0) _
                  (check_outputs-All l (output_end p (m ∷ ms)) r.0) (λ c g. tt)))

  -- With input validation on, and middlewares used at growing numbers of schemas: whatever the
  -- middlewares do, be it to skip `next`, to call it many times or to go on from its rejection, the
  -- handler is only ever called with what all input schemas together make of the original input.
  pub handler_input-IsValidated :
      (context : Fields)
      → p.disable_input_validation ≡ false
      → IsOrdered p 0 p.ordered_middlewares
      → All IsValidated (execute_procedure p context original).0
  unfolding execute_procedure validate_inputs
  handler_input-IsValidated context enabled o =
      bind-All IsValidated (next p original 0 0 p.ordered_middlewares context original) _
        (next-All enabled p.ordered_middlewares 0 0 context original o refl) (λ r e. tt)
