-- ===== src/Server/Procedure/Onion.antt =====
-- A procedure whose middlewares only extend the context: the call from the outside in and back.
use orpc.Prelude.{
  ℕ, zero, suc, ◌+◌, ◌-◌, ◌≤◌, false, Option, some, List, [], ◌∷◌, ◌≡◌, refl, arith, length,
  or_else, ap, sym, ◌∙◌, get_elem?,
}
use orpc.Shared.Object.{Value, Fields, end, spread}
use orpc.Server.Procedure.{
  Procedure, OrderedMiddleware, handles, Run, Outcome, ok, ◌>>=◌, pure, validate_inputs,
  validate_output, validate_outputs, interpret, Passed, next, execute_procedure, input_end,
  output_end, check_inputs, check_outputs, handled,
}
use orpc.Server.Procedure.Stages.{
  bind-chain, chain, chain_ext, chain_assoc, ends, ends-add, ends-eq,
}
use orpc.Server.Procedure.Extending.{
  AllExtend, spread_all, IsNested, interpret-passes_on, value-pure, closed, after_handler,
  nested-le,
}

module _ (p : Procedure) where
  abbrev outs : ℕ → ℕ → Value → Outcome Value
  outs n i v = (validate_outputs p n i v).1

  outs-suc :
      (n i : ℕ) (v : Value)
      → outs (suc n) i v
        ≡ chain (validate_output (i + n) (get_elem? p.output_schemas (i + n)) v).1 (λ w. outs n i w)
  unfolding validate_outputs
  outs-suc n i v =
      bind-chain (validate_output (i + n) (get_elem? p.output_schemas (i + n)) v)
        (λ w. validate_outputs p n i w)

  outs-eq : (m n i j : ℕ) (v : Value) → m ≡ n → i ≡ j → outs m i v ≡ outs n j v
  outs-eq m n i j v h k = rw (h, k) refl

  at_output : ℕ → Value → Outcome Value
  at_output i v = (validate_output i (get_elem? p.output_schemas i) v).1

  -- The later output schemas come first.
  outs-add : (a b i : ℕ) (v : Value) → outs (a + b) i v ≡ chain (outs b (i + a) v) (λ w. outs a i w)
  unfolding validate_outputs at_output
  outs-add a zero i v = outs-eq (a + 0) a i i v (omega arith) refl
  outs-add a (suc b) i v =
      outs-eq (a + suc b) (suc (a + b)) i i v (omega arith) refl
      ∙ outs-suc (a + b) i v
      ∙ ap (λ n. chain (at_output n v) (λ w. outs (a + b) i w)) {x = i + (a + b)} {y = i + a + b}
          (omega arith)
      ∙ chain_ext (at_output (i + a + b) v) (λ w. outs (a + b) i w)
          (λ w. chain (outs b (i + a) w) (λ u. outs a i u)) (λ w. outs-add a b i w)
      ∙ sym (chain_assoc (at_output (i + a + b) v) (λ w. outs b (i + a) w) (λ u. outs a i u))
      ∙ ap (λ o. chain o (λ u. outs a i u)) (sym (outs-suc b (i + a) v))

  -- output schemas up to `f`, and then from `f` on
  outs-join :
      (l f m : ℕ) (o : Value)
      → l ≤ f
      → f ≤ m
      → chain (outs (m - f) f o) (λ w. outs (f - l) l w) ≡ outs (m - l) l o
  outs-join l f m o h k =
      ap (λ x. chain x (λ w. outs (f - l) l w))
        (outs-eq (m - f) (m - f) f (l + (f - l)) o refl (omega arith))
      ∙ sym (outs-add (f - l) (m - f) l o)
      ∙ outs-eq (f - l + (m - f)) (m - l) l l o (omega arith) refl

  module _ (original : Value) where
    ends-join :
        (k e n : ℕ) (v : Value) (g : Value → Outcome Value)
        → k ≤ e
        → e ≤ n
        → chain (ends p original (e - k) k v) (λ w. chain (ends p original (n - e) e w) g)
          ≡ chain (ends p original (n - k) k v) g
    ends-join k e n v g h i =
        sym (chain_assoc (ends p original (e - k) k v) (λ w. ends p original (n - e) e w) g)
        ∙ ap (λ x. chain x g)
            (chain_ext (ends p original (e - k) k v) (λ w. ends p original (n - e) e w)
                (λ w. ends p original (n - e) (k + (e - k)) w)
                (λ w. ends-eq p original (n - e) (n - e) e (k + (e - k)) w refl (omega arith))
              ∙ sym (ends-add p original (e - k) (n - e) k v)
              ∙ ends-eq p original (e - k + (n - e)) (n - k) k k v (omega arith) refl)

    -- the value that a run of `next` resolves to
    abbrev value_of : Outcome Passed → Outcome Value
    value_of o = chain o (λ r. ok r.0)

    -- all that is left: the input schemas from `k` on, the handler, the output schemas down to `l`
    abbrev left : ℕ → ℕ → Fields → Value → Outcome Value
    left k l context v =
        chain (ends p original (length p.input_schemas - k) k v) (λ w.
          chain (handled p (p.handler context w)) (λ o. outs (length p.output_schemas - l) l o))

    module _ (inputs : p.disable_input_validation ≡ false)
        (outputs : p.disable_output_validation ≡ false) where
      inputs_checked :
          (k e : ℕ) (v : Value)
          → check_inputs p original k e v ≡ validate_inputs p original (e - k) k v
      inputs_checked k e v = simp inputs refl

      outputs_checked :
          (l f : ℕ) (v : Value) → check_outputs p l f v ≡ validate_outputs p (f - l) l v
      outputs_checked l f v = simp outputs refl

      staged :
          (k e : ℕ) (v : Value) (f : Value → Run Passed)
          → value_of (check_inputs p original k e v >>= f).1
            ≡ chain (ends p original (e - k) k v) (λ w. value_of (f w).1)
      staged k e v f = rw (inputs_checked k e v) (
          ap value_of (bind-chain (validate_inputs p original (e - k) k v) f)
          ∙ chain_assoc (ends p original (e - k) k v) (λ w. (f w).1) (λ r. ok r.0))

      finished :
          (l f : ℕ) (context : Fields) (o : Value)
          → value_of (check_outputs p l f o >>= λ c. pure (c, context)).1 ≡ outs (f - l) l o
      finished l f context o =
          rw (outputs_checked l f o) (value-pure (validate_outputs p (f - l) l o) context)

      left-outs :
          (l e f : ℕ) (final : Fields) (w : Value)
          → l ≤ f
          → f ≤ length p.output_schemas
          → chain (left e f final w) (λ o. outs (f - l) l o)
            ≡ chain (ends p original (length p.input_schemas - e) e w) (λ u.
              chain (handled p (p.handler final u)) (λ o. outs (length p.output_schemas - l) l o))
      left-outs l e f final w j q =
          chain_assoc (ends p original (length p.input_schemas - e) e w) _ _
          ∙ chain_ext (ends p original (length p.input_schemas - e) e w) _ _ (λ u.
            chain_assoc (handled p (p.handler final u)) _ _
            ∙ chain_ext (handled p (p.handler final u)) _ _
                (λ o. outs-join l f (length p.output_schemas) o j q))

      -- A stage around what is left behind it.
      nest :
          (k l e f : ℕ) (context final : Fields) (v : Value) (inner : Value → Run Passed)
          (out : Passed → Fields)
          → k ≤ e
          → e ≤ length p.input_schemas
          → l ≤ f
          → f ≤ length p.output_schemas
          → ((w : Value) → value_of (inner w).1 ≡ left e f final w)
          → value_of
              (check_inputs p original k e v >>= λ w.
                inner w >>= λ r. check_outputs p l f r.0 >>= λ c. pure (c, out r)).1
            ≡ left k l final v
      nest k l e f context final v inner out h i j q ih =
          staged k e v (λ w. inner w >>= λ r. check_outputs p l f r.0 >>= λ c. pure (c, out r))
          ∙ chain_ext (ends p original (e - k) k v) _ _ (λ w.
            closed (inner w) (λ r. check_outputs p l f r.0 >>= λ c. pure (c, out r))
              (λ o. outs (f - l) l o) (λ r. finished l f (out r) r.0)
            ∙ ap (λ x. chain x (λ o. outs (f - l) l o)) (ih w)
            ∙ left-outs l e f final w j q)
          ∙ ends-join k e (length p.input_schemas) v
              (λ u.
                chain (handled p (p.handler final u)) (λ o. outs (length p.output_schemas - l) l o))
              h i

      -- Whatever is left of a run.
      next-left :
          (ms : List OrderedMiddleware) (cs : List Fields) (k l : ℕ) (context : Fields) (v : Value)
          → IsNested p k l ms
          → AllExtend ms cs
          → value_of (next p original k l ms context v).1 ≡ left k l (spread_all context cs) v
      unfolding next
      next-left [] [] k l context v n h =
          staged k (input_end p []) v _
          ∙ chain_ext (ends p original (length p.input_schemas - k) k v) _ _ (λ w.
            after_handler (handles context w ∷ []) (handled p (p.handler context w))
              (λ o. check_outputs p l (output_end p []) o >>= λ c. pure (c, context))
              (λ o. outs (length p.output_schemas - l) l o)
              (λ o. finished l (output_end p []) context o))
      next-left (m ∷ ms) (c ∷ cs) k l context v (a, b, n) (h, hs) =
          let e = input_end p (m ∷ ms) in
          let f = output_end p (m ∷ ms) in
          let bounds = nested-le p e f ms n in
          let further : Value → Option Fields → Run Passed =
            λ w extra. next p original e f ms (spread context (or_else extra end)) w in
          nest k l e f context (spread_all (spread context c) cs) v
            (λ w. interpret (m.middleware context w) (further w)) (λ r. spread context r.1) a
            bounds.0 b bounds.1
            (λ w.
              ap (λ g. value_of (interpret g (further w)).1) (h context w)
              ∙ ap value_of (interpret-passes_on (some c) (further w))
              ∙ next-left ms cs e f (spread context c) w n hs)
      next-left [] (c ∷ cs) k l context v n h = absurd h
      next-left (m ∷ ms) [] k l context v n h = absurd h

left-all :
    (p : Procedure) (input : Value) (final : Fields) (n n' m m' : ℕ)
    → n ≡ n'
    → m ≡ m'
    → chain
        (ends p input n 0 input)
        (λ v. chain (handled p (p.handler final v)) (λ o. outs p m 0 o))
      ≡ chain
          (ends p input n' 0 input)
          (λ v. chain (handled p (p.handler final v)) (λ o. outs p m' 0 o))
left-all p input final n n' m m' h k =
    ap
      (λ x.
        chain (ends p input x 0 input)
          (λ v. chain (handled p (p.handler final v)) (λ o. outs p m 0 o)))
      h
    ∙ ap
        (λ x.
          chain (ends p input n' 0 input)
            (λ v. chain (handled p (p.handler final v)) (λ o. outs p x 0 o)))
        k

-- Middlewares that were used at growing numbers of schemas and that each call `next` once, with more
-- context, and pass its result on, with validation on: the call gives what all input schemas in
-- turn, the handler under the context spread by all of them, and all output schemas, the last first,
-- give, wherever the middlewares stand between the schemas; the first failure is its result.
pub execute_procedure-onion :
    (p : Procedure) (context : Fields) (input : Value) (cs : List Fields)
    → p.disable_input_validation ≡ false
    → p.disable_output_validation ≡ false
    → IsNested p 0 0 p.ordered_middlewares
    → AllExtend p.ordered_middlewares cs
    → (execute_procedure p context input).1
      ≡ chain (validate_inputs p input (length p.input_schemas) 0 input).1 (λ v.
        chain
          (handled p (p.handler (spread_all context cs) v))
          (λ o. (validate_outputs p (length p.output_schemas) 0 o).1))
unfolding execute_procedure
execute_procedure-onion p context input cs i o n h =
    let inner = next p input 0 0 p.ordered_middlewares context input in
    let final = spread_all context cs in
    bind-chain inner (λ r. pure r.0)
    ∙ next-left p input i o p.ordered_middlewares cs 0 0 context input n h
    ∙ left-all p input final (length p.input_schemas - 0) (length p.input_schemas)
        (length p.output_schemas - 0) (length p.output_schemas) (omega arith) (omega arith)
