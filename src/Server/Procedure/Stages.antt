-- ===== src/Server/Procedure/Stages.antt =====
-- Runs put together from runs, and input schemas validated in stages.
use orpc.Prelude.{
  ℕ, zero, suc, ◌+◌, Option, none, some, ◌≡◌, refl, arith, All, All-append, get_elem?, ap, sym, ◌∙◌,
}
use orpc.Shared.Object.{Value, Fields}
use orpc.Server.Procedure.{
  Procedure, Event, validates_input, validates_output, Run, Outcome, ok, fails, Failure, ◌>>=◌,
  validate_input, validate_inputs, validate_output, validate_outputs, candidate, combined, judged,
  Program, resolves, rejects, calls, interpret, Passed, Schema, bad_input, bad_output,
}

module _ (P : Event → Type 0) where
  pub bind-All :
      {A B : Type 0} (r : Run A) (f : A → Run B)
      → All P r.0
      → ((a : A) → r.1 ≡ ok a → All P (f a).0)
      → All P (r >>= f).0
  bind-All (es, ok a) f h k = All-append P es (f a).0 h (k a refl)
  bind-All (es, fails e) f h k = h

  pub interpret-All :
      (prog : Program) (next : Option Fields → Run Passed)
      → ((c : Option Fields) → All P (next c).0)
      → All P (interpret prog next).0
  unfolding interpret
  interpret-All (resolves r) next h = tt
  interpret-All (rejects e) next h = tt
  interpret-All (calls c go) next h =
      All-append P (next c).0 (interpret (go (next c).1) next).0 (h c)
        (interpret-All (go (next c).1) next h)

-- how a run ends, after how a first one ended
abbrev pub chain : {A B : Type 0} → Outcome A → (A → Outcome B) → Outcome B
chain (ok a) f = f a
chain (fails e) f = fails e

pub bind-chain : {A B : Type 0} (r : Run A) (f : A → Run B) → (r >>= f).1 ≡ chain r.1 (λ a. (f a).1)
bind-chain (es, ok a) f = refl
bind-chain (es, fails e) f = refl

bind-chain_map :
    {A B C : Type 0} (r : Run A) (g : A → B) (f : B → Run C)
    → (r >>= λ a. f (g a)).1 ≡ chain (chain r.1 (λ a. ok (g a))) (λ b. (f b).1)
bind-chain_map (es, ok a) g f = refl
bind-chain_map (es, fails e) g f = refl

pub chain_ext :
    {A B : Type 0} (o : Outcome A) (f g : A → Outcome B)
    → ((a : A) → f a ≡ g a)
    → chain o f ≡ chain o g
chain_ext (ok a) f g h = h a
chain_ext (fails e) f g h = refl

pub chain_assoc :
    {A B C : Type 0} (o : Outcome A) (f : A → Outcome B) (g : B → Outcome C)
    → chain (chain o f) g ≡ chain o (λ a. chain (f a) g)
chain_assoc (ok a) f g = refl
chain_assoc (fails e) f g = refl

judged-All :
    (P : Event → Type 0) (e : Event) (f : Failure) (o : Option Value) → P e → All P (judged e f o).0
judged-All P e f none h = (h, tt)
judged-All P e f (some v) h = (h, tt)

validate_input-All :
    (P : Event → Type 0)
    → ((i : ℕ) (v : Value) → P (validates_input i v))
    → (i : ℕ) (schema : Option Schema) (v : Value) → All P (validate_input i schema v).0
unfolding validate_input
validate_input-All P q i none v = tt
validate_input-All P q i (some schema) v =
    judged-All P (validates_input i v) (bad_input i) (schema v) (q i v)

validate_output-All :
    (P : Event → Type 0)
    → ((i : ℕ) (v : Value) → P (validates_output i v))
    → (i : ℕ) (schema : Option Schema) (v : Value) → All P (validate_output i schema v).0
unfolding validate_output
validate_output-All P q i none v = tt
validate_output-All P q i (some schema) v =
    judged-All P (validates_output i v) (bad_output i) (schema v) (q i v)

module _ (p : Procedure) (original : Value) where
  abbrev pub ends : ℕ → ℕ → Value → Outcome Value
  ends n i v = (validate_inputs p original n i v).1

  abbrev step : ℕ → Value → Outcome Value
  step i v =
      chain (validate_input i (get_elem? p.input_schemas i) (candidate p original v)).1
        (λ w. ok (combined p original i v w))

  ends-suc : (n i : ℕ) (v : Value) → ends (suc n) i v ≡ chain (step i v) (λ w. ends n (suc i) w)
  unfolding validate_inputs
  ends-suc n i v =
      bind-chain_map (validate_input i (get_elem? p.input_schemas i) (candidate p original v))
        (λ w. combined p original i v w) (λ w. validate_inputs p original n (suc i) w)

  pub ends-eq : (m n i j : ℕ) (v : Value) → m ≡ n → i ≡ j → ends m i v ≡ ends n j v
  ends-eq m n i j v h k = rw (h, k) refl

  -- Schemas validated in two stages are validated as in one.
  pub ends-add :
      (a b i : ℕ) (v : Value) → ends (a + b) i v ≡ chain (ends a i v) (λ w. ends b (i + a) w)
  unfolding validate_inputs
  ends-add zero b i v = ends-eq (0 + b) b i (i + 0) v (omega arith) (omega arith)
  ends-add (suc a) b i v =
      ends-eq (suc a + b) (suc (a + b)) i i v (omega arith) refl
      ∙ ends-suc (a + b) i v
      ∙ chain_ext (step i v) (λ w. ends (a + b) (suc i) w)
          (λ w. chain (ends a (suc i) w) (λ u. ends b (i + suc a) u))
          (λ w.
            ends-add a b (suc i) w
            ∙ chain_ext (ends a (suc i) w) (λ u. ends b (suc i + a) u) (λ u. ends b (i + suc a) u)
                (λ u. ends-eq b b (suc i + a) (i + suc a) u refl (omega arith)))
      ∙ sym (chain_assoc (step i v) (λ w. ends a (suc i) w) (λ u. ends b (i + suc a) u))
      ∙ ap (λ o. chain o (λ u. ends b (i + suc a) u)) (sym (ends-suc a i v))

  -- no handler is called while schemas validate
  module _ (P : Event → Type 0) (q : (i : ℕ) (v : Value) → P (validates_input i v)) where
    pub validate_inputs-All : (n i : ℕ) (v : Value) → All P (validate_inputs p original n i v).0
    unfolding validate_inputs
    validate_inputs-All zero i v = tt
    validate_inputs-All (suc n) i v =
        bind-All P (validate_input i (get_elem? p.input_schemas i) (candidate p original v))
          (λ w. validate_inputs p original n (suc i) (combined p original i v w))
          (validate_input-All P q i (get_elem? p.input_schemas i) (candidate p original v))
          (λ w h. validate_inputs-All n (suc i) (combined p original i v w))

  module _ (P : Event → Type 0) (q : (i : ℕ) (v : Value) → P (validates_output i v)) where
    pub validate_outputs-All : (n i : ℕ) (v : Value) → All P (validate_outputs p n i v).0
    unfolding validate_outputs
    validate_outputs-All zero i v = tt
    validate_outputs-All (suc n) i v =
        bind-All P (validate_output (i + n) (get_elem? p.output_schemas (i + n)) v)
          (λ w. validate_outputs p n i w)
          (validate_output-All P q (i + n) (get_elem? p.output_schemas (i + n)) v)
          (λ w h. validate_outputs-All n i w)
