-- ===== src/Server/Procedure/Extending.antt =====
-- Middlewares that only extend the context.
use orpc.Prelude.{ℕ, ◌≤◌, Option, some, List, [], ◌∷◌, ◌≡◌, refl, arith, length}
use orpc.Shared.Object.{Value, Fields, spread}
use orpc.Server.Procedure.{
  Procedure, OrderedMiddleware, Event, Run, Outcome, ok, fails, ◌>>=◌, pure, Program, resolves,
  rejects, calls, interpret, Passed, next, input_end, output_end,
}
use orpc.Server.Procedure.Stages.{chain}

abbrev pub passes_on : Outcome Passed → Program
passes_on (ok r) = resolves r
passes_on (fails e) = rejects e

-- a middleware that calls `next` once, with more context, and passes its result on
abbrev pub Extends : OrderedMiddleware → Fields → Type 0
Extends m extra =
    (context : Fields) (v : Value) → m.middleware context v ≡ calls (some extra) passes_on

abbrev pub AllExtend : List OrderedMiddleware → List Fields → Type 0
AllExtend [] [] = Unit
AllExtend (m ∷ ms) (c ∷ cs) = Extends m c × AllExtend ms cs
AllExtend _ _ = ⊥

abbrev pub spread_all : Fields → List Fields → Fields
spread_all context [] = context
spread_all context (c ∷ cs) = spread_all (spread context c) cs

-- the middlewares were used at growing numbers of input and of output schemas
abbrev pub IsNested : Procedure → ℕ → ℕ → List OrderedMiddleware → Type 0
IsNested p k l [] = (k ≤ input_end p []) × (l ≤ output_end p [])
IsNested p k l (m ∷ ms) =
    (k ≤ input_end p (m ∷ ms))
    × (l ≤ output_end p (m ∷ ms))
    × IsNested p (input_end p (m ∷ ms)) (output_end p (m ∷ ms)) ms

pub interpret-passes_on :
    (c : Option Fields) (next : Option Fields → Run Passed)
    → (interpret (calls c passes_on) next).1 ≡ (next c).1
unfolding interpret
interpret-passes_on c next = elim (next c).1 as (λ o. (interpret (passes_on o) next).1 ≡ o) [
  | ok r ↦ refl
  | fails e ↦ refl
]

pub value-pure :
    (r : Run Value) (context : Fields)
    → chain (r >>= λ c. pure {A = Passed} (c, context)).1 (λ q. ok q.0) ≡ r.1
value-pure (es, ok v) context = refl
value-pure (es, fails e) context = refl

pub closed :
    (r : Run Passed) (g : Passed → Run Passed) (b : Value → Outcome Value)
    → ((q : Passed) → chain (g q).1 (λ x. ok x.0) ≡ b q.0)
    → chain (r >>= g).1 (λ x. ok x.0) ≡ chain (chain r.1 (λ x. ok x.0)) b
closed (es, ok q) g b h = h q
closed (es, fails e) g b h = refl

pub after_handler :
    (es : List Event) (o : Outcome Value) (g : Value → Run Passed) (b : Value → Outcome Value)
    → ((v : Value) → chain (g v).1 (λ x. ok x.0) ≡ b v)
    → chain ((es, o) >>= g).1 (λ x. ok x.0) ≡ chain o b
after_handler es (ok v) g b h = h v
after_handler es (fails e) g b h = refl

pub nested-le :
    (p : Procedure) (k l : ℕ) (ms : List OrderedMiddleware)
    → IsNested p k l ms
    → (k ≤ length p.input_schemas) × (l ≤ length p.output_schemas)
nested-le p k l [] h = h
nested-le p k l (m ∷ ms) (a, b, n) =
    let (i, j) = nested-le p (input_end p (m ∷ ms)) (output_end p (m ∷ ms)) ms n in
    (omega arith, omega arith)
