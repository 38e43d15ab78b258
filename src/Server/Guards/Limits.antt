-- ===== src/Server/Guards/Limits.antt =====
-- How much of a body is read.
use orpc.Prelude.{
  ℕ, ◌+◌, ◌≤◌, ◌<◌, true, false, Option, List, [], ◌∷◌, ltb, ◌++◌, ap, ◌≡◌, ◌⊎◌, inl, inr, refl,
  arith, Bool-cases,
}
use orpc.Server.Guards.{
  Read, limited_stream, Body, stream, other, Resolved, refused, as_is, limited, over_limit,
  resolve_body,
}

abbrev pub total : List ℕ → ℕ
total [] = 0
total (n ∷ ns) = n + total ns

-- What a reader gets of a stream: all of it, if it fits, else a part from its beginning that is within
-- the limit, and an error.
abbrev pub IsLimited : ℕ → ℕ → List ℕ → Read → Type 0
IsLimited bound size chunks r =
    ((size + total chunks ≤ bound) × (r ≡ record { chunks = chunks; too_large = false }))
    ⊎ ((bound < size + total chunks)
        × (r.too_large ≡ true)
        × (size + total r.chunks ≤ bound)
        × (rest : List ℕ) × (chunks ≡ r.chunks ++ rest))

limited_stream-IsLimited :
    (bound size : ℕ) (chunks : List ℕ)
    → size ≤ bound
    → IsLimited bound size chunks (limited_stream bound size chunks)
unfolding limited_stream
limited_stream-IsLimited bound size [] h = inl (omega arith, refl)
limited_stream-IsLimited bound size (n ∷ chunks) h = elim (Bool-cases (ltb bound (size + n))) [
  | inl e ↦ rw e (inr (ground arith, refl, omega arith, n ∷ chunks, refl))
  | inr e ↦ elim (limited_stream-IsLimited bound (size + n) chunks (ground arith)) [
    | inl (a, b) ↦ rw (e, b) (inl (omega arith, refl))
    | inr (a, b, c, rest, d) ↦ rw e (inr (omega arith, b, omega arith, rest, ap (◌∷◌ n) d))
  ]
]

-- how a body is resolved that the header tells nothing against
abbrev pub Resolves : ℕ → Body → Resolved → Type 0
Resolves bound (stream chunks) r = (x : Read) × (r ≡ limited x) × IsLimited bound 0 chunks x
Resolves bound (other body) r = r ≡ as_is body

-- A request whose header tells more than the limit is refused. Of another one: a body that is no stream
-- is given as it is, without any limit; a stream that fits is read whole; and of a stream that does not
-- fit, the reader gets a part from its beginning that is within the limit, and then an error.
pub resolve_body_lem :
    (bound : ℕ) (content_length : Option ℕ) (body : Body)
    → ((over_limit bound content_length ≡ true)
        × (resolve_body bound content_length body ≡ refused))
      ⊎ ((over_limit bound content_length ≡ false)
          × Resolves bound body (resolve_body bound content_length body))
unfolding resolve_body
resolve_body_lem bound content_length (stream chunks) =
    elim (Bool-cases (over_limit bound content_length)) [
      | inl e ↦ rw e (inl (refl, refl))
      | inr e ↦ rw e (
          inr (
            refl,
            (
              limited_stream bound 0 chunks,
              refl,
              limited_stream-IsLimited bound 0 chunks (omega arith),
            ),
          ))
    ]
resolve_body_lem bound content_length (other body) =
    elim (Bool-cases (over_limit bound content_length)) [
      | inl e ↦ rw e (inl (refl, refl))
      | inr e ↦ rw e (inr (refl, refl))
    ]
