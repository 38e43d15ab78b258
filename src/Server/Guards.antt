-- ===== src/Server/Guards.antt =====
-- packages/server/src/plugins/get-method-csrf-protection.ts and request-limit.ts: the two plugins that
-- turn requests away. A header is the text that the server library flattens it to, in lower case.
pub mod Limits
pub mod Csrf
mod Tests
use orpc.Prelude.{
  ℕ, zero, suc, ◌+◌, Bool, true, false, Option, none, some, List, [], ◌∷◌, ◌&&◌, ◌||◌, not, ltb,
  if◌then◌else◌, String, str_eq,
}

pub record CsrfRequest : Type 0 where
  pub method : String
  pub sec_fetch_site : Option String
  pub sec_fetch_mode : Option String
  pub sec_fetch_dest : Option String

abbrev pub is_own_site : String → Bool
is_own_site site = str_eq site "same-origin" || str_eq site "same-site"

-- whether a request from another site is no top-level navigation
abbrev pub is_embedded : Option String → Option String → Bool
is_embedded none dest = false
is_embedded (some mode) none = false
is_embedded (some mode) (some dest) = not (str_eq mode "navigate") || not (str_eq dest "document")

abbrev pub is_allowed_site : Option String → Option String → Option String → Bool
is_allowed_site none mode dest = true
is_allowed_site (some site) mode dest = if is_own_site site then true else is_embedded mode dest

unfoldable pub is_allowed : CsrfRequest → Bool
is_allowed r =
    if str_eq r.method "GET"
    then is_allowed_site r.sec_fetch_site r.sec_fetch_mode r.sec_fetch_dest
    else true

-- the interceptor: what `next` gives, or status 403
unfoldable pub csrf_interceptor {ℓ} : {R : Type ℓ} → CsrfRequest → R → (ℕ → R) → R
unfolding is_allowed
csrf_interceptor r next status = if is_allowed r then next else status 403

-- What a limited body is read as: chunks by their sizes, and whether the stream ends in an error.
pub record Read : Type 0 where
  pub chunks : List ℕ
  pub too_large : Bool

abbrev pub enqueue : ℕ → Read → Read
enqueue n r = record r { chunks = n ∷ r.chunks }

-- the transform stream, with the size read so far; behind an error no chunk is read
unfoldable pub limited_stream : ℕ → ℕ → List ℕ → Read
limited_stream max_body_size size [] = record { chunks = []; too_large = false }
limited_stream max_body_size size (n ∷ chunks) =
    let rest = limited_stream max_body_size (size + n) chunks in
    if ltb max_body_size (size + n)
    then record { chunks = []; too_large = true }
    else enqueue n rest

abbrev pub over_limit : ℕ → Option ℕ → Bool
over_limit max_body_size none = false
over_limit max_body_size (some n) = ltb max_body_size n

-- what the adapter's `resolveBody` gives: a stream, or some other body, by a number
pub data Body : Type 0 where
  stream : List ℕ → Body
  other : ℕ → Body

-- `PAYLOAD_TOO_LARGE` at once, the body as it is, or what is read through the limiting stream
pub data Resolved : Type 0 where
  refused : Resolved
  as_is : ℕ → Resolved
  limited : Read → Resolved

abbrev pub limit_stream : ℕ → Body → Resolved
limit_stream max_body_size (stream chunks) = limited (limited_stream max_body_size 0 chunks)
limit_stream max_body_size (other body) = as_is body

-- `resolveBody`; the header `content-length` is a number or is ignored
unfoldable pub resolve_body : ℕ → Option ℕ → Body → Resolved
unfolding limited_stream
resolve_body max_body_size content_length body =
    if over_limit max_body_size content_length then refused else limit_stream max_body_size body
