-- ===== src/Publisher/Memory/Buckets.antt =====
-- What each operation makes of the bucket of an event.
use orpc.Prelude.{
  ℕ, zero, suc, ◌≤◌, ◌<◌, String, none, some, List, [], ◌∷◌, ◌++◌, ◌≡◌, refl, sym, arith,
  if◌then◌else◌, str_eq, eq_iff, drop,
}
use orpc.Prelude.JsMap
use orpc.Prelude.JsMap.{JsMap, get, get-set, IsDistinct, set-IsDistinct}
use orpc.Publisher.Bisect.{find_index}
use orpc.Publisher.Memory.{Events, StoredEvent, bucket_of, unexpired, clean_buckets, is_unexpired}

module _ {P : Type 0} where
  abbrev nil_bucket : List (StoredEvent P)
  nil_bucket = []

  drop-nil : (n : ℕ) → drop n nil_bucket ≡ []
  drop-nil zero = refl
  drop-nil (suc n) = refl

  get-clean_none :
      (now : ℕ) (m : JsMap (List (StoredEvent P))) (j : String)
      → get m j ≡ none
      → get (clean_buckets now m) j ≡ none
  unfolding clean_buckets get
  get-clean_none now [] j h = refl
  get-clean_none now ((k, b) ∷ m) j h = ground (arith, get-clean_none now m j)

  pub clean_buckets-IsDistinct :
      (now : ℕ) (m : JsMap (List (StoredEvent P))) → IsDistinct m → IsDistinct (clean_buckets now m)
  unfolding clean_buckets
  clean_buckets-IsDistinct now [] h = tt
  clean_buckets-IsDistinct now ((k, b) ∷ m) h =
      elim (unexpired now b)
        as (λ l.
          IsDistinct
            (elim l [ [] ↦ clean_buckets now m | e ∷ es ↦ (k, e ∷ es) ∷ clean_buckets now m ])) [
              | [] ↦ clean_buckets-IsDistinct now m h.1
              | e ∷ es ↦ (get-clean_none now m k h.0, clean_buckets-IsDistinct now m h.1)
            ]

  unexpired-nil : (now : ℕ) → unexpired {P = P} now [] ≡ []
  unfolding unexpired
  unexpired-nil now = drop-nil (find_index (is_unexpired now) [])

  pub bucket_of-clean_buckets :
      (now : ℕ) (m : JsMap (List (StoredEvent P))) (j : String)
      → IsDistinct m
      → bucket_of (clean_buckets now m) j ≡ unexpired now (bucket_of m j)
  unfolding clean_buckets get
  bucket_of-clean_buckets now [] j h = sym (unexpired-nil now)
  bucket_of-clean_buckets now ((k, b) ∷ m) j h =
      ground (arith, bucket_of-clean_buckets now m j h.1, get-clean_none now m k h.0, eq_iff k j)

pub bucket_of-set :
    {A : Type 0} (m : JsMap (List A)) (k : String) (b : List A) (j : String)
    → bucket_of (JsMap.set m k b) j ≡ (if str_eq k j then b else bucket_of m j)
bucket_of-set m k b j = ground (arith, get-set m k b j)

-- A bucket whose events have ids generated in turn, from number `lo` on and before `hi`, and expire
-- in turn, at `first` at the earliest and at `last` at the latest.
module _ {P : Type 0} (ev : Events P) where
  abbrev pub IsRegular : ℕ → ℕ → ℕ → ℕ → List (StoredEvent P) → Type 0
  IsRegular lo hi first last [] = Unit
  IsRegular lo hi first last (e ∷ es) =
      (n : ℕ) × (lo ≤ n)
      × (n < hi)
      × (ev.id_of e.payload ≡ some (ev.generate n))
      × (first ≤ e.expires_at)
      × (e.expires_at ≤ last)
      × IsRegular (suc n) hi e.expires_at last es

  pub IsRegular-weaken :
      (lo' hi' first' last' : ℕ) (es : List (StoredEvent P)) {lo hi first last : ℕ}
      → lo' ≤ lo
      → hi ≤ hi'
      → first' ≤ first
      → last ≤ last'
      → IsRegular lo hi first last es
      → IsRegular lo' hi' first' last' es
  IsRegular-weaken lo' hi' first' last' [] a b c d h = tt
  IsRegular-weaken lo' hi' first' last' (e ∷ es) a b c d (n, l, u, i, f, t, r) = (
    n,
    omega arith,
    omega arith,
    i,
    omega arith,
    omega arith,
    IsRegular-weaken (suc n) hi' e.expires_at last' es (omega arith) b (omega arith) d r,
  )

  pub IsRegular-drop :
      (lo hi first last k : ℕ) (es : List (StoredEvent P))
      → IsRegular lo hi first last es
      → IsRegular lo hi first last (drop k es)
  IsRegular-drop lo hi first last zero es h = h
  IsRegular-drop lo hi first last (suc k) [] h = tt
  IsRegular-drop lo hi first last (suc k) (e ∷ es) (n, l, u, i, f, t, r) =
      IsRegular-weaken lo hi first last (drop k es) (omega arith) (omega arith) f (omega arith)
        (IsRegular-drop (suc n) hi e.expires_at last k es r)

  pub IsRegular-append :
      (lo hi first last : ℕ) (es : List (StoredEvent P)) (e : StoredEvent P)
      → IsRegular lo hi first last es
      → lo ≤ hi
      → first ≤ e.expires_at
      → last ≤ e.expires_at
      → ev.id_of e.payload ≡ some (ev.generate hi)
      → IsRegular lo (suc hi) first e.expires_at (es ++ e ∷ [])
  IsRegular-append lo hi first last [] e h a b c i = (hi, a, omega arith, i, b, omega arith, tt)
  IsRegular-append lo hi first last (d ∷ es) e (n, l, u, j, f, t, r) a b c i = (
    n,
    l,
    omega arith,
    j,
    f,
    omega arith,
    IsRegular-append (suc n) hi d.expires_at last es e r u (omega arith) c i,
  )
