-- ===== src/Client/Dedupe/Pending.antt =====
-- What the queue of the dedupe plugin holds.
use orpc.Prelude.{
  ℕ, ◌≤◌, String, true, false, Option, none, some, List, [], ◌∷◌, ◌++◌, ◌≡◌, inl, inr, refl, sym,
  ap, subst, ◌∙◌, arith, ◌&&◌, ◌==◌, str_eq, eq_iff, length, length-append, if◌then◌else◌,
  Bool-cases, All, All-append,
}
use orpc.Client.Dedupe.{
  Call, can_dedupe_request, Stringify, create_request_key, PendingRequest, Queue, new_request,
  join_request, put_request, enqueue, intercept, intercept_all,
}

abbrev pub promises_of : List Call → List ℕ
promises_of [] = []
promises_of (c ∷ calls) = c.promise ∷ promises_of calls

promises_of-append : (xs ys : List Call) → promises_of (xs ++ ys) ≡ promises_of xs ++ promises_of ys
promises_of-append [] ys = refl
promises_of-append (c ∷ xs) ys = ap (λ (l : List ℕ). c.promise ∷ l) (promises_of-append xs ys)

-- the calls that wait for a request that they may share, in a group
abbrev pub waits_in : Call → Option ℕ
waits_in c = if can_dedupe_request c && c.is_filtered then c.group else none

module _ (stringify : Stringify) where
  -- All callers of a pending request have its key, and each of them has its promise in both lists.
  pub record IsShared (item : PendingRequest) : Type 0 where
    pub all_match :
        All (λ (c : Call). create_request_key stringify c ≡ item.request_key) item.matched_options
    pub resolves_all : item.resolves ≡ promises_of item.matched_options
    pub rejects_all : item.rejects ≡ promises_of item.matched_options
    pub has_caller : 1 ≤ length item.matched_options

  -- no key stands twice in a group
  abbrev pub IsKeyed : List PendingRequest → Type 0
  IsKeyed [] = Unit {0}
  IsKeyed (item ∷ items) =
      All (λ (other : PendingRequest). str_eq item.request_key other.request_key ≡ false) items
      × IsKeyed items

  abbrev pub IsWellFormed : Queue → Type 0
  IsWellFormed [] = Unit {0}
  IsWellFormed ((g, items) ∷ queue) = (All IsShared items × IsKeyed items) × IsWellFormed queue

  new_request-IsShared : (c : Call) → IsShared (new_request stringify c)
  new_request-IsShared c = record {
    all_match = (refl, tt);
    resolves_all = refl;
    rejects_all = refl;
    has_caller = omega arith;
  }

  join_request-IsShared :
      (item : PendingRequest) (c : Call)
      → str_eq item.request_key (create_request_key stringify c) ≡ true
      → IsShared item
      → IsShared (join_request item c)
  join_request-IsShared item c e v = record {
    all_match =
        All-append (λ (d : Call). create_request_key stringify d ≡ item.request_key)
          item.matched_options (c ∷ []) v.all_match
          (sym ((eq_iff item.request_key (create_request_key stringify c)).0 e), tt);
    resolves_all =
        ap (λ (l : List ℕ). l ++ c.promise ∷ []) v.resolves_all
        ∙ sym (promises_of-append item.matched_options (c ∷ []));
    rejects_all =
        ap (λ (l : List ℕ). l ++ c.promise ∷ []) v.rejects_all
        ∙ sym (promises_of-append item.matched_options (c ∷ []));
    has_caller = omega (arith, length-append item.matched_options (c ∷ []), v.has_caller);
  }

  put_request-IsShared :
      (items : List PendingRequest) (c : Call)
      → All IsShared items
      → All IsShared (put_request stringify items c)
  unfolding put_request
  put_request-IsShared [] c h = (new_request-IsShared c, tt)
  put_request-IsShared (item ∷ items) c h =
      elim (Bool-cases (str_eq item.request_key (create_request_key stringify c))) [
        | inl e ↦ rw (e, put_request) (join_request-IsShared item c e h.0, h.1)
        | inr e ↦ rw (e, put_request) (h.0, put_request-IsShared items c h.1)
      ]

  -- a key that differs from those of a group and of the call differs from those after the push
  put_request-differs :
      (key : String) (items : List PendingRequest) (c : Call)
      → str_eq key (create_request_key stringify c) ≡ false
      → All (λ (other : PendingRequest). str_eq key other.request_key ≡ false) items
      → All
          (λ (other : PendingRequest). str_eq key other.request_key ≡ false)
          (put_request stringify items c)
  unfolding put_request
  put_request-differs key [] c d h = (d, tt)
  put_request-differs key (item ∷ items) c d h =
      elim (Bool-cases (str_eq item.request_key (create_request_key stringify c))) [
        | inl e ↦ rw (e, put_request) (h.0, h.1)
        | inr e ↦ rw (e, put_request) (h.0, put_request-differs key items c d h.1)
      ]

  put_request-IsKeyed :
      (items : List PendingRequest) (c : Call)
      → IsKeyed items
      → IsKeyed (put_request stringify items c)
  unfolding put_request
  put_request-IsKeyed [] c h = (tt, tt)
  put_request-IsKeyed (item ∷ items) c h =
      elim (Bool-cases (str_eq item.request_key (create_request_key stringify c))) [
        | inl e ↦ rw (e, put_request) (h.0, h.1)
        | inr e ↦
            rw (e, put_request)
              (put_request-differs item.request_key items c e h.0, put_request-IsKeyed items c h.1)
      ]

  enqueue-IsWellFormed :
      (queue : Queue) (g : ℕ) (c : Call)
      → IsWellFormed queue
      → IsWellFormed (enqueue stringify queue g c)
  unfolding enqueue
  enqueue-IsWellFormed [] g c h = ((put_request-IsShared [] c tt, put_request-IsKeyed [] c tt), tt)
  enqueue-IsWellFormed ((k, items) ∷ queue) g c h = elim (Bool-cases (k == g)) [
    | inl e ↦
        rw (e, enqueue)
          ((put_request-IsShared items c h.0.0, put_request-IsKeyed items c h.0.1), h.1)
    | inr e ↦ rw (e, enqueue) (h.0, enqueue-IsWellFormed queue g c h.1)
  ]

  -- what the interceptor does to the queue
  abbrev pub enqueued : Queue → Call → Option ℕ → Queue
  enqueued queue c none = queue
  enqueued queue c (some g) = enqueue stringify queue g c

  pub intercept-queue :
      (queue : Queue) (c : Call) → (intercept stringify queue c).1 ≡ enqueued queue c (waits_in c)
  unfolding intercept
  intercept-queue queue c = ground arith

  -- Whatever calls come in while the queue collects: no key stands twice in a group, all callers of a
  -- pending request have its key, and each of them is there to be resolved and to be rejected.
  pub intercept_all-IsWellFormed :
      (queue : Queue) (calls : List Call)
      → IsWellFormed queue
      → IsWellFormed (intercept_all stringify queue calls)
  unfolding intercept_all
  intercept_all-IsWellFormed queue [] h = h
  intercept_all-IsWellFormed queue (c ∷ calls) h =
      intercept_all-IsWellFormed (intercept stringify queue c).1 calls
        (subst IsWellFormed (sym (intercept-queue queue c)) (kept (waits_in c)))
    where
      kept : (o : Option ℕ) → IsWellFormed (enqueued queue c o)
      kept none = h
      kept (some g) = enqueue-IsWellFormed queue g c h
