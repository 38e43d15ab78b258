-- ===== src/Shared/Queue/Rejections.antt =====
-- What `close` rejects, and what it leaves.
use orpc.Prelude.{
  ℕ, String, Bool, true, false, Option, none, some, List, [], ◌∷◌, ◌++◌, ◌≡◌, ◌⊎◌, inl, inr, refl,
  subst, arith, eq_iff, str_eq, Bool-cases, All, IsIn,
}
use orpc.Prelude.JsMap.{JsMap, get, get-delete, get-empty}
use orpc.Shared.Queue.{
  AsyncIdQueue, Settlement, rejected, is_open, close, reason_for, reject_all, reject_each,
}
use orpc.Shared.Queue.Channel.{at, channel}

-- what `close` is asked to close
abbrev pub covers : Option String → String → Bool
covers none j = true
covers (some id) j = str_eq id j

module _ {T : Type 0} where
  -- every pull of `ws` is rejected with the reason for `j` among `ss`
  abbrev pub Rejects : Option ℕ → String → List ℕ → List (Settlement T) → Type 0
  Rejects reason j ws ss = All (λ w. IsIn (rejected w (reason_for reason j)) ss) ws

  IsIn-append_left :
      (s : Settlement T) (xs ys : List (Settlement T)) → IsIn s xs → IsIn s (xs ++ ys)
  IsIn-append_left s [] ys h = elim h [ ]
  IsIn-append_left s (x ∷ xs) ys (inl e) = inl e
  IsIn-append_left s (x ∷ xs) ys (inr h) = inr (IsIn-append_left s xs ys h)

  IsIn-append_right :
      (s : Settlement T) (xs ys : List (Settlement T)) → IsIn s ys → IsIn s (xs ++ ys)
  IsIn-append_right s [] ys h = h
  IsIn-append_right s (x ∷ xs) ys h = inr (IsIn-append_right s xs ys h)

  Rejects-mono :
      (reason : Option ℕ) (j : String) (ws : List ℕ) (ss ss' : List (Settlement T))
      → ((s : Settlement T) → IsIn s ss → IsIn s ss')
      → Rejects reason j ws ss
      → Rejects reason j ws ss'
  Rejects-mono reason j [] ss ss' sub h = tt
  Rejects-mono reason j (w ∷ ws) ss ss' sub (p, h) =
      (sub _ p, Rejects-mono reason j ws ss ss' sub h)

module _ (T : Type 0) where
  reject_all-Rejects :
      (reason : Option ℕ) (j : String) (ws : List ℕ)
      → Rejects reason j ws (reject_all {T = T} reason j ws)
  unfolding reject_all
  reject_all-Rejects reason j [] = tt
  reject_all-Rejects reason j (w ∷ ws) = (
    inl refl,
    Rejects-mono reason j ws (reject_all {T = T} reason j ws) (reject_all {T = T} reason j (w ∷ ws))
        (λ s h. inr h) (reject_all-Rejects reason j ws),
  )

  reject_each-Rejects :
      (reason : Option ℕ) (j : String) (m : JsMap (List ℕ))
      → Rejects reason j (at m j) (reject_each {T = T} reason m)
  unfolding reject_each get
  reject_each-Rejects reason j [] = tt
  reject_each-Rejects reason j ((i, ws) ∷ m) = elim (Bool-cases (str_eq i j)) [
    | inl e ↦ rw e (
        subst (λ k. Rejects reason k ws (reject_all {T = T} reason i ws ++ reject_each reason m))
          ((eq_iff i j).0 e)
          (Rejects-mono reason i ws (reject_all reason i ws)
            (reject_all reason i ws ++ reject_each reason m)
            (λ s h. IsIn-append_left s (reject_all reason i ws) (reject_each reason m) h)
            (reject_all-Rejects reason i ws)))
    | inr e ↦ rw e (
        Rejects-mono reason j (at m j) (reject_each reason m)
          (reject_all reason i ws ++ reject_each reason m)
          (λ s h. IsIn-append_right s (reject_all reason i ws) (reject_each reason m) h)
          (reject_each-Rejects reason j m))
  ]

module _ {T : Type 0} where
  -- `close` leaves each id that it is asked to close without a channel and rejects every pull that
  -- waits there, with the given reason or the id's own abort error; other channels stay.
  pub close_lem :
      (q : AsyncIdQueue T) (target : Option String) (reason : Option ℕ) (j : String)
      → ((covers target j ≡ true)
          × (channel (close q target reason).0 j ≡ none)
          × Rejects reason j (at q.waiters j) (close q target reason).1)
        ⊎ ((covers target j ≡ false) × (channel (close q target reason).0 j ≡ channel q j))
  unfolding close is_open
  close_lem q none reason j =
      inl
        (refl, ground (arith, get-empty {V = Unit {0}} j), reject_each-Rejects T reason j q.waiters)
  close_lem q (some id) reason j = elim (Bool-cases (str_eq id j)) [
    | inl e ↦ inl (
      e,
      ground (arith, get-delete q.open_ids id j),
      subst (λ k. Rejects reason k (at q.waiters k) (close q (some id) reason).1)
          ((eq_iff id j).0 e) (reject_all-Rejects T reason id (at q.waiters id)),
    )
    | inr e ↦ inr (
      e,
      ground
          (arith, get-delete q.open_ids id j, get-delete q.queues id j, get-delete q.waiters id j),
    )
  ]
