-- ===== src/PatchUtil/Errors.antt =====
-- Which errors `UpdateXStatus` can return.
use vault_operator.Base.{
  ℕ, String, ◌∙◌, ◌≡◌, refl, ap, Bool-cases, inl, inr, ◌⊎◌, false, Option, none, some, List, Error,
  after_attempts, Fallible,
}
use vault_operator.Meta.{ObjectMeta, Object, Vendor}
use vault_operator.PatchUtil.{
  wait_timeout, Poller, Client, UpdateState, after_conflict, after_write, attempts_failed,
  update_status_round, status_read, update_status,
}
use vault_operator.PatchUtil.Poll.{Round, Ends, poll_rule}

-- A Get of this name failed with this error.
pub record GetFails {E Spec Status : Type 0} (c : Client E Spec Status) (meta : ObjectMeta)
    (e : Error) : Type 0 where
  pub before : List E
  pub fails : (c.get meta.namespace meta.name before).0.1 ≡ some e

abbrev pub context : String
context = "failed to update status of"

-- The error is the time-out of the poll, or a Get after a conflict failed with it for good.
pub record FromPoll {E Spec Status : Type 0} (v : Vendor) (c : Client E Spec Status)
    (meta : ObjectMeta) (e : Error) : Type 0 where
  pub attempt : ℕ
  pub cause : Error
  pub reported : e ≡ after_attempts context attempt cause
  pub origin :
      (cause ≡ wait_timeout) ⊎ (GetFails c meta cause × (v.is_request_retryable cause ≡ false))

module _ {E Spec Status : Type 0} (v : Vendor) (c : Client E Spec Status) (meta : ObjectMeta)
    (transform : Status → Status) where
  abbrev Origin : Error → Type 0
  Origin e = (e ≡ wait_timeout) ⊎ (GetFails c meta e × (v.is_request_retryable e ≡ false))

  abbrev Any : UpdateState E Spec Status → Type 0
  Any s = Unit

  abbrev Stopped : Error → UpdateState E Spec Status → Type 0
  Stopped e s = Origin e

  after_conflict-Origin :
      (h : List E) (s : UpdateState E Spec Status) (r : Fallible (Object Spec Status))
      → (c.get meta.namespace meta.name h).0 ≡ r
      → Round Any Any Stopped (after_conflict v c r s).0 (after_conflict v c r s).1
  unfolding after_conflict
  after_conflict-Origin h s (latest, none) p = tt
  after_conflict-Origin h s (latest, some e) p = elim (Bool-cases (v.is_request_retryable e)) [
    | inl retry ↦ rw retry tt
    | inr final ↦ rw final (inr (record { before = h; fails = ap (λ r. r.1) p }, final))
  ]

  after_write-Origin :
      (s : UpdateState E Spec Status) (r : Fallible (Object Spec Status) × List E)
      → Round Any Any Stopped (after_write v c none meta s r).0 (after_write v c none meta s r).1
  unfolding after_write
  after_write-Origin s ((out, none), h) = tt
  after_write-Origin s ((out, some e), h) = elim (Bool-cases (v.is_conflict e)) [
    | inl conflict ↦
        rw conflict (after_conflict-Origin h _ (c.get meta.namespace meta.name h).0 refl)
    | inr other ↦ rw other tt
  ]

  failed_by :
      (e : Option Error) (s : UpdateState E Spec Status)
      → Ends Any Stopped e s
      → {e' : Error} → attempts_failed context s.attempt e ≡ some e'
      → FromPoll v c meta e'
  failed_by none s w q = cc
  failed_by (some e) s w q = record { attempt = s.attempt; cause = e; reported = cc; origin = w }

  status_read-Origin :
      (updates : Poller (UpdateState E Spec Status)) (r : Fallible (Object Spec Status) × List E)
      (h : List E) {e : Error}
      → c.get meta.namespace meta.name h ≡ r
      → (status_read v c updates meta transform r).0.1 ≡ some e
      → GetFails c meta e ⊎ FromPoll v c meta e
  unfolding status_read update_status_round
  status_read-Origin updates ((cur, some e), h') h p q =
      inl (record { before = h; fails = ap (λ r. r.0.1) p ∙ q })
  status_read-Origin updates ((cur, none), h') h p q = inr (
      failed_by _ _
        (poll_rule Any Any Stopped (update_status_round v c none meta transform) (λ _ _. inl refl)
          (λ s _. after_write-Origin s _) updates _ tt)
        q)

  -- An error of `UpdateXStatus` is that of a failed Get or the time-out of its retries. The error of
  -- the write itself is never returned, whether or not it can be retried.
  pub update_status_error :
      (updates : Poller (UpdateState E Spec Status)) (h : List E) {e : Error}
      → (update_status v c updates meta transform h).0.1 ≡ some e
      → GetFails c meta e ⊎ FromPoll v c meta e
  unfolding update_status
  update_status_error updates h q =
      status_read-Origin updates (c.get meta.namespace meta.name h) h refl q
