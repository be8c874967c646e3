-- ===== src/PatchUtil/Status.antt =====
-- `UpdateXStatus`: what it has written when it succeeds, and which errors it cannot return.
use vault_operator.Base.{
  ◌≡◌, refl, ap, Bool-cases, inl, inr, Option, none, some, List, Error, Fallible,
}
use vault_operator.Meta.{ObjectMeta, Object, Vendor}
use vault_operator.PatchUtil.{
  Poller, Client, UpdateState, apply, after_conflict, after_write, attempts_failed,
  update_status_round, status_read, update_status,
}
use vault_operator.PatchUtil.Poll.{Round, Ends, poll_rule}

module _ {E Spec Status : Type 0} (c : Client E Spec Status) (meta : ObjectMeta) where
  -- The object is one that a successful Get of this name returned.
  pub record IsRead (o : Object Spec Status) : Type 0 where
    pub before : List E
    pub read : (c.get meta.namespace meta.name before).0 ≡ (o, none)

  -- The object was returned by a successful status update, which wrote `transform` of the status
  -- of an object that was read under this name.
  pub record IsWritten (transform : Status → Status) (result : Option (Object Spec Status))
      : Type 0 where
    pub cur : Object Spec Status
    pub cur_read : IsRead cur
    pub before : List E
    pub out : Object Spec Status
    pub written : (c.update_status meta.namespace (apply transform cur) before).0 ≡ (out, none)
    pub returned : result ≡ some out

module _ {E Spec Status : Type 0} (v : Vendor) (c : Client E Spec Status) (meta : ObjectMeta)
    (transform : Status → Status) where
  abbrev Current : UpdateState E Spec Status → Type 0
  Current s = IsRead c meta s.cur

  abbrev Written : UpdateState E Spec Status → Type 0
  Written s = IsWritten c meta transform s.result

  abbrev Failed : Error → UpdateState E Spec Status → Type 0
  Failed e s = Unit

  after_conflict-Current :
      (h : List E) (s : UpdateState E Spec Status) (r : Fallible (Object Spec Status))
      → (c.get meta.namespace meta.name h).0 ≡ r
      → Current s
      → Round Current Written Failed (after_conflict v c r s).0 (after_conflict v c r s).1
  unfolding after_conflict
  after_conflict-Current h s (latest, none) e p = record { before = h; read = e }
  after_conflict-Current h s (latest, some er) e p = elim (Bool-cases (v.is_request_retryable er)) [
    | inl yes' ↦ rw yes' p
    | inr no' ↦ rw no' tt
  ]

  after_write-Current :
      (s : UpdateState E Spec Status) (r : Fallible (Object Spec Status) × List E)
      → c.update_status meta.namespace (apply transform s.cur) s.trace ≡ r
      → Current s
      → Round Current Written Failed
          (after_write v c none meta s r).0
          (after_write v c none meta s r).1
  unfolding after_write
  after_write-Current s ((out, none), h) e p = record {
    cur = s.cur;
    cur_read = p;
    before = s.trace;
    out = out;
    written = ap (λ r. r.0) e;
    returned = refl;
  }
  after_write-Current s ((out, some er), h) e p = elim (Bool-cases (v.is_conflict er)) [
    | inl conflict ↦
        rw conflict (after_conflict-Current h _ (c.get meta.namespace meta.name h).0 refl p)
    | inr other ↦ rw other p
  ]

  ended :
      (e : Option Error) (s : UpdateState E Spec Status)
      → Ends Written Failed e s
      → attempts_failed "failed to update status of" s.attempt e ≡ none
      → Written s
  ended none s w q = w
  ended (some e) s w q = cc

  start-Written :
      (updates : Poller (UpdateState E Spec Status)) (s : UpdateState E Spec Status)
      → Current s
      → let r = updates.poll_immediate (update_status_round v c none meta transform) s in
        Ends Written Failed r.0 r.1
  unfolding update_status_round
  start-Written updates s p =
      poll_rule Current Written Failed (update_status_round v c none meta transform) (λ _ _. tt)
        (λ s p. after_write-Current s _ refl p) updates s p

  status_read-Written :
      (updates : Poller (UpdateState E Spec Status)) (r : Fallible (Object Spec Status) × List E)
      (h : List E)
      → c.get meta.namespace meta.name h ≡ r
      → (status_read v c updates meta transform r).0.1 ≡ none
      → IsWritten c meta transform (status_read v c updates meta transform r).0.0
  unfolding status_read
  status_read-Written updates ((cur, some e), h') h p q = cc
  status_read-Written updates ((cur, none), h') h p q =
      ended _ _ (start-Written updates _ (record { before = h; read = ap (λ r. r.0) p })) q

  -- When `UpdateXStatus` succeeds, the object that it returns is the answer of a successful status
  -- update, and what that update wrote is the transformed status of an object that a successful
  -- Get of the same name returned: no write rests on a made-up object.
  pub update_status_ok :
      (updates : Poller (UpdateState E Spec Status)) (h : List E)
      → (update_status v c updates meta transform h).0.1 ≡ none
      → IsWritten c meta transform (update_status v c updates meta transform h).0.0
  unfolding update_status
  update_status_ok updates h e =
      status_read-Written updates (c.get meta.namespace meta.name h) h refl e
