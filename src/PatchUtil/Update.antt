-- ===== src/PatchUtil/Update.antt =====
-- `TryUpdateX`: what it has written when it succeeds.
use vault_operator.Base.{
  ◌≡◌, refl, ap, Option, none, some, List, Error, Fallible, Bool-cases, inl, inr,
}
use vault_operator.Meta.{ObjectMeta, Object, Vendor}
use vault_operator.PatchUtil.{
  Poller, Client, TryState, attempts_failed, update_found, try_update_round, try_update,
}
use vault_operator.PatchUtil.Poll.{Round, Ends, poll_rule}
use vault_operator.PatchUtil.Status.{IsRead}

module _ {E Spec Status : Type 0} (v : Vendor) (c : Client E Spec Status) (meta : ObjectMeta)
    (transform : Object Spec Status → Object Spec Status) where
  -- The object was returned by a successful update, which wrote `transform` of an object that was
  -- read under this name.
  pub record IsUpdated (result : Option (Object Spec Status)) : Type 0 where
    pub cur : Object Spec Status
    pub cur_read : IsRead c meta cur
    pub before : List E
    pub out : Object Spec Status
    pub written : (c.update cur.meta.namespace (transform cur) before).0 ≡ (out, none)
    pub returned : result ≡ some out

  abbrev Always : TryState E Spec Status → Type 0
  Always s = Unit

  abbrev Updated : TryState E Spec Status → Type 0
  Updated s = IsUpdated s.result

  abbrev Failed : Error → TryState E Spec Status → Type 0
  Failed e s = Unit

  -- The rest of a round in which `cur` was read.
  found :
      (s : TryState E Spec Status) (cur : Object Spec Status) (h : List E)
      (r : Fallible (Object Spec Status) × List E)
      → IsRead c meta cur
      → c.update cur.meta.namespace (transform cur) h ≡ r
      → Round Always Updated Failed
          (update_found v c transform s ((cur, none), h)).0
          (update_found v c transform s ((cur, none), h)).1
  unfolding update_found
  found s cur h ((out, none), h') read e = rw e (record {
    cur = cur;
    cur_read = read;
    before = h;
    out = out;
    written = ap (λ r. r.0) e;
    returned = refl;
  })
  found s cur h ((out, some er), h') read e = rw e tt

  round :
      (s : TryState E Spec Status) (r : Fallible (Object Spec Status) × List E)
      → c.get meta.namespace meta.name s.trace ≡ r
      → Round Always Updated Failed
          (update_found v c transform s r).0
          (update_found v c transform s r).1
  unfolding update_found
  round s ((cur, none), h) e =
      found s cur h _ (record { before = s.trace; read = ap (λ r. r.0) e }) refl
  round s ((cur, some er), h) e = elim (Bool-cases (v.is_not_found er)) [
    | inl yes' ↦ rw yes' tt
    | inr no' ↦ rw no' tt
  ]

  ended :
      (e : Option Error) (s : TryState E Spec Status)
      → Ends Updated Failed e s
      → attempts_failed "failed to update" s.attempt e ≡ none
      → Updated s
  ended none s w q = w
  ended (some e) s w q = cc

  -- When `TryUpdateX` succeeds, the object that it returns is the answer of a successful update,
  -- and what that update wrote is the transformed object that a successful Get of the name
  -- returned.
  pub try_update_ok :
      (tries : Poller (TryState E Spec Status)) (h : List E)
      → (try_update v c tries meta transform h).0.1 ≡ none
      → IsUpdated (try_update v c tries meta transform h).0.0
  unfolding try_update try_update_round
  try_update_ok tries h q =
      ended _ _
        (poll_rule Always Updated Failed (try_update_round v c meta transform) (λ _ _. tt)
          (λ s _. round s _ refl) tries _ tt)
        q
