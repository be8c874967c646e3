-- ===== src/PatchUtil/Patch.antt =====
-- `PatchX`, `CreateOrPatchX` and `TryPatchX`: which calls are made.
use vault_operator.Base.{
  ok, err, ◌+◌, ℕ, Bool, String, ◌≡◌, ◌≢◌, true, false, Option, none, some, List, Error, Fallible,
  arith, if◌then◌else◌, refl, sym, ap, ◌∙◌, inl, inr, Result-cases, Bool-cases,
}
use mathlib.Core.Path.{subst}
use vault_operator.Meta.{ObjectMeta, Object, Vendor}
use vault_operator.PatchUtil.{
  Poller, Client, UpdateState, unchanged, created, patched, nothing_to_patch, send_patch,
  patch_object, patch, create_or_patch, patch_found, try_patch_round, try_patch, attempts_failed,
}
use vault_operator.PatchUtil.Poll.{Round, Ends, poll_rule}

-- `kerr.IsNotFound` of an error that may be nil.
abbrev pub is_missing : Vendor → Option Error → Bool
is_missing v none = false
is_missing v (some e) = v.is_not_found e

module _ {E Spec Status : Type 0} (v : Vendor) (c : Client E Spec Status) where
  -- The merge patch between the texts of two objects.
  abbrev pub merge_text : Object Spec Status → Object Spec Status → String
  merge_text a b = elim (c.marshal a) [
    | err _ ↦ ""
    | ok x ↦ elim (c.marshal b) [
      | err _ ↦ ""
      | ok y ↦ elim (c.create_merge_patch x y) [ err _ ↦ "" | ok p ↦ p ]
    ]
  ]

  -- `PatchX` that reports an unchanged object has made no call of the API server, and one that
  -- reports a patched object has made one, with the merge patch between the object and the changed
  -- one, which is neither empty nor the empty object.
  pub patch_calls :
      (cur : Object Spec Status) (transform : Object Spec Status → Object Spec Status) (h : List E)
      → ((patch v c cur transform h).0.1 ≡ unchanged → (patch v c cur transform h).1 ≡ h)
        × ((patch v c cur transform h).0.1 ≡ patched
            → let p = merge_text cur (transform cur) in
              (nothing_to_patch p ≡ false)
              × ((patch v c cur transform h).1 ≡ (c.patch cur.meta.namespace cur.meta.name p h).1))
  unfolding patch patch_object send_patch
  patch_calls cur transform h = (ground arith, λ q. (ground arith, ground arith))

  abbrev fresh : ObjectMeta → Object Spec Status
  fresh meta = record { meta = meta; spec = c.zero_spec; status = c.zero_status }

  -- One call with this text, if there is anything to patch.
  abbrev Sends :
      Object Spec Status → (Object Spec Status → Object Spec Status) → List E → String → Type 0
  Sends cur transform h p =
      ((patch v c cur transform h).0.1 ≡ (if nothing_to_patch p then unchanged else patched))
      × ((patch v c cur transform h).1
          ≡ (if nothing_to_patch p then h else (c.patch cur.meta.namespace cur.meta.name p h).1))

  sent_lem :
      (cur : Object Spec Status) (p : String) (h : List E)
      → let r = send_patch v c cur p h in
        (r.0.1 ≡ (if nothing_to_patch p then unchanged else patched))
        × (r.1
            ≡ (if nothing_to_patch p then h else (c.patch cur.meta.namespace cur.meta.name p h).1))
  unfolding send_patch
  sent_lem cur p h = elim (Bool-cases (nothing_to_patch p)) [
    | inl n ↦ (ground arith, ground arith)
    | inr n ↦ (ground arith, ground arith)
  ]

  patch_lem :
      (cur : Object Spec Status) (transform : Object Spec Status → Object Spec Status) (h : List E)
      → Sends cur transform h (merge_text cur (transform cur))
  unfolding patch patch_object
  patch_lem cur transform h = elim (Result-cases (c.marshal cur)) [
    | inr (e, p) ↦
        let m : merge_text cur (transform cur) ≡ "" = ground arith in
        subst (Sends cur transform h) (sym m) (rw (p, patch, patch_object) (refl, refl))
    | inl (x, p) ↦ elim (Result-cases (c.marshal (transform cur))) [
      | inr (e, q) ↦
          let m : merge_text cur (transform cur) ≡ "" = ground arith in
          subst (Sends cur transform h) (sym m) (rw (p, q, patch, patch_object) (refl, refl))
      | inl (y, q) ↦ elim (Result-cases (c.create_merge_patch x y)) [
        | inr (e, r) ↦
            let m : merge_text cur (transform cur) ≡ "" = ground arith in
            subst (Sends cur transform h) (sym m) (rw (p, q, r, patch, patch_object) (refl, refl))
        | inl (t, r) ↦
            let m : merge_text cur (transform cur) ≡ t = ground arith in
            subst (Sends cur transform h) (sym m)
              (rw (p, q, r, patch, patch_object) (sent_lem cur t h))
      ]
    ]
  ]

  -- `CreateOrPatchX` first makes one Get, and what it calls then is settled by the answer. An
  -- object that is there is patched once if the merge patch between it and the changed one is
  -- neither empty nor the empty object, and otherwise, also where there is no such patch, nothing
  -- is called. Where the Get says that the object is not there, the transform of a fresh one is
  -- created once, and this is the only case that is reported as created. After any other error
  -- nothing is called, and that error is returned.
  pub create_or_patch_calls :
      (meta : ObjectMeta) (transform : Object Spec Status → Object Spec Status) (h : List E)
      → let r = create_or_patch v c meta transform h in
        let found = c.get meta.namespace meta.name h in
        let cur = found.0.0 in
        let p = merge_text cur (transform cur) in
        (r.0.1 ≡ created → is_missing v found.0.1 ≡ true)
        × (found.0.1 ≡ none
            → (r.0.1 ≡ (if nothing_to_patch p then unchanged else patched))
              × (r.1 ≡ (
                  if nothing_to_patch p
                  then found.1
                  else (c.patch cur.meta.namespace cur.meta.name p found.1).1)))
        × (is_missing v found.0.1 ≡ true
            → (r.0.1 ≡ created)
              × (r.1 ≡ (c.create meta.namespace (transform (fresh meta)) found.1).1))
        × ((e : Error)
            → found.0.1 ≡ some e
            → v.is_not_found e ≡ false
            → (r.0.2 ≡ some e) × (r.1 ≡ found.1))
  unfolding create_or_patch patch patch_object send_patch
  create_or_patch_calls meta transform h = (
    ground arith,
    λ q.
        let found = c.get meta.namespace meta.name h in
        let same : create_or_patch v c meta transform h ≡ patch v c found.0.0 transform found.1 =
          ground arith in
        let (a, b) = patch_lem found.0.0 transform found.1 in
        (ap (λ r. r.0.1) same ∙ a, ap (λ r. r.1) same ∙ b),
    ground arith,
    λ e p q. ground arith,
  )

  -- What the client returns beside an error: an object with no name, which no later Get finds.
  pub record NamesLost : Type 0 where
    pub fails :
        (ns : String) (h : List E)
        → (e : Error) × (o : Object Spec Status) × ((c.get ns "" h).0 ≡ (o, some e))
          × (v.is_not_found e ≡ false)
          × (o.meta.name ≡ "")

  module _ (transform : Object Spec Status → Object Spec Status) (empty : NamesLost) where
    abbrev IsLost : Fallible (Object Spec Status) → Type 0
    IsLost (o, none) = ⊥
    IsLost (o, some e) = (v.is_not_found e ≡ false) × (o.meta.name ≡ "")

    abbrev Astray : UpdateState E Spec Status → Type 0
    Astray s = IsLost (c.get s.cur.meta.namespace s.cur.meta.name s.trace).0

    abbrev Never : UpdateState E Spec Status → Type 0
    Never s = ⊥

    abbrev Whatever : Error → UpdateState E Spec Status → Type 0
    Whatever e s = Unit

    nameless-Astray : (s : UpdateState E Spec Status) → s.cur.meta.name ≡ "" → Astray s
    nameless-Astray s p =
        let (e, o, q, missing, name) = empty.fails s.cur.meta.namespace s.trace in
        rw (p, q) (missing, name)

    patch_found-Astray :
        (s : UpdateState E Spec Status) (r : Fallible (Object Spec Status) × List E)
        → IsLost r.0
        → Round Astray Never Whatever
            (patch_found v c transform s r).0
            (patch_found v c transform s r).1
    unfolding patch_found
    patch_found-Astray s ((o, none), h) l = absurd l
    patch_found-Astray s ((o, some e), h) l =
        rw l.0 (nameless-Astray (record s { attempt = s.attempt + 1; cur = o; trace = h }) l.1)

    failed :
        (e : Option Error) (s : UpdateState E Spec Status) (n : ℕ)
        → Ends Never Whatever e s
        → attempts_failed "failed to patch" n e ≢ none
    failed none s n d p = d
    failed (some e) s n d p = cc

    -- Where a Get that fails returns an object with no name, `TryPatchX` cannot recover from one
    -- failed Get: it takes the name of the next Get from that object, and so returns an error.
    pub try_patch_lost :
        (updates : Poller (UpdateState E Spec Status)) (cur : Object Spec Status) (h : List E)
        → IsLost (c.get cur.meta.namespace cur.meta.name h).0
        → (try_patch v c updates cur transform h).0.1 ≢ none
    unfolding try_patch try_patch_round
    try_patch_lost updates cur h lost = failed _ _ _ (
        poll_rule Astray Never Whatever (try_patch_round v c transform) (λ _ _. tt)
          (λ s p. patch_found-Astray s _ p) updates _ lost)
