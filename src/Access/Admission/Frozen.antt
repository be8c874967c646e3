-- ===== src/Access/Admission/Frozen.antt =====
-- An admitted update leaves the spec of a decided request alone.
use vault_operator.Base.{
  String, ◌≡◌, refl, sym, ◌∙◌, ◌⊎◌, inl, inr, Bool, true, false, not, Bool-cases, List, [], ◌∷◌,
  ◌==◌, if◌then◌else◌, ok, arith, eq_iff,
}
use vault_operator.Meta.{Condition, items, condition_request_approved}
use vault_operator.Access.Request.{
  Kind, resource_kind, Request, RequestSpec, is_decision, decide_from, condition_type,
}
use vault_operator.Access.Admission.{
  AdmissionRequest, allowed, uninitialized, operation_update, engine_group, is_approved_or_denied,
  validate, admit,
}

-- `Diff` is documented to be empty exactly for equal values.
pub record DiffLaw (diff : RequestSpec → RequestSpec → String) : Type 0 where
  pub equal : (a b : RequestSpec) → diff a b ≡ "" → a ≡ b

-- An update of an object of this kind that the webhook looks at.
pub record IsUpdate (k : Kind) (old new : Request) (req : AdmissionRequest) : Type 0 where
  pub operation : req.operation ≡ operation_update
  pub sub_resource : req.sub_resource ≡ ""
  pub group : req.group ≡ engine_group
  pub kind : req.kind ≡ resource_kind k
  pub object : req.object ≡ ok new
  pub old_object : req.old_object ≡ ok old

decision_lem :
    (c : Condition) (cs : List Condition)
    → is_decision c ≡ true
    → is_approved_or_denied (c ∷ cs) ≡ true
unfolding is_decision is_approved_or_denied
decision_lem c cs d = ground arith

decided_lem :
    (s t : String) (cs : List Condition)
    → decide_from s cs ≡ t
    → (s ≡ t) ⊎ (is_approved_or_denied cs ≡ true)
unfolding decide_from is_approved_or_denied
decided_lem s t [] p = inl p
decided_lem s t (c ∷ cs) p = elim (Bool-cases (is_decision c)) [
  | inl d ↦ inr (decision_lem c cs d)
  | inr d ↦ elim (decided_lem s t cs (rw (d, decide_from) at p)) [
    | inl q ↦ inl q
    | inr q ↦ inr (ground arith)
  ]
]

module _ (k : Kind) (diff : RequestSpec → RequestSpec → String) (law : DiffLaw diff) where
  frozen :
      (old new : Request)
      → is_approved_or_denied (items new.status.conditions) ≡ true
      → validate k diff old new ≡ allowed
      → old.spec ≡ new.spec
  unfolding validate
  frozen old new d a = elim (Bool-cases (diff old.spec new.spec == "")) [
    | inl e ↦ law.equal _ _ ((eq_iff _ _).0 e)
    | inr e ↦ ground arith
  ]

  admit_lem :
      (initialized : Bool) (old new : Request) (req : AdmissionRequest)
      → IsUpdate k old new req
      → admit k diff initialized req
        ≡ (if not initialized then uninitialized else validate k diff old new)
  unfolding admit
  admit_lem initialized old new req u = ground (
    arith,
    u.operation,
    u.sub_resource,
    u.group,
    u.kind,
    u.object,
    u.old_object,
    eq_iff req.operation "UPDATE",
    eq_iff req.sub_resource "",
    eq_iff req.group "engine.kubevault.com",
    eq_iff req.kind (resource_kind k),
  )

  settled :
      (initialized : Bool) (old new : Request)
      → (if not initialized then uninitialized else validate k diff old new) ≡ allowed
      → (initialized ≡ true) × (validate k diff old new ≡ allowed)
  settled true old new a = (refl, a)
  settled false old new a = cc

  decided :
      (new : Request)
      → condition_type new ≡ condition_request_approved
      → is_approved_or_denied (items new.status.conditions) ≡ true
  unfolding condition_type
  decided new t = elim (decided_lem "" condition_request_approved (items new.status.conditions) t) [
    | inl q ↦ ground (arith, eq_iff "" "Approved")
    | inr d ↦ d
  ]

  -- Where `Diff` is empty only for equal specs: an update of an object of this kind that the webhook
  -- allows is looked at by an initialised webhook, and if its new object is one that the controller
  -- takes for approved, because its last decision is an approval, it keeps the spec.
  pub admit-approved :
      (initialized : Bool) (old new : Request) (req : AdmissionRequest)
      → IsUpdate k old new req
      → admit k diff initialized req ≡ allowed
      → (initialized ≡ true)
        × (condition_type new ≡ condition_request_approved → old.spec ≡ new.spec)
  admit-approved initialized old new req u a =
      let (i, b) = settled initialized old new (sym (admit_lem initialized old new req u) ∙ a) in
      (i, λ t. frozen old new (decided new t) b)
