-- ===== src/Access/Request/Decision.antt =====
-- The decision on a request: what the loop over the conditions finds.
use vault_operator.Base.{
  String, ◌≡◌, refl, ap, Bool-cases, inl, inr, ◌⊎◌, true, false, List, [], ◌∷◌, ◌++◌, eq_iff, arith,
  if◌then◌else◌,
}
use vault_operator.Meta.{Condition, items, condition_request_approved}
use vault_operator.Access.Request.{Request, is_decision, decide_from, condition_type}

-- No condition of the list is an approval or a denial that is true.
abbrev pub Undecided : List Condition → Type 0
Undecided [] = Unit
Undecided (c ∷ cs) = (is_decision c ≡ false) × Undecided cs

-- The last decision of the list has this type.
pub record LastDecision (t : String) (cs : List Condition) : Type 0 where
  pub before : List Condition
  pub at : Condition
  pub after : List Condition
  pub split : cs ≡ before ++ at ∷ after
  pub decision : is_decision at ≡ true
  pub type : at.type ≡ t
  pub no_later : Undecided after

later :
    {t : String} {cs : List Condition} (c : Condition) → LastDecision t cs → LastDecision t (c ∷ cs)
later c l = record {
  before = c ∷ l.before;
  at = l.at;
  after = l.after;
  split = ap (λ r. c ∷ r) l.split;
  decision = l.decision;
  type = l.type;
  no_later = l.no_later;
}

decide_from_lem :
    (s t : String) (cs : List Condition)
    → decide_from s cs ≡ t
    → ((s ≡ t) × Undecided cs) ⊎ LastDecision t cs
unfolding decide_from
decide_from_lem s t [] p = inl (p, tt)
decide_from_lem s t (c ∷ cs) p =
    step (decide_from_lem (if is_decision c then c.type else s) t cs p) (Bool-cases (is_decision c))
  where
    step :
        (((if is_decision c then c.type else s) ≡ t) × Undecided cs) ⊎ LastDecision t cs
        → (is_decision c ≡ true) ⊎ (is_decision c ≡ false)
        → ((s ≡ t) × Undecided (c ∷ cs)) ⊎ LastDecision t (c ∷ cs)
    step (inr l) d = inr (later c l)
    step (inl (q, u)) (inl d) = inr (record {
      before = [];
      at = c;
      after = cs;
      split = refl;
      decision = d;
      type = rw d at q;
      no_later = u;
    })
    step (inl (q, u)) (inr d) = inl (rw d at q, (d, u))

-- A request counts as approved only if its last decision is an approval.
pub approved_lem :
    (req : Request)
    → condition_type req ≡ condition_request_approved
    → LastDecision condition_request_approved (items req.status.conditions)
unfolding condition_type
approved_lem req p =
    elim (decide_from_lem "" condition_request_approved (items req.status.conditions) p) [
      | inl (e, _) ↦ ground (arith, eq_iff "" "Approved")
      | inr l ↦ l
    ]
