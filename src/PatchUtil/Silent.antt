-- ===== src/PatchUtil/Silent.antt =====
-- A view of the trace that the calls of a client leave alone is left alone by the utilities.
use vault_operator.Base.{arith, ◌≡◌, refl, ◌∙◌, Option, none, some, List, Error, Fallible, String}
use vault_operator.Meta.{ObjectMeta, Object, Vendor}
use vault_operator.PatchUtil.{
  patch_found, try_patch, try_patch_round, Polled, done, again, stop, Poller, Client, UpdateState,
  after_conflict, after_write, update_status_round, status_read, update_status, nothing_to_patch,
  send_patch, patch_object, patch,
}
use vault_operator.PatchUtil.Poll.{Round, Ends, poll_rule}
use vault_operator.Base.{Bool-cases, inl, inr}

pub record IsSilent {E Spec Status X : Type 0} (f : List E → X) (c : Client E Spec Status)
    : Type 0 where
  pub get : (ns n : String) (h : List E) → f (c.get ns n h).1 ≡ f h
  pub update_status :
      (ns : String) (o : Object Spec Status) (h : List E) → f (c.update_status ns o h).1 ≡ f h
  pub patch : (ns n p : String) (h : List E) → f (c.patch ns n p h).1 ≡ f h

module _ {E Spec Status X : Type 0} (v : Vendor) (c : Client E Spec Status) (f : List E → X)
    (quiet : IsSilent f c) where
  after_conflict-trace :
      (s : UpdateState E Spec Status) (r : Fallible (Object Spec Status))
      → (after_conflict v c r s).1.trace ≡ s.trace
  unfolding after_conflict
  after_conflict-trace s (latest, none) = refl
  after_conflict-trace s (latest, some e) = refl

  after_write-IsSilent :
      (meta : ObjectMeta) (s : UpdateState E Spec Status)
      (r : Fallible (Object Spec Status) × List E)
      → f (after_write v c none meta s r).1.trace ≡ f r.1
  unfolding after_write
  after_write-IsSilent meta s ((out, none), h) = refl
  after_write-IsSilent meta s ((out, some e), h) = elim (Bool-cases (v.is_conflict e)) [
    | inl conflict ↦ rw (conflict, after_conflict-trace) (quiet.get meta.namespace meta.name h)
    | inr other ↦ rw other
  ]

  module _ (x : X) where
    abbrev Same : UpdateState E Spec Status → Type 0
    Same s = f s.trace ≡ x

    abbrev SameFailed : Error → UpdateState E Spec Status → Type 0
    SameFailed e s = Same s

    round-Same :
        (p : Polled) (s : UpdateState E Spec Status) → Same s → Round Same Same SameFailed p s
    round-Same done s e = e
    round-Same again s e = e
    round-Same (stop _) s e = e

    Ends-Same :
        (e : Option Error) (s : UpdateState E Spec Status) → Ends Same SameFailed e s → Same s
    Ends-Same none s e = e
    Ends-Same (some _) s e = e

  status_read-IsSilent :
      (updates : Poller (UpdateState E Spec Status)) (meta : ObjectMeta)
      (transform : Status → Status) (r : Fallible (Object Spec Status) × List E)
      → f (status_read v c updates meta transform r).1 ≡ f r.1
  unfolding status_read update_status_round
  status_read-IsSilent updates meta transform ((cur, some e), h) = refl
  status_read-IsSilent updates meta transform ((cur, none), h) = Ends-Same (f h) _ _ (
      poll_rule (Same (f h)) (Same (f h)) (SameFailed (f h))
        (update_status_round v c none meta transform) (λ _ e. e)
        (λ s e.
          round-Same (f h) _ _ (after_write-IsSilent meta s _ ∙ quiet.update_status _ _ _ ∙ e))
        updates _ refl)

  pub update_status-IsSilent :
      (updates : Poller (UpdateState E Spec Status)) (meta : ObjectMeta)
      (transform : Status → Status) (h : List E)
      → f (update_status v c updates meta transform h).1 ≡ f h
  unfolding update_status
  update_status-IsSilent updates meta transform h =
      status_read-IsSilent updates meta transform _ ∙ quiet.get _ _ _

  send_patch-IsSilent :
      (cur : Object Spec Status) (p : String) (h : List E) → f (send_patch v c cur p h).1 ≡ f h
  unfolding send_patch
  send_patch-IsSilent cur p h = elim (Bool-cases (nothing_to_patch p)) [
    | inl nothing ↦ rw nothing
    | inr something ↦ rw something (quiet.patch _ _ _ _)
  ]

  pub patch-IsSilent :
      (cur : Object Spec Status) (transform : Object Spec Status → Object Spec Status) (h : List E)
      → f (patch v c cur transform h).1 ≡ f h
  unfolding patch patch_object
  patch-IsSilent cur transform h = grind (arith, send_patch-IsSilent)

  patch_object-IsSilent :
      (cur mod' : Object Spec Status) (h : List E) → f (patch_object v c cur mod' h).1 ≡ f h
  unfolding patch_object
  patch_object-IsSilent cur mod' h = grind (arith, send_patch-IsSilent)

  patch_found-IsSilent :
      (transform : Object Spec Status → Object Spec Status) (s : UpdateState E Spec Status)
      (r : Fallible (Object Spec Status) × List E)
      → f (patch_found v c transform s r).1.trace ≡ f r.1
  unfolding patch_found
  patch_found-IsSilent transform s ((cur, none), h) = patch_object-IsSilent cur (transform cur) h
  patch_found-IsSilent transform s ((cur, some e), h) = refl

  pub try_patch-IsSilent :
      (updates : Poller (UpdateState E Spec Status)) (cur : Object Spec Status)
      (transform : Object Spec Status → Object Spec Status) (h : List E)
      → f (try_patch v c updates cur transform h).1 ≡ f h
  unfolding try_patch try_patch_round
  try_patch-IsSilent updates cur transform h = Ends-Same (f h) _ _ (
      poll_rule (Same (f h)) (Same (f h)) (SameFailed (f h)) (try_patch_round v c transform)
        (λ _ e. e)
        (λ s e. round-Same (f h) _ _ (patch_found-IsSilent transform s _ ∙ quiet.get _ _ _ ∙ e))
        updates _ refl)
