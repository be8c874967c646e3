-- ===== src/Managed/Role/Finalizer.antt =====
-- When a role that is being deleted is let go.
use vault_operator.Base.{◌/◌, ◌=ℕ◌, ◌≡◌, false, none, some, List, ◌∷◌, Error, arith, wrap}
use vault_operator.Meta.{Object, Vendor, finalizer}
use vault_operator.Managed.World.{
  ManagedStatus, Event, Env, delete_role, new_client, called, vault_calls,
  vault_calls-patch_finalizers, patch_finalizers,
}
use vault_operator.Managed.Role.{
  delete, prepared, Kind, remove_finalizer, run_finalizer, handle, finalizer_context,
  delete_context,
}

module _ {Spec : Type 0} (k : Kind) (v : Vendor) (env : Env Spec) where
  -- Where the Vault client can be made, a deleted role is let go only after its deletion in Vault
  -- was tried, and not after an error other than a client error (4xx): such an error is returned
  -- with no further call.
  pub run_finalizer_deletes :
      (role : Object Spec ManagedStatus) (h : List (Event Spec))
      → env.vault h new_client ≡ none
      → let h' = called new_client none ∷ h in
        let e = env.vault h' delete_role in
        (vault_calls (run_finalizer k v env role h).1
          ≡ (delete_role, e) ∷ (new_client, none) ∷ vault_calls h)
        × ((x : Error)
            → e ≡ some x
            → env.status_code h' delete_role / 100 =ℕ 4 ≡ false
            → ((run_finalizer k v env role h).0 ≡ some (wrap (delete_context k) x))
              × ((run_finalizer k v env role h).1 ≡ called delete_role (some x) ∷ h'))
  unfolding run_finalizer delete remove_finalizer
  run_finalizer_deletes role h m =
      (grind (arith, vault_calls-patch_finalizers v env), λ x p c. grind arith)

  -- Nothing is created in Vault for a role that could not be given the finalizer, and its error is
  -- returned.
  pub handle-finalizer_first :
      (role : Object Spec ManagedStatus) (e : Error) (h : List (Event Spec))
      → role.meta.deletion_timestamp ≡ none
      → v.has_finalizer role.meta finalizer ≡ false
      → (patch_finalizers v env v.add_finalizer role h).0 ≡ some e
      → ((handle k v env role h).0 ≡ some (wrap (finalizer_context k) e))
        × (vault_calls (handle k v env role h).1 ≡ vault_calls h)
  unfolding handle prepared
  handle-finalizer_first role e h d f p =
      (ground arith, grind (arith, vault_calls-patch_finalizers v env))
