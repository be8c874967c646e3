-- ===== src/Server/Controller/Steps.antt =====
-- A run of the controller, as a step of the state machine of its goroutines.
use vault_operator.Base.{
  String, ◌≡◌, refl, sym, ap, ◌∙◌, ◌⊎◌, inl, inr, none, some, Option-cases, Result-cases, List, ok,
  arith,
}
use vault_operator.Meta.{Vendor}
use vault_operator.Server.Cluster.{Server, Event, Env, Outcome, returned, panicked}
use vault_operator.Server.Deploy.{VaultSrv, new_vault}
use vault_operator.Server.Routines.Reach.{
  Controllers, Step, reconciled, gone, Reach, next, IsSound, Reach-IsSound,
}
use vault_operator.Server.Controller.{key_of, provision, started, wrapped, handle, run_injector}
use mathlib.Core.Path.{subst}

-- Nothing was done to the goroutines, or one step of the machine.
abbrev pub IsStep : Controllers → Controllers → Type 0
IsStep c d = (d ≡ c) ⊎ Step c d

module _ (v : Vendor) (env : Env) where
  started-IsStep :
      (vs : Server) (o : Outcome) (cs : Controllers) → IsStep cs (started v env vs o cs)
  started-IsStep vs panicked cs = inl refl
  started-IsStep vs (returned (some e)) cs = inl refl
  started-IsStep vs (returned none) cs = inr (reconciled cs (key_of vs))

  -- What a run of a server that is not being deleted comes to.
  handle_alive :
      (vs : Server) (cs : Controllers) (h : List Event) (srv : VaultSrv)
      → vs.meta.deletion_timestamp ≡ none
      → (new_vault v env vs h).0 ≡ ok srv
      → (handle v env vs cs h).0 ≡ (
          let o = (provision v env vs srv (new_vault v env vs h).1).0 in
          (wrapped v env o, started v env vs o cs))
  unfolding handle
  handle_alive vs cs h srv p q = ground arith

  handle-IsStep :
      (vs : Server) (cs : Controllers) (h : List Event) → IsStep cs (handle v env vs cs h).0.1
  unfolding handle
  handle-IsStep vs cs h = elim (Option-cases vs.meta.deletion_timestamp) [
    | inr (d, p) ↦ inl (ground arith)
    | inl p ↦ elim (Result-cases (new_vault v env vs h).0) [
      | inr (e, q) ↦ inl (ground arith)
      | inl (srv, q) ↦
          subst (λ r. IsStep cs r.1) (sym (handle_alive vs cs h srv p q))
            (started-IsStep vs (provision v env vs srv (new_vault v env vs h).1).0 cs)
    ]
  ]

  run_injector_found :
      (key : String) (cs : Controllers) (h : List Event) (vs : Server)
      → env.get_by_key h key ≡ ok (some vs)
      → (run_injector v env key cs h).0 ≡ (handle v env vs cs h).0
  unfolding run_injector
  run_injector_found key cs h vs p = ground arith

  -- Each run leaves the goroutines alone or makes one step of the machine.
  run_injector-IsStep :
      (key : String) (cs : Controllers) (h : List Event)
      → IsStep cs (run_injector v env key cs h).0.1
  unfolding run_injector
  run_injector-IsStep key cs h = elim (Result-cases (env.get_by_key h key)) [
    | inr (e, p) ↦ inl (ground arith)
    | inl (found, p) ↦ elim (Option-cases found) [
      | inl q ↦ inr (subst (Step cs) (ground arith) (gone cs key))
      | inr (vs, q) ↦
          subst (λ r. IsStep cs r.1) (sym (run_injector_found key cs h vs (p ∙ ap ok q)))
            (handle-IsStep vs cs h)
    ]
  ]

  kept_by : {c d : Controllers} → Reach c → IsStep c d → Reach d
  kept_by r (inl p) = subst Reach (sym p) r
  kept_by r (inr s) = next r s

  -- A run takes the goroutines from a state that the machine reaches to one that it reaches: so
  -- after any number of runs, of any servers and with any answers, for each key the monitor of the
  -- map runs and no other, and no goroutine of auth methods but that of the map.
  pub run_injector-Reach :
      (key : String) (cs : Controllers) (h : List Event)
      → Reach cs
      → Reach (run_injector v env key cs h).0.1 × IsSound (run_injector v env key cs h).0.1
  run_injector-Reach key cs h r =
      let r' = kept_by r (run_injector-IsStep key cs h) in (r', Reach-IsSound r')
