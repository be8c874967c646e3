-- ===== src/Server/Routines/Reach.antt =====
-- The controller of Vault servers as a state machine over its goroutines: the reconciliation and the
-- disappearance of servers, a monitor that does not find its server, and the return of a goroutine
-- of auth methods, in any order.
use vault_operator.Base.{
  ℕ, String, ◌≡◌, refl, sym, ◌∙◌, inl, Option, none, some, [], ◌∷◌, arith, eq_iff,
}
use vault_operator.Base.Assoc.{lookup}
use vault_operator.Server.Routines.{
  Routines, no_routines, cancel, start, start_monitor, stop, run_auth_methods, live,
}
use vault_operator.Server.Routines.Tidy.{as_list, IsFresh, IsTidy, IsBounded, live-cancel_one}
use vault_operator.Server.Routines.Started.{run_auth_methods-IsBounded, live-run_auth_methods}
use vault_operator.Server.Routines.Kept.{
  live-start, start_monitor-IsTidy, stop-IsTidy, stop-IsBounded, live-stop, Tidy-IsBounded,
}

pub record Controllers : Type 0 where
  pub monitors : Routines
  pub auth_methods : Routines

abbrev pub no_controllers : Controllers
no_controllers = record { monitors = no_routines; auth_methods = no_routines }

-- The end of a reconciliation that succeeded.
abbrev pub after_reconcile : String → Controllers → Controllers
after_reconcile key c = record {
  monitors = start_monitor key c.monitors;
  auth_methods = run_auth_methods key c.auth_methods;
}

-- A run for a server that is not there.
abbrev pub after_gone : String → Controllers → Controllers
after_gone key c = record { monitors = stop key c.monitors; auth_methods = stop key c.auth_methods }

pub data Step : Controllers → Controllers → Type 0 where
  reconciled : (c : Controllers) (key : String) → Step c (after_reconcile key c)
  gone : (c : Controllers) (key : String) → Step c (after_gone key c)
  not_found :
      (c : Controllers) (key : String) → Step c (record c { monitors = stop key c.monitors })
  returned :
      (c : Controllers) (n : ℕ)
      → Step c (record c {
        auth_methods = record (c.auth_methods) { running = cancel n c.auth_methods.running };
      })

pub data Reach : Controllers → Type 0 where
  begin : Reach no_controllers
  next : {c d : Controllers} → Reach c → Step c d → Reach d

pub record IsSound (c : Controllers) : Type 0 where
  pub monitors : IsTidy c.monitors
  pub auth_methods : IsBounded c.auth_methods

returned-IsBounded :
    (n : ℕ) (r : Routines) → IsBounded r → IsBounded (record r { running = cancel n r.running })
returned-IsBounded n r b = record {
  fresh = record { owner = b.fresh.owner; given = b.fresh.given };
  bounded = λ k. live-cancel_one k n r.running (lookup k r.contexts) (b.bounded k);
}

pub Step-IsSound : {c d : Controllers} → Step c d → IsSound c → IsSound d
Step-IsSound (reconciled c key) s = record {
  monitors = start_monitor-IsTidy key c.monitors s.monitors;
  auth_methods = run_auth_methods-IsBounded key c.auth_methods s.auth_methods;
}
Step-IsSound (gone c key) s = record {
  monitors = stop-IsTidy key c.monitors s.monitors;
  auth_methods = stop-IsBounded key c.auth_methods s.auth_methods;
}
Step-IsSound (not_found c key) s = record {
  monitors = stop-IsTidy key c.monitors s.monitors;
  auth_methods = s.auth_methods;
}
Step-IsSound (returned c n) s = record {
  monitors = s.monitors;
  auth_methods = returned-IsBounded n c.auth_methods s.auth_methods;
}

fresh_lem : IsFresh no_routines
unfolding lookup
fresh_lem = record { owner = λ k j n p q. cc; given = λ k n p. cc }

nothing_runs : (k : String) → live k [] ≡ []
unfolding live
nothing_runs k = refl

no_entry : (k : String) → as_list (lookup k []) ≡ []
unfolding lookup
no_entry k = refl

no_controllers-IsSound : IsSound no_controllers
no_controllers-IsSound = record {
  monitors = record { fresh = fresh_lem; matched = λ k. nothing_runs k ∙ sym (no_entry k) };
  auth_methods = record { fresh = fresh_lem; bounded = λ k. inl (nothing_runs k) };
}

-- In every state that the controller reaches, for each key the monitor of the map runs and no
-- other, and no goroutine of auth methods runs but that of the map; the numbers in a map are
-- distinct.
pub Reach-IsSound : {c : Controllers} → Reach c → IsSound c
Reach-IsSound begin = no_controllers-IsSound
Reach-IsSound (next r s) = Step-IsSound s (Reach-IsSound r)

-- The branch that a lookup takes in `start_monitor`.
abbrev monitored : String → Routines → Option ℕ → Routines
monitored key r none = start key r
monitored key r (some _) = r

started_live :
    (key : String) (r : Routines) (o : Option ℕ)
    → live key r.running ≡ as_list o
    → (n : ℕ) × (live key (monitored key r o).running ≡ n ∷ [])
started_live key r (some n) m = (n, m)
started_live key r none m =
    (r.next, ground (arith, live-start key key r.next r.running, (eq_iff key key).1 refl))

start_monitor_lem :
    (key : String) (r : Routines) → start_monitor key r ≡ monitored key r (lookup key r.contexts)
unfolding start_monitor
start_monitor_lem key r = ground arith

live-start_monitor :
    (key : String) (r : Routines)
    → IsTidy r
    → (n : ℕ) × (live key (start_monitor key r).running ≡ n ∷ [])
live-start_monitor key r t =
    rw start_monitor_lem (started_live key r (lookup key r.contexts) (t.matched key))

-- In every state that the controller reaches: after the reconciliation of a server one monitor and
-- one goroutine of auth methods run for it, and after a run that does not find the server none of
-- either runs for it.
pub Reach-runs :
    {c : Controllers}
    → Reach c
    → (key : String)
    → let up = after_reconcile key c in
      let down = after_gone key c in
      ((n : ℕ) × (live key up.monitors.running ≡ n ∷ []))
      × ((n : ℕ) × (live key up.auth_methods.running ≡ n ∷ []))
      × (live key down.monitors.running ≡ [])
      × (live key down.auth_methods.running ≡ [])
Reach-runs {c} r key =
    let s = Reach-IsSound r in
    (
      live-start_monitor key c.monitors s.monitors,
      (c.auth_methods.next, live-run_auth_methods key c.auth_methods s.auth_methods),
      live-stop key c.monitors (Tidy-IsBounded c.monitors s.monitors),
      live-stop key c.auth_methods s.auth_methods,
    )
