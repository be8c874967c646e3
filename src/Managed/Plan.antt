-- ===== src/Managed/Plan.antt =====
-- Sequences of calls of Vault in which a failed call is the last.
use vault_operator.Base.{
  ℕ, Bool, true, false, String, wrap_error, ◌≡◌, ◌≢◌, refl, ◌⊎◌, Option, none, some, List, [], ◌∷◌,
  Error, Option-cases, inl, inr,
}
use mathlib.Core.Path.{subst}
use vault_operator.Base.Act.{Act, pure, ◌>>=◌}
use vault_operator.Managed.World.{Event, called, Env, VaultCall, attempt, dispatch, vault_calls}

abbrev pub Calls : Type 0
Calls = List (VaultCall × Option Error)

-- The calls in the order of a plan, newest first: all were made without an error, or all up to one
-- that failed, after which none was made.
abbrev pub Follows : List VaultCall → Calls → Calls → Type 0
Follows [] before after = after ≡ before
Follows (c ∷ plan) before after =
    ((e : Error) × (after ≡ (c, some e) ∷ before)) ⊎ Follows plan ((c, none) ∷ before) after

-- All of the plan, without an error.
abbrev pub all_of : List VaultCall → Calls → Calls
all_of [] before = before
all_of (c ∷ plan) before = all_of plan ((c, none) ∷ before)

-- What may be done in Vault for an object, by its deletion timestamp and by whether it has the
-- finalizer: it is set up, or cleaned up where it is being deleted and still has the finalizer.
abbrev pub plan_for : List VaultCall → List VaultCall → Option ℕ → Bool → List VaultCall
plan_for setup cleanup none _ = setup
plan_for setup cleanup (some _) true = cleanup
plan_for setup cleanup (some _) false = []

-- No call was made, or a plan was followed.
abbrev pub Kept : List VaultCall → Calls → Calls → Type 0
Kept plan before after = (after ≡ before) ⊎ Follows plan before after

pub Kept-from :
    (plan : List VaultCall) {before before' after : Calls}
    → before ≡ before'
    → Kept plan before after
    → Kept plan before' after
Kept-from plan {after = after} e k = subst (λ b. Kept plan b after) e k

module _ {Spec : Type 0} (env : Env Spec) where
  -- An action follows a plan, and does all of it where it succeeds.
  pub record Performs (plan : List VaultCall) (m : Act (Event Spec) (Option Error)) : Type 0 where
    pub follows : (h : List (Event Spec)) → Follows plan (vault_calls h) (vault_calls (m h).1)
    pub completes :
        (h : List (Event Spec)) → (m h).0 ≡ none → vault_calls (m h).1 ≡ all_of plan (vault_calls h)

  -- A handler of errors makes no call of Vault, and returns an error.
  pub record Reports (failed : Error → Act (Event Spec) (Option Error)) : Type 0 where
    pub quiet : (e : Error) (h : List (Event Spec)) → vault_calls (failed e h).1 ≡ vault_calls h
    pub fails : (e : Error) (h : List (Event Spec)) → (failed e h).0 ≢ none

  module _ (c : VaultCall) {plan : List VaultCall}
      {failed : Error → Act (Event Spec) (Option Error)}
      {rest : Act (Event Spec) (Option Error)} where
    attempt-Follows :
        Reports failed
        → Performs plan rest
        → (h : List (Event Spec))
        → Follows (c ∷ plan) (vault_calls h) (vault_calls (attempt env c failed rest h).1)
    attempt-Follows r p h = elim (Option-cases (env.vault h c)) [
      | inr (e, q) ↦ rw (q, attempt) (inl (e, r.quiet e _))
      | inl q ↦ rw (q, attempt) (inr (p.follows (called c none ∷ h)))
    ]

    attempt-completes :
        Reports failed
        → Performs plan rest
        → (h : List (Event Spec)) → (attempt env c failed rest h).0 ≡ none
        → vault_calls (attempt env c failed rest h).1 ≡ all_of (c ∷ plan) (vault_calls h)
    attempt-completes r p h = elim (Option-cases (env.vault h c)) [
      | inr (e, q) ↦ rw (q, attempt) (λ z. absurd (r.fails e _ z))
      | inl q ↦ rw (q, attempt) (p.completes (called c none ∷ h))
    ]

    pub Performs-attempt :
        Reports failed → Performs plan rest → Performs (c ∷ plan) (attempt env c failed rest)
    Performs-attempt r p = record {
      follows = attempt-Follows r p;
      completes = attempt-completes r p;
    }

  -- The rest of a run, that makes no call of Vault.
  pub Performs-quiet :
      (m : Act (Event Spec) (Option Error))
      → ((h : List (Event Spec)) → vault_calls (m h).1 ≡ vault_calls h)
      → Performs [] m
  Performs-quiet m quiet = record { follows = quiet; completes = λ h _. quiet h }

  pub Reports-pure : (f : Error → Error) → Reports (λ e. pure (some (f e)))
  Reports-pure f = record { quiet = λ e h. refl; fails = λ e h p. cc }

  -- An action makes no call of Vault, or follows a plan.
  abbrev pub Keeps : List VaultCall → Act (Event Spec) (Option Error) → Type 0
  Keeps plan m = (h : List (Event Spec)) → Kept plan (vault_calls h) (vault_calls (m h).1)

  -- An action follows a plan.
  pub record Tracks (plan : List VaultCall) (m : Act (Event Spec) (Option Error)) : Type 0 where
    pub follows : (h : List (Event Spec)) → Follows plan (vault_calls h) (vault_calls (m h).1)

  pub Performs-Tracks :
      {plan : List VaultCall} {m : Act (Event Spec) (Option Error)}
      → Performs plan m
      → Tracks plan m
  Performs-Tracks p = record { follows = p.follows }

  -- What is done after a failed first call of a plan makes no further call.
  pub Keeps-attempt :
      (c : VaultCall) {plan : List VaultCall} (failed : Error → Act (Event Spec) (Option Error))
      {rest : Act (Event Spec) (Option Error)}
      → ((e : Error) (h : List (Event Spec)) → vault_calls (failed e h).1 ≡ vault_calls h)
      → Tracks plan rest
      → Keeps (c ∷ plan) (attempt env c failed rest)
  Keeps-attempt c failed quiet t h = elim (Option-cases (env.vault h c)) [
    | inr (e, q) ↦ rw (q, attempt) (inr (inl (e, quiet e _)))
    | inl q ↦ rw (q, attempt) (inr (inr (t.follows (called c none ∷ h))))
  ]

  -- An error that is given a context makes no difference to the calls.
  pub Performs-wrap :
      (context : String) {plan : List VaultCall} {m : Act (Event Spec) (Option Error)}
      → Performs plan m
      → Performs plan (do e ← m; pure (wrap_error context e))
  Performs-wrap context {plan} {m} p = record {
    follows = p.follows;
    completes = λ h q. p.completes h (wrap_error_none (m h).0 q);
  }
    where
      wrap_error_none : (e : Option Error) → wrap_error context e ≡ none → e ≡ none
      wrap_error_none none q = refl
      wrap_error_none (some e) q = cc

  pub Keeps-dispatch :
      (setup cleanup : List VaultCall) (finalize serve prepare : Act (Event Spec) (Option Error))
      → Keeps cleanup finalize
      → Keeps setup serve
      → Keeps setup prepare
      → (d : Option ℕ) (f : Bool)
      → Keeps (plan_for setup cleanup d f) (dispatch d f finalize serve prepare)
  Keeps-dispatch setup cleanup finalize serve prepare kf ks kp none true = ks
  Keeps-dispatch setup cleanup finalize serve prepare kf ks kp none false = kp
  Keeps-dispatch setup cleanup finalize serve prepare kf ks kp (some _) true = kf
  Keeps-dispatch setup cleanup finalize serve prepare kf ks kp (some _) false = λ h. inl refl
