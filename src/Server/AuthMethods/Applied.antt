-- ===== src/Server/AuthMethods/Applied.antt =====
-- What is enabled and disabled in Vault, and what the statuses say of it.
use vault_operator.Base.{
  String, ◌≡◌, ◌⊎◌, inl, inr, refl, ap, ◌∙◌, false, none, some, List, [], ◌∷◌, ◌++◌, ◌==◌,
  if◌then◌else◌, ok, err, Error, Bool-cases, Option-cases, arith, eq_iff,
}
use Prim.Native.String
use vault_operator.Base.Act.{pure}
use vault_operator.Server.AuthMethods.{
  AuthMethod, AuthMethodStatus, Event, listed, enabled, disabled, Env, lookup, options_of,
  enable_succeeded, switch_on, taken, enable_one, enable_each, enable_auth_methods, is_expected,
  switch_off, is_left_over, disable_auth_methods,
}

-- The paths that were disabled, or tried to be, newest first.
abbrev pub disabled_paths : List Event → List String
disabled_paths [] = []
disabled_paths (listed _ ∷ h) = disabled_paths h
disabled_paths (enabled _ _ _ ∷ h) = disabled_paths h
disabled_paths (disabled p _ ∷ h) = p ∷ disabled_paths h

-- A path in the form of the list of Vault.
abbrev pub slashed : Env → AuthMethod → String
slashed env au = String.◌++◌ (env.clean au.path) "/"

-- The status is that of this method, and says that it is enabled only if its path held a method of
-- its type or Vault enabled it without an error.
pub record IsTold (env : Env) (auth_list : List (String × String)) (au : AuthMethod)
    (s : AuthMethodStatus) : Type 0 where
  pub type : s.type ≡ au.type
  pub path : s.path ≡ au.path
  pub backed :
      s.status ≡ enable_succeeded
      → (lookup (slashed env au) auth_list ≡ some au.type)
        ⊎ (h : List Event) × (env.enable_auth h au.path (options_of au) ≡ none)

-- The statuses are those of the methods, in their order.
abbrev pub AllTold : Env → List (String × String) → List AuthMethod → List AuthMethodStatus → Type 0
AllTold env auth_list [] [] = Unit
AllTold env auth_list (au ∷ auths) (s ∷ ss) =
    IsTold env auth_list au s × AllTold env auth_list auths ss
AllTold env auth_list _ _ = ⊥

-- None of the paths is one that is expected.
abbrev pub Unexpected : Env → List AuthMethod → List String → Type 0
Unexpected env expected [] = Unit
Unexpected env expected (p ∷ ps) = (is_expected env expected p ≡ false) × Unexpected env expected ps

-- None of the statuses is that of a method that was enabled.
abbrev pub NoneEnabled : List AuthMethodStatus → Type 0
NoneEnabled [] = Unit
NoneEnabled (s ∷ ss) = (s.status == enable_succeeded ≡ false) × NoneEnabled ss

module _ (env : Env) where
  on-IsTold :
      (auth_list : List (String × String)) (au : AuthMethod) (h : List Event)
      → IsTold env auth_list au (switch_on env au h).0
  unfolding switch_on
  on-IsTold auth_list au h = elim (Option-cases (env.enable_auth h au.path (options_of au))) [
    | inl p ↦ rw (p, switch_on) (record { type = refl; path = refl; backed = λ q. inr (h, p) })
    | inr (e, p) ↦
        rw (p, switch_on)
          (record {
            type = refl;
            path = refl;
            backed = λ q. ground (arith, eq_iff "EnableFailed" "EnableSucceeded");
          })
  ]

  taken-IsTold :
      (auth_list : List (String × String)) (au : AuthMethod) (got : String)
      → lookup (slashed env au) auth_list ≡ some got
      → IsTold env auth_list au (taken env au got)
  unfolding taken
  taken-IsTold auth_list au got l = elim (Bool-cases (got == au.type)) [
    | inl p ↦
        rw (p, taken)
          (record {
            type = refl;
            path = refl;
            backed = λ q. inl (l ∙ ap (λ t. some t) ((eq_iff _ _).0 p));
          })
    | inr p ↦
        rw (p, taken)
          (record {
            type = refl;
            path = refl;
            backed = λ q. ground (arith, eq_iff "EnableFailed" "EnableSucceeded");
          })
  ]

  one-IsTold :
      (auth_list : List (String × String)) (au : AuthMethod) (h : List Event)
      → IsTold env auth_list au (enable_one env auth_list au h).0
  unfolding enable_one
  one-IsTold auth_list au h = elim (Option-cases (lookup (slashed env au) auth_list)) [
    | inl p ↦ rw (p, enable_one) (on-IsTold auth_list au h)
    | inr (got, p) ↦ rw (p, enable_one) (taken-IsTold auth_list au got p)
  ]

  each-AllTold :
      (auth_list : List (String × String)) (auths : List AuthMethod) (h : List Event)
      → AllTold env auth_list auths (enable_each env auth_list auths h).0
  unfolding enable_each
  each-AllTold auth_list [] h = tt
  each-AllTold auth_list (au ∷ auths) h =
      (one-IsTold auth_list au h, each-AllTold auth_list auths (enable_one env auth_list au h).1)

  -- Where the methods of Vault can be listed, each method of the spec gets a status, in the order of
  -- the spec; it says that the method is enabled only if its path held a method of its type or
  -- Vault enabled it without an error. A failed listing is returned.
  pub enable_auth_methods-AllTold :
      (auths : List AuthMethod) (h : List Event)
      → ((e : Error) → env.list_auth h ≡ err e → (enable_auth_methods env auths h).0 ≡ err e)
        × ((auth_list : List (String × String))
            → env.list_auth h ≡ ok auth_list
            → (resp : List AuthMethodStatus) × ((enable_auth_methods env auths h).0 ≡ ok resp)
              × AllTold env auth_list auths resp)
  unfolding enable_auth_methods
  enable_auth_methods-AllTold auths h = (
    λ e p. rw (p, enable_auth_methods) refl,
    λ auth_list p. (
      (enable_each env auth_list auths (listed none ∷ h)).0,
      rw (p, enable_auth_methods) refl,
      each-AllTold auth_list auths (listed none ∷ h),
    ),
  )

  step-Unexpected :
      (expected : List AuthMethod) (au : AuthMethodStatus) (h : List Event)
      → Unexpected env expected (disabled_paths h)
      → Unexpected env expected (
          disabled_paths
            ((if is_left_over env expected au then switch_off env au else pure []) h).1)
  unfolding switch_off
  step-Unexpected expected au h u = ground arith

  -- No method that the spec expects is disabled: of the paths disabled by a run none is the clean
  -- path of an expected method, if that held of those disabled before.
  pub disable_auth_methods-Unexpected :
      (expected : List AuthMethod) (has : List AuthMethodStatus) (h : List Event)
      → Unexpected env expected (disabled_paths h)
      → Unexpected env expected (disabled_paths (disable_auth_methods env expected has h).1)
  unfolding disable_auth_methods
  disable_auth_methods-Unexpected expected [] h u = u
  disable_auth_methods-Unexpected expected (au ∷ has) h u =
      disable_auth_methods-Unexpected expected has _ (step-Unexpected expected au h u)

  idle :
      (expected : List AuthMethod) (has : List AuthMethodStatus) (h : List Event)
      → NoneEnabled has
      → disable_auth_methods env expected has h ≡ ([], h)
  unfolding disable_auth_methods
  idle expected [] h n = refl
  idle expected (au ∷ has) h (d, n) = elim (Bool-cases (is_left_over env expected au)) [
    | inl p ↦ ground arith
    | inr p ↦ rw (p, disable_auth_methods) (idle expected has h n)
  ]

  off-NoneEnabled :
      (expected : List AuthMethod) (au : AuthMethodStatus) (h : List Event)
      (rest : List AuthMethodStatus)
      → NoneEnabled rest
      → NoneEnabled
          (((if is_left_over env expected au then switch_off env au else pure []) h).0 ++ rest)
  unfolding switch_off
  off-NoneEnabled expected au h rest n = elim (Bool-cases (is_left_over env expected au)) [
    | inr p ↦ rw p n
    | inl p ↦ rw p (elim (Option-cases (env.disable_auth h (env.clean au.path))) [
      | inl q ↦ rw (q, switch_off) n
      | inr (e, q) ↦ rw (q, switch_off) (refl, n)
    ])
  ]

  disables-NoneEnabled :
      (expected : List AuthMethod) (has : List AuthMethodStatus) (h : List Event)
      → NoneEnabled (disable_auth_methods env expected has h).0
  unfolding disable_auth_methods
  disables-NoneEnabled expected [] h = tt
  disables-NoneEnabled expected (au ∷ has) h =
      off-NoneEnabled expected au h _ (disables-NoneEnabled expected has _)

  -- A method that could not be disabled is forgotten: on the statuses that a run returned for those
  -- that failed, a later run, whatever it expects, calls nothing and returns nothing.
  pub disable_auth_methods-forgets :
      (expected later : List AuthMethod) (has : List AuthMethodStatus) (h h' : List Event)
      → disable_auth_methods env later (disable_auth_methods env expected has h).0 h' ≡ ([], h')
  disable_auth_methods-forgets expected later has h h' =
      idle later _ h' (disables-NoneEnabled expected has h)
