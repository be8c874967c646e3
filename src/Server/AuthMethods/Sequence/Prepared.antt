-- ===== src/Server/AuthMethods/Sequence/Prepared.antt =====
-- What was done before Vault is called, and in which order.
use vault_operator.Base.{
  String, ◌≡◌, ◌⊎◌, inl, inr, refl, Bool, true, false, none, some, List, [], ◌∷◌, ◌==◌, Option,
  Error, Result, ok, Bool-cases, Option-cases, Result-cases, eq_iff, sym,
}
use mathlib.Core.Path.{subst}
use vault_operator.PatchUtil.Poll.{Round, Ends, attempts_rule}
use vault_operator.Server.AuthMethods.Sequence.{
  Server, Call, got_server, ensured_policy, got_policy, ensured_binding, got_binding, made_client,
  told, wrote_status, Ticker, World, running, success, wait_round, after, policy_name,
  apply_methods, with_client, with_binding, with_policy, reconcile_auth_methods,
}

-- A call of Vault or a write of the status.
abbrev pub applies : Call → Bool
applies (told _) = true
applies (wrote_status _ _) = true
applies _ = false

-- None of the calls is one of Vault or a write of the status.
abbrev pub IsQuiet : List Call → Type 0
IsQuiet [] = Unit
IsQuiet (c ∷ h) = (applies c ≡ false) × IsQuiet h

-- The first list is a part of the trace, in its order.
abbrev pub IsPart : List Call → List Call → Type 0
IsPart [] h = Unit
IsPart (c ∷ cs) [] = ⊥
IsPart (c ∷ cs) (d ∷ h) = ((c ≡ d) × IsPart cs h) ⊎ IsPart (c ∷ cs) h

-- These calls were made in their order, and Vault was not called yet.
abbrev pub IsReady : List Call → List Call → Type 0
IsReady facts h = IsPart facts h × IsQuiet h

skip : (facts : List Call) (c : Call) (h : List Call) → IsPart facts h → IsPart facts (c ∷ h)
skip [] c h p = tt
skip (f ∷ facts) c h p = inr p

passed-IsReady :
    (facts : List Call) (c : Call) (h : List Call)
    → applies c ≡ false
    → IsReady facts h
    → IsReady facts (c ∷ h)
passed-IsReady facts c h q (p, r) = (skip facts c h p, (q, r))

module _ {A : Type 0} (get : List Call → Result A) (phase : A → String) (wanted : String)
    (call : Result A → Call) (quiet : (r : Result A) → applies (call r) ≡ false)
    (facts : List Call) where
  -- After a wait that ends well, the last answer is that of an object in the phase.
  abbrev Waited : A × List Call → Type 0
  Waited (a, h) = IsReady (call (ok a) ∷ facts) h × (phase a ≡ wanted)

  abbrev Unready : Error → A × List Call → Type 0
  Unready e (a, h) = IsReady facts h

  round-IsReady :
      (s : A × List Call)
      → IsReady facts s.1
      → Round
          (λ s. IsReady facts s.1)
          Waited
          Unready
          (wait_round get phase wanted call s).0
          (wait_round get phase wanted call s).1
  unfolding wait_round
  round-IsReady (a, h) p = elim (Result-cases (get h)) [
    | inr (e, q) ↦ rw (q, wait_round) (passed-IsReady facts _ h (quiet _) p)
    | inl (b, q) ↦ elim (Bool-cases (phase b == wanted)) [
      | inl r ↦ rw (q, r, wait_round) ((inl (refl, p.0), (quiet _, p.1)), (eq_iff _ _).0 r)
      | inr r ↦ rw (q, r, wait_round) (passed-IsReady facts _ h (quiet _) p)
    ]
  ]

  wait-IsReady :
      (t : Ticker (A × List Call)) (s : A × List Call)
      → IsReady facts s.1
      → Ends Waited Unready
          (t.poll_until (wait_round get phase wanted call) s).0
          (t.poll_until (wait_round get phase wanted call) s).1
  wait-IsReady t s p =
      subst (λ r. Ends Waited Unready r.0 r.1)
        (sym (t.poll_until_lem (wait_round get phase wanted call) s))
        (attempts_rule (λ s. IsReady facts s.1) Waited Unready (wait_round get phase wanted call)
          (λ s q. q) round-IsReady (t.ticks (wait_round get phase wanted call) s) s p)

module _ (w : World) (name_with_suffix : String → String → String) where
  abbrev with_server : Server → Server → List Call
  with_server vs ready = got_server vs.namespace vs.name (ok ready) ∷ []

  abbrev policy_made : Server → Server → List Call
  policy_made vs ready =
      ensured_policy ready.namespace (policy_name w name_with_suffix ready) none
      ∷ with_server vs ready

  abbrev policy_ready : Server → Server → List Call
  policy_ready vs ready =
      got_policy ready.namespace (policy_name w name_with_suffix ready) (ok success)
      ∷ policy_made vs ready

  abbrev binding_made : Server → Server → List Call
  binding_made vs ready =
      ensured_binding ready.namespace (policy_name w name_with_suffix ready) none
      ∷ policy_ready vs ready

  abbrev binding_ready : Server → Server → List Call
  binding_ready vs ready =
      got_binding ready.namespace (policy_name w name_with_suffix ready) (ok success)
      ∷ binding_made vs ready

  -- Either Vault was not called and no status written, or the run ends in the application of the
  -- methods of a server that was read as running, after its policy and its binding were written
  -- and read as succeeded and a client was made, in this order.
  abbrev pub IsGuarded : Server → Option Error × List Call → Type 0
  IsGuarded vs r =
      IsQuiet r.1
      ⊎ (ready : Server) × (h : List Call) × (ready.phase ≡ running)
        × IsReady (made_client none ∷ binding_ready vs ready) h
        × (r ≡ apply_methods w name_with_suffix ready h)

  client-IsGuarded :
      (vs ready : Server) (h : List Call)
      → ready.phase ≡ running
      → IsReady (binding_ready vs ready) h
      → IsGuarded vs (with_client w name_with_suffix ready h)
  unfolding with_client
  client-IsGuarded vs ready h run p = elim (Option-cases (w.new_client h)) [
    | inr (e, q) ↦ rw (q, with_client) (inl (refl, p.1))
    | inl q ↦
        rw (q, with_client)
          (inr (ready, made_client none ∷ h, run, (inl (refl, p.0), (refl, p.1)), refl))
  ]

  after-IsGuarded :
      {A : Type 0} (D : A × List Call → Type 0) (vs : Server) (facts : List Call)
      (r : Option Error × (A × List Call)) (next : A → List Call → Option Error × List Call)
      → Ends D (λ e s. IsReady facts s.1) r.0 r.1
      → ((a : A) (h : List Call) → D (a, h) → IsGuarded vs (next a h))
      → IsGuarded vs (after r next)
  after-IsGuarded D vs facts (some e, (a, h)) next p k = inl p.1
  after-IsGuarded D vs facts (none, (a, h)) next p k = k a h p

  wait-IsGuarded :
      {A : Type 0} (get : List Call → Result A) (phase : A → String) (wanted : String)
      (call : Result A → Call) (t : Ticker (A × List Call)) (a : A) (h facts : List Call)
      (next : A → List Call → Option Error × List Call) (vs : Server)
      → ((r : Result A) → applies (call r) ≡ false)
      → IsReady facts h
      → ((b : A) (h' : List Call)
          → IsReady (call (ok b) ∷ facts) h'
          → phase b ≡ wanted
          → IsGuarded vs (next b h'))
      → IsGuarded vs (after (t.poll_until (wait_round get phase wanted call) (a, h)) next)
  wait-IsGuarded get phase wanted call t a h facts next vs quiet p k =
      after-IsGuarded (Waited get phase wanted call quiet facts) vs facts
        (t.poll_until (wait_round get phase wanted call) (a, h)) next
        (wait-IsReady get phase wanted call quiet facts t (a, h) p) (λ b h' (d, e). k b h' d e)

  binding-IsGuarded :
      (vs ready : Server) (h : List Call)
      → ready.phase ≡ running
      → IsReady (policy_ready vs ready) h
      → IsGuarded vs (with_binding w name_with_suffix ready h)
  unfolding with_binding
  binding-IsGuarded vs ready h run p =
      let name = policy_name w name_with_suffix ready in
      elim (Option-cases (w.ensure_binding h ready.namespace name)) [
        | inr (e, q) ↦ rw (q, with_binding) (inl (refl, p.1))
        | inl q ↦
            rw (q, with_binding)
              (wait-IsGuarded (λ h. w.get_binding h ready.namespace name) (λ x. x) success
                (got_binding ready.namespace name) w.phases ""
                (ensured_binding ready.namespace name none ∷ h) (binding_made vs ready)
                (λ _. with_client w name_with_suffix ready) vs (λ _. refl)
                (inl (refl, p.0), (refl, p.1))
                (λ b h' d e. client-IsGuarded vs ready h' run (
                  subst
                    (λ x.
                      IsReady (got_binding ready.namespace name (ok x) ∷ binding_made vs ready) h')
                    e d)))
      ]

  policy-IsGuarded :
      (vs ready : Server) (h : List Call)
      → ready.phase ≡ running
      → IsReady (with_server vs ready) h
      → IsGuarded vs (with_policy w name_with_suffix ready h)
  unfolding with_policy
  policy-IsGuarded vs ready h run p =
      let name = policy_name w name_with_suffix ready in
      elim (Option-cases (w.ensure_policy h ready.namespace name)) [
        | inr (e, q) ↦ rw (q, with_policy) (inl (refl, p.1))
        | inl q ↦
            rw (q, with_policy)
              (wait-IsGuarded (λ h. w.get_policy h ready.namespace name) (λ x. x) success
                (got_policy ready.namespace name) w.phases ""
                (ensured_policy ready.namespace name none ∷ h) (policy_made vs ready)
                (λ _. with_binding w name_with_suffix ready) vs (λ _. refl)
                (inl (refl, p.0), (refl, p.1))
                (λ b h' d e. binding-IsGuarded vs ready h' run (
                  subst
                    (λ x.
                      IsReady (got_policy ready.namespace name (ok x) ∷ policy_made vs ready) h')
                    e d)))
      ]

  -- A run that starts without a call made either calls nothing of Vault and writes no status, or
  -- ends in the application of the methods of a server that was read as running; before that the
  -- policy was written and read as succeeded, then the binding was written and read as succeeded,
  -- and then a client was made, without an error and in this order.
  pub reconcile_auth_methods-IsGuarded :
      (vs : Server) → IsGuarded vs (reconcile_auth_methods w name_with_suffix vs [])
  unfolding reconcile_auth_methods
  reconcile_auth_methods-IsGuarded vs =
      wait-IsGuarded (λ h. w.get_server h vs.namespace vs.name) (λ s. s.phase) running
        (got_server vs.namespace vs.name) w.servers vs [] [] (with_policy w name_with_suffix) vs
        (λ _. refl) (tt, tt) (λ ready h p run. policy-IsGuarded vs ready h run p)
