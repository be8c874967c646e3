-- ===== src/Managed/Binding/Client/Resolved.antt =====
-- Which policies of Vault a binding grants, and by which request.
use vault_operator.Base.{
  String, ◌≡◌, ◌≢◌, refl, sym, ap, ◌∙◌, inl, inr, Bool-cases, Option, Option-cases, none, some,
  List, [], ◌∷◌, ◌==◌, wrap, Fallible, Result, ok, err, arith, eq_iff,
}
use mathlib.Core.Path.{subst}
use vault_operator.Base.Act.{Act, pure}
use vault_operator.Managed.Policy.{VaultPolicy, policy_name}
use vault_operator.Managed.Binding.Client.{
  PolicyIdentifier, KubernetesSubjectRef, ClientSpec, PBinding, Event, Env, kubernetes_part,
  role_path, payload_of, name_of, join, names_of, log_in, make_client, new_policy_binding_client,
  send, ensure, delete, sent,
}

kubernetes_part-policies :
    (k : Option KubernetesSubjectRef) (names : List String)
    → (kubernetes_part k names).policies ≡ names
kubernetes_part-policies none names = refl
kubernetes_part-policies (some k) names = refl

module _ (cluster_name : String) (env : Env) where
  -- The name in Vault that an identifier stands for: the one given, or that of the VaultPolicy that
  -- it refers to, as the controller of policies makes it.
  pub data Names (namespace : String) (id : PolicyIdentifier) (n : String) : Type 0 where
    given : id.ref ≡ "" → n ≡ id.name → Names namespace id n
    referred :
        (p : VaultPolicy) (h : List Event)
        → env.get_policy h namespace id.ref ≡ (p, none)
        → n ≡ policy_name cluster_name p
        → Names namespace id n

  abbrev pub AllNamed : String → List PolicyIdentifier → List String → Type 0
  AllNamed namespace [] [] = Unit
  AllNamed namespace (id ∷ ids) (n ∷ ns) = Names namespace id n × AllNamed namespace ids ns
  AllNamed namespace _ _ = ⊥

  fetched :
      (namespace : String) (id : PolicyIdentifier) (h : List Event) (n : String)
      (r : Fallible VaultPolicy)
      → env.get_policy h namespace id.ref ≡ r
      → (elim r.1 as (λ _. Result String) [
        | some e ↦ err (wrap "for .spec.policies" e)
        | none ↦ ok (policy_name cluster_name r.0)
      ])
        ≡ ok n
      → Names namespace id n
  fetched namespace id h n (p, some e) q o = cc
  fetched namespace id h n (p, none) q o = referred p h q (ground arith)

  one-Names :
      (namespace : String) (id : PolicyIdentifier) (h : List Event) (n : String)
      → (name_of cluster_name env namespace id h).0 ≡ ok n
      → Names namespace id n
  unfolding name_of
  one-Names namespace id h n o = elim (Bool-cases (id.ref == "")) [
    | inl p ↦ given ((eq_iff _ _).0 p) (ground arith)
    | inr p ↦
        fetched namespace id h n (env.get_policy h namespace id.ref) refl (rw (p, name_of) at o)
  ]

  joined :
      (namespace : String) (id : PolicyIdentifier) (ids : List PolicyIdentifier) (r : Result String)
      (rest : Result (List String)) (names : List String)
      → ((n : String) → r ≡ ok n → Names namespace id n)
      → ((ns : List String) → rest ≡ ok ns → AllNamed namespace ids ns)
      → join r rest ≡ ok names
      → AllNamed namespace (id ∷ ids) names
  unfolding join
  joined namespace id ids (err e) rest names f g o = cc
  joined namespace id ids (ok n) (err e) names f g o = cc
  joined namespace id ids (ok n) (ok ns) [] f g o = cc
  joined namespace id ids (ok n) (ok ns) (m ∷ ms) f g o = (f m (ground arith), g ms (ground arith))

  names_of-AllNamed :
      (namespace : String) (ids : List PolicyIdentifier) (h : List Event) (names : List String)
      → (names_of cluster_name env namespace ids h).0 ≡ ok names
      → AllNamed namespace ids names
  unfolding names_of
  names_of-AllNamed namespace [] h [] o = tt
  names_of-AllNamed namespace [] h (_ ∷ _) o = cc
  names_of-AllNamed namespace (id ∷ ids) h names o =
      joined namespace id ids (name_of cluster_name env namespace id h).0 _ names
        (one-Names namespace id h)
        (rest_of (name_of cluster_name env namespace id h).0
          (name_of cluster_name env namespace id h).1 (names_of-AllNamed namespace ids))
        o
    where
      rest_of :
          (r : Result String) (h' : List Event)
          → ((k : List Event) (ns : List String)
              → (names_of cluster_name env namespace ids k).0 ≡ ok ns
              → AllNamed namespace ids ns)
          → (ns : List String)
          → (elim r as (λ _. Act Event (Result (List String))) [
            | err e ↦ pure (err e)
            | ok n ↦ names_of cluster_name env namespace ids
          ]
              h').0
            ≡ ok ns
          → AllNamed namespace ids ns
      rest_of (err e) h' rec ns q = cc
      rest_of (ok n) h' rec ns q = rec h' ns q

  -- What holds of a client that could be made.
  pub record IsClientOf (spec : ClientSpec) (pb : PBinding) : Type 0 where
    pub has_policies : spec.policies ≢ []
    pub has_vault : spec.vault_ref ≢ ""
    pub named : AllNamed spec.namespace spec.policies pb.policies
    pub fields : pb ≡ kubernetes_part spec.kubernetes pb.policies

  logged_in-fields :
      (spec : ClientSpec) (names : List String) (h : List Event) (pb : PBinding)
      → (log_in cluster_name env spec names h).0 ≡ ok pb
      → (spec.vault_ref ≢ "") × (pb ≡ kubernetes_part spec.kubernetes names)
  unfolding log_in
  logged_in-fields spec names h pb o = elim (Bool-cases (spec.vault_ref == "")) [
    | inl p ↦ ground arith
    | inr p ↦ elim (Option-cases (env.new_client h spec.namespace spec.vault_ref)) [
      | inl q ↦ (λ e. ground (arith, eq_iff spec.vault_ref ""), ground arith)
      | inr (x, q) ↦ ground arith
    ]
  ]

  named_then :
      (spec : ClientSpec) (pb : PBinding) (r : Result (List String) × List Event)
      → ((names : List String) → r.0 ≡ ok names → AllNamed spec.namespace spec.policies names)
      → spec.policies ≢ []
      → (elim r.0 as (λ _. Act Event (Result PBinding)) [
        | err e ↦ pure (err e)
        | ok names ↦ log_in cluster_name env spec names
      ]
          r.1).0
        ≡ ok pb
      → IsClientOf spec pb
  named_then spec pb (err e, h) f n o = cc
  named_then spec pb (ok names, h) f n o =
      let (w, q) = logged_in-fields spec names h pb o in
      let same =
        ap (λ (b : PBinding). b.policies) q ∙ kubernetes_part-policies spec.kubernetes names in
      record {
        has_policies = n;
        has_vault = w;
        named = subst (AllNamed spec.namespace spec.policies) (sym same) (f names refl);
        fields = q ∙ ap (kubernetes_part spec.kubernetes) (sym same);
      }

  -- Where the client of a binding could be made, the binding has policies and names a Vault, and the
  -- client grants one policy for each identifier, in their order: the one named, or that of the
  -- VaultPolicy referred to, under the name that the controller of policies writes it by. The other
  -- fields are those of the subject, with the default path.
  pub policy_binding_client-IsClientOf :
      (spec : ClientSpec) (h : List Event) (pb : PBinding)
      → (new_policy_binding_client cluster_name env spec h).0 ≡ ok pb
      → IsClientOf spec pb
  unfolding new_policy_binding_client make_client
  policy_binding_client-IsClientOf spec h pb o = of_list spec.policies refl
    where
      of_list : (l : List PolicyIdentifier) → spec.policies ≡ l → IsClientOf spec pb
      of_list [] p =
          let q = subst (λ l. (make_client cluster_name env spec l h).0 ≡ ok pb) p o in cc
      of_list (id ∷ ids) p =
          named_then spec pb (names_of cluster_name env spec.namespace (id ∷ ids) h)
            (λ names q.
              subst (λ l. AllNamed spec.namespace l names) (sym p)
                (names_of-AllNamed spec.namespace (id ∷ ids) h names q))
            (λ e. ground arith) (subst (λ l. (make_client cluster_name env spec l h).0 ≡ ok pb) p o)

  -- What `delete` removes is what `ensure` wrote: where they succeed, each has sent one request, for
  -- the same role, and that of `ensure` holds the fields of the client.
  pub requests-role_path :
      (pb : PBinding) (name : String) (h : List Event)
      → (((ensure cluster_name env pb name h).0 ≡ none
          → (ensure cluster_name env pb name h).1
            ≡ sent
                (record { method = "POST"; path = role_path pb name; body = some (payload_of pb) })
                none
              ∷ h))
        × ((delete cluster_name env pb name h).0 ≡ none
            → (delete cluster_name env pb name h).1
              ≡ sent (record { method = "DELETE"; path = role_path pb name; body = none }) none ∷ h)
  unfolding ensure delete send
  requests-role_path pb name h = (λ p. grind arith, λ p. grind arith)
