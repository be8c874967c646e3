-- ===== src/Server/Pod/Token.antt =====
-- The token secret of a service account: `GetJwtTokenSecretFromServiceAccount` and
-- `TryGetJwtTokenSecretNameFromServiceAccount` of pkg/util/util.go. Of a secret its name is kept;
-- the secrets stand still while the poll runs.
use vault_operator.Base.{
  ℕ, suc, String, ◌≡◌, refl, sym, ◌⊎◌, inl, inr, Option, none, some, List, [], ◌∷◌, if◌then◌else◌,
  Bool-cases, Result-cases, arith, Error, message, wrap, Result, ok, err,
}
use vault_operator.Meta.{Vendor}
use vault_operator.PatchUtil.{Polled, done, again, Poller, attempts}
use vault_operator.PatchUtil.Poll.{Round, Ends, attempts_rule}
use vault_operator.Server.Spec.{SecretData}
use vault_operator.Server.Validator.{Kube}
use mathlib.Core.Path.{subst}

-- The variables `secret` and `err` of the poll, and how often it has looked. The secret and the
-- error are both nil before the first look.
pub record TokenState : Type 0 where
  pub looks : ℕ
  pub found : Option (Result String)

-- The service accounts, which may change from look to look: the names in `sa.Secrets`.
pub record Accounts : Type 0 where
  pub get_service_account : ℕ → String → String → Result (List String)
  pub tokens : Poller TokenState

module _ (v : Vendor) (kube : Kube) where
  -- The loop over the secrets of the account: the first that is there.
  unfoldable pub first_secret : String → List String → Result String
  first_secret namespace [] = err (message "token secret is not available")
  first_secret namespace (s ∷ secrets) =
      let rest = first_secret namespace secrets in
      elim (kube.get_secret namespace s) [
        | ok sr ↦ ok s
        | err e ↦ if v.is_not_found e then rest else err e
      ]

  unfoldable pub get_jwt_token_secret : String → Result (List String) → Result String
  unfolding first_secret
  get_jwt_token_secret namespace (err e) = err e
  get_jwt_token_secret namespace (ok []) = err (message "token secret still haven't created yet")
  get_jwt_token_secret namespace (ok (s ∷ secrets)) = first_secret namespace (s ∷ secrets)

  module _ (accounts : Accounts) (name namespace : String) where
    abbrev look : TokenState → Result String
    look s = get_jwt_token_secret namespace (accounts.get_service_account s.looks namespace name)

    -- The closure of the poll.
    unfoldable pub token_round : TokenState → Polled × TokenState
    token_round s = (
      elim (look s) [ ok _ ↦ done | err _ ↦ again ],
      record { looks = suc s.looks; found = some (look s) },
    )

    abbrev start : TokenState
    start = record { looks = 0; found = none }

    -- What is returned after a poll: `errors.Wrap` of a nil error is nil.
    abbrev settled : Option Error → Option (Result String) → Option (Result String)
    settled none found = found
    settled (some e) none = none
    settled (some e) (some (ok s)) = none
    settled (some e) (some (err x)) = some (err (wrap (v.error_text e) x))

    -- `none` is a nil secret beside a nil error.
    unfoldable pub try_get_jwt_token_secret : Option (Result String)
    try_get_jwt_token_secret =
        let (e, s) = accounts.tokens.poll_immediate token_round start in settled e s.found

    abbrev pub IsAmong : String → List String → Type 0
    IsAmong s [] = ⊥
    IsAmong s (t ∷ ts) = (s ≡ t) ⊎ IsAmong s ts

    -- A secret that is there, and that the account listed at some look.
    pub record IsListed (s : String) : Type 0 where
      pub looks : ℕ
      pub secrets : List String
      pub account : accounts.get_service_account looks namespace name ≡ ok secrets
      pub among : IsAmong s secrets
      pub content : SecretData
      pub there : kube.get_secret namespace s ≡ ok content

    -- An error, or such a secret.
    abbrev pub IsLooked : Option (Result String) → Type 0
    IsLooked none = ⊥
    IsLooked (some (err e)) = Unit
    IsLooked (some (ok s)) = IsListed s

    first_lem :
        (secrets : List String) (s : String)
        → first_secret namespace secrets ≡ ok s
        → IsAmong s secrets × (content : SecretData) × (kube.get_secret namespace s ≡ ok content)
    unfolding first_secret
    first_lem [] s p = cc
    first_lem (t ∷ ts) s p = elim (Result-cases (kube.get_secret namespace t)) [
      | inl (content, q) ↦
          let same : t ≡ s = ground arith in
          (inl (sym same), content, subst (λ x. kube.get_secret namespace x ≡ ok content) same q)
      | inr (e, q) ↦ elim (Bool-cases (v.is_not_found e)) [
        | inl r ↦
            let (a, content, t') = first_lem ts s (rw (q, r, first_secret) at p) in
            (inr a, content, t')
        | inr r ↦ absurd (ground arith)
      ]
    ]

    jwt_lem :
        (n : ℕ) (s : String)
        → get_jwt_token_secret namespace (accounts.get_service_account n namespace name) ≡ ok s
        → IsListed s
    unfolding get_jwt_token_secret
    jwt_lem n s p = elim (Result-cases (accounts.get_service_account n namespace name)) [
      | inr (e, q) ↦ absurd (ground arith)
      | inl ([], q) ↦ absurd (ground arith)
      | inl (t ∷ ts, q) ↦
          let (a, content, r) = first_lem (t ∷ ts) s (rw (q, get_jwt_token_secret) at p) in
          record {
            looks = n;
            secrets = t ∷ ts;
            account = q;
            among = a;
            content = content;
            there = r;
          }
    ]

    abbrev Retried : TokenState → Type 0
    Retried s = (e : Error) × (s.found ≡ some (err e))

    abbrev Found : TokenState → Type 0
    Found s = IsLooked s.found

    abbrev Failed : Error → TokenState → Type 0
    Failed e s = Retried s

    round_lem : (s : TokenState) → Round Retried Found Failed (token_round s).0 (token_round s).1
    unfolding token_round
    round_lem s = elim (Result-cases (look s)) [
      | inl (n, q) ↦ rw (q, token_round) (jwt_lem s.looks n q)
      | inr (e, q) ↦ rw (q, token_round) (e, refl)
    ]

    -- The first round is always made.
    first_round :
        (n : ℕ)
        → Ends Found Failed
            (attempts (suc n) token_round start).0
            (attempts (suc n) token_round start).1
    unfolding attempts token_round
    first_round n = elim (Result-cases (look start)) [
      | inl (m, q) ↦ rw (q, token_round) (jwt_lem 0 m q)
      | inr (e, q) ↦
          rw (q, token_round)
            (attempts_rule Retried Found Failed token_round (λ s r. r) (λ s r. round_lem s) n _
              (e, refl))
    ]

    settled_lem :
        (e : Option Error) (s : TokenState) → Ends Found Failed e s → IsLooked (settled e s.found)
    settled_lem none s d = d
    settled_lem (some e) s (x, p) = rw p tt

    -- What is found is a secret that is there and that the account listed; a nil secret does not
    -- come without an error.
    pub try_get_jwt_token_secret_lem : IsLooked try_get_jwt_token_secret
    unfolding try_get_jwt_token_secret
    try_get_jwt_token_secret_lem =
        let n = accounts.tokens.rounds token_round start in
        let r = accounts.tokens.poll_immediate token_round start in
        settled_lem r.0 r.1 (
          subst (λ r. Ends Found Failed r.0 r.1)
            (sym (accounts.tokens.poll_immediate_lem token_round start)) (first_round n))
