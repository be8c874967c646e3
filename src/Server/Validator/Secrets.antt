-- ===== src/Server/Validator/Secrets.antt =====
-- What the checks of secrets and the counting of blocks amount to.
use vault_operator.Base.{
  ℕ, suc, ◌+◌, String, ◌≡◌, ◌≢◌, refl, ◌⊎◌, inl, inr, Bool-cases, Option-cases, Result-cases, none,
  some, List, [], ◌∷◌, ◌==◌, ok, arith, eq_iff,
}
use vault_operator.Server.AuthMethods.{lookup}
use vault_operator.Server.Spec.{SecretData}
use vault_operator.Server.Validator.{
  Kube, Requirement, Block, check_keys, validate_secret, check_requirements, count_blocks,
}

-- Each key has a value that is not empty.
abbrev pub HasKeys : SecretData → List String → Type 0
HasKeys content [] = Unit
HasKeys content (k ∷ ks) =
    ((val : String) × (lookup k content ≡ some val) × (val ≢ "")) × HasKeys content ks

-- No secret is named, or the secret is there and has the keys.
abbrev pub HasSecret : Kube → String → String → List String → Type 0
HasSecret kube ns name keys =
    (name ≡ "")
    ⊎ ((content : SecretData) × (kube.get_secret ns name ≡ ok content) × HasKeys content keys)

abbrev pub AllMet : Kube → String → List Requirement → Type 0
AllMet kube ns [] = Unit
AllMet kube ns (r ∷ rs) = HasSecret kube ns r.secret r.keys × AllMet kube ns rs

abbrev pub IsMet : Kube → String → Block → Type 0
IsMet kube ns none = Unit
IsMet kube ns (some rs) = AllMet kube ns rs

abbrev pub BlocksMet : Kube → String → List Block → Type 0
BlocksMet kube ns [] = Unit
BlocksMet kube ns (b ∷ bs) = IsMet kube ns b × BlocksMet kube ns bs

-- How many blocks are given.
abbrev pub present : List Block → ℕ
present [] = 0
present (none ∷ bs) = present bs
present (some _ ∷ bs) = suc (present bs)

check_keys-none :
    (content : SecretData) (ks : List String) → check_keys content ks ≡ none → HasKeys content ks
unfolding check_keys
check_keys-none content [] h = tt
check_keys-none content (k ∷ ks) h = elim (Option-cases (lookup k content)) [
  | inl absent ↦ absurd (ground arith)
  | inr (val, found) ↦ elim (Bool-cases (val == "")) [
    | inl empty ↦ ground arith
    | inr full ↦ (
      (val, found, λ e. ground (arith, eq_iff val "")),
      check_keys-none content ks (ground arith),
    )
  ]
]

check_keys_met :
    (content : SecretData) (ks : List String) → HasKeys content ks → check_keys content ks ≡ none
unfolding check_keys
check_keys_met content [] h = refl
check_keys_met content (k ∷ ks) ((val, found, full), hs) =
    ground (arith, eq_iff val "", check_keys_met content ks hs)

module _ (kube : Kube) (ns : String) where
  validate_secret-none :
      (name : String) (keys : List String)
      → validate_secret kube ns name keys ≡ none
      → (content : SecretData) × (kube.get_secret ns name ≡ ok content) × HasKeys content keys
  unfolding validate_secret
  validate_secret-none name keys h = elim (Result-cases (kube.get_secret ns name)) [
    | inl (content, p) ↦ (content, p, check_keys-none content keys (ground arith))
    | inr (e, p) ↦ ground arith
  ]

  validate_secret_met :
      (name : String) (keys : List String) (content : SecretData)
      → kube.get_secret ns name ≡ ok content
      → HasKeys content keys
      → validate_secret kube ns name keys ≡ none
  unfolding validate_secret
  validate_secret_met name keys content p h = ground (arith, check_keys_met content keys h)

  check_requirements-none :
      (rs : List Requirement) → check_requirements kube ns rs ≡ none → AllMet kube ns rs
  unfolding check_requirements
  check_requirements-none [] h = tt
  check_requirements-none (r ∷ rs) h = elim (Bool-cases (r.secret == "")) [
    | inl unnamed ↦
        (inl ((eq_iff r.secret "").0 unnamed), check_requirements-none rs (ground arith))
    | inr named ↦ (
      inr (validate_secret-none r.secret r.keys (ground arith)),
      check_requirements-none rs (ground arith),
    )
  ]

  check_requirements_met :
      (rs : List Requirement) → AllMet kube ns rs → check_requirements kube ns rs ≡ none
  unfolding check_requirements
  check_requirements_met [] h = refl
  check_requirements_met (r ∷ rs) (inl unnamed, hs) =
      ground (arith, (eq_iff r.secret "").1 unnamed, check_requirements_met rs hs)
  check_requirements_met (r ∷ rs) (inr (content, p, q), hs) =
      ground (arith, validate_secret_met r.secret r.keys content p q, check_requirements_met rs hs)

  -- The counter is the number of given blocks, and the count only comes to an end if the secrets
  -- of all of them are there.
  pub count_blocks_ok :
      (n : ℕ) (bs : List Block) (m : ℕ)
      → count_blocks kube ns n bs ≡ ok m
      → (m ≡ n + present bs) × BlocksMet kube ns bs
  unfolding count_blocks
  count_blocks_ok n [] m h = (ground arith, tt)
  count_blocks_ok n (none ∷ bs) m h = let ih = count_blocks_ok n bs m h in (ih.0, (tt, ih.1))
  count_blocks_ok n (some rs ∷ bs) m h = elim (Option-cases (check_requirements kube ns rs)) [
    | inr (e, p) ↦ ground arith
    | inl p ↦
        let ih = count_blocks_ok (suc n) bs m (ground arith) in
        (omega (arith, ih.0), (check_requirements-none rs p, ih.1))
  ]

  pub count_blocks_met :
      (n : ℕ) (bs : List Block)
      → BlocksMet kube ns bs
      → count_blocks kube ns n bs ≡ ok (n + present bs)
  unfolding count_blocks
  count_blocks_met n [] h = ground arith
  count_blocks_met n (none ∷ bs) (h, hs) = count_blocks_met n bs hs
  count_blocks_met n (some rs ∷ bs) (h, hs) =
      ground (arith, check_requirements_met rs h, count_blocks_met (suc n) bs hs)
