-- ===== src/Server/Routines/Started.antt =====
-- What the start of the goroutine of auth methods leaves running.
use vault_operator.Base.{
  ℕ, String, ◌≡◌, refl, sym, ap, ◌∙◌, ◌⊎◌, inl, inr, Bool-cases, Option, none, some, List, [], ◌∷◌,
  ◌==◌, arith, eq_iff,
}
use vault_operator.Base.Assoc.{lookup, insert, lookup-insert}
use vault_operator.Server.Routines.{Routines, cancel, start, run_auth_methods, live}
use vault_operator.Server.Routines.Tidy.{
  as_list, IsFresh, IsBounded, live-cancel_entry, live-cancel_nil, start-IsFresh,
}
use vault_operator.Server.Routines.Kept.{live-start}

-- A goroutine that is started where none runs for its key is the only one.
started-bounded :
    (key : String) (r : Routines) (rs : List (ℕ × String)) (k : String)
    → (key ≡ k → live k rs ≡ [])
    → (live k rs ≡ []) ⊎ (live k rs ≡ as_list (lookup k r.contexts))
    → (live k ((r.next, key) ∷ rs) ≡ [])
      ⊎ (live k ((r.next, key) ∷ rs) ≡ as_list (lookup k (insert key r.next r.contexts)))
started-bounded key r rs k same b = elim (Bool-cases (key == k)) [
  | inl e ↦ inr (rw (live-start, lookup-insert, e, same ((eq_iff key k).0 e)))
  | inr e ↦ rw (live-start, lookup-insert, e) b
]

module _ (key : String) (r : Routines) (b : IsBounded r) where
  -- Before the start nothing runs for the key, and at most one goroutine for another.
  idle : lookup key r.contexts ≡ none → (k : String) → key ≡ k → live k r.running ≡ []
  idle p k e = elim (b.bounded k) [
    | inl m ↦ m
    | inr m ↦ m ∙ ap as_list (ap (λ j. lookup j r.contexts) (sym e) ∙ p)
  ]

  idle_cancelled :
      (n : ℕ)
      → lookup key r.contexts ≡ some n
      → (k : String) → key ≡ k
      → live k (cancel n r.running) ≡ []
  idle_cancelled n p k e = elim (b.bounded k) [
    | inl m ↦ live-cancel_nil r key n b.fresh p k m
    | inr m ↦ ground (arith, live-cancel_entry r key n b.fresh p k m, (eq_iff key k).1 e)
  ]

  cancelled_bounded :
      (n : ℕ)
      → lookup key r.contexts ≡ some n
      → (k : String)
      → (live k (cancel n r.running) ≡ [])
        ⊎ (live k (cancel n r.running) ≡ as_list (lookup k r.contexts))
  cancelled_bounded n p k = elim (b.bounded k) [
    | inl m ↦ inl (live-cancel_nil r key n b.fresh p k m)
    | inr m ↦ ground (arith, live-cancel_entry r key n b.fresh p k m)
  ]

  -- The branch that a lookup takes in `run_auth_methods`.
  abbrev restarted : Option ℕ → Routines
  restarted none = start key r
  restarted (some n) = start key (record r { running = cancel n r.running })

  restarted-IsBounded : (o : Option ℕ) → lookup key r.contexts ≡ o → IsBounded (restarted o)
  restarted-IsBounded none p = record {
    fresh = start-IsFresh key r b.fresh;
    bounded = λ k. started-bounded key r r.running k (idle p k) (b.bounded k);
  }
  restarted-IsBounded (some n) p =
      let r' : Routines = record r { running = cancel n r.running } in
      let f : IsFresh r' = record { owner = b.fresh.owner; given = b.fresh.given } in
      record {
        fresh = start-IsFresh key r' f;
        bounded = λ k.
            started-bounded key r' (cancel n r.running) k (idle_cancelled n p k)
              (cancelled_bounded n p k);
      }

  live-restarted :
      (o : Option ℕ) → lookup key r.contexts ≡ o → live key (restarted o).running ≡ r.next ∷ []
  live-restarted none p =
      ground (arith, live-start key key r.next r.running, (eq_iff key key).1 refl, idle p key refl)
  live-restarted (some n) p = ground (
    arith,
    live-start key key r.next (cancel n r.running),
    (eq_iff key key).1 refl,
    idle_cancelled n p key refl,
  )

  run_auth_methods_lem : run_auth_methods key r ≡ restarted (lookup key r.contexts)
  unfolding run_auth_methods
  run_auth_methods_lem = ground arith

  pub run_auth_methods-IsBounded : IsBounded (run_auth_methods key r)
  run_auth_methods-IsBounded =
      rw run_auth_methods_lem (restarted-IsBounded (lookup key r.contexts) refl)

  pub live-run_auth_methods : live key (run_auth_methods key r).running ≡ r.next ∷ []
  live-run_auth_methods = rw run_auth_methods_lem (live-restarted (lookup key r.contexts) refl)
