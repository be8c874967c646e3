-- ===== src/Server/Routines/Kept.antt =====
-- The steps keep the invariants of the goroutines.
use vault_operator.Base.{
  ℕ, String, ◌≡◌, ◌≢◌, refl, sym, ap, ◌∙◌, inl, inr, Bool-cases, Option, none, some, List, [], ◌∷◌,
  ◌==◌, if◌then◌else◌, arith, eq_iff,
}
use vault_operator.Base.Assoc.{lookup, insert, erase, lookup-insert, lookup-erase}
use vault_operator.Server.Routines.{Routines, cancel, start, start_monitor, stop, live}
use vault_operator.Server.Routines.Tidy.{
  as_list, IsTidy, IsBounded, live-cancel_entry, live-cancel_nil, start-IsFresh, erase-IsFresh,
}

pub live-start :
    (key k : String) (n : ℕ) (rs : List (ℕ × String))
    → live k ((n, key) ∷ rs) ≡ (if key == k then n ∷ live k rs else live k rs)
unfolding live
live-start key k n rs = refl

-- A goroutine is started where none runs for the key.
start-matched :
    (key : String) (r : Routines) (rs : List (ℕ × String)) (k : String)
    → (key ≡ k → live k rs ≡ [])
    → (key ≢ k → live k rs ≡ as_list (lookup k r.contexts))
    → live k ((r.next, key) ∷ rs) ≡ as_list (lookup k (insert key r.next r.contexts))
start-matched key r rs k same other = elim (Bool-cases (key == k)) [
  | inl e ↦ let e' : key ≡ k = (eq_iff key k).0 e in rw (live-start, lookup-insert, e, same e')
  | inr e ↦ ground (
    arith,
    live-start key k r.next rs,
    lookup-insert key k r.next r.contexts,
    other (λ e'. ground (arith, eq_iff key k)),
  )
]

started_monitor :
    (key : String) (r : Routines) (o : Option ℕ)
    → lookup key r.contexts ≡ o
    → IsTidy r
    → IsTidy (elim o [ some _ ↦ r | none ↦ start key r ])
started_monitor key r (some n) p t = t
started_monitor key r none p t = record {
  fresh = start-IsFresh key r t.fresh;
  matched = λ k.
      start-matched key r r.running k
        (λ e. t.matched k ∙ ap as_list (ap (λ j. lookup j r.contexts) (sym e) ∙ p))
        (λ _. t.matched k);
}

pub start_monitor-IsTidy : (key : String) (r : Routines) → IsTidy r → IsTidy (start_monitor key r)
unfolding start_monitor
start_monitor-IsTidy key r t = started_monitor key r (lookup key r.contexts) refl t

-- The same of the branch that a lookup takes in `stop`.
abbrev stopped : String → Routines → Option ℕ → Routines
stopped key r none = r
stopped key r (some n) = record r { contexts = erase key r.contexts; running = cancel n r.running }

stopped-IsTidy :
    (key : String) (r : Routines) (o : Option ℕ)
    → lookup key r.contexts ≡ o
    → IsTidy r
    → IsTidy (stopped key r o)
stopped-IsTidy key r none p t = t
stopped-IsTidy key r (some n) p t = record {
  fresh = erase-IsFresh key r t.fresh (cancel n r.running);
  matched = λ k.
      ground
        (arith, live-cancel_entry r key n t.fresh p k (t.matched k), lookup-erase key k r.contexts);
}

stop_lem : (key : String) (r : Routines) → stop key r ≡ stopped key r (lookup key r.contexts)
unfolding stop
stop_lem key r = ground arith

pub stop-IsTidy : (key : String) (r : Routines) → IsTidy r → IsTidy (stop key r)
stop-IsTidy key r t = rw stop_lem (stopped-IsTidy key r (lookup key r.contexts) refl t)

stopped-IsBounded :
    (key : String) (r : Routines) (o : Option ℕ)
    → lookup key r.contexts ≡ o
    → IsBounded r
    → IsBounded (stopped key r o)
stopped-IsBounded key r none p b = b
stopped-IsBounded key r (some n) p b = record {
  fresh = erase-IsFresh key r b.fresh (cancel n r.running);
  bounded = λ k. elim (b.bounded k) [
    | inl m ↦ inl (live-cancel_nil r key n b.fresh p k m)
    | inr m ↦
        inr (ground (arith, live-cancel_entry r key n b.fresh p k m, lookup-erase key k r.contexts))
  ];
}

pub stop-IsBounded : (key : String) (r : Routines) → IsBounded r → IsBounded (stop key r)
stop-IsBounded key r b = rw stop_lem (stopped-IsBounded key r (lookup key r.contexts) refl b)

-- After a stop nothing runs for the key.
live-stopped :
    (key : String) (r : Routines) (o : Option ℕ)
    → lookup key r.contexts ≡ o
    → IsBounded r
    → live key (stopped key r o).running ≡ []
live-stopped key r none p b = elim (b.bounded key) [ inl m ↦ m | inr m ↦ m ∙ ap as_list p ]
live-stopped key r (some n) p b = elim (b.bounded key) [
  | inl m ↦ live-cancel_nil r key n b.fresh p key m
  | inr m ↦ ground (arith, live-cancel_entry r key n b.fresh p key m, (eq_iff key key).1 refl)
]

pub live-stop : (key : String) (r : Routines) → IsBounded r → live key (stop key r).running ≡ []
live-stop key r b = rw stop_lem (live-stopped key r (lookup key r.contexts) refl b)

pub Tidy-IsBounded : (r : Routines) → IsTidy r → IsBounded r
Tidy-IsBounded r t = record { fresh = t.fresh; bounded = λ k. inr (t.matched k) }
