-- ===== src/Server/Routines/Tidy.antt =====
-- The invariants of the goroutines of one map.
use vault_operator.Base.{
  ℕ, suc, ◌<◌, String, ◌≡◌, ◌≢◌, refl, ap, ◌∙◌, ◌⊎◌, inl, inr, Bool-cases, Option, none, some, List,
  [], ◌∷◌, ◌==◌, ◌=ℕ◌, if◌then◌else◌, arith, eq_iff,
}
use vault_operator.Base.Assoc.{lookup, insert, erase, lookup-insert, lookup-erase}
use mathlib.Core.Path.{subst}
use vault_operator.Server.Routines.{Routines, cancel, start, live}

abbrev pub as_list : Option ℕ → List ℕ
as_list none = []
as_list (some n) = n ∷ []

-- The numbers in the map are distinct and were given out.
pub record IsFresh (r : Routines) : Type 0 where
  pub owner :
      (k j : String) (n : ℕ) → lookup k r.contexts ≡ some n → lookup j r.contexts ≡ some n → k ≡ j
  pub given : (k : String) (n : ℕ) → lookup k r.contexts ≡ some n → n < r.next

-- For each key the goroutine of the map runs, and no other.
pub record IsTidy (r : Routines) : Type 0 where
  pub fresh : IsFresh r
  pub matched : (k : String) → live k r.running ≡ as_list (lookup k r.contexts)

-- For each key no goroutine runs but that of the map.
pub record IsBounded (r : Routines) : Type 0 where
  pub fresh : IsFresh r
  pub bounded :
      (k : String) → (live k r.running ≡ []) ⊎ (live k r.running ≡ as_list (lookup k r.contexts))

remove : ℕ → List ℕ → List ℕ
remove n [] = []
remove n (m ∷ ms) = let rest = remove n ms in if m =ℕ n then rest else m ∷ rest

remove_nil : (n : ℕ) → remove n [] ≡ []
unfolding remove
remove_nil n = refl

live-cancel :
    (k : String) (n : ℕ) (rs : List (ℕ × String)) → live k (cancel n rs) ≡ remove n (live k rs)
unfolding live cancel remove
live-cancel k n [] = refl
live-cancel k n ((m, j) ∷ rs) = ground (arith, live-cancel k n rs)

remove_self : (n : ℕ) → remove n (n ∷ []) ≡ []
unfolding remove
remove_self n = ground arith

remove_other : (n m : ℕ) → m ≢ n → remove n (m ∷ []) ≡ m ∷ []
unfolding remove
remove_other n m h = ground arith

-- Cancelling the goroutine of a key ends it and no goroutine of another key.
module _ (r : Routines) (key : String) (n : ℕ) (f : IsFresh r)
    (p : lookup key r.contexts ≡ some n) where
  cancel_self :
      (k : String)
      → key ≡ k
      → live k r.running ≡ as_list (lookup k r.contexts)
      → live k (cancel n r.running) ≡ []
  cancel_self k e m =
      live-cancel k n r.running
      ∙ ap (remove n) (m ∙ ap as_list (subst (λ j. lookup j r.contexts ≡ some n) e p))
      ∙ remove_self n

  cancel_other :
      (k : String) (o : Option ℕ)
      → lookup k r.contexts ≡ o
      → key ≢ k
      → live k r.running ≡ as_list o
      → live k (cancel n r.running) ≡ as_list o
  cancel_other k none q d m = live-cancel k n r.running ∙ ap (remove n) m ∙ remove_nil n
  cancel_other k (some i) q d m =
      live-cancel k n r.running
      ∙ ap (remove n) m
      ∙ remove_other n i (λ e. d (f.owner key k n p (q ∙ ap some e)))

  pub live-cancel_entry :
      (k : String)
      → live k r.running ≡ as_list (lookup k r.contexts)
      → live k (cancel n r.running) ≡ (if key == k then [] else as_list (lookup k r.contexts))
  live-cancel_entry k m = elim (Bool-cases (key == k)) [
    | inl same ↦ rw same (cancel_self k ((eq_iff key k).0 same) m)
    | inr other ↦
        rw other (cancel_other k (lookup k r.contexts) refl (λ e. ground (arith, eq_iff key k)) m)
  ]

  pub live-cancel_nil : (k : String) → live k r.running ≡ [] → live k (cancel n r.running) ≡ []
  live-cancel_nil k m = live-cancel k n r.running ∙ ap (remove n) m ∙ remove_nil n

-- The map alone: a new entry takes a new number.
module _ (key : String) (r : Routines) (f : IsFresh r) where
  start_owner :
      (k j : String) (n : ℕ)
      → lookup k (insert key r.next r.contexts) ≡ some n
      → lookup j (insert key r.next r.contexts) ≡ some n
      → k ≡ j
  start_owner k j n p q = ground (
    arith,
    lookup-insert key k r.next r.contexts,
    lookup-insert key j r.next r.contexts,
    eq_iff key k,
    eq_iff key j,
    f.given k n,
    f.given j n,
    f.owner k j n,
  )

  start_given :
      (k : String) (n : ℕ) → lookup k (insert key r.next r.contexts) ≡ some n → n < suc r.next
  start_given k n p =
      ground (arith, lookup-insert key k r.next r.contexts, eq_iff key k, f.given k n)

  pub start-IsFresh : IsFresh (start key r)
  start-IsFresh = record { owner = start_owner; given = start_given }

  erase_owner :
      (k j : String) (n : ℕ)
      → lookup k (erase key r.contexts) ≡ some n
      → lookup j (erase key r.contexts) ≡ some n
      → k ≡ j
  erase_owner k j n p q =
      ground (arith, lookup-erase key k r.contexts, lookup-erase key j r.contexts, f.owner k j n)

  erase_given : (k : String) (n : ℕ) → lookup k (erase key r.contexts) ≡ some n → n < r.next
  erase_given k n p = ground (arith, lookup-erase key k r.contexts, f.given k n)

  pub erase-IsFresh :
      (rs : List (ℕ × String))
      → IsFresh (record r { contexts = erase key r.contexts; running = rs })
  erase-IsFresh rs = record { owner = erase_owner; given = erase_given }

-- A goroutine of at most one that returns leaves at most one.
pub live-cancel_one :
    (k : String) (n : ℕ) (rs : List (ℕ × String)) (o : Option ℕ)
    → (live k rs ≡ []) ⊎ (live k rs ≡ as_list o)
    → (live k (cancel n rs) ≡ []) ⊎ (live k (cancel n rs) ≡ as_list o)
unfolding remove
live-cancel_one k n rs o (inl p) = inl (live-cancel k n rs ∙ ap (remove n) p)
live-cancel_one k n rs none (inr p) = inl (live-cancel k n rs ∙ ap (remove n) p)
live-cancel_one k n rs (some m) (inr p) = ground (arith, live-cancel k n rs)
