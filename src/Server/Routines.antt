-- ===== src/Server/Routines.antt =====
-- The goroutines that the controller of Vault servers starts and stops: the maps `ctxCancels` and
-- `authMethodCtx` of pkg/controller/controller.go and what pkg/controller/{vaultservers,
-- vault_status, auth_method}.go do with them. A goroutine has a number; it runs until its context is
-- cancelled, or, for auth methods, until it returns. One use of a map is one step.
pub mod Tidy
pub mod Kept
pub mod Started
pub mod Reach
use vault_operator.Base.{
  ℕ, suc, ◌+◌, String, ◌≡◌, Bool, true, false, not, Option, none, some, List, [], ◌∷◌, ◌==◌, ◌=ℕ◌,
  if◌then◌else◌,
}
use vault_operator.Base.Assoc.{lookup, insert, erase}

-- A map of contexts by keys, and the goroutines that run, by number and key.
pub record Routines : Type 0 where
  pub contexts : List (String × ℕ)
  pub running : List (ℕ × String)
  pub next : ℕ

abbrev pub no_routines : Routines
no_routines = record { contexts = []; running = []; next = 0 }

-- `cancel()`.
unfoldable pub cancel : ℕ → List (ℕ × String) → List (ℕ × String)
cancel n [] = []
cancel n ((m, k) ∷ rs) = let rest = cancel n rs in if m =ℕ n then rest else (m, k) ∷ rest

-- `context.WithCancel`, the entry of the map, and `go …`.
abbrev pub start : String → Routines → Routines
start key r = record {
  contexts = insert key r.next r.contexts;
  running = (r.next, key) ∷ r.running;
  next = suc r.next;
}

-- `if _, ok := c.ctxCancels[key]; !ok { … }` of `reconcileVault`.
unfoldable pub start_monitor : String → Routines → Routines
start_monitor key r = elim (lookup key r.contexts) [ some _ ↦ r | none ↦ start key r ]

-- `if ctxWithCancel, ok := …[key]; ok { ctxWithCancel.Cancel(); delete(…, key) }` of
-- `runVaultServerInjector`, for both maps, and of `updateVaultCRStatus`.
unfoldable pub stop : String → Routines → Routines
unfolding cancel
stop key r = elim (lookup key r.contexts) [
  | none ↦ r
  | some n ↦ record r { contexts = erase key r.contexts; running = cancel n r.running }
]

-- `runAuthMethodsReconcile`: the goroutine that runs for the key is cancelled and another started.
unfoldable pub run_auth_methods : String → Routines → Routines
unfolding cancel
run_auth_methods key r = elim (lookup key r.contexts) [
  | none ↦ start key r
  | some n ↦ start key (record r { running = cancel n r.running })
]

-- The numbers of the goroutines that run for a key.
unfoldable pub live : String → List (ℕ × String) → List ℕ
live key [] = []
live key ((n, k) ∷ rs) = let rest = live key rs in if k == key then n ∷ rest else rest
