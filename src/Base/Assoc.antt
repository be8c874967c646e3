-- ===== src/Base/Assoc.antt =====
-- Go maps with texts for their keys, as association lists.
use vault_operator.Base.{
  String, ◌≡◌, Option, none, some, List, [], ◌∷◌, ◌==◌, if◌then◌else◌, arith, eq_iff,
}

abbrev Entries : Type 0 → Type 0
Entries A = List (String × A)

module _ {A : Type 0} where
  -- `delete(m, key)`.
  unfoldable pub erase : String → Entries A → Entries A
  erase key [] = []
  erase key (e ∷ rest) = let kept = erase key rest in if e.0 == key then kept else e ∷ kept

  -- `m[key] = a`.
  unfoldable pub insert : String → A → Entries A → Entries A
  insert key a es = (key, a) ∷ erase key es

  -- `a, ok := m[key]`.
  unfoldable pub lookup : String → Entries A → Option A
  lookup key [] = none
  lookup key (e ∷ rest) = if e.0 == key then some e.1 else lookup key rest

  pub lookup-erase :
      (key other : String) (es : Entries A)
      → lookup other (erase key es) ≡ (if key == other then none else lookup other es)
  unfolding lookup erase
  lookup-erase key other [] = ground arith
  lookup-erase key other (e ∷ rest) =
      ground
        (arith, lookup-erase key other rest, eq_iff e.0 other, eq_iff e.0 key, eq_iff key other)

  pub lookup-insert :
      (key other : String) (a : A) (es : Entries A)
      → lookup other (insert key a es) ≡ (if key == other then some a else lookup other es)
  unfolding insert lookup
  lookup-insert key other a es = ground (arith, lookup-erase key other es)
