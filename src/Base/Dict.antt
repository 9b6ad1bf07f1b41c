-- ===== src/Base/Dict.antt =====
-- Go maps as association lists. The order of the entries stands for the order in which `range`
-- happens to visit them. Proofs elsewhere go by the laws; only tests unfold the operations.
use mathlib.Core.Path.{◌≡◌, refl, ap}
use mathlib.Core.Bool.{Bool, false}
use mathlib.Core.Logic.{◌⊎◌, inl, inr}
use mathlib.Core.Option.{Option, none, some}
use mathlib.Core.List.{List, [], ◌∷◌}
use native.Mathlib.Omega.{arith}
use stage_sync.Base.Tests.{if◌then◌else◌, Bool-cases}
use stage_sync.Base.Equality.{Eq, ◌==◌, eq_of_==}
use stage_sync.Base.Lists.{keep}

abbrev pub Dict {ℓ κ} : Type ℓ → Type κ → Type (ℓ ⊔ κ)
Dict K V = List (K × V)

module _ {ℓ κ} {K : Type ℓ} {V : Type κ} ⦃e : Eq K⦄ where
  -- `v, ok := m[k]`
  unfoldable pub lookup : K → Dict K V → Option V
  lookup k [] = none
  lookup k ((j, v) ∷ d) = if k == j then some v else lookup k d

  -- `m[k] = v`
  unfoldable pub insert : K → V → Dict K V → Dict K V
  insert k v [] = (k, v) ∷ []
  insert k v ((j, w) ∷ d) = if k == j then (k, v) ∷ d else (j, w) ∷ insert k v d

  -- `delete(m, k)`
  unfoldable pub erase : K → Dict K V → Dict K V
  erase k [] = []
  erase k ((j, w) ∷ d) = let rest = erase k d in if k == j then rest else (j, w) ∷ rest

  -- A map has one entry for a key.
  abbrev pub NodupKeys : Dict K V → Type κ
  NodupKeys [] = Unit
  NodupKeys ((k, _) ∷ d) = (lookup k d ≡ none) × NodupKeys d

  pub lookup-nil : (k : K) → lookup k [] ≡ none
  unfolding lookup
  lookup-nil k = refl

  pub lookup-cons :
      (j k : K) (v : V) (d : Dict K V)
      → lookup j ((k, v) ∷ d) ≡ (if j == k then some v else lookup j d)
  unfolding lookup
  lookup-cons j k v d = refl

  pub lookup-insert :
      (j k : K) (v : V) (d : Dict K V)
      → lookup j (insert k v d) ≡ (if j == k then some v else lookup j d)
  unfolding insert lookup
  lookup-insert j k v [] = refl
  lookup-insert j k v (_ ∷ d) = ground (arith, lookup-insert j k v d)

  pub lookup-insert_self : (k : K) (v : V) (d : Dict K V) → lookup k (insert k v d) ≡ some v
  lookup-insert_self k v d = ground (arith, lookup-insert k k v d)

  pub lookup-erase :
      (j k : K) (d : Dict K V) → lookup j (erase k d) ≡ (if j == k then none else lookup j d)
  unfolding erase lookup
  lookup-erase j k [] = ground arith
  lookup-erase j k (_ ∷ d) = ground (arith, lookup-erase j k d)

  -- What is found after an insertion or a deletion.
  pub lookup-insert_cases :
      (j k : K) (v w : V) (d : Dict K V)
      → lookup j (insert k v d) ≡ some w
      → ((j ≡ k) × (v ≡ w)) ⊎ (((j == k) ≡ false) × (lookup j d ≡ some w))
  lookup-insert_cases j k v w d h = elim (Bool-cases (j == k)) [
    | inl same ↦ inl (eq_of_== j k same, ground (arith, lookup-insert j k v d))
    | inr other ↦ inr (other, ground (arith, lookup-insert j k v d))
  ]

  pub lookup-insert_other :
      (j k : K) (v : V) (d : Dict K V) → (j == k) ≡ false → lookup j (insert k v d) ≡ lookup j d
  lookup-insert_other j k v d other = ground (arith, lookup-insert j k v d)

  pub lookup-erase_cases :
      (j k : K) (w : V) (d : Dict K V)
      → lookup j (erase k d) ≡ some w
      → ((j == k) ≡ false) × (lookup j d ≡ some w)
  lookup-erase_cases j k w d h = ground (arith, lookup-erase j k d)

  pub lookup-erase_other :
      (j k : K) (d : Dict K V) → (j == k) ≡ false → lookup j (erase k d) ≡ lookup j d
  lookup-erase_other j k d other = ground (arith, lookup-erase j k d)

  -- Keys with different answers are different.
  pub keys_differ :
      (j k : K) (v : V) (d : Dict K V) → lookup j d ≡ some v → lookup k d ≡ none → (j == k) ≡ false
  keys_differ j k v d found fresh = elim (Bool-cases (j == k)) [
    | inl same ↦ ground (arith, ap (λ i. lookup i d) (eq_of_== j k same))
    | inr other ↦ other
  ]

  pub insert-NodupKeys : (k : K) (v : V) (d : Dict K V) → NodupKeys d → NodupKeys (insert k v d)
  unfolding insert
  insert-NodupKeys k v [] _ = (lookup-nil k, tt)
  insert-NodupKeys k v ((j, _) ∷ d) (fresh, u) =
      ground (arith, insert-NodupKeys k v d u, lookup-insert j k v d)

  pub erase-NodupKeys : (k : K) (d : Dict K V) → NodupKeys d → NodupKeys (erase k d)
  unfolding erase
  erase-NodupKeys k [] _ = tt
  erase-NodupKeys k ((j, _) ∷ d) (fresh, u) =
      ground (arith, erase-NodupKeys k d u, lookup-erase j k d)

  pub lookup-keep_of_none :
      (p : K × V → Bool) (k : K) (d : Dict K V) → lookup k d ≡ none → lookup k (keep p d) ≡ none
  unfolding lookup
  lookup-keep_of_none p k [] h = refl
  lookup-keep_of_none p k ((j, v) ∷ d) h = ground (arith, lookup-keep_of_none p k d)

  pub keep-NodupKeys : (p : K × V → Bool) (d : Dict K V) → NodupKeys d → NodupKeys (keep p d)
  keep-NodupKeys p [] _ = tt
  keep-NodupKeys p ((j, v) ∷ d) (fresh, u) =
      ground (arith, keep-NodupKeys p d u, lookup-keep_of_none p j d)

  -- What stays of a map after the entries that fail a test are deleted.
  pub lookup-keep :
      (p : K × V → Bool) (k : K) (v : V) (d : Dict K V)
      → NodupKeys d
      → lookup k d ≡ some v
      → lookup k (keep p d) ≡ (if p (k, v) then some v else none)
  unfolding lookup
  lookup-keep p k v [] _ h = ground arith
  lookup-keep p k v ((j, w) ∷ d) (fresh, u) h =
      ground (arith, lookup-keep p k v d u, lookup-keep_of_none p j d)
