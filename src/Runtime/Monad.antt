-- ===== src/Runtime/Monad.antt =====
-- A call that changes a state and returns a value or an error. After an error the state that was
-- reached stays.
use stage_sync.Base.{String, ◌≡◌, refl, ap, ◌⊎◌, inl, inr}
use stage_sync.Runtime.Errors.{GoError, wrap}

pub data Result {ℓ} (A : Type ℓ) : Type ℓ where
  ok : A → Result A
  err : GoError → Result A

abbrev pub Action : Type 0 → Type 0 → Type 0
Action S A = S → Result A × S

module _ {S A : Type 0} where
  abbrev pub pure : A → Action S A
  pure a s = (ok a, s)

  abbrev pub fail : GoError → Action S A
  fail e s = (err e, s)

  -- `if err != nil { return …, fmt.Errorf("context: %w", err) }`
  abbrev pub context : String → Action S A → Action S A
  context text m s = let (r, s') = m s in (elim r [ ok a ↦ ok a | err e ↦ err (wrap text e) ], s')

infixl 5 ◌>>=◌ ◌>>◌
abbrev pub ◌>>=◌ : {S A B : Type 0} → Action S A → (A → Action S B) → Action S B
◌>>=◌ m f s = let (r, s') = m s in elim r [ ok a ↦ f a s' | err e ↦ (err e, s') ]

abbrev pub ◌>>◌ : {S A B : Type 0} → Action S A → Action S B → Action S B
m >> k = m >>= λ _. k

pub Result-cases {ℓ} :
    {A : Type ℓ} (r : Result A) → ((a : A) × (r ≡ ok a)) ⊎ ((e : GoError) × (r ≡ err e))
Result-cases (ok a) = inl (a, refl)
Result-cases (err e) = inr (e, refl)

-- A call that is known to succeed, or to fail, at a state, in front of what follows it.
module _ {S A B : Type 0} (m : Action S A) (f : A → Action S B) (s s' : S) where
  pub bind_ok : (a : A) → m s ≡ (ok a, s') → (m >>= f) s ≡ f a s'
  bind_ok a h =
      ap
        (λ (r : Result A × S). elim r.0 as (λ _. Result B × S) [
          | ok a ↦ f a r.1
          | err e ↦ (err e, r.1)
        ])
        h

  pub bind_err : (e : GoError) → m s ≡ (err e, s') → (m >>= f) s ≡ (err e, s')
  bind_err e h =
      ap
        (λ (r : Result A × S). elim r.0 as (λ _. Result B × S) [
          | ok a ↦ f a r.1
          | err e ↦ (err e, r.1)
        ])
        h

module _ {S A : Type 0} (text : String) (m : Action S A) where
  pub context_ok : (s s' : S) (a : A) → m s ≡ (ok a, s') → context text m s ≡ (ok a, s')
  context_ok s s' a h =
      ap
        (λ (r : Result A × S).
          (elim r.0 as (λ _. Result A) [ ok a ↦ ok a | err e ↦ err (wrap text e) ], r.1))
        h

  pub context_err :
      (s s' : S) (e : GoError) → m s ≡ (err e, s') → context text m s ≡ (err (wrap text e), s')
  context_err s s' e h =
      ap
        (λ (r : Result A × S).
          (elim r.0 as (λ _. Result A) [ ok a ↦ ok a | err e ↦ err (wrap text e) ], r.1))
        h

  -- What follows a call does not change the state it leaves, where all that follows is a value.
  pub context-state : {B : Type 0} (b : B) (s : S) → ((context text m >> pure b) s).1 ≡ (m s).1
  context-state {B} b s = go (m s).0 (m s).1
    where
      go :
          (r : Result A) (s' : S)
          → (elim (elim r as (λ _. Result A) [ ok a ↦ ok a | err e ↦ err (wrap text e) ])
              as (λ _. Result B × S) [ ok a ↦ (ok b, s') | err e ↦ (err e, s') ]).1
            ≡ s'
      go (ok a) s' = refl
      go (err e) s' = refl
