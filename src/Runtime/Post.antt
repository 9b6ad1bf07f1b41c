-- ===== src/Runtime/Post.antt =====
-- What holds after a call, of the value or after an error: rules for the calls of Runtime.Monad.
use stage_sync.Base.{String, ◌≡◌, refl}
use stage_sync.Runtime.Errors.{GoError}
use stage_sync.Runtime.Monad.{Result, ok, err, Action, context, ◌>>=◌}

-- `P` holds of the value and of the state, or `Q` of the state after an error.
pub data Post {S A : Type 0} (P : A → S → Type 0) (Q : S → Type 0) : Result A × S → Type 0 where
  on_ok : {a : A} {s : S} → P a s → Post P Q (ok a, s)
  on_err : {e : GoError} {s : S} → Q s → Post P Q (err e, s)

module _ {S A : Type 0} {P : A → S → Type 0} {Q : S → Type 0} where
  pub Post-map :
      {P' : A → S → Type 0} {Q' : S → Type 0} {q : Result A × S}
      → Post P Q q
      → ((a : A) (s : S) → P a s → P' a s)
      → ((s : S) → Q s → Q' s)
      → Post P' Q' q
  Post-map (on_ok h) f g = on_ok (f _ _ h)
  Post-map (on_err h) f g = on_err (g _ h)

  pub Post-context :
      (text : String) (m : Action S A) (s : S) → Post P Q (m s) → Post P Q (context text m s)
  Post-context text m s = go (m s)
    where
      go : (q : Result A × S) → Post P Q q → Post P Q (context text (λ _. q) s)
      go (ok a, s') (on_ok h) = on_ok h
      go (err e, s') (on_err h) = on_err h

  pub Post-bind :
      {B : Type 0} {R : B → S → Type 0}
      → (m : Action S A) (f : A → Action S B) (s : S) → Post P Q (m s)
      → ((a : A) (s' : S) → P a s' → Post R Q (f a s'))
      → Post R Q ((m >>= f) s)
  Post-bind {B} {R} m f s = go (m s)
    where
      go :
          (q : Result A × S)
          → Post P Q q
          → ((a : A) (s' : S) → P a s' → Post R Q (f a s'))
          → Post R Q (((λ _. q) >>= f) s)
      go (ok a, s') (on_ok h) k = k a s' h
      go (err e, s') (on_err h) k = on_err h

-- A call that keeps a reading of the state keeps it however it ends.
module _ {S A B : Type 0} (f : S → B) (b : B) where
  abbrev pub Keeps : Result A × S → Type 0
  Keeps = Post (λ _ s. f s ≡ b) (λ s. f s ≡ b)

  pub Keeps-intro : (q : Result A × S) → f q.1 ≡ b → Keeps q
  Keeps-intro (ok a, s) h = on_ok h
  Keeps-intro (err e, s) h = on_err h

  pub Keeps-elim : (q : Result A × S) → Keeps q → f q.1 ≡ b
  Keeps-elim (ok a, s) (on_ok h) = h
  Keeps-elim (err e, s) (on_err h) = h

-- What follows a call matters only after the values that the call can give.
pub Post-cong :
    {S A B : Type 0} {P : A → S → Type 0} {Q : S → Type 0}
    → (m : Action S A) (f g : A → Action S B) (s : S) → Post P Q (m s)
    → ((a : A) (s' : S) → P a s' → f a s' ≡ g a s')
    → (m >>= f) s ≡ (m >>= g) s
Post-cong {S} {A} {B} {P} {Q} m f g s = go (m s)
  where
    go :
        (q : Result A × S)
        → Post P Q q
        → ((a : A) (s' : S) → P a s' → f a s' ≡ g a s')
        → ((λ _. q) >>= f) s ≡ ((λ _. q) >>= g) s
    go (ok a, s') (on_ok h) k = k a s' h
    go (err e, s') (on_err h) k = refl
