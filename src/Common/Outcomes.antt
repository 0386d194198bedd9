-- ===== src/Common/Outcomes.antt =====
-- What a call of the program returns, beside the state that it leaves: a value, an error of its
-- own, or a panic. Writes made before an error or a panic stay in the state.
use mathlib.Core.Path.{◌≡◌, refl, subst}
use mathlib.Core.Bool.{Bool, true, false}
use mathlib.Core.Option.{Option, none, some}

pub data Outcome (E A : Type 0) : Type 0 where
  ok : A → Outcome E A
  err : E → Outcome E A
  panic : Outcome E A

abbrev pub Action : Type 0 → Type 0 → Type 0 → Type 0
Action S E A = S → Outcome E A × S

infixl 5 ◌>>=◌ ◌>>◌
abbrev pub ◌>>=◌ : {S E A B : Type 0} → Action S E A → (A → Action S E B) → Action S E B
◌>>=◌ m f s =
    let (r, s') = m s in elim r [ ok a ↦ f a s' | err e ↦ (err e, s') | panic ↦ (panic, s') ]

abbrev pub ◌>>◌ : {S E A B : Type 0} → Action S E A → Action S E B → Action S E B
m >> k = m >>= λ _. k

-- `.map_err(f)`
abbrev pub map_err : {S E F A : Type 0} → (E → F) → Action S E A → Action S F A
map_err f m s =
    let (r, s') = m s in
    elim r [ ok a ↦ (ok a, s') | err e ↦ (err (f e), s') | panic ↦ (panic, s') ]

-- `.unwrap()` of a result
abbrev pub expect : {S E F A : Type 0} → Action S E A → Action S F A
expect m s =
    let (r, s') = m s in elim r [ ok a ↦ (ok a, s') | err e ↦ (panic, s') | panic ↦ (panic, s') ]

module _ {S E : Type 0} where
  abbrev pub pure : {A : Type 0} → A → Action S E A
  pure a s = (ok a, s)

  abbrev pub throw : {A : Type 0} → E → Action S E A
  throw e s = (err e, s)

  abbrev pub abort : {A : Type 0} → Action S E A
  abort s = (panic, s)

  abbrev pub gets : {A : Type 0} → (S → A) → Action S E A
  gets f s = (ok (f s), s)

  abbrev pub modify : (S → S) → Action S E (Unit {0})
  modify f s = (ok tt, f s)

  -- `if c { Err(e)? }`
  abbrev pub throw_if : Bool → E → Action S E (Unit {0})
  throw_if true e = throw e
  throw_if false e = pure tt

  -- `assert!(c)`
  abbrev pub assert : Bool → Action S E (Unit {0})
  assert true = pure tt
  assert false = abort

  -- `.ok_or(e)?`
  abbrev pub ok_or : {A : Type 0} → Option A → E → Action S E A
  ok_or none e = throw e
  ok_or (some a) e = pure a

  -- `.unwrap()`
  abbrev pub unwrap : {A : Type 0} → Option A → Action S E A
  unwrap none = abort
  unwrap (some a) = pure a

-- What holds of the value and the state of a call that returns.
abbrev pub Ensures {ℓ} : {S E A : Type 0} → (A → S → Type ℓ) → Outcome E A × S → Type ℓ
Ensures P (ok a, s) = P a s
Ensures P (err _, s) = Unit
Ensures P (panic, s) = Unit

pub Ensures->>= {ℓ κ} :
    {S E A B : Type 0} (Q : A → S → Type κ) (P : B → S → Type ℓ) (m : Action S E A)
    (f : A → Action S E B) (s : S)
    → Ensures Q (m s)
    → ((a : A) (t : S) → Q a t → Ensures P (f a t))
    → Ensures P ((m >>= f) s)
Ensures->>= {S} {E} {A} Q P m f s q next = go (m s) q
  where
    go :
        (r : Outcome E A × S)
        → Ensures Q r
        → Ensures {E = E} P
            (elim r.0 [ ok a ↦ f a r.1 | err e ↦ (err e, r.1) | panic ↦ (panic, r.1) ])
    go (ok a, t) q = next a t q
    go (err e, t) q = tt
    go (panic, t) q = tt

pub Ensures-inv {ℓ} :
    {S E A : Type 0} (P : A → S → Type ℓ) (r : Outcome E A × S) (a : A) (t : S)
    → Ensures P r
    → r ≡ (ok a, t)
    → P a t
Ensures-inv P r a t h e = subst (Ensures P) e h

pub Ensures-intro {ℓ} :
    {S E A : Type 0} (P : A → S → Type ℓ) (r : Outcome E A × S)
    → ((a : A) (t : S) → r ≡ (ok a, t) → P a t)
    → Ensures P r
Ensures-intro P (ok a, t) h = h a t refl
Ensures-intro P (err e, t) h = tt
Ensures-intro P (panic, t) h = tt

-- A call that does not panic, and what holds of the value and the state if it returns.
abbrev pub Runs : {S E A : Type 0} → (A → S → Type 0) → Outcome E A × S → Type 0
Runs P (ok a, s) = P a s
Runs P (err _, s) = Unit
Runs P (panic, s) = ⊥

pub Runs->>= :
    {S E A B : Type 0} (Q : A → S → Type 0) (P : B → S → Type 0) (m : Action S E A)
    (f : A → Action S E B) (s : S)
    → Runs Q (m s)
    → ((a : A) (t : S) → Q a t → Runs P (f a t))
    → Runs P ((m >>= f) s)
Runs->>= {S} {E} {A} Q P m f s q next = go (m s) q
  where
    go :
        (r : Outcome E A × S)
        → Runs Q r
        → Runs {E = E} P (elim r.0 [ ok a ↦ f a r.1 | err e ↦ (err e, r.1) | panic ↦ (panic, r.1) ])
    go (ok a, t) q = next a t q
    go (err e, t) q = tt
    go (panic, t) q = absurd q
