-- ===== src/Cosign/Cosigners.antt =====
-- coordinator/src/substrate/cosign.rs: which sets are to cosign a block, and in which of them we are.
use serai.Common.{
  ℕ, ◌-◌, ◌≡◌, refl, sym, subst, Bool, Option, none, some, List, [], ◌∷◌, ◌++◌, ◌⊎◌, inl, inr,
  ◌>>=◌, pure, unwrap, Ensures, Ensures->>=, ◌∙◌,
}
use serai.Primitives.{NetworkId}
use serai.ValidatorSets.{ValidatorSet}
use serai.Cosign.{
  Serai, Db, Txn, Answer, ask, cosigners, cosigner_of, set_with_keys, latest_with_keys, any_is,
  member,
}

module _ (serai : Serai) (hash : ℕ) where
  -- Whether the set has keys as of the block.
  abbrev HasKeys : ValidatorSet → Type 0
  HasKeys set = (k : ℕ) × (serai.keys hash set ≡ some (some k))

  abbrev HasNoKeys : ValidatorSet → Type 0
  HasNoKeys set = serai.keys hash set ≡ some none

  -- The set of a network that is to cosign: the one of the session before the latest while it has
  -- keys, else the latest where that has keys.
  abbrev Signing : NetworkId → Option ValidatorSet → Type 0
  Signing net none =
      (serai.session hash net ≡ some none)
      ⊎ ((latest : ℕ) × (serai.session hash net ≡ some (some latest))
          × HasNoKeys (net, latest - 1)
          × HasNoKeys (net, latest))
  Signing net (some set) =
      (latest : ℕ) × (serai.session hash net ≡ some (some latest))
      × (((set ≡ (net, latest - 1)) × HasKeys (net, latest - 1))
          ⊎ ((set ≡ (net, latest)) × HasNoKeys (net, latest - 1) × HasKeys (net, latest)))

  -- Whether a key is among the validators of a network.
  abbrev IsMember : ℕ → NetworkId → Bool → Type 0
  IsMember key net ours =
      (ps : List ℕ) × (serai.participants hash net ≡ some (some ps)) × (any_is key ps ≡ ours)

  -- The sets of the networks that are to cosign, each with whether the key is one of its validators.
  abbrev pub AreCosigners : ℕ → List NetworkId → List (ValidatorSet × Bool) → Type 0
  AreCosigners key [] sets = sets ≡ []
  AreCosigners key (net ∷ nets) sets =
      (rest : List (ValidatorSet × Bool)) × AreCosigners key nets rest
      × ((Signing net none × (sets ≡ rest))
          ⊎ ((set : ValidatorSet) × (ours : Bool) × Signing net (some set)
              × IsMember key set.0 ours
              × (sets ≡ (set, ours) ∷ rest)))

  set_with_keys_lem :
      (net : NetworkId) (o : Option ℕ) (s : Db)
      → serai.session hash net ≡ some o
      → Ensures (λ set t. Signing net set × (t ≡ s)) (set_with_keys serai hash net o s)
  set_with_keys_lem net none s e = (inl e, refl)
  set_with_keys_lem net (some n) s e = prior (serai.keys hash (net, n - 1)) refl
    where
      P : Option ValidatorSet → Db → Type 0
      P set t = Signing net set × (t ≡ s)

      last :
          (a : Answer (Option ℕ))
          → serai.keys hash (net, n) ≡ a
          → HasNoKeys (net, n - 1)
          → Ensures P
              ((ask a >>= λ held. pure (elim held [ none ↦ none | some k ↦ some (net, n) ])) s)
      last none h before = tt
      last (some none) h before = (inr (n, e, before, h), refl)
      last (some (some k)) h before = ((n, e, inr (refl, before, (k, h))), refl)

      prior :
          (a : Answer (Option ℕ))
          → serai.keys hash (net, n - 1) ≡ a
          → Ensures P ((ask a >>= latest_with_keys serai hash net n) s)
      prior none h = tt
      prior (some none) h = last (serai.keys hash (net, n)) refl h
      prior (some (some k)) h = ((n, e, inl (refl, (k, h))), refl)

  -- What one network adds.
  abbrev Adds : ℕ → Option ValidatorSet → List (ValidatorSet × Bool) → Type 0
  Adds key none first = first ≡ []
  Adds key (some set) first = (ours : Bool) × IsMember key set.0 ours × (first ≡ (set, ours) ∷ [])

  cosigner_of_lem :
      (key : ℕ) (set : Option ValidatorSet) (s : Db)
      → Ensures (λ first t. Adds key set first × (t ≡ s)) (cosigner_of key serai hash set s)
  cosigner_of_lem key none s = (refl, refl)
  cosigner_of_lem key (some set) s = asked (serai.participants hash set.0) refl
    where
      asked :
          (a : Answer (Option (List ℕ)))
          → serai.participants hash set.0 ≡ a
          → Ensures
              (λ first t. Adds key (some set) first × (t ≡ s))
              (((ask a >>= λ ps. pure (member key ps)) >>= λ held.
                  unwrap held >>= λ ours. pure ((set, ours) ∷ []))
                s)
      asked none h = tt
      asked (some none) h = tt
      asked (some (some ps)) h = ((any_is key ps, (ps, h, refl), refl), refl)

  AreCosigners-∷ :
      (key : ℕ) (net : NetworkId) (nets : List NetworkId) (set : Option ValidatorSet)
      (first rest : List (ValidatorSet × Bool))
      → Signing net set
      → Adds key set first
      → AreCosigners key nets rest
      → AreCosigners key (net ∷ nets) (first ++ rest)
  AreCosigners-∷ key net nets none first rest signing adds more =
      subst (λ l. AreCosigners key (net ∷ nets) (l ++ rest)) (sym adds)
        (rest, more, inl (signing, refl))
  AreCosigners-∷ key net nets (some set) first rest signing (ours, in_set, adds) more =
      subst (λ l. AreCosigners key (net ∷ nets) (l ++ rest)) (sym adds)
        (rest, more, inr (set, ours, signing, in_set, refl))

  pub cosigners_lem :
      (key : ℕ) (nets : List NetworkId) (s : Db)
      → Ensures (λ sets t. AreCosigners key nets sets × (t ≡ s)) (cosigners key serai hash nets s)
  unfolding cosigners
  cosigners_lem key [] s = (refl, refl)
  cosigners_lem key (net ∷ nets) s = asked (cosigners_lem key nets s) (serai.session hash net) refl
    where
      P : List (ValidatorSet × Bool) → Db → Type 0
      P sets t = AreCosigners key (net ∷ nets) sets × (t ≡ s)

      More : Db → Type 0
      More t =
          Ensures (λ sets u. AreCosigners key nets sets × (u ≡ s)) (cosigners key serai hash nets t)

      add : List (ValidatorSet × Bool) → Txn (List (ValidatorSet × Bool))
      add first = cosigners key serai hash nets >>= λ rest. pure (first ++ rest)

      asked :
          More s
          → (a : Answer (Option ℕ)) → serai.session hash net ≡ a
          → Ensures P (
              (ask a >>= λ latest.
              set_with_keys serai hash net latest >>= λ set. cosigner_of key serai hash set >>= add)
                s)
      asked more none e = tt
      asked more (some latest) e =
          Ensures->>= (λ set t. Signing net set × (t ≡ s)) P (set_with_keys serai hash net latest)
            (λ set. cosigner_of key serai hash set >>= add) s (set_with_keys_lem net latest s e)
            (λ set t (signing, same).
              Ensures->>= (λ first u. Adds key set first × (u ≡ t)) P
                (cosigner_of key serai hash set) add t (cosigner_of_lem key set t)
                (λ first u (adds, same').
                  Ensures->>= (λ sets v. AreCosigners key nets sets × (v ≡ s)) P
                    (cosigners key serai hash nets) (λ rest. pure (first ++ rest)) u
                    (subst More (sym (same' ∙ same)) more)
                    (λ rest v (are, same'').
                      (AreCosigners-∷ key net nets set first rest signing adds are, same''))))
