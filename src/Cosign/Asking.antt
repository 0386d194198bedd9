-- ===== src/Cosign/Asking.antt =====
-- coordinator/src/substrate/cosign.rs: the parts of a call of `advance_cosign_protocol_inner` on a
-- node that answers.
use serai.Common.{
  ℕ, zero, suc, ◌+◌, ◌-◌, ◌≤◌, ◌<◌, ◌≡◌, refl, sym, ◌∙◌, subst, Bool, true, false, not, ◌||◌,
  Option, none, some, List, arith, ltb, if◌then◌else◌, lookup, nat_eq, Outcome, ok, err, panic,
  ◌>>=◌, ◌>>◌, pure, modify, unwrap, Ensures-inv, Option-cases, inl, inr,
}
use serai.Primitives.{NetworkId}
use serai.ValidatorSets.{ValidatorSet}
use serai.Cosign.{
  HasEvents, SeraiError, Block, Serai, Db, Txn, ask, block_has_events, events_unless, find_events,
  is_yes, is_key_gen, is_no, is_maximally_latent, potentially_cosign_block, follow_cosigned,
  set_skipped_cosign, in_window, after_window, carry_skipped, set_intended_cosign, find_skipped,
  Answer,
}
use serai.Cosign.Events.{Found, IsCached, block_has_events_lem}

-- A node that answers every question, has every block up to the latest, and names the participants
-- of a network that has a session.
abbrev pub Says : {A : Type 0} → Answer A → Type 0
Says {A} a = (x : A) × (a ≡ some x)

pub record IsAnswering (serai : Serai) (latest : ℕ) : Type 0 where
  pub blocks :
      (n : ℕ) → n ≤ latest → (b : Block) × (serai.finalized_block_by_number n ≡ some (some b))
  pub key_gens : (hash : ℕ) → Says (serai.key_gen_events hash)
  pub burns : (hash : ℕ) → Says (serai.burn_with_instruction_events hash)
  pub batches : (hash : ℕ) → Says (serai.batch_events hash)
  pub new_sets : (hash : ℕ) → Says (serai.new_set_events hash)
  pub retired : (hash : ℕ) → Says (serai.set_retired_events hash)
  pub sessions : (hash : ℕ) (net : NetworkId) → Says (serai.session hash net)
  pub key_sets : (hash : ℕ) (set : ValidatorSet) → Says (serai.keys hash set)
  pub members :
      (hash : ℕ) (net : NetworkId) (k : ℕ)
      → serai.session hash net ≡ some (some k)
      → (ps : List ℕ) × (serai.participants hash net ≡ some (some ps))

-- A call that returns.
abbrev pub IsOk : {A : Type 0} → Outcome SeraiError A × Db → Type 0
IsOk (ok a, s) = Unit
IsOk (err e, s) = ⊥
IsOk (panic, s) = ⊥

pub IsOk->>= :
    {A B : Type 0} (m : Txn A) (f : A → Txn B) (s : Db)
    → IsOk (m s)
    → ((a : A) (t : Db) → m s ≡ (ok a, t) → IsOk (f a t))
    → IsOk ((m >>= f) s)
IsOk->>= {A} {B} m f s h next = go (m s) h next
  where
    go :
        (r : Outcome SeraiError A × Db)
        → IsOk r
        → ((a : A) (t : Db) → r ≡ (ok a, t) → IsOk (f a t))
        → IsOk {A = B} (elim r.0 [ ok a ↦ f a r.1 | err e ↦ (err e, r.1) | panic ↦ (panic, r.1) ])
    go (ok a, t) h next = next a t refl
    go (err e, t) h next = absurd h
    go (panic, t) h next = absurd h

pub IsOk-bind :
    {A B : Type 0} (m : Txn A) (f : A → Txn B) (s : Db) (a : A) (t : Db)
    → m s ≡ (ok a, t)
    → IsOk (f a t)
    → IsOk ((m >>= f) s)
IsOk-bind {A} {B} m f s a t went h =
    subst
      (λ r. IsOk {A = B} (elim r.0 as (λ _. Outcome SeraiError B × Db) [
        | ok a ↦ f a r.1
        | err e ↦ (err e, r.1)
        | panic ↦ (panic, r.1)
      ]))
      (sym went) h

pub min_bound :
    (start m latest : ℕ) → m ≤ latest → 0 < m + 1 - start → start + (m + 1 - start) ≤ latest + 1
min_bound start m latest few left = omega (arith, few, left)

module _ (serai : Serai) (latest : ℕ) (answers : IsAnswering serai latest) where
  find_events-IsOk : (n hash : ℕ) (s : Db) → IsOk (find_events serai n hash s)
  find_events-IsOk n hash s =
      let (g, ge) = answers.key_gens hash in
      let (b, be) = answers.burns hash in
      let (c, ce) = answers.batches hash in
      let (d, de) = answers.new_sets hash in
      let (r, re) = answers.retired hash in ground (arith, ge, be, ce, de, re)

  block_has_events-IsOk : (n : ℕ) (s : Db) → n ≤ latest → IsOk (block_has_events serai n s)
  unfolding block_has_events
  block_has_events-IsOk n s bound = elim (Option-cases (lookup n s.block_has_events_cache)) [
    | inr (e, cached) ↦ subst (λ o. IsOk (events_unless serai n o s)) (sym cached) tt
    | inl fresh ↦
        subst (λ o. IsOk (events_unless serai n o s)) (sym fresh)
          (let (b, known) = answers.blocks n bound in
            subst
              (λ a. IsOk ((ask a >>= λ found. unwrap found >>= λ b. find_events serai n b.hash) s))
              (sym known) (find_events-IsOk n b.hash s))
  ]

  decides-IsOk :
      (window : ℕ) (skipped : Option ℕ) (n : ℕ) (e : HasEvents) (s : Db)
      → IsOk ((if ltb n window then in_window n skipped e else after_window n skipped e) s)
  unfolding set_skipped_cosign
  decides-IsOk window skipped n e s = early (ltb n window)
    where
      carries :
          (above : Bool) (m : ℕ)
          → IsOk ((if above then set_skipped_cosign m else pure tt) (set_intended_cosign m s))
      carries true m = tt
      carries false m = tt

      generates :
          (o : Option ℕ) (k : Bool)
          → IsOk (
              (if k
                  then (modify (set_intended_cosign n) >> carry_skipped n o >> pure true)
                  else pure false)
                s)
      generates o false = tt
      generates none true = tt
      generates (some m) true =
          IsOk->>= (if ltb n m then set_skipped_cosign n else pure tt) (λ _. pure true)
            (set_intended_cosign n s) (carries (ltb n m) n) (λ _ _ _. tt)

      latens :
          (b : Bool)
          → IsOk {A = Bool}
              ((if b then (modify (set_intended_cosign n) >> pure true) else pure false) s)
      latens true = tt
      latens false = tt

      early : (b : Bool) → IsOk ((if b then in_window n skipped e else after_window n skipped e) s)
      early true = generates skipped (is_key_gen e)
      early false = latens (is_maximally_latent n skipped || not (is_no e))

  pub potentially_cosign_block-IsOk :
      (window : ℕ) (skipped : Option ℕ) (n : ℕ) (s : Db)
      → n ≤ latest
      → IsOk (potentially_cosign_block serai n skipped window s)
  unfolding potentially_cosign_block
  potentially_cosign_block-IsOk window skipped zero s bound = tt
  potentially_cosign_block-IsOk window skipped (suc n) s bound =
      IsOk->>= (block_has_events serai (suc n))
        (λ e.
          modify (follow_cosigned (suc n) e)
          >> (if ltb (suc n) window
              then in_window (suc n) skipped e
              else after_window (suc n) skipped e))
        s (block_has_events-IsOk (suc n) s bound)
        (λ e t _. decides-IsOk window skipped (suc n) e (follow_cosigned (suc n) e t))

  pub find_skipped-IsOk :
      (last count n : ℕ) (s : Db)
      → IsCached serai s
      → s.intended_cosign ≡ some (last, none)
      → (0 < count → n + count ≤ latest + 1)
      → IsOk (find_skipped serai count n s)
  unfolding find_skipped set_skipped_cosign
  find_skipped-IsOk last zero n s c i bound = tt
  find_skipped-IsOk last (suc count) n s c i bound =
      IsOk->>= (block_has_events serai n)
        (λ e.
          if is_yes e
          then (set_skipped_cosign n >> pure (some n))
          else find_skipped serai count (n + 1))
        s (block_has_events-IsOk n s (omega (arith, bound (omega arith))))
        (λ e t went.
          let (kind, cached, (same, from)) =
            Ensures-inv (Found serai n s) (block_has_events serai n s) e t
              (block_has_events_lem serai n s c) went in
          goes t
            (find_skipped-IsOk last count (n + 1) t cached (same ∙ i)
              (λ _. omega (arith, bound (omega arith))))
            (is_yes e) (same ∙ i))
    where
      goes :
          (t : Db)
          → IsOk (find_skipped serai count (n + 1) t)
          → (yes : Bool) → t.intended_cosign ≡ some (last, none)
          → IsOk (
              (if yes
                  then (set_skipped_cosign n >> pure (some n))
                  else find_skipped serai count (n + 1))
                t)
      goes t rest true i' = ground (arith, i')
      goes t rest false i' = rest
