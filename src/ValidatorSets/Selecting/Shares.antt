-- ===== src/ValidatorSets/Selecting/Shares.antt =====
-- substrate/validator-sets/primitives/src/lib.rs and pallet/src/lib.rs: how many key shares a new
-- set has, and what its first validator is left.
use serai.Common.{
  map-All, ℕ, ◌+◌, ◌/◌, ◌%◌, ◌≤◌, ◌<◌, ◌≡◌, refl, subst, Bool, true, false, [], ◌∷◌, arith, ltb,
  if◌then◌else◌, length, All, u64_mod, min,
}
use native.Mathlib.Nat.{le-div_iff_mul-le, div-mul-le_self}
use serai.ValidatorSets.{max_key_shares_per_set, post_amortization_key_shares_for_top_validator}
use serai.ValidatorSets.Selecting.{
  Validators, amortize_excess_key_shares, these_key_shares, take_participants,
}
use serai.ValidatorSets.Selecting.Reducing.{
  shares_of, top_of, AreFrom, excess, amortize-shares_of, amortize-top,
}

-- The allocations in descending order, each of a key share at least.
abbrev pub AreDescending : ℕ → Validators → Type 0
AreDescending share [] = Unit
AreDescending share ((key, amount) ∷ more) =
    (share ≤ amount) × All (λ v. v.1 ≤ amount) more × AreDescending share more

-- What is taken is over the maximum by less than any share taken.
IsTaken : ℕ → Validators → Type 0
IsTaken before ws =
    All
      (λ v.
        (before + shares_of ws < max_key_shares_per_set + v.1)
        × (1 ≤ v.1)
        × (v.1 ≤ max_key_shares_per_set))
      ws

div_mono : (a b share : ℕ) → 0 < share → a ≤ b → a / share ≤ b / share
div_mono a b share positive h =
    (le-div_iff_mul-le positive).1 (omega (arith, div-mul-le_self a share, h))

these_key_shares_bounds :
    (share amount : ℕ)
    → 0 < share
    → share ≤ amount
    → (1 ≤ these_key_shares share amount) × (these_key_shares share amount ≤ max_key_shares_per_set)
these_key_shares_bounds share amount positive enough =
    let once : 1 ≤ amount / share = (le-div_iff_mul-le positive).1 (omega (arith, enough)) in
    ground (arith, once)

these_key_shares_mono :
    (share a b : ℕ) → 0 < share → a ≤ b → these_key_shares share a ≤ these_key_shares share b
these_key_shares_mono share a b positive h =
    let more : a / share ≤ b / share = div_mono a b share positive h in ground (arith, more)

-- The shares taken after a validator are at most its own.
take_participants-All :
    (share most before : ℕ) (vs : Validators)
    → 0 < share
    → All (λ v. v.1 ≤ most) vs
    → All (λ v. v.1 ≤ these_key_shares share most) (take_participants share vs before)
unfolding take_participants
take_participants-All share most before [] positive all = tt
take_participants-All share most before ((key, a) ∷ vs) positive (low, all) =
    taken (ltb before max_key_shares_per_set) (
      take_participants-All share most ((before + these_key_shares share a) % u64_mod) vs positive
        all)
  where
    rest : Validators
    rest = take_participants share vs ((before + these_key_shares share a) % u64_mod)

    taken :
        (b : Bool)
        → All (λ v. v.1 ≤ these_key_shares share most) rest
        → All
            (λ v. v.1 ≤ these_key_shares share most)
            (if b then (key, these_key_shares share a) ∷ rest else [])
    taken true more = (these_key_shares_mono share a most positive low, more)
    taken false more = tt

IsTaken-join :
    (before x key : ℕ) (rest : Validators)
    → before < max_key_shares_per_set
    → (1 ≤ x) × (x ≤ max_key_shares_per_set)
    → All (λ v. v.1 ≤ x) rest
    → IsTaken (before + x) rest
    → IsTaken before ((key, x) ∷ rest)
unfolding IsTaken
IsTaken-join before x key rest early (once, bounded) below taken = (
  (first rest below taken, once, bounded),
  map-All (λ v (few, once, bounded). (omega (arith, few), once, bounded)) rest taken,
)
  where
    first :
        (rest : Validators)
        → All (λ v. v.1 ≤ x) rest
        → All
            (λ v.
              (before + x + shares_of rest < max_key_shares_per_set + v.1)
              × (1 ≤ v.1)
              × (v.1 ≤ max_key_shares_per_set))
            rest
        → before + (x + shares_of rest) < max_key_shares_per_set + x
    first [] below taken = omega (arith, early)
    first (v ∷ rest) (low, below) ((few, _, _), taken) = omega (arith, few, low)

take_participants-IsTaken :
    (share before : ℕ) (vs : Validators)
    → 0 < share
    → before < max_key_shares_per_set + max_key_shares_per_set
    → AreDescending share vs
    → IsTaken before (take_participants share vs before)
unfolding take_participants IsTaken
take_participants-IsTaken share before [] positive small all = tt
take_participants-IsTaken share before ((key, a) ∷ vs) positive small (enough, below, all) =
    taken
      (λ few.
        take_participants-IsTaken share (before + these_key_shares share a) vs positive few all)
      (ltb before max_key_shares_per_set) refl
  where
    x : ℕ
    x = these_key_shares share a

    rest : Validators
    rest = take_participants share vs ((before + x) % u64_mod)

    fits :
        before < max_key_shares_per_set
        → (1 ≤ x) × (x ≤ max_key_shares_per_set)
        → before + x ≡ (before + x) % u64_mod
    fits early bounds = omega (arith, early, bounds)

    More : Type 0
    More =
        before + x < max_key_shares_per_set + max_key_shares_per_set
        → IsTaken (before + x) (take_participants share vs (before + x))

    taken :
        More
        → (b : Bool) → ltb before max_key_shares_per_set ≡ b
        → IsTaken before (if b then (key, x) ∷ rest else [])
    taken more false h = tt
    taken more true h =
        let early : before < max_key_shares_per_set = ground (arith, h) in
        let bounds : (1 ≤ x) × (x ≤ max_key_shares_per_set) =
          these_key_shares_bounds share a positive enough in
        subst (λ c. IsTaken before ((key, x) ∷ take_participants share vs c)) (fits early bounds)
          (IsTaken-join before x key (take_participants share vs (before + x)) early bounds
            (take_participants-All share a (before + x) vs positive below)
            (more (omega (arith, early, bounds))))

-- What is taken can be reduced to the maximum, with a share left to everyone.
IsTaken-AreFrom :
    (ws : Validators) → IsTaken 0 ws → AreFrom (excess ws + 1) ws × (shares_of ws < u64_mod)
unfolding IsTaken
IsTaken-AreFrom ws taken = (
  map-All (λ v (few, once, bounded). (omega (arith, few, once), omega (arith, bounded))) ws taken,
  fits ws taken,
)
  where
    fits :
        (ws : Validators)
        → All
            (λ v.
              (0 + shares_of ws < max_key_shares_per_set + v.1)
              × (1 ≤ v.1)
              × (v.1 ≤ max_key_shares_per_set))
            ws
        → shares_of ws < u64_mod
    fits [] taken = omega arith
    fits (v ∷ ws) ((few, _, bounded), _) = omega (arith, few, bounded)

take_participants-some :
    (share : ℕ) (vs : Validators) → 0 < length vs → 0 < length (take_participants share vs 0)
unfolding take_participants
take_participants-some share [] some_left = some_left
take_participants-some share (v ∷ vs) some_left = omega arith

pub take_participants-shares_of :
    (share : ℕ) (vs : Validators)
    → 0 < share
    → 0 < length vs
    → AreDescending share vs
    → (shares_of (amortize_excess_key_shares (take_participants share vs 0))
        ≡ min (shares_of (take_participants share vs 0)) max_key_shares_per_set)
      × All (λ v. 1 ≤ v.1) (amortize_excess_key_shares (take_participants share vs 0))
take_participants-shares_of share vs positive some_left all =
    let ws : Validators = take_participants share vs 0 in
    let (from, small) =
      IsTaken-AreFrom ws (take_participants-IsTaken share 0 vs positive (omega arith) all) in
    let (sums, left) =
      amortize-shares_of ws (take_participants-some share vs some_left) small from in
    (sums, map-All (λ v (low, _). low) (amortize_excess_key_shares ws) left)

-- Where a key share's allocation is positive, and there are allocations, each of a key share at
-- least and in descending order: the reduction one share at a time leaves the first validator what
-- post_amortization_key_shares_for_top_validator computes by a division.
pub take_participants-top :
    (share : ℕ) (vs : Validators)
    → 0 < share
    → 0 < length vs
    → AreDescending share vs
    → top_of (amortize_excess_key_shares (take_participants share vs 0))
      ≡ post_amortization_key_shares_for_top_validator
          (length (take_participants share vs 0))
          (top_of (take_participants share vs 0))
          (shares_of (take_participants share vs 0))
take_participants-top share vs positive some_left all =
    let ws : Validators = take_participants share vs 0 in
    let (from, small) =
      IsTaken-AreFrom ws (take_participants-IsTaken share 0 vs positive (omega arith) all) in
    amortize-top ws (take_participants-some share vs some_left) small from
