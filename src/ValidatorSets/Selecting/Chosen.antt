-- ===== src/ValidatorSets/Selecting/Chosen.antt =====
-- substrate/validator-sets/pallet/src/lib.rs: what new_set leaves behind.
use serai.Common.{
  ℕ, ◌≤◌, ◌<◌, ◌≡◌, ap, true, some, [], ◌∷◌, arith, leb, length, All, lookup, nat_eq,
  lookup-insert_self, Ensures, Ensures-inv, ok, min,
}
use serai.Primitives.{NetworkId, network_eq}
use serai.ValidatorSets.{Storage, max_key_shares_per_set}
use serai.ValidatorSets.Selecting.{
  Validators, sorted_allocations, amortize_excess_key_shares, take_participants, new_set,
  count_in_set,
}
use serai.ValidatorSets.Selecting.Reducing.{shares_of}
use serai.ValidatorSets.Selecting.Shares.{AreDescending, take_participants-shares_of}

-- The participants that are stored are the validators taken, with their shares reduced.
new_set-participants :
    (net : NetworkId) (share : ℕ) (s : Storage)
    → lookup net s.allocation_per_key_share ≡ some share
    → Ensures
        (λ _ t.
          lookup net t.participants
          ≡ some (
              amortize_excess_key_shares
                (take_participants share (sorted_allocations net s.sorted) 0)))
        (new_set net s)
unfolding new_set
new_set-participants net share s known = ground (
  arith,
  known,
  lookup-insert_self net
      (amortize_excess_key_shares (take_participants share (sorted_allocations net s.sorted) 0))
      s.participants,
)

length-shares_of : (vs : Validators) → All (λ v. 1 ≤ v.1) vs → length vs ≤ shares_of vs
length-shares_of [] all = omega arith
length-shares_of (v ∷ vs) (low, all) = omega (arith, low, length-shares_of vs all)

abbrev chosen : NetworkId → ℕ → Storage → Validators
chosen net share s = take_participants share (sorted_allocations net s.sorted) 0

new_set-ok :
    (net : NetworkId) (share : ℕ) (s : Storage)
    → lookup net s.allocation_per_key_share ≡ some share
    → 0 < share
    → leb (count_in_set net s.in_set) max_key_shares_per_set ≡ true
    → leb (length (amortize_excess_key_shares (chosen net share s))) max_key_shares_per_set ≡ true
    → (new_set net s).0 ≡ ok tt
unfolding new_set
new_set-ok net share s known positive few fits = ground (arith, known, few, fits, positive)

-- Where the network's allocation for a key share is positive, no more than the maximum of validators
-- are in its set, and it has allocations, each of a key share at least and in descending order:
-- new_set returns, the key shares of the participants it stores are those of the validators taken
-- or the maximum, whichever is less, and every participant has one at least.
pub new_set-shares_of :
    (net : NetworkId) (share : ℕ) (s : Storage)
    → lookup net s.allocation_per_key_share ≡ some share
    → 0 < share
    → count_in_set net s.in_set ≤ max_key_shares_per_set
    → 0 < length (sorted_allocations net s.sorted)
    → AreDescending share (sorted_allocations net s.sorted)
    → ((new_set net s).0 ≡ ok tt)
      × ((ps : Validators) × (lookup net (new_set net s).1.participants ≡ some ps)
          × (shares_of ps
              ≡ min
                  (shares_of (take_participants share (sorted_allocations net s.sorted) 0))
                  max_key_shares_per_set)
          × All (λ v. 1 ≤ v.1) ps)
new_set-shares_of net share s known positive few some_left all =
    let ps : Validators = amortize_excess_key_shares (chosen net share s) in
    let (sums, left) =
      take_participants-shares_of share (sorted_allocations net s.sorted) positive some_left all in
    let short : length ps ≤ max_key_shares_per_set =
      at_most (shares_of (chosen net share s)) (shares_of ps) (length ps) sums
        (length-shares_of ps left) in
    let went : (new_set net s).0 ≡ ok tt =
      new_set-ok net share s known positive (leb_true (count_in_set net s.in_set) few)
        (leb_true (length ps) short) in
    (
      went,
      (
        ps,
        Ensures-inv (λ _ t. lookup net t.participants ≡ some ps) (new_set net s) tt
            (new_set net s).1 (new_set-participants net share s known)
            (ap (λ o. (o, (new_set net s).1)) went),
        sums,
        left,
      ),
    )
  where
    leb_true : (n : ℕ) → n ≤ max_key_shares_per_set → leb n max_key_shares_per_set ≡ true
    leb_true n h = ground (arith, h)

    at_most :
        (t r len : ℕ) → r ≡ min t max_key_shares_per_set → len ≤ r → len ≤ max_key_shares_per_set
    at_most t r len sums h = ground (arith, sums, h)
