-- ===== src/ValidatorSets/Selecting/Samples.antt =====
-- Two validators who have more key shares than the maximum.
use serai.Common.{◌≤◌, ◌≡◌, refl, some, [], ◌∷◌, arith, lookup, nat_eq, pair_eq, length, ok}
use serai.Common.{All, min}
use serai.Primitives.{NetworkId, network_eq}
use serai.ValidatorSets.{
  Storage, max_key_shares_per_set, post_amortization_key_shares_for_top_validator,
}
use serai.ValidatorSets.Selecting.{
  Validators, sorted_allocations, amortize_excess_key_shares, take_participants, new_set,
}
use serai.ValidatorSets.Selecting.Reducing.{shares_of, top_of}
use serai.ValidatorSets.Selecting.Shares.{AreDescending, take_participants-top}
use serai.ValidatorSets.Selecting.Chosen.{new_set-shares_of}

abbrev validators : Validators
validators = (1, 1400) ∷ (2, 200) ∷ []

abbrev two_allocated : Storage
two_allocated = record {
  current_session = [];
  allocation_per_key_share = (NetworkId.bitcoin, 10) ∷ [];
  in_set = [];
  total_allocated_stake = [];
  allocations = ((NetworkId.bitcoin, 1), 1400) ∷ ((NetworkId.bitcoin, 2), 200) ∷ [];
  sorted = ((NetworkId.bitcoin, 1400), (0, 1)) ∷ ((NetworkId.bitcoin, 200), (0, 2)) ∷ [];
  pending_deallocations = [];
  keys = [];
  pending_slash_report = [];
  participants = [];
  babe = [];
  events = [];
}

-- Ten shares too many are five fewer for each.
reduced : amortize_excess_key_shares (take_participants 10 validators 0) ≡ (1, 135) ∷ (2, 15) ∷ []
unfolding amortize_excess_key_shares take_participants
reduced = refl

descending : AreDescending 10 validators
descending = (omega arith, (omega arith, tt), (omega arith, tt, tt))

new_set-shares_of_example :
    ((new_set NetworkId.bitcoin two_allocated).0 ≡ ok tt)
    × ((ps : Validators) × (lookup NetworkId.bitcoin
            (new_set NetworkId.bitcoin two_allocated).1.participants
          ≡ some ps)
        × (shares_of ps
            ≡ min
                (shares_of (
                  take_participants 10
                    (sorted_allocations NetworkId.bitcoin two_allocated.sorted)
                    0))
                max_key_shares_per_set)
        × All (λ v. 1 ≤ v.1) ps)
new_set-shares_of_example =
    new_set-shares_of NetworkId.bitcoin 10 two_allocated refl (omega arith) (omega arith)
      (omega arith) descending

take_participants-top_example :
    top_of (amortize_excess_key_shares (take_participants 10 validators 0))
    ≡ post_amortization_key_shares_for_top_validator
        (length (take_participants 10 validators 0))
        (top_of (take_participants 10 validators 0))
        (shares_of (take_participants 10 validators 0))
take_participants-top_example =
    take_participants-top 10 validators (omega arith) (omega arith) descending
