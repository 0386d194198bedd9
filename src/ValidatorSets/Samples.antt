-- ===== src/ValidatorSets/Samples.antt =====
-- A storage at which the theorems on deallocations apply.
use serai.Common.{
  ℕ, ◌+◌, ◌%◌, ◌≤◌, ◌<◌, ◌≡◌, ◌⊎◌, refl, none, some, [], ◌∷◌, arith, nat_eq, pair_eq, u64_mod,
  ==_iff,
}
use serai.Primitives.{NetworkId, network_eq, network_beq_iff}
use serai.ValidatorSets.{
  Storage, unlocking, pending, decrease_allocation, decrease_to, set_allocation, is_bft,
  count_shares, take_deallocatable_amount,
}
use serai.ValidatorSets.Unlocking.{stake_waits, genesis_unlocks}
use serai.ValidatorSets.Sorting.{IsSynced, IsView, set_allocation-IsView}

abbrev hash : NetworkId → ℕ → ℕ → ℕ
hash net amount key = key

abbrev required : NetworkId → ℕ
required net = 70

abbrev in_session : ℕ → Storage
in_session n = record {
  current_session = (NetworkId.bitcoin, n) ∷ [];
  allocation_per_key_share = (NetworkId.bitcoin, 10) ∷ [];
  in_set = ((NetworkId.bitcoin, 1), 4) ∷ [];
  total_allocated_stake = (NetworkId.bitcoin, 100) ∷ [];
  allocations = ((NetworkId.bitcoin, 1), 40) ∷ [];
  sorted = ((NetworkId.bitcoin, 40), (1, 1)) ∷ [];
  pending_deallocations = [];
  keys = [];
  pending_slash_report = [];
  participants = [];
  babe = [];
  events = [];
}

abbrev decreased : ℕ → Storage
decreased n = (decrease_allocation hash required NetworkId.bitcoin 1 20 (in_session n)).1

abbrev much_later : Storage
much_later = record (decreased 1) { current_session = (NetworkId.bitcoin, 5) ∷ [] }

stake_waits_example :
    ((5 ≤ 1 + 1)
      × (take_deallocatable_amount NetworkId.bitcoin (unlocking NetworkId.bitcoin 1) 1 much_later
          ≡ (none, much_later)))
    ⊎ ((1 + 1 < 5) × (5 ≤ unlocking NetworkId.bitcoin 1))
    ⊎ ((unlocking NetworkId.bitcoin 1 < 5)
        × ((take_deallocatable_amount NetworkId.bitcoin
              (unlocking NetworkId.bitcoin 1)
              1
              much_later).0
            ≡ some (
                (pending NetworkId.bitcoin 1 (unlocking NetworkId.bitcoin 1) (in_session 1) + 20)
                % u64_mod)))
unfolding decrease_allocation decrease_to set_allocation is_bft count_shares
stake_waits_example =
    stake_waits hash required NetworkId.bitcoin 1 20 1 5 (in_session 1) (decreased 1) much_later
      (refl, tt) refl refl (omega arith) (omega arith) refl (omega arith) refl

genesis_unlocks_example :
    (take_deallocatable_amount NetworkId.bitcoin (unlocking NetworkId.bitcoin 0) 1 (decreased 0)).0
    ≡ some (
        (pending NetworkId.bitcoin 1 (unlocking NetworkId.bitcoin 0) (in_session 0) + 20) % u64_mod)
unfolding decrease_allocation decrease_to set_allocation is_bft count_shares
genesis_unlocks_example =
    genesis_unlocks hash required NetworkId.bitcoin 1 20 (in_session 0) (decreased 0) (refl, tt)
      refl refl

in_session-IsSynced : IsSynced hash (in_session 1)
in_session-IsSynced net who a h = ground (
  arith,
  network_beq_iff NetworkId.bitcoin net,
  ==_iff 1 who,
  ==_iff 40 a,
  ==_iff 1 h,
  ==_iff h who,
)

set_allocation-IsView_example :
    IsView hash (set_allocation hash NetworkId.bitcoin 1 25 (in_session 1))
set_allocation-IsView_example =
    set_allocation-IsView hash NetworkId.bitcoin 1 25 (in_session 1)
      ((refl, tt), in_session-IsSynced)
