-- ===== src/ValidatorSets/Selecting.antt =====
-- substrate/validator-sets/pallet/src/lib.rs and primitives/src/lib.rs: which validators a new set
-- has, and how their key shares are reduced to the maximum.
pub mod Reducing
pub mod Shares
pub mod Chosen
mod Samples
use serai.Common.{
  ℕ, zero, suc, ◌+◌, ◌-◌, ◌*◌, ◌/◌, ◌%◌, Bool, true, false, not, ◌&&◌, ◌||◌, Option, none, some,
  List, [], ◌∷◌, ◌++◌, ◌==◌, ltb, leb, if◌then◌else◌, length, Map, lookup, insert, beq, nat_eq,
  pair_eq, Action, ◌>>=◌, ◌>>◌, pure, assert, unwrap, gets, modify, u64_mod, min,
}
use serai.Primitives.{NetworkId, network_eq}
use serai.ValidatorSets.Types.{ValidatorSet, Event, Error, SortedKey, Storage, next}
use serai.ValidatorSets.{max_key_shares_per_set, deposit_event}

-- A validator with its key shares, or its stake.
abbrev pub Validators : Type 0
Validators = List (ℕ × ℕ)

abbrev total_key_shares : Validators → ℕ
total_key_shares [] = 0
total_key_shares ((key, shares) ∷ more) = (shares + total_key_shares more) % u64_mod

-- `validators[index].1 -= 1`
abbrev pub reduce_at : ℕ → Validators → Validators
reduce_at index [] = []
reduce_at zero ((key, shares) ∷ more) = (key, (shares + (u64_mod - 1)) % u64_mod) ∷ more
reduce_at (suc index) (v ∷ more) = v ∷ reduce_at index more

-- The rounds of the loop from `i` on.
unfoldable pub reduce_from : (count : ℕ) → ℕ → Validators → Validators
reduce_from zero i validators = validators
reduce_from (suc count) i validators =
    reduce_from count (i + 1)
      (reduce_at (length validators - (i % length validators + 1)) validators)

unfoldable pub amortize_excess_key_shares : Validators → Validators
unfolding reduce_from
amortize_excess_key_shares validators =
    reduce_from (total_key_shares validators - max_key_shares_per_set) 0 validators

-- The validators of a network with their allocations, as `SortedAllocationsIter` yields them.
abbrev pub sorted_allocations : NetworkId → List SortedKey → Validators
sorted_allocations net [] = []
sorted_allocations net (((n, amount), (hash, key)) ∷ more) =
    if beq n net then (key, amount) ∷ sorted_allocations net more else sorted_allocations net more

abbrev pub these_key_shares : ℕ → ℕ → ℕ
these_key_shares share amount = min (amount / share) max_key_shares_per_set

-- The validators are taken while there are less key shares than the maximum.
unfoldable pub take_participants : ℕ → Validators → ℕ → Validators
take_participants share [] key_shares = []
take_participants share ((key, amount) ∷ more) key_shares =
    let rest =
      take_participants share more ((key_shares + these_key_shares share amount) % u64_mod) in
    if ltb key_shares max_key_shares_per_set
    then (key, these_key_shares share amount) ∷ rest
    else []

-- The stake of as many validators as are taken.
abbrev stake_of_first : ℕ → Validators → ℕ
stake_of_first zero validators = 0
stake_of_first (suc count) [] = 0
stake_of_first (suc count) ((key, amount) ∷ more) = (amount + stake_of_first count more) % u64_mod

abbrev new_session : Option ℕ → ℕ
new_session none = 0
new_session (some n) = next n

abbrev pub count_in_set : NetworkId → Map (NetworkId × ℕ) ℕ → ℕ
count_in_set net [] = 0
count_in_set net (((n, key), shares) ∷ more) =
    if beq n net then suc (count_in_set net more) else count_in_set net more

abbrev clear_prefix : NetworkId → Map (NetworkId × ℕ) ℕ → Map (NetworkId × ℕ) ℕ
clear_prefix net [] = []
clear_prefix net (((n, key), shares) ∷ more) =
    if beq n net then clear_prefix net more else ((n, key), shares) ∷ clear_prefix net more

abbrev put_in_set : NetworkId → Validators → Map (NetworkId × ℕ) ℕ → Map (NetworkId × ℕ) ℕ
put_in_set net [] m = m
put_in_set net ((key, shares) ∷ more) m = put_in_set net more (insert (net, key) shares m)

unfoldable pub new_set : NetworkId → Action Storage Error (Unit {0})
unfolding amortize_excess_key_shares take_participants
new_set net = do
  session ← gets (λ s. new_session (lookup net s.current_session))
  modify (λ s. record s { current_session = insert net session s.current_session })
  in_set ← gets (λ s. s.in_set)
  modify (λ s. record s { in_set = clear_prefix net s.in_set })
  assert (leb (count_in_set net in_set) max_key_shares_per_set)
  per_share ← gets (λ s. lookup net s.allocation_per_key_share)
  share ← unwrap per_share
  validators ← gets (λ s. sorted_allocations net s.sorted)
  assert (not (share == 0) || (length validators == 0))
  let chosen = take_participants share validators 0 in
      let participants = amortize_excess_key_shares chosen in
      do
        modify (λ s. record s {
          in_set = put_in_set net participants s.in_set;
          total_allocated_stake =
              insert net (stake_of_first (length chosen) validators) s.total_allocated_stake;
        })
        modify (deposit_event (Event.new_set (net, session)))
        assert (leb (length participants) max_key_shares_per_set)
        modify (λ s. record s { participants = insert net participants s.participants })
