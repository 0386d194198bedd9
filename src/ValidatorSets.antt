-- ===== src/ValidatorSets.antt =====
-- substrate/validator-sets/pallet/src/lib.rs: the allocations of stake to networks, with what they
-- wait for to be taken back, and the handover between the sets.
mod Types
pub mod Deallocating
pub mod Unlocking
pub mod Sorting
pub mod Selecting
mod Samples
pub use Types.*
use serai.Common.{
  ℕ, ◌+◌, ◌-◌, ◌*◌, ◌/◌, ◌%◌, Bool, true, false, not, ◌&&◌, ◌||◌, Option, none, some, List, [], ◌∷◌,
  ◌++◌, ◌==◌, ltb, leb, if◌then◌else◌, Map, lookup, insert, erase, contains_key, beq, nat_eq,
  pair_eq, Outcome, Action, ok, err, panic, ◌>>=◌, ◌>>◌, pure, throw, throw_if, assert, ok_or,
  unwrap, gets, modify, checked_sub, u64_mod, min,
}
use Types.{ValidatorSet, KeyPair, Event, Error, SortedKey, Storage, next, previous}
use serai.Primitives.{NetworkId, network_eq}

abbrev pub deposit_event : Event → Storage → Storage
deposit_event e s = record s { events = s.events ++ e ∷ [] }

abbrev pub session : NetworkId → Storage → Option ℕ
session net s = lookup net s.current_session

-- Whether the key of the sorted view comes before another of its network: by the amount in
-- descending order, the hash, and the validator.
abbrev before : SortedKey → SortedKey → Bool
before ((m, a), (h, v)) ((n, b), (i, w)) =
    beq m n && (ltb b a || (a == b && (ltb h i || (h == i && ltb v w))))

abbrev place : SortedKey → List SortedKey → List SortedKey
place k [] = k ∷ []
place k (j ∷ more) = if before k j then k ∷ j ∷ more else j ∷ place k more

abbrev key_beq : SortedKey → SortedKey → Bool
key_beq ((m, a), (h, v)) ((n, b), (i, w)) = beq m n && a == b && h == i && v == w

abbrev take_out : SortedKey → List SortedKey → List SortedKey
take_out k [] = []
take_out k (j ∷ more) = if key_beq j k then more else j ∷ take_out k more

-- `hash` is BLAKE2 of the three.
abbrev sorted_allocation_key : (NetworkId → ℕ → ℕ → ℕ) → NetworkId → ℕ → ℕ → SortedKey
sorted_allocation_key hash net key amount = ((net, amount), (hash net amount key, key))

abbrev remove_prior : (NetworkId → ℕ → ℕ → ℕ) → NetworkId → ℕ → Option ℕ → Storage → Storage
remove_prior hash net key none s = s
remove_prior hash net key (some amount) s = record s {
  allocations = erase (net, key) s.allocations;
  sorted = take_out (sorted_allocation_key hash net key amount) s.sorted;
}

unfoldable pub set_allocation : (NetworkId → ℕ → ℕ → ℕ) → NetworkId → ℕ → ℕ → Storage → Storage
set_allocation hash net key amount s =
    let s₁ = remove_prior hash net key (lookup (net, key) s.allocations) s in
    if amount == 0 then s₁ else (record s₁ {
      allocations = insert (net, key) amount s₁.allocations;
      sorted = place (sorted_allocation_key hash net key amount) s₁.sorted;
    })

abbrev pub max_key_shares_per_set : ℕ
max_key_shares_per_set = 150

-- The amounts that the sorted view has for a network.
abbrev pub amounts : NetworkId → List SortedKey → List ℕ
amounts net [] = []
amounts net (((n, a), _) ∷ more) = if beq n net then a ∷ amounts net more else amounts net more

pub record Count : Type 0 where
  validators_len : ℕ
  top : Option ℕ
  key_shares : ℕ

abbrev top_or : Option ℕ → ℕ → Option ℕ
top_or none n = some n
top_or (some t) n = some t

abbrev count_one : ℕ → ℕ → Count → Count
count_one share a c =
    let key_shares = (c.key_shares + a / share) % u64_mod in
    record {
      validators_len = c.validators_len + 1;
      top = top_or c.top key_shares;
      key_shares = key_shares;
    }

-- The loop breaks once the key shares are over the maximum.
unfoldable pub count_shares : ℕ → List ℕ → Count → Count
count_shares share [] c = c
count_shares share (a ∷ more) c =
    let rest = count_shares share more (count_one share a c) in
    if ltb max_key_shares_per_set (count_one share a c).key_shares
    then count_one share a c
    else rest

abbrev pub post_amortization_key_shares_for_top_validator : ℕ → ℕ → ℕ → ℕ
post_amortization_key_shares_for_top_validator validators top key_shares =
    top - (key_shares - max_key_shares_per_set) / validators

abbrev tolerates : Count → Option ℕ → Bool
tolerates c none = false
tolerates c (some top) =
    ltb (post_amortization_key_shares_for_top_validator c.validators_len top c.key_shares * 3)
      (min c.key_shares max_key_shares_per_set)

-- A key share of zero divides by zero, once a validator is there.
unfoldable pub is_bft : NetworkId → Action Storage Error Bool
unfolding count_shares
is_bft net s = elim (lookup net s.allocation_per_key_share) [
  | none ↦ (panic, s)
  | some share ↦
      let c =
        count_shares share (amounts net s.sorted)
          (record { validators_len = 0; top = none; key_shares = 0 }) in
      if share == 0 && not (c.validators_len == 0) then (panic, s) else (ok (tolerates c c.top), s)
]

abbrev or_zero : Option ℕ → ℕ
or_zero none = 0
or_zero (some n) = n

abbrev pub allocation : NetworkId → ℕ → Storage → ℕ
allocation net who s = or_zero (lookup (net, who) s.allocations)

-- `is_bft`, where the key shares have changed.
abbrev was_bft_if : Bool → NetworkId → Action Storage Error Bool
was_bft_if true net = is_bft net
was_bft_if false net = pure false

-- A set that was tolerant of a fault has to stay so.
abbrev check_bft : Bool → NetworkId → Error → Action Storage Error (Unit {0})
check_bft false net e = pure tt
check_bft true net e = do stays ← is_bft net; throw_if (not stays) e

abbrev raise_stake : NetworkId → ℕ → Storage → Storage
raise_stake net amount s = record s {
  total_allocated_stake =
      insert net ((or_zero (lookup net s.total_allocated_stake) + amount) % u64_mod)
        s.total_allocated_stake;
}

unfoldable increase_allocation :
    (NetworkId → ℕ → ℕ → ℕ) → NetworkId → ℕ → ℕ → Action Storage Error (Unit {0})
unfolding set_allocation is_bft
increase_allocation hash net account amount = do
  old ← gets (allocation net account)
  per_share ← gets (λ s. lookup net s.allocation_per_key_share)
  share ← unwrap per_share
  let new = (old + amount) % u64_mod in
      do
        throw_if (ltb new share) Error.insufficient_allocation
        assert (ltb 0 share)
        was_bft ← was_bft_if (ltb (old / share) (new / share)) net
        modify (set_allocation hash net account new)
        modify (deposit_event (Event.allocation_increased account net amount))
        check_bft was_bft net Error.allocation_would_remove_fault_tolerance
        throw_if (leb (max_key_shares_per_set / 3) (new / share))
            Error.allocation_would_prevent_fault_tolerance
        counts ← gets (λ s. contains_key (net, account) s.in_set)
        if counts then modify (raise_stake net amount) else pure tt

abbrev contains : ℕ → List ℕ → Bool
contains n [] = false
contains n (m ∷ ms) = (m == n) || contains n ms

abbrev is_serai : NetworkId → Bool
is_serai net = beq net NetworkId.serai_network

abbrev pub in_set : NetworkId → ℕ → Storage → Bool
in_set net who s = contains_key (net, who) s.in_set || (is_serai net && contains who s.babe)

-- The next session but one, and for Serai the one after it.
abbrev pub unlocking : NetworkId → ℕ → ℕ
unlocking net n = if is_serai net then next (next (next n)) else next (next n)

abbrev session_to_unlock_on_for_current_set : NetworkId → Storage → Option ℕ
session_to_unlock_on_for_current_set net s = elim (session net s) [
  | none ↦ none
  | some n ↦ some (unlocking net n)
]

abbrev pub pending : NetworkId → ℕ → ℕ → Storage → ℕ
pending net who n s = or_zero (lookup ((net, who), n) s.pending_deallocations)

abbrev delay : NetworkId → ℕ → ℕ → ℕ → Storage → Storage
delay net account amount n s = record s {
  pending_deallocations =
      insert ((net, account), n) ((pending net account n s + amount) % u64_mod)
        s.pending_deallocations;
}

abbrev postpone : NetworkId → ℕ → ℕ → Action Storage Error Bool
postpone net account amount = do
  unlock ← gets (session_to_unlock_on_for_current_set net)
  n ← unwrap unlock
  modify (delay net account amount n)
  modify (deposit_event (Event.allocation_decreased account net amount (some n)))
  pure false

abbrev release_now : NetworkId → ℕ → ℕ → Action Storage Error Bool
release_now net account amount =
    modify (deposit_event (Event.allocation_decreased account net amount none)) >> pure true

-- The decrease to `new`, of which a validator below a key share is not left with anything.
unfoldable pub decrease_to :
    (NetworkId → ℕ → ℕ → ℕ) → NetworkId → ℕ → ℕ → ℕ → ℕ → Action Storage Error Bool
unfolding set_allocation is_bft
decrease_to hash net account amount old new = do
  per_share ← gets (λ s. lookup net s.allocation_per_key_share)
  share ← unwrap per_share
  throw_if (not (new == 0) && ltb new share) Error.deallocation_would_remove_participant
  assert (ltb 0 share)
  was_bft ← was_bft_if (ltb (new / share) (old / share)) net
  modify (set_allocation hash net account new)
  check_bft was_bft net Error.deallocation_would_remove_fault_tolerance
  stays ← gets (in_set net account)
  if stays then postpone net account amount else release_now net account amount

-- The result is whether the stake can be taken back at once.
unfoldable pub decrease_allocation :
    (NetworkId → ℕ → ℕ → ℕ) → (NetworkId → ℕ) → NetworkId → ℕ → ℕ → Action Storage Error Bool
unfolding decrease_to
decrease_allocation hash required net account amount = do
  staked ← gets (λ s. lookup net s.total_allocated_stake)
  total ← unwrap staked
  left ← ok_or (checked_sub total amount) Error.not_enough_allocated
  throw_if (ltb left (required net)) Error.deallocation_would_remove_economic_security
  allocated ← gets (λ s. lookup (net, account) s.allocations)
  old ← ok_or allocated Error.non_existent_validator
  new ← ok_or (checked_sub old amount) Error.not_enough_allocated
  decrease_to hash net account amount old new

-- Whether a session has completed the handover from the one before it.
abbrev handed_over : NetworkId → ℕ → ℕ → Storage → Bool
handed_over net n current s =
    if current == 0
    then true
    else if ltb current n
    then false
    else if current == n
    then is_serai net || not (contains_key (net, previous current) s.keys)
    else true

unfoldable pub handover_completed : NetworkId → ℕ → Storage → Bool
handover_completed net n s = elim (session net s) [
  | none ↦ false
  | some current ↦ handed_over net n current s
]

unfoldable pub take_deallocatable_amount : NetworkId → ℕ → ℕ → Storage → Option ℕ × Storage
unfolding handover_completed
take_deallocatable_amount net n who s =
    if handover_completed net n s
    then (
      lookup ((net, who), n) s.pending_deallocations,
      record s { pending_deallocations = erase ((net, who), n) s.pending_deallocations },
    )
    else (none, s)

abbrev report_prior : NetworkId → ℕ → Storage → Storage
report_prior net n s =
    if contains_key net s.pending_slash_report
    then deposit_event (Event.set_retired (net, previous n)) s
    else s

abbrev take_keys : NetworkId → ℕ → KeyPair → Storage → Storage
take_keys net n k s = record s {
  keys = erase (net, n) s.keys;
  pending_slash_report = insert net k.signing_key s.pending_slash_report;
}

-- The keys of a set of Serai are not taken.
abbrev retire_keys : NetworkId → ℕ → Action Storage Error (Unit {0})
retire_keys net n = do
  held ← gets (λ s. lookup (net, n) s.keys)
  k ← unwrap held
  modify (take_keys net n k)

unfoldable pub retire_set : NetworkId → ℕ → Action Storage Error (Unit {0})
retire_set net n = do
  modify (report_prior net n)
  if is_serai net then pure tt else retire_keys net n
  modify (deposit_event (Event.accepted_handover (net, next n)))
