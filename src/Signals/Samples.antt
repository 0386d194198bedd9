-- ===== src/Signals/Samples.antt =====
-- A chain and a storage at which the theorems on the signals pallet apply.
use serai.Common.{
  ℕ, ◌+◌, ◌*◌, ◌%◌, ◌≤◌, ◌≡◌, ◌↔◌, refl, Bool, true, none, some, [], ◌∷◌, arith, lookup,
  contains_key, nat_eq, pair_eq, u64_mod, ==_iff, ok,
}
use serai.Primitives.{NetworkId, network_eq}
use serai.Signals.Types.{
  SignalId, signal_eq, Sets, in_latest_decided_set, RegisteredRetirementSignal, Chain, Storage,
  favoring,
}
use serai.Signals.{favor, tally_for_network, put_favor, revoke_retirement_signal}
use serai.Signals.Tally.{votes, HasAllocations, tally_for_network_lem}
use serai.Signals.Locking.{Voted, favor_cases}
use serai.Signals.Calls.{Call, dispatch, Persists, dispatch-Persists}

abbrev sets : Sets
sets = record {
  current_session = (NetworkId.bitcoin, 0) ∷ [];
  in_set = ((NetworkId.bitcoin, 1), 1) ∷ [];
  total_allocated_stake = (NetworkId.bitcoin, 100) ∷ [];
  allocations = ((NetworkId.bitcoin, 1), 90) ∷ [];
}

abbrev chain : Chain
chain = record {
  block_number = 20;
  validity_duration = 50;
  lock_in_duration = 60;
  signal_hash = λ s. s.in_favor_of;
  sets = sets;
}

abbrev signal_of : RegisteredRetirementSignal
signal_of = record { in_favor_of = 8; registrant = 1; registered_at = 10 }

abbrev proposed : Storage
proposed = record {
  registered = (8, signal_of) ∷ [];
  favors = [];
  sets_in_favor = [];
  locked_in = none;
  halted = [];
  events = [];
}

-- The only validator favors the signal, of whose network it holds most of the stake.
abbrev carried : Storage
carried = (favor chain (some 1) (SignalId.retirement 8) NetworkId.bitcoin proposed).1

abbrev locked : Storage
locked = record proposed { locked_in = some (8, 80) }

abbrev revoked : Storage
revoked = (dispatch chain (some 1) (Call.revokes 8) locked).1

sets-HasAllocations : HasAllocations sets NetworkId.bitcoin
sets-HasAllocations who h = ground (arith, ==_iff 1 who)

tally_for_network_lem_example :
    (b : Bool) × (s' : Storage) × (tally_for_network chain
        (SignalId.retirement 8)
        NetworkId.bitcoin
        proposed
      ≡ (ok b, s'))
    × ((b ≡ true) ↔ (
        100 * 4
        ≤ votes chain.sets NetworkId.bitcoin
            (favoring (SignalId.retirement 8) NetworkId.bitcoin proposed.favors)
          * 5))
    × (contains_key ((SignalId.retirement 8), (NetworkId.bitcoin, 0)) s'.sets_in_favor ≡ b)
    × (s'.favors ≡ proposed.favors)
    × (s'.locked_in ≡ proposed.locked_in)
    × (s'.registered ≡ proposed.registered)
tally_for_network_lem_example =
    tally_for_network_lem chain (SignalId.retirement 8) NetworkId.bitcoin proposed 0 100
      sets-HasAllocations tt refl refl (omega arith)

favor_cases_example :
    (account : ℕ) × (signal : RegisteredRetirementSignal) × ((some 1) ≡ some account)
    × (proposed.locked_in ≡ none)
    × (lookup 8 proposed.registered ≡ some signal)
    × (chain.block_number ≤ (signal.registered_at + chain.validity_duration) % u64_mod)
    × (in_latest_decided_set NetworkId.bitcoin account chain.sets ≡ true)
    × Voted chain 8 NetworkId.bitcoin
        (put_favor (SignalId.retirement 8) NetworkId.bitcoin account proposed)
        carried
unfolding favor
favor_cases_example = favor_cases chain (some 1) 8 NetworkId.bitcoin proposed carried refl

dispatch-Persists_example : Persists (some 1) (Call.revokes 8) (8, 80) locked revoked
unfolding dispatch revoke_retirement_signal
dispatch-Persists_example =
    dispatch-Persists chain (some 1) (Call.revokes 8) (8, 80) locked revoked refl refl
