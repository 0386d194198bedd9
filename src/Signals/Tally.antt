-- ===== src/Signals/Tally.antt =====
-- What the tallies of the signals pallet count.
use serai.Common.{
  ℕ, ◌+◌, ◌-◌, ◌*◌, ◌≤◌, ◌<◌, ◌≡◌, ◌↔◌, ap, Bool, true, false, none, some, List, [], ◌∷◌, lookup,
  contains_key, nat_eq, pair_eq, ==_iff, ◌==◌, if◌then◌else◌, u64_mod, ok, arith, Distinct,
  lookup-erase, contains_key-insert_self, Bool-cases, inl, inr,
}
use serai.Primitives.{NetworkId, network_eq}
use serai.Signals.Types.{
  SignalId, signal_eq, ValidatorSet, Sets, latest_decided_session, in_latest_decided_set, Chain,
  Storage, favoring,
}
use serai.Signals.{
  after_vote, count_favor, requirement, put_in_favor, put_against, tally_for_network,
}

-- The stake that one account brings: its allocation, if it is in the latest decided set.
abbrev vote_of : Sets → NetworkId → ℕ → ℕ
vote_of v net who =
    if in_latest_decided_set net who v
    then (elim (lookup (net, who) v.allocations) [ none ↦ 0 | some n ↦ n ])
    else 0

abbrev pub votes : Sets → NetworkId → List ℕ → ℕ
votes v net [] = 0
votes v net (who ∷ more) = vote_of v net who + votes v net more

-- Each member of the set of a network has an allocation.
abbrev pub HasAllocations : Sets → NetworkId → Type 0
HasAllocations v net =
    (who : ℕ)
    → in_latest_decided_set net who v ≡ true
    → contains_key (net, who) v.allocations ≡ true

after_vote_lem :
    (v : Sets) (net : NetworkId) (who needed : ℕ)
    → HasAllocations v net
    → after_vote v net who needed ≡ some (needed - vote_of v net who)
after_vote_lem v net who needed h = ground (arith, h who)

count_favor_lem :
    (v : Sets) (net : NetworkId) (accounts : List ℕ) (needed : ℕ)
    → HasAllocations v net
    → count_favor v net accounts needed ≡ some (needed - votes v net accounts)
unfolding count_favor
count_favor_lem v net [] needed h = ap some (omega arith)
count_favor_lem v net (who ∷ more) needed h =
    let rest = count_favor_lem v net more (needed - vote_of v net who) h in
    ground (arith, after_vote_lem v net who needed h, rest)

requirement-met :
    (stake n : ℕ) → stake * 4 < u64_mod → ((requirement stake - n ≡ 0) ↔ (stake * 4 ≤ n * 5))
requirement-met stake n h = ground arith

put_in_favor-in :
    (sid : SignalId) (set : ValidatorSet) (s : Storage)
    → contains_key (sid, set) (put_in_favor sid set s).sets_in_favor ≡ true
unfolding put_in_favor
put_in_favor-in sid set s = ground (arith, contains_key-insert_self (sid, set) tt s.sets_in_favor)

put_against-out :
    (sid : SignalId) (set : ValidatorSet) (s : Storage)
    → Distinct s.sets_in_favor
    → contains_key (sid, set) (put_against sid set s).sets_in_favor ≡ false
unfolding put_against
put_against-out sid set s d = ground (
  arith,
  lookup-erase (sid, set) (sid, set) s.sets_in_favor d,
  signal_eq.beq_iff sid sid,
  network_eq.beq_iff set.0 set.0,
  ==_iff set.1 set.1,
)

put_in_favor-keeps :
    (sid : SignalId) (set : ValidatorSet) (s : Storage)
    → ((put_in_favor sid set s).favors ≡ s.favors)
      × ((put_in_favor sid set s).locked_in ≡ s.locked_in)
      × ((put_in_favor sid set s).registered ≡ s.registered)
unfolding put_in_favor
put_in_favor-keeps sid set s = ground arith

put_against-keeps :
    (sid : SignalId) (set : ValidatorSet) (s : Storage)
    → ((put_against sid set s).favors ≡ s.favors)
      × ((put_against sid set s).locked_in ≡ s.locked_in)
      × ((put_against sid set s).registered ≡ s.registered)
unfolding put_against
put_against-keeps sid set s = ground arith

-- A tally for a network with a decided session, a recorded stake of less than `2 ^ 62` and an
-- allocation for each member of its set returns, whatever the order of the votes: it is in favor
-- exactly if the allocations of the members in favor make up 80% of the stake, the set is recorded
-- as in favor exactly then, and the favors, the lock and the registered signals stay.
pub tally_for_network_lem :
    (c : Chain) (sid : SignalId) (net : NetworkId) (s : Storage) (session stake : ℕ)
    → HasAllocations c.sets net
    → Distinct s.sets_in_favor
    → latest_decided_session net c.sets ≡ some session
    → lookup net c.sets.total_allocated_stake ≡ some stake
    → stake * 4 < u64_mod
    → (b : Bool) × (s' : Storage) × (tally_for_network c sid net s ≡ (ok b, s'))
      × ((b ≡ true) ↔ (stake * 4 ≤ votes c.sets net (favoring sid net s.favors) * 5))
      × (contains_key (sid, (net, session)) s'.sets_in_favor ≡ b)
      × (s'.favors ≡ s.favors)
      × (s'.locked_in ≡ s.locked_in)
      × (s'.registered ≡ s.registered)
unfolding tally_for_network
tally_for_network_lem c sid net s session stake h d p q small =
    let n = votes c.sets net (favoring sid net s.favors) in
    let counted = count_favor_lem c.sets net (favoring sid net s.favors) (requirement stake) h in
    let met = requirement-met stake n small in
    let (f, l, r) = put_in_favor-keeps sid (net, session) s in
    let (f', l', r') = put_against-keeps sid (net, session) s in
    elim (Bool-cases (requirement stake - n == 0)) [
      | inl met_it ↦ (
        true,
        put_in_favor sid (net, session) s,
        ground (arith, p, q, counted, met_it),
        ground (arith, met, ==_iff (requirement stake - n) 0, met_it),
        put_in_favor-in sid (net, session) s,
        f,
        l,
        r,
      )
      | inr missed ↦ (
        false,
        put_against sid (net, session) s,
        ground (arith, p, q, counted, missed),
        ground (arith, met, ==_iff (requirement stake - n) 0, missed),
        put_against-out sid (net, session) s d,
        f',
        l',
        r',
      )
    ]
