-- ===== src/Signals.antt =====
-- substrate/signals/pallet/src/lib.rs: validators vote to retire the protocol or to halt a network.
-- Each function is an action on the storage, under the chain as the block finds it. Sums and
-- products wrap at 64 bits, as the runtime's release build has them.
use serai.Common.{
  ℕ, ◌+◌, ◌-◌, ◌*◌, ◌%◌, ◌≡◌, Bool, true, false, not, ◌&&◌, Option, none, some, List, [], ◌∷◌, ◌++◌,
  beq, Map, lookup, insert, erase, contains_key, nat_eq, pair_eq, ltb, leb, ◌==◌, if◌then◌else◌,
  div_ceil, u64_mod, saturating_sub, Action, Outcome, ok, err, panic, ◌>>=◌, ◌>>◌, pure, throw,
  throw_if, gets, modify, unwrap, ok_or, assert, abort,
}
use serai.Primitives.{NetworkId, network_eq, networks}
use serai.Signals.Types.{
  SignalId, signal_eq, ValidatorSet, Sets, latest_decided_session, in_latest_decided_set,
  RegisteredRetirementSignal, Event, Error, Chain, Storage, favoring,
}
pub mod Types
pub mod Tally
pub mod Locking
pub mod Calls
mod Samples

abbrev pub deposit_event : Event → Storage → Storage
deposit_event e s = record s { events = s.events ++ e ∷ [] }

abbrev pub build : Chain → Bool
build c = ltb c.validity_duration c.lock_in_duration

-- What is still needed after one account's vote is counted; `none` is the panic of a member of the
-- set with no allocation.
abbrev pub after_vote : Sets → NetworkId → ℕ → ℕ → Option ℕ
after_vote v net who needed =
    if in_latest_decided_set net who v
    then elim (lookup (net, who) v.allocations) [
      | none ↦ none
      | some n ↦ some (saturating_sub needed n)
    ]
    else some needed

-- The loop over those in favor.
unfoldable pub count_favor : Sets → NetworkId → List ℕ → ℕ → Option ℕ
count_favor v net [] needed = some needed
count_favor v net (who ∷ more) needed =
    if needed == 0 then some needed else (elim (after_vote v net who needed) [
      | none ↦ none
      | some needed' ↦ count_favor v net more needed'
    ])

abbrev pub requirement : ℕ → ℕ
requirement stake = div_ceil (stake * 4 % u64_mod) 5

-- The set is in favor.
unfoldable pub put_in_favor : SignalId → ValidatorSet → Storage → Storage
put_in_favor sid set s =
    if contains_key (sid, set) s.sets_in_favor
    then s
    else deposit_event (Event.set_in_favor sid set)
        (record s { sets_in_favor = insert (sid, set) tt s.sets_in_favor })

-- The set is no longer in favor.
unfoldable pub put_against : SignalId → ValidatorSet → Storage → Storage
put_against sid set s =
    if contains_key (sid, set) s.sets_in_favor
    then deposit_event (Event.set_no_longer_in_favor sid set)
        (record s { sets_in_favor = erase (sid, set) s.sets_in_favor })
    else s

abbrev put_tally : SignalId → ValidatorSet → ℕ → Action Storage Error Bool
put_tally sid set needed s =
    if needed == 0 then (ok true, put_in_favor sid set s) else (ok false, put_against sid set s)

unfoldable pub tally_for_network : Chain → SignalId → NetworkId → Action Storage Error Bool
unfolding count_favor put_in_favor put_against
tally_for_network c sid net = do
  session ← unwrap (latest_decided_session net c.sets)
  stake ← unwrap (lookup net c.sets.total_allocated_stake)
  accounts ← gets (λ s. favoring sid net s.favors)
  needed ← unwrap (count_favor c.sets net accounts (requirement stake))
  put_tally sid (net, session) needed

-- The stake in favor and in total, over the networks with a decided set; `none` is the panic of
-- one with no stake recorded.
unfoldable pub stakes :
    Sets
    → SignalId
    → Map (SignalId × ValidatorSet) (Unit {0})
    → List NetworkId
    → ℕ
    → ℕ
    → Option (ℕ × ℕ)
stakes v sid m [] favor total = some (favor, total)
stakes v sid m (net ∷ more) favor total = elim (latest_decided_session net v) [
  | none ↦ stakes v sid m more favor total
  | some session ↦ elim (lookup net v.total_allocated_stake) [
    | none ↦ none
    | some stake ↦
        stakes v sid m more
          (if contains_key (sid, (net, session)) m then (favor + stake) % u64_mod else favor)
          ((total + stake) % u64_mod)
  ]
]

unfoldable pub tally_for_all_networks : Chain → SignalId → Action Storage Error Bool
unfolding stakes
tally_for_all_networks c sid = do
  counted ← gets (λ s. stakes c.sets sid s.sets_in_favor networks 0 0)
  (favor, total) ← unwrap counted
  pure (leb (requirement total) favor)

unfoldable pub revoke_favor_internal :
    Chain → ℕ → SignalId → NetworkId → Action Storage Error (Unit {0})
unfolding tally_for_network
revoke_favor_internal c who sid net = do
  favored ← gets (λ s. contains_key ((sid, net), who) s.favors)
  throw_if (not favored) Error.revoking_non_existent_favor
  modify (λ s.
      deposit_event (Event.favor_revoked sid who net)
        (record s { favors = erase ((sid, net), who) s.favors }))
  tally_for_network c sid net
  pure tt

abbrev is_locked_in : Storage → Bool
is_locked_in s = elim s.locked_in [ none ↦ false | some _ ↦ true ]

abbrev pub ensure_signed : Option ℕ → Action Storage Error ℕ
ensure_signed origin = ok_or origin Error.bad_origin

unfoldable pub register_retirement_signal : Chain → Option ℕ → ℕ → Action Storage Error (Unit {0})
register_retirement_signal c origin in_favor_of = do
  locked ← gets is_locked_in
  throw_if locked Error.retirement_signal_locked_in
  account ← ensure_signed origin
  let signal : RegisteredRetirementSignal = record {
    in_favor_of = in_favor_of;
    registrant = account;
    registered_at = c.block_number;
  }
  let id = c.signal_hash signal
  known ← gets (λ s. contains_key id s.registered)
  throw_if known Error.retirement_signal_already_registered
  modify (deposit_event (Event.retirement_signal_registered id in_favor_of account))
  modify (λ s. record s { registered = insert id signal s.registered })

-- The lock of a signal is removed with it.
abbrev pub unlock : ℕ → Option (ℕ × ℕ) → Option (ℕ × ℕ)
unlock id none = none
unlock id (some (j, at)) = if j == id then none else some (j, at)

unfoldable pub revoke_retirement_signal : Chain → Option ℕ → ℕ → Action Storage Error (Unit {0})
revoke_retirement_signal c origin id = do
  account ← ensure_signed origin
  found ← gets (λ s. lookup id s.registered)
  signal ← ok_or found Error.non_existent_retirement_signal
  throw_if (not (account == signal.registrant)) Error.not_retirement_signal_registrant
  modify (λ s. record s { registered = erase id s.registered; locked_in = unlock id s.locked_in })
  modify (deposit_event (Event.retirement_signal_revoked id))

-- The checks of a retirement signal.
abbrev check_retirement : Chain → SignalId → Action Storage Error (Unit {0})
check_retirement c (SignalId.halt net) = pure tt
check_retirement c (SignalId.retirement id) = do
  locked ← gets is_locked_in
  throw_if locked Error.retirement_signal_locked_in
  found ← gets (λ s. lookup id s.registered)
  signal ← ok_or found Error.non_existent_retirement_signal
  throw_if (ltb ((signal.registered_at + c.validity_duration) % u64_mod) c.block_number)
      Error.expired_retirement_signal

unfoldable pub put_favor : SignalId → NetworkId → ℕ → Storage → Storage
put_favor sid net who s =
    if contains_key ((sid, net), who) s.favors
    then s
    else deposit_event (Event.signal_favored sid who net)
        (record s { favors = insert ((sid, net), who) tt s.favors })

-- What a signal with enough favor does; the event of the halt is the in-instructions pallet's.
abbrev enact : Chain → SignalId → Storage → Storage
enact c (SignalId.retirement id) s =
    deposit_event (Event.retirement_signal_locked id)
      (record s { locked_in = some (id, (c.block_number + c.lock_in_duration) % u64_mod) })
enact c (SignalId.halt net) s =
    deposit_event (Event.halted_network net) (record s { halted = insert net tt s.halted })

abbrev enact_if : Bool → Chain → SignalId → Action Storage Error (Unit {0})
enact_if false c sid = pure tt
enact_if true c sid = modify (enact c sid)

abbrev pub conclude : Bool → Chain → SignalId → Action Storage Error (Unit {0})
conclude false c sid = pure tt
conclude true c sid = tally_for_all_networks c sid >>= λ enough. enact_if enough c sid

unfoldable pub favor : Chain → Option ℕ → SignalId → NetworkId → Action Storage Error (Unit {0})
unfolding tally_for_network tally_for_all_networks put_favor
favor c origin sid net = do
  account ← ensure_signed origin
  check_retirement c sid
  throw_if (not (in_latest_decided_set net account c.sets)) Error.not_validator
  modify (put_favor sid net account)
  in_favor ← tally_for_network c sid net
  conclude in_favor c sid

abbrev is_retirement : SignalId → Bool
is_retirement (SignalId.retirement _) = true
is_retirement (SignalId.halt _) = false

unfoldable pub revoke_favor :
    Chain → Option ℕ → SignalId → NetworkId → Action Storage Error (Unit {0})
unfolding revoke_favor_internal
revoke_favor c origin sid net = do
  locked ← gets is_locked_in
  throw_if (is_retirement sid && locked) Error.retirement_signal_locked_in
  account ← ensure_signed origin
  revoke_favor_internal c account sid net

abbrev check_exists : SignalId → Action Storage Error (Unit {0})
check_exists (SignalId.halt _) = pure tt
check_exists (SignalId.retirement id) = do
  known ← gets (λ s. contains_key id s.registered)
  throw_if (not known) Error.non_existent_retirement_signal

unfoldable pub stand_against :
    Chain → Option ℕ → SignalId → NetworkId → Action Storage Error (Unit {0})
unfolding revoke_favor_internal
stand_against c origin sid net = do
  locked ← gets is_locked_in
  throw_if locked Error.retirement_signal_locked_in
  account ← ensure_signed origin
  favored ← gets (λ s. contains_key ((sid, net), account) s.favors)
  if favored then revoke_favor_internal c account sid net else check_exists sid
  modify (deposit_event (Event.against_signal sid account net))

-- The hook at the start of each block halts the chain where the lock is due.
unfoldable pub on_initialize : ℕ → Action Storage Error (Unit {0})
on_initialize current = do
  locked ← gets (λ s. s.locked_in)
  assert (elim locked [ none ↦ true | some (_, at) ↦ not (at == current) ])
