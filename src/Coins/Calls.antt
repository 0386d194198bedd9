-- ===== src/Coins/Calls.antt =====
-- The dispatchable calls as one entry point.
use serai.Common.{
  ℕ, ◌≤◌, ◌≡◌, refl, inl, inr, Option, none, some, arith, ◌++◌, modify, map_err, ◌>>◌, Outcome,
  Action, ok, err, panic, List, ◌∷◌, [],
}
use serai.Primitives.{Coin, Balance, coin_eq}
use serai.Coins.Types.{Config, Storage, Event, OutInstructionWithBalance, supply_of}
use serai.Coins.{
  DispatchError, of_pallet, transfer, burn, burn_with_instruction, transfer_internal, burn_internal,
}
use serai.Coins.Invariant.{IsSound}
use serai.Coins.Mint.{burn_cases}
use serai.Coins.Transfers.{transfer_cases}

pub data Call : Type 0 where
  transfers : ℕ → Balance → Call
  burns : Balance → Call
  burns_with_instruction : OutInstructionWithBalance → Call

pub dispatch : Config → Option ℕ → Call → Action Storage DispatchError (Unit {0})
dispatch cfg origin (Call.transfers to b) = transfer origin to b
dispatch cfg origin (Call.burns b) = burn origin b
dispatch cfg origin (Call.burns_with_instruction i) = burn_with_instruction cfg origin i

-- What a call has done, by how it ended: kept the storage sound and raised no supply, or changed
-- nothing. A panic is excluded.
abbrev pub Settles : Storage → Outcome DispatchError (Unit {0}) × Storage → Type 0
Settles s (ok _, s') = IsSound s' × ((c : Coin) → supply_of c s' ≤ supply_of c s)
Settles s (err e, s') = s' ≡ s
Settles s (panic, s') = ⊥

IsSound-events : (s : Storage) (es : List Event) → IsSound s → IsSound (record s { events = es })
IsSound-events s es v = record { backed = v.backed; bounded = v.bounded; distinct = v.distinct }

transfer-eq-ok :
    (from to : ℕ) (b : Balance) (s : Storage)
    → (transfer_internal from to b s).0 ≡ ok tt
    → transfer (some from) to b s ≡ (ok tt, (transfer_internal from to b s).1)
unfolding transfer
transfer-eq-ok from to b s e = ground (arith, e)

transfer-Settles :
    (from to : ℕ) (b : Balance) (s : Storage) → IsSound s → Settles s (transfer (some from) to b s)
unfolding transfer
transfer-Settles from to b s v = elim (transfer_cases from to b s v) [
  | inl (_, r, same) ↦ ground (arith, r)
  | inr (_, r, sound, same, _) ↦
      rw (transfer-eq-ok from to b s r) (sound, λ c. rw same (omega arith))
]

-- A burn, and the event that either call leaves after it.
burn_event : (b : Balance) (from : ℕ) (e : Event) → Action Storage DispatchError (Unit {0})
burn_event b from e = do
  map_err of_pallet (burn_internal from b)
  modify (λ s. record s { events = s.events ++ e ∷ [] })

burn_event-eq-ok :
    (b : Balance) (from : ℕ) (e : Event) (s : Storage)
    → (burn_internal from b s).0 ≡ ok tt
    → burn_event b from e s ≡ (
      ok tt,
      record (burn_internal from b s).1 { events = (burn_internal from b s).1.events ++ e ∷ [] },
    )
unfolding burn_event
burn_event-eq-ok b from e s r = ground (arith, r)

burn_event-Settles :
    (b : Balance) (from : ℕ) (e : Event) (s : Storage)
    → IsSound s
    → Settles s (burn_event b from e s)
unfolding burn_event
burn_event-Settles b from e s v = elim (burn_cases from b s v) [
  | inl (_, r, same) ↦ ground (arith, r)
  | inr (_, r, sound, less, _) ↦ rw (burn_event-eq-ok b from e s r) (
    IsSound-events (burn_internal from b s).1 ((burn_internal from b s).1.events ++ e ∷ []) sound,
    λ c. omega (arith, less c),
  )
]

-- Every call on a sound storage, by any origin, succeeds and keeps it sound without raising a
-- supply, or fails and changes nothing; none panics.
pub dispatch-Settles :
    (cfg : Config) (origin : Option ℕ) (call : Call) (s : Storage)
    → IsSound s
    → Settles s (dispatch cfg origin call s)
unfolding dispatch transfer burn burn_with_instruction burn_event
dispatch-Settles cfg none (Call.transfers to b) s v = refl
dispatch-Settles cfg (some from) (Call.transfers to b) s v = transfer-Settles from to b s v
dispatch-Settles cfg none (Call.burns b) s v = refl
dispatch-Settles cfg (some from) (Call.burns b) s v =
    burn_event-Settles b from (Event.burn from b) s v
dispatch-Settles cfg none (Call.burns_with_instruction i) s v = ground arith
dispatch-Settles cfg (some from) (Call.burns_with_instruction i) s v =
    ground (arith, burn_event-Settles i.balance from (Event.burn_with_instruction from i) s v)

-- A burn with an instruction that another pallet makes.
pub burn_with_instruction-Settles :
    (cfg : Config) (origin : Option ℕ) (i : OutInstructionWithBalance) (s : Storage)
    → IsSound s
    → Settles s (burn_with_instruction cfg origin i s)
unfolding dispatch
burn_with_instruction-Settles cfg origin i s v =
    dispatch-Settles cfg origin (Call.burns_with_instruction i) s v
