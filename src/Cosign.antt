-- ===== src/Cosign.antt =====
-- coordinator/src/substrate/cosign.rs: which blocks of the chain the coordinator asks its validator
-- sets to cosign.
mod Types
mod Samples
pub mod Events
pub mod Window
pub mod Cosigners
pub mod Scanning
pub mod Advance
pub mod Asking
pub mod Answers
pub mod Evaluator
pub mod Quorum
pub mod Keeping
pub mod Handling
pub mod Distinct
pub mod Restart
pub use Types.*
use serai.Common.{
  ℕ, zero, suc, ◌+◌, ◌-◌, ◌%◌, min, Bool, true, false, not, ◌&&◌, ◌||◌, Option, none, some, List,
  [], ◌∷◌, ◌++◌, ◌==◌, ltb, leb, if◌then◌else◌, Map, lookup, insert, erase, nat_eq, beq, Outcome,
  Action, ok, err, panic, ◌>>=◌, ◌>>◌, pure, gets, modify, unwrap, assert, u64_mod,
}
use serai.Primitives.{NetworkId, networks}
use serai.ValidatorSets.{ValidatorSet}
use Types.{
  HasEvents, SeraiError, Block, Serai, CosignTransaction, Db, Txn, Answer, ask, or_default,
  cosign_distance,
}

-- The prior intended block is cleared.
abbrev pub set_intended_cosign : ℕ → Db → Db
set_intended_cosign n s = record s { intended_cosign = some (n, none) }

abbrev is_none : Option ℕ → Bool
is_none none = true
is_none (some n) = false

unfoldable pub set_skipped_cosign : ℕ → Txn (Unit {0})
set_skipped_cosign skipped = do
  held ← gets (λ s. s.intended_cosign)
  (intended, prior_skipped) ← unwrap held
  assert (is_none prior_skipped)
  modify (λ s. record s { intended_cosign = some (intended, some skipped) })

abbrev pub at_least_one : ℕ → ℕ
at_least_one zero = 1
at_least_one (suc n) = suc n

abbrev pub latest_cosigned_block : Db → ℕ
latest_cosigned_block s = at_least_one (or_default 0 s.latest_cosigned_block)

abbrev set_latest : ℕ → Db → Db
set_latest n s = record s { latest_cosigned_block = some n }

abbrev pub is_no : HasEvents → Bool
is_no HasEvents.no = true
is_no HasEvents.yes = false
is_no HasEvents.key_gen = false

abbrev pub is_yes : HasEvents → Bool
is_yes HasEvents.yes = true
is_yes HasEvents.no = false
is_yes HasEvents.key_gen = false

abbrev pub is_key_gen : HasEvents → Bool
is_key_gen HasEvents.key_gen = true
is_key_gen HasEvents.yes = false
is_key_gen HasEvents.no = false

-- Whether none of the answers is that there are events; the rest is not asked for after one that is.
abbrev all_empty : List (Answer Bool) → Txn Bool
all_empty [] = pure true
all_empty (q ∷ more) =
    let rest = all_empty more in ask q >>= λ any. if any then pure false else rest

abbrev events_if : Bool → HasEvents
events_if true = HasEvents.no
events_if false = HasEvents.yes

abbrev cache_events : ℕ → HasEvents → Txn HasEvents
cache_events n e =
    modify (λ s. record s { block_has_events_cache = insert n e s.block_has_events_cache })
    >> pure e

abbrev find_events : Serai → ℕ → ℕ → Txn HasEvents
find_events serai n hash = do
  key_gens ← ask (serai.key_gen_events hash)
  if key_gens then pure HasEvents.key_gen else (do
    has_no_events ← all_empty (
        serai.burn_with_instruction_events hash
        ∷ serai.batch_events hash
        ∷ serai.new_set_events hash
        ∷ serai.set_retired_events hash
        ∷ [])
    cache_events n (events_if has_no_events))

abbrev events_unless : Serai → ℕ → Option HasEvents → Txn HasEvents
events_unless serai n (some e) = pure e
events_unless serai n none = do
  found ← ask (serai.finalized_block_by_number n)
  block ← unwrap found
  find_events serai n block.hash

unfoldable pub block_has_events : Serai → ℕ → Txn HasEvents
block_has_events serai n = gets (λ s. lookup n s.block_has_events_cache) >>= events_unless serai n

-- A block without events that follows a cosigned one is cosigned.
abbrev follow_cosigned : ℕ → HasEvents → Db → Db
follow_cosigned n e s = if is_no e && (latest_cosigned_block s == n - 1) then set_latest n s else s

abbrev pub is_maximally_latent : ℕ → Option ℕ → Bool
is_maximally_latent n none = false
is_maximally_latent n (some skipped) = n == (skipped + cosign_distance) % u64_mod

-- The skipped block is kept if it is above the one to cosign.
abbrev carry_skipped : ℕ → Option ℕ → Txn (Unit {0})
carry_skipped n none = pure tt
carry_skipped n (some skipped) = if ltb n skipped then set_skipped_cosign n else pure tt

abbrev in_window : ℕ → Option ℕ → HasEvents → Txn Bool
in_window n skipped e =
    if is_key_gen e
    then (modify (set_intended_cosign n) >> carry_skipped n skipped >> pure true)
    else pure false

abbrev after_window : ℕ → Option ℕ → HasEvents → Txn Bool
after_window n skipped e =
    if is_maximally_latent n skipped || not (is_no e)
    then (modify (set_intended_cosign n) >> pure true)
    else pure false

unfoldable pub potentially_cosign_block : Serai → ℕ → Option ℕ → ℕ → Txn Bool
unfolding block_has_events set_skipped_cosign
potentially_cosign_block serai zero skipped window_end_exclusive = pure false
potentially_cosign_block serai (suc n) skipped window_end_exclusive = do
  e ← block_has_events serai (suc n)
  modify (follow_cosigned (suc n) e)
  if ltb (suc n) window_end_exclusive
      then in_window (suc n) skipped e
      else after_window (suc n) skipped e

-- The first block of the window that has events is skipped.
unfoldable pub find_skipped : Serai → (count : ℕ) → ℕ → Txn (Option ℕ)
unfolding block_has_events set_skipped_cosign
find_skipped serai zero b = pure none
find_skipped serai (suc count) b =
    let rest = find_skipped serai count (b + 1) in
    block_has_events serai b >>= λ e.
    if is_yes e then (set_skipped_cosign b >> pure (some b)) else rest

abbrev pub any_is : ℕ → List ℕ → Bool
any_is key [] = false
any_is key (p ∷ ps) = (p == key) || any_is key ps

abbrev pub member : ℕ → Option (List ℕ) → Option Bool
member key none = none
member key (some ps) = some (any_is key ps)

-- `in_set` of coordinator/src/substrate/mod.rs
abbrev pub in_set : ℕ → Serai → ℕ → ValidatorSet → Txn (Option Bool)
in_set key serai hash set = ask (serai.participants hash set.0) >>= λ ps. pure (member key ps)

-- The latest session to have set keys, as of the block.
abbrev pub latest_with_keys : Serai → ℕ → NetworkId → ℕ → Option ℕ → Txn (Option ValidatorSet)
latest_with_keys serai hash net latest (some k) = pure (some (net, latest - 1))
latest_with_keys serai hash net latest none = do
  held ← ask (serai.keys hash (net, latest))
  pure (elim held [ none ↦ none | some k ↦ some (net, latest) ])

abbrev set_with_keys : Serai → ℕ → NetworkId → Option ℕ → Txn (Option ValidatorSet)
set_with_keys serai hash net none = pure none
set_with_keys serai hash net (some latest) =
    ask (serai.keys hash (net, latest - 1)) >>= latest_with_keys serai hash net latest

abbrev cosigner_of : ℕ → Serai → ℕ → Option ValidatorSet → Txn (List (ValidatorSet × Bool))
cosigner_of key serai hash none = pure []
cosigner_of key serai hash (some set) = do
  member ← in_set key serai hash set
  ours ← unwrap member
  pure ((set, ours) ∷ [])

-- The sets that cosign, with whether we are in them.
unfoldable pub cosigners : ℕ → Serai → ℕ → List NetworkId → Txn (List (ValidatorSet × Bool))
cosigners key serai hash [] = pure []
cosigners key serai hash (net ∷ nets) = do
  latest ← ask (serai.session hash net)
  set ← set_with_keys serai hash net latest
  first ← cosigner_of key serai hash set
  rest ← cosigners key serai hash nets
  pure (first ++ rest)

-- The block to cosign, its hash, and who cosigns it.
pub record ToCosign : Type 0 where
  pub number : ℕ
  pub hash : ℕ
  pub cosigning : List (ValidatorSet × Bool)

abbrev choose : ℕ → Serai → ℕ → Block → Txn (Option ToCosign)
choose key serai n block = do
  cosigning ← cosigners key serai block.parent_hash networks
  pure (some (record { number = n; hash = block.hash; cosigning = cosigning }))

-- The block is left behind.
abbrev pass : ℕ → Db → Db
pass n s = record s {
  scan_cosign_from = some ((n + 1) % u64_mod);
  block_has_events_cache = erase n s.block_has_events_cache;
}

-- The blocks from `n` on, up to the first to cosign.
unfoldable pub scan : ℕ → Serai → Option ℕ → ℕ → (count : ℕ) → ℕ → Txn (Option ToCosign)
unfolding potentially_cosign_block cosigners
scan key serai skipped window zero n = pure none
scan key serai skipped window (suc count) n =
    let rest = modify (pass n) >> scan key serai skipped window count (n + 1) in
    do
      found ← ask (serai.finalized_block_by_number n)
      block ← unwrap found
      modify (λ s. record s { serai_block_number = insert block.hash n s.serai_block_number })
      to_cosign ← potentially_cosign_block serai n skipped window
      if to_cosign then choose key serai n block else rest

abbrev append_cosign : ℕ → ℕ → List (ValidatorSet × Bool) → List CosignTransaction
append_cosign number hash [] = []
append_cosign number hash ((set, ours) ∷ more) =
    if ours
    then (record { network = set.0; session = set.1; number = number; hash = hash })
      ∷ append_cosign number hash more
    else append_cosign number hash more

-- Without cosigners, the block is cosigned.
abbrev announce : Option ToCosign → Db → Db
announce none s = s
announce (some c) s = elim c.cosigning [
  | [] ↦ set_latest c.number s
  | _ ∷ _ ↦ record s {
    cosign_transactions = s.cosign_transactions ++ append_cosign c.number c.hash c.cosigning;
  }
]

abbrev initial_intended_cosign : ℕ
initial_intended_cosign = 1

abbrev begin_intended : Db → Db
begin_intended s = elim s.intended_cosign [
  | none ↦ set_intended_cosign initial_intended_cosign s
  | some i ↦ s
]

abbrev pub window_end : ℕ → ℕ
window_end last = if last == initial_intended_cosign then 1 else (last + cosign_distance) % u64_mod

abbrev pub max : ℕ → ℕ → ℕ
max a b = if leb a b then b else a

abbrev pub scan_start : ℕ → Db → ℕ
scan_start last s = max ((last + 1) % u64_mod) (or_default 1 s.scan_cosign_from)

abbrev pub window_end_inclusive : ℕ → ℕ
window_end_inclusive window = (window + (u64_mod - 1)) % u64_mod

abbrev skip : Serai → ℕ → ℕ → ℕ → Option ℕ → Txn (Option ℕ)
skip serai start window latest_number (some n) = pure (some n)
skip serai start window latest_number none =
    find_skipped serai (min (window_end_inclusive window) latest_number + 1 - start) start

unfoldable pub advance_txn : ℕ → Serai → ℕ → Txn (Unit {0})
unfolding find_skipped scan
advance_txn key serai latest_number = do
  modify begin_intended
  held ← gets (λ s. s.intended_cosign)
  (last, skipped) ← unwrap held
  start ← gets (scan_start last)
  skipped_block ← skip serai start (window_end last) latest_number skipped
  to_cosign ← scan key serai skipped_block (window_end last) (latest_number + 1 - start) start
  modify (announce to_cosign)

-- An error drops the transaction.
unfoldable pub advance_cosign_protocol_inner : ℕ → Serai → ℕ → Txn (Unit {0})
unfolding advance_txn
advance_cosign_protocol_inner key serai latest_number s =
    elim (advance_txn key serai latest_number s).0 [
      | ok _ ↦ (ok tt, (advance_txn key serai latest_number s).1)
      | err e ↦ (err e, s)
      | panic ↦ (panic, s)
    ]
