-- ===== src/Cosign/Evaluator.antt =====
-- coordinator/src/cosign_evaluator.rs: the cosigns that are received, and the blocks that they make
-- final for the coordinator. Each function runs to its end before the next: the locks that are
-- held between them are not modelled.
use serai.Common.{
  ℕ, ◌+◌, ◌*◌, ◌/◌, ◌-◌, ◌%◌, Bool, false, not, ◌||◌, Option, none, some, List, [], ◌∷◌, ◌==◌, ltb,
  leb, if◌then◌else◌, beq, Map, lookup, insert, contains_key, nat_eq, pair_eq, Action, ◌>>=◌, ◌>>◌,
  pure, gets, modify, unwrap, abort, u64_mod,
}
use serai.Primitives.{NetworkId, serai_network, networks, network_eq}
use serai.ValidatorSets.{ValidatorSet}
use serai.Cosign.{Serai, SeraiError, Block, Db, ask, latest_cosigned_block, set_latest, max}

pub record CosignedBlock : Type 0 where
  pub network : NetworkId
  pub block_number : ℕ
  pub block : ℕ
  pub signature : ℕ

-- The database, which the coordinator's own cosigning shares, and what is in memory.
pub record Evaluator : Type 0 where
  pub db : Db
  pub received_cosign : Map (ValidatorSet × ℕ) CosignedBlock
  pub latest_cosign : Map NetworkId CosignedBlock
  pub distinct_chain : Map ValidatorSet (Unit {0})
  pub stakes : Option (Map NetworkId ℕ)
  pub latest_cosigns : Map NetworkId CosignedBlock

abbrev pub Evaluation : Type 0 → Type 0
Evaluation = Action Evaluator SeraiError

-- What the node answers in the end to a question that is asked until it is answered.
pub record Settled : Type 0 where
  pub settled_session : NetworkId → Option ℕ
  pub settled_keys : ValidatorSet → Option ℕ
  pub settled_stake : NetworkId → Option ℕ

-- What a block's cosign is signed for, and the test of a signature by a key.
abbrev pub Verify : Type 0
Verify = ℕ → ℕ × ℕ → ℕ → Bool

abbrev pub sum_values : Map NetworkId ℕ → ℕ
sum_values [] = 0
sum_values ((net, stake) ∷ m) = (stake + sum_values m) % u64_mod

abbrev stake_of : NetworkId → Map NetworkId ℕ → ℕ
stake_of net m = elim (lookup net m) [ none ↦ 0 | some stake ↦ stake ]

-- The stake of the networks whose latest cosign is of the block or a later one.
abbrev pub sum_stake : Map NetworkId ℕ → ℕ → Map NetworkId CosignedBlock → ℕ
sum_stake stakes n [] = 0
sum_stake stakes n ((net, sub_cosign) ∷ m) =
    if leb n sub_cosign.block_number
    then (stake_of net stakes + sum_stake stakes n m) % u64_mod
    else sum_stake stakes n m

abbrev pub needed_stake : ℕ → ℕ
needed_stake total = total * 2 % u64_mod / 3 + 1

abbrev pub reaches : Map NetworkId ℕ → Map NetworkId CosignedBlock → ℕ → Bool
reaches stakes cosigns n =
    (sum_values stakes == 0) || ltb (needed_stake (sum_values stakes)) (sum_stake stakes n cosigns)

-- The highest block, among those of the cosigns that are left, that enough stake has cosigned.
abbrev pub highest_block :
    Map NetworkId ℕ → Map NetworkId CosignedBlock → (left : Map NetworkId CosignedBlock) → ℕ → ℕ
highest_block stakes cosigns [] highest = highest
highest_block stakes cosigns ((net, cosign) ∷ left) highest = highest_block stakes cosigns left (
    if reaches stakes cosigns cosign.block_number then max highest cosign.block_number else highest)

abbrev pub raise : ℕ → Db → Db
raise highest s = if ltb (latest_cosigned_block s) highest then set_latest highest s else s

unfoldable pub update_latest_cosign : Evaluator → Evaluator
update_latest_cosign e = elim e.stakes [
  | none ↦ e
  | some stakes ↦ record e {
    db = raise (highest_block stakes e.latest_cosigns e.latest_cosigns 0) e.db;
  }
]

-- The stakes of the networks that have published a batch.
abbrev gather : Serai → ℕ → List NetworkId → Map NetworkId ℕ → Evaluation (Map NetworkId ℕ)
gather serai hash [] stakes = pure stakes
gather serai hash (net ∷ nets) stakes =
    let skipped = gather serai hash nets stakes in
    do
      batch ← ask (serai.last_batch_for_network hash net)
      elim batch as (λ _. Evaluation (Map NetworkId ℕ)) [
        | none ↦ skipped
        | some id ↦ do
          answer ← ask (serai.total_allocated_stake hash net)
          stake ← unwrap answer
          gather serai hash nets (insert net stake stakes)
      ]

unfoldable update_stakes : Serai → Evaluation (Unit {0})
unfolding update_latest_cosign
update_stakes serai = do
  latest ← ask serai.latest
  stakes ← gather serai latest.1 networks []
  modify (λ e. update_latest_cosign (record e { stakes = some stakes }))

abbrev pub cosign_lifetime : ℕ
cosign_lifetime = 14400

abbrev pub is_superseded : CosignedBlock → Evaluator → Bool
is_superseded cosign e = elim (lookup cosign.network e.latest_cosigns) [
  | none ↦ false
  | some latest ↦ leb cosign.block_number latest.block_number
]

-- `set_with_keys_fn`
abbrev set_with_keys_fn : Serai → ℕ → NetworkId → Evaluation (Option ValidatorSet)
set_with_keys_fn serai hash net = do
  session ← ask (serai.session hash net)
  elim session as (λ _. Evaluation (Option ValidatorSet)) [
    | none ↦ pure none
    | some latest ↦ do
      prior ← ask (serai.keys hash (net, latest - 1))
      pure (some (elim prior [ none ↦ (net, latest) | some key ↦ (net, latest - 1) ]))
  ]

abbrev pub settled_set : Settled → NetworkId → Option ValidatorSet
settled_set later net = elim (later.settled_session net) [
  | none ↦ none
  | some latest ↦ elim (later.settled_keys (net, latest - 1)) [
    | none ↦ some (net, latest)
    | some key ↦ some (net, latest - 1)
  ]
]

-- The whole stake, and the stake on the distinct chain, of the networks but Serai's own. The set
-- is the one of the cosign's network each time.
abbrev pub count_stake :
    Settled → NetworkId → Map ValidatorSet (Unit {0}) → List NetworkId → ℕ × ℕ → ℕ × ℕ
count_stake later cosign_network distinct [] sums = sums
count_stake later cosign_network distinct (net ∷ nets) (total, on_distinct) =
    if beq net serai_network
    then count_stake later cosign_network distinct nets (total, on_distinct)
    else elim (settled_set later cosign_network) [
      | none ↦ count_stake later cosign_network distinct nets (total, on_distinct)
      | some set ↦ elim (later.settled_stake set.0) [
        | none ↦ count_stake later cosign_network distinct nets (total, on_distinct)
        | some stake ↦ count_stake later cosign_network distinct nets (
          (total + stake) % u64_mod,
          if contains_key set distinct then (on_distinct + stake) % u64_mod else on_distinct,
        )
      ]
    ]

abbrev pub is_split : ℕ × ℕ → Bool
is_split (total, on_distinct) = leb (total * 17 % u64_mod / 100) on_distinct

abbrev pub save_cosign : ValidatorSet → CosignedBlock → Evaluator → Evaluator
save_cosign set cosign e = record e {
  received_cosign = insert (set, cosign.block) cosign e.received_cosign;
  latest_cosign = insert set.0 cosign e.latest_cosign;
}

abbrev pub mark_distinct : ValidatorSet → Evaluator → Evaluator
mark_distinct set e = record e { distinct_chain = insert set tt e.distinct_chain }

abbrev pub on_distinct_chain : Settled → CosignedBlock → ValidatorSet → Evaluation (Unit {0})
on_distinct_chain later cosign set = do
  modify (mark_distinct set)
  distinct ← gets (λ e. e.distinct_chain)
  if is_split (count_stake later cosign.network distinct networks (0, 0)) then abort else pure tt

abbrev pub on_our_chain : CosignedBlock → Evaluation (Unit {0})
on_our_chain cosign = modify (λ e.
    update_latest_cosign
      (record e { latest_cosigns = insert cosign.network cosign e.latest_cosigns }))

-- The signature is by the key of the set as of the block before.
abbrev pub check_signed :
    Verify → Serai → Settled → CosignedBlock → Block → Option ValidatorSet → Evaluation (Unit {0})
check_signed verify serai later cosign block none = pure tt
check_signed verify serai later cosign block (some set) = do
  keys ← ask (serai.keys block.parent_hash set)
  elim keys as (λ _. Evaluation (Unit {0})) [
    | none ↦ pure tt
    | some key ↦
        if not (verify key (cosign.block_number, cosign.block) cosign.signature)
        then pure tt
        else (do
          modify (save_cosign set cosign)
          if cosign.block == block.hash
              then on_our_chain cosign
              else on_distinct_chain later cosign set)
  ]

abbrev pub with_block :
    Verify → Serai → Settled → CosignedBlock → Option Block → Evaluation (Unit {0})
with_block verify serai later cosign none = pure tt
with_block verify serai later cosign (some block) = do
  set ← set_with_keys_fn serai block.parent_hash cosign.network
  check_signed verify serai later cosign block set

unfoldable pub handle_new_cosign : Verify → Serai → Settled → CosignedBlock → Evaluation (Unit {0})
unfolding update_latest_cosign
handle_new_cosign verify serai later cosign = do
  superseded ← gets (is_superseded cosign)
  if superseded then pure tt else (do
    latest ← ask serai.latest
    if ltb ((cosign.block_number + cosign_lifetime) % u64_mod) latest.0 then pure tt else (do
      found ← ask (serai.finalized_block_by_number cosign.block_number)
      with_block verify serai later cosign found))

abbrev pub load_cosigns :
    List NetworkId
    → Map NetworkId CosignedBlock
    → Map NetworkId CosignedBlock
    → Map NetworkId CosignedBlock
load_cosigns [] stored loaded = loaded
load_cosigns (net ∷ nets) stored loaded = elim (lookup net stored) [
  | none ↦ load_cosigns nets stored loaded
  | some cosign ↦ load_cosigns nets stored (insert net cosign loaded)
]

-- The evaluator as `new` starts it, on the database that another left.
unfoldable pub new : Evaluator → Evaluator
new e = record e { stakes = none; latest_cosigns = load_cosigns networks e.latest_cosign [] }
