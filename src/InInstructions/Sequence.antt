-- ===== src/InInstructions/Sequence.antt =====
-- substrate/in-instructions/pallet/src/lib.rs: the batches that blocks include, one after another.
use serai.Common.{
  ℕ, zero, suc, ◌+◌, ◌≤◌, ◌<◌, ◌≡◌, refl, ap, ◌∙◌, Bool, true, false, Option, none, some, List, [],
  ◌∷◌, arith, if◌then◌else◌, Map, lookup, insert, lookup-insert, beq, nat_eq, ok, length, u32_mod,
  Ensures, Ensures-inv, Ensures-intro, Ensures->>=,
}
use serai.Primitives.{NetworkId, network_eq, network_beq_iff}
use serai.InInstructions.{
  SignedBatch, InInstructionWithBalance, Dex, Chain, Storage, validate_unsigned,
  execute_instruction, execute_all, execute_batch, following, attempt,
}
use serai.InInstructions.Accepting.{IsNext, validate_unsigned-IsAccepted}

-- A history from `s`: blocks include batches that are accepted, the newest first, and other calls
-- change anything but the record of the last batches.
pub data History {D : Type 0} (s : Storage D) : List SignedBatch → Storage D → Type 0 where
  start : History s [] s
  included :
      {bs : List SignedBatch} {t u v : Storage D} (c : Chain) (x : Dex D) (b : SignedBatch)
      (tag : NetworkId × ℕ)
      → History s bs t
      → validate_unsigned c b t ≡ (ok tag, u)
      → execute_batch c x none b u ≡ (ok tt, v)
      → History s (b ∷ bs) v
  elsewhere :
      {bs : List SignedBatch} {t u : Storage D}
      → History s bs t
      → u.last_batch ≡ t.last_batch
      → History s bs u

-- The identifiers of the batches of a network.
abbrev pub ids : NetworkId → List SignedBatch → List ℕ
ids net [] = []
ids net (b ∷ bs) = if beq b.batch.network net then b.batch.id ∷ ids net bs else ids net bs

-- n - 1, …, 1, 0.
abbrev pub count_down : ℕ → List ℕ
count_down zero = []
count_down (suc n) = n ∷ count_down n

abbrev last_of : ℕ → Option ℕ
last_of zero = none
last_of (suc n) = some n

following-last_of : (n : ℕ) → n < u32_mod → following (last_of n) ≡ n
following-last_of zero h = refl
following-last_of (suc n) h = omega (arith, h)

fewer :
    (here : Bool) (id : ℕ) (rest : List ℕ)
    → length (if here then id ∷ rest else rest) ≤ u32_mod
    → length rest ≤ u32_mod
fewer true id rest h = omega (arith, h)
fewer false id rest h = h

-- The numbering goes on with the batch that comes next.
numbered :
    (net other : NetworkId) (id : ℕ) (rest : List ℕ) (m : Map NetworkId ℕ) (here : Bool)
    → beq other net ≡ here
    → id ≡ following (lookup other m)
    → rest ≡ count_down (length rest)
    → lookup net m ≡ last_of (length rest)
    → length (if here then id ∷ rest else rest) ≤ u32_mod
    → ((if here then id ∷ rest else rest) ≡ count_down (length (if here then id ∷ rest else rest)))
      × (lookup net (insert other id m) ≡ last_of (length (if here then id ∷ rest else rest)))
numbered net other id rest m false is e down last small =
    (down, lookup-insert other net id m ∙ ground (arith, is, last))
numbered net other id rest m true is e down last small =
    let is_net : other ≡ net = (network_beq_iff other net).0 is in
    let next : id ≡ length rest =
      e
      ∙ ap (λ n. following (lookup n m)) is_net
      ∙ ap following last
      ∙ following-last_of (length rest) (omega (arith, small)) in
    (
      ap (λ n. n ∷ rest) next ∙ ap (λ ns. length rest ∷ ns) down,
      lookup-insert other net id m ∙ ground (arith, is, next),
    )

module _ {D : Type 0} where
  attempt_lem :
      (c : Chain) (x : Dex D) (net : NetworkId) (id index : ℕ) (i : InInstructionWithBalance)
      (s : Storage D)
      → Ensures
          (λ _ t. t.last_batch ≡ s.last_batch)
          (attempt net id index (execute_instruction c x i) s)
  attempt_lem c x net id index i s = ground arith

  execute_all_lem :
      (c : Chain) (x : Dex D) (net : NetworkId) (id index : ℕ) (is : List InInstructionWithBalance)
      (s : Storage D)
      → Ensures (λ _ t. t.last_batch ≡ s.last_batch) (execute_all c x net id index is s)
  unfolding execute_all
  execute_all_lem c x net id index [] s = refl
  execute_all_lem c x net id index (i ∷ more) s =
      Ensures->>= (λ _ t. t.last_batch ≡ s.last_batch) (λ _ t. t.last_batch ≡ s.last_batch)
        (attempt net id index (execute_instruction c x i))
        (λ _. execute_all c x net id (index + 1) more) s (attempt_lem c x net id index i s)
        (λ _ t same.
          Ensures-intro (λ _ u. u.last_batch ≡ s.last_batch)
            (execute_all c x net id (index + 1) more t)
            (λ _ u e.
              Ensures-inv (λ _ u. u.last_batch ≡ t.last_batch) _ tt u
                (execute_all_lem c x net id (index + 1) more t) e
              ∙ same))

  execute_batch_lem :
      (c : Chain) (x : Dex D) (b : SignedBatch) (s : Storage D)
      → Ensures (λ _ t. t.last_batch ≡ s.last_batch) (execute_batch c x none b s)
  unfolding execute_batch
  execute_batch_lem c x b s =
      execute_all_lem c x b.batch.network b.batch.id 0 b.batch.instructions _

  abbrev IsNumbered : NetworkId → List SignedBatch → Storage D → Type 0
  IsNumbered net bs t =
      (ids net bs ≡ count_down (length (ids net bs)))
      × (lookup net t.last_batch ≡ last_of (length (ids net bs)))

  included-IsNumbered :
      (net : NetworkId) (c : Chain) (b : SignedBatch) (bs : List SignedBatch) (t u v : Storage D)
      → IsNext c b.batch t u
      → v.last_batch ≡ u.last_batch
      → length (ids net (b ∷ bs)) ≤ u32_mod
      → IsNumbered net bs t
      → IsNumbered net (b ∷ bs) v
  included-IsNumbered net c b bs t u v (_, next, _, last, _, _) same small (down, is_last) =
      let (numbers, found) =
        numbered net b.batch.network b.batch.id (ids net bs) t.last_batch (beq b.batch.network net)
          refl next down is_last small in
      (numbers, ap (lookup net) (same ∙ last) ∙ found)

  History-IsNumbered :
      (net : NetworkId) (s t : Storage D) (bs : List SignedBatch)
      → lookup net s.last_batch ≡ none
      → length (ids net bs) ≤ u32_mod
      → History s bs t
      → IsNumbered net bs t
  History-IsNumbered net s t bs fresh small start = (refl, fresh)
  History-IsNumbered net s t (b ∷ bs) fresh small
        (included {t = before} {u = during} c x _ tag h accepted done) =
      included-IsNumbered net c b bs before during t
        (validate_unsigned-IsAccepted c b before during tag accepted).3
        (Ensures-inv (λ _ t. t.last_batch ≡ during.last_batch) _ tt t
          (execute_batch_lem c x b during) done)
        small
        (History-IsNumbered net s before bs fresh
          (fewer (beq b.batch.network net) b.batch.id (ids net bs) small) h)
  History-IsNumbered net s t bs fresh small (elsewhere {t = before} h same) =
      let (down, last) = History-IsNumbered net s before bs fresh small h in
      (down, ap (lookup net) same ∙ last)

  -- If nothing was recorded of a network at the start, then the batches of the network that a history
  -- includes, up to 2 ^ 32 of them, are numbered 0, 1, 2 and so on, without a gap or a repetition.
  pub History-ids :
      (net : NetworkId) (s t : Storage D) (bs : List SignedBatch)
      → lookup net s.last_batch ≡ none
      → length (ids net bs) ≤ u32_mod
      → History s bs t
      → ids net bs ≡ count_down (length (ids net bs))
  History-ids net s t bs fresh small h = (History-IsNumbered net s t bs fresh small h).0
