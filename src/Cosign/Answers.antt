-- ===== src/Cosign/Answers.antt =====
-- coordinator/src/substrate/cosign.rs: a call of `advance_cosign_protocol_inner` on a node that answers.
use serai.Common.{
  ℕ, zero, suc, ◌+◌, ◌-◌, ◌≤◌, ◌<◌, ◌≡◌, refl, sym, subst, Bool, true, false, Option, none, some,
  List, [], ◌∷◌, ◌++◌, arith, min, if◌then◌else◌, insert, nat_eq, Outcome, ok, err, panic, ◌>>=◌,
  ◌>>◌, pure, modify, unwrap,
}
use serai.Primitives.{NetworkId, networks}
use serai.ValidatorSets.{ValidatorSet}
use serai.Cosign.{
  window_end_inclusive, SeraiError, Block, Serai, Db, Txn, ask, potentially_cosign_block, scan,
  choose, pass, ToCosign, cosigners, cosigner_of, set_with_keys, advance_txn,
  advance_cosign_protocol_inner, skip, begin_intended, scan_start, window_end, announce,
}
use serai.Cosign.Advance.{intended_of, begin_intended_lem, begin_intended-IsCached, after_intended}
use serai.Cosign.Events.{IsCached}
use serai.Cosign.Asking.{
  IsAnswering, IsOk, IsOk->>=, IsOk-bind, min_bound, potentially_cosign_block-IsOk,
  find_skipped-IsOk,
}

module _ (serai : Serai) (latest : ℕ) (answers : IsAnswering serai latest) where
  -- The participants of a set that is found are named.
  abbrev AreNamed : ℕ → Option ValidatorSet → Type 0
  AreNamed hash none = Unit
  AreNamed hash (some set) = (ps : List ℕ) × (serai.participants hash set.0 ≡ some (some ps))

  set_with_keys-IsOk :
      (hash : ℕ) (net : NetworkId) (held : Option ℕ) (s : Db)
      → serai.session hash net ≡ some held
      → (o : Option ValidatorSet) × (set_with_keys serai hash net held s ≡ (ok o, s))
        × AreNamed hash o
  set_with_keys-IsOk hash net none s e = (none, refl, tt)
  set_with_keys-IsOk hash net (some k) s e =
      let named : (ps : List ℕ) × (serai.participants hash net ≡ some (some ps)) =
        answers.members hash net k e in
      let (prior, known) = answers.key_sets hash (net, k - 1) in
      let (now, known') = answers.key_sets hash (net, k) in found prior now known known' named
    where
      Named : Type 0
      Named = (ps : List ℕ) × (serai.participants hash net ≡ some (some ps))

      found :
          (prior now : Option ℕ)
          → serai.keys hash (net, k - 1) ≡ some prior
          → serai.keys hash (net, k) ≡ some now
          → Named
          → (o : Option ValidatorSet) × (set_with_keys serai hash net (some k) s ≡ (ok o, s))
            × AreNamed hash o
      found (some p) now h h' named = (some (net, k - 1), ground (arith, h), named)
      found none none h h' named = (none, ground (arith, h, h'), tt)
      found none (some q) h h' named = (some (net, k), ground (arith, h, h'), named)

  cosigner_of-IsOk :
      (key hash : ℕ) (o : Option ValidatorSet) (s : Db)
      → AreNamed hash o
      → IsOk (cosigner_of key serai hash o s)
  cosigner_of-IsOk key hash none s named = tt
  cosigner_of-IsOk key hash (some set) s (ps, named) = ground (arith, named)

  cosigners-IsOk :
      (key hash : ℕ) (nets : List NetworkId) (s : Db) → IsOk (cosigners key serai hash nets s)
  unfolding cosigners
  cosigners-IsOk key hash [] s = tt
  cosigners-IsOk key hash (net ∷ nets) s =
      let (held, known) = answers.sessions hash net in
      let (o, found, named) = set_with_keys-IsOk hash net held s known in
      let after : Option ValidatorSet → Txn (List (ValidatorSet × Bool)) = λ set.
        cosigner_of key serai hash set >>= λ first.
        cosigners key serai hash nets >>= λ rest. pure (first ++ rest) in
      subst (λ a. IsOk ((ask a >>= λ held. set_with_keys serai hash net held >>= after) s))
        (sym known)
        (IsOk-bind (set_with_keys serai hash net held) after s o s found (
          IsOk->>= (cosigner_of key serai hash o)
            (λ first. cosigners key serai hash nets >>= λ rest. pure (first ++ rest)) s
            (cosigner_of-IsOk key hash o s named)
            (λ first t _.
              IsOk->>= (cosigners key serai hash nets) (λ rest. pure (first ++ rest)) t
                (cosigners-IsOk key hash nets t) (λ _ _ _. tt))))

  scan-IsOk :
      (key window : ℕ) (skipped : Option ℕ) (count n : ℕ) (s : Db)
      → (0 < count → n + count ≤ latest + 1)
      → IsOk (scan key serai skipped window count n s)
  unfolding scan
  scan-IsOk key window skipped zero n s bound = tt
  scan-IsOk key window skipped (suc count) n s bound =
      let (block, known) = answers.blocks n (omega (arith, bound (omega arith))) in
      let rest : Txn (Option ToCosign) =
        modify (pass n) >> scan key serai skipped window count (n + 1) in
      let found : Option Block → Txn (Option ToCosign) = λ found. unwrap found >>= λ block.
      modify (λ s. record s { serai_block_number = insert block.hash n s.serai_block_number })
      >> (potentially_cosign_block serai n skipped window >>= λ r.
          if r then choose key serai n block else rest) in
      subst (λ a. IsOk ((ask a >>= found) s)) (sym known)
        (let s₁ : Db = record s { serai_block_number = insert block.hash n s.serai_block_number } in
          IsOk->>= (potentially_cosign_block serai n skipped window)
            (λ r. if r then choose key serai n block else rest) s₁
            (potentially_cosign_block-IsOk serai latest answers window skipped n s₁
              (omega (arith, bound (omega arith))))
            (λ r t _. goes block r t (
              scan-IsOk key window skipped count (n + 1) (pass n t)
                (λ _. omega (arith, bound (omega arith))))))
    where
      goes :
          (block : Block) (r : Bool) (t : Db)
          → IsOk (scan key serai skipped window count (n + 1) (pass n t))
          → IsOk (
              (if r
                  then choose key serai n block
                  else (modify (pass n) >> scan key serai skipped window count (n + 1)))
                t)
      goes block true t rest =
          IsOk->>= (cosigners key serai block.parent_hash networks)
            (λ cosigning.
              pure (some (record { number = n; hash = block.hash; cosigning = cosigning })))
            t (cosigners-IsOk key block.parent_hash networks t) (λ _ _ _. tt)
      goes block false t rest = rest

  skip-IsOk :
      (start window last : ℕ) (stored : Option ℕ) (s : Db)
      → IsCached serai s
      → s.intended_cosign ≡ some (last, stored)
      → IsOk (skip serai start window latest stored s)
  skip-IsOk start window last (some m) s c i = tt
  skip-IsOk start window last none s c i =
      find_skipped-IsOk serai latest answers last
        (min (window_end_inclusive window) latest + 1 - start) start s c i
        (λ some_left.
          min_bound start (min (window_end_inclusive window) latest) latest (ground arith)
            some_left)

  advance_txn-IsOk : (key : ℕ) (s : Db) → IsCached serai s → IsOk (advance_txn key serai latest s)
  unfolding advance_txn
  advance_txn-IsOk key s c =
      let (last, stored) = intended_of s in
      let t : Db = begin_intended s in
      subst (λ o. IsOk ((unwrap {E = SeraiError} o >>= after_intended serai key latest) t))
        (sym (begin_intended_lem serai s))
        (let start : ℕ = scan_start last t in
          IsOk->>= (skip serai start (window_end last) latest stored)
            (λ skipped.
              scan key serai skipped (window_end last) (latest + 1 - start) start >>= λ picked.
              modify (announce picked))
            t
            (skip-IsOk start (window_end last) last stored t (begin_intended-IsCached serai s c).0
              (begin_intended_lem serai s))
            (λ skipped u _.
              IsOk->>= (scan key serai skipped (window_end last) (latest + 1 - start) start)
                (λ picked. modify (announce picked)) u
                (scan-IsOk key (window_end last) skipped (latest + 1 - start) start u
                  (λ left. omega (arith, left)))
                (λ _ _ _. tt)))

  -- Where the node answers every question and has every block up to the latest, and the cache of
  -- events agrees with the chain, a call returns: it neither fails nor panics.
  pub advance_cosign_protocol_inner-IsOk :
      (key : ℕ) (s : Db)
      → IsCached serai s
      → IsOk (advance_cosign_protocol_inner key serai latest s)
  unfolding advance_cosign_protocol_inner
  advance_cosign_protocol_inner-IsOk key s c =
      committed (advance_txn key serai latest s) (advance_txn-IsOk key s c)
    where
      committed :
          (r : Outcome SeraiError (Unit {0}) × Db)
          → IsOk r
          → IsOk (elim r.0 as (λ _. Outcome SeraiError (Unit {0}) × Db) [
            | ok _ ↦ (ok tt, r.1)
            | err e ↦ (err e, s)
            | panic ↦ (panic, s)
          ])
      committed (ok _, u) h = tt
      committed (err e, u) h = absurd h
      committed (panic, u) h = absurd h
