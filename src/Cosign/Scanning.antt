-- ===== src/Cosign/Scanning.antt =====
-- coordinator/src/substrate/cosign.rs: which block the scan of a call of `advance_cosign_protocol_inner` picks.
use serai.Common.{
  ℕ, zero, suc, ◌+◌, ◌<◌, ◌≡◌, refl, sym, ap, ◌∙◌, subst, Bool, true, false, Option, none, some,
  arith, if◌then◌else◌, insert, lookup-erase, erase-Distinct, nat_eq, ◌>>=◌, ◌>>◌, pure, modify,
  unwrap, Ensures, Ensures-inv, Ensures-intro, Ensures->>=,
}
use serai.Primitives.{networks}
use serai.Cosign.{
  HasEvents, Block, Serai, Db, Txn, ask, potentially_cosign_block, scan, choose, pass, ToCosign,
  cosigners, Answer,
}
use serai.Cosign.Cosigners.{AreCosigners, cosigners_lem}
use serai.Cosign.Events.{IsCached, HasKind}
use serai.Cosign.Window.{triggers, carried, Decided, potentially_cosign_block_lem}

module _ (serai : Serai) where
  -- A block that does not trigger, and the ones from `n` on.
  abbrev IsPassed : ℕ → Option ℕ → ℕ → Type 0
  IsPassed window skipped n =
      (e : HasEvents) × HasKind serai n e × (triggers window skipped n e ≡ false)

  abbrev ArePassed : ℕ → Option ℕ → ℕ → ℕ → Type 0
  ArePassed window skipped zero n = Unit
  ArePassed window skipped (suc count) n =
      IsPassed window skipped n × ArePassed window skipped count (n + 1)

  -- The hash is that of the finalized block with the number, and its cosigners are the sets with
  -- keys as of its parent.
  abbrev IsBlock : ℕ → ℕ → ToCosign → Type 0
  IsBlock key n c =
      (b : Block) × (serai.finalized_block_by_number n ≡ some (some b))
      × (c.hash ≡ b.hash)
      × AreCosigners serai b.parent_hash key networks c.cosigning

  -- The scan of `count` blocks from `n` on picks the first that triggers, if any does.
  abbrev pub Scanned : ℕ → ℕ → Option ℕ → ℕ → ℕ → Db → Option ToCosign → Db → Type 0
  Scanned key window skipped count n s none t =
      ArePassed window skipped count n
      × IsCached serai t
      × (t.intended_cosign ≡ s.intended_cosign)
      × (t.cosign_transactions ≡ s.cosign_transactions)
  Scanned key window skipped count n s (some c) t =
      (k : ℕ) × (c.number ≡ n + k)
      × (k < count)
      × ArePassed window skipped k n
      × ((e : HasEvents) × HasKind serai c.number e × (triggers window skipped c.number e ≡ true))
      × IsBlock key c.number c
      × IsCached serai t
      × (t.intended_cosign ≡ some (c.number, carried window skipped c.number))
      × (t.cosign_transactions ≡ s.cosign_transactions)

  abbrev Chosen : ℕ → ℕ → Option ToCosign → Type 0
  Chosen key n o = (c : ToCosign) × (o ≡ some c) × (c.number ≡ n) × IsBlock key n c

  choose_lem :
      (key n : ℕ) (block : Block) (s : Db)
      → serai.finalized_block_by_number n ≡ some (some block)
      → Ensures (λ o t. Chosen key n o × (t ≡ s)) (choose key serai n block s)
  choose_lem key n block s known =
      Ensures->>= (λ sets t. AreCosigners serai block.parent_hash key networks sets × (t ≡ s))
        (λ o t. Chosen key n o × (t ≡ s)) (cosigners key serai block.parent_hash networks)
        (λ cosigning. pure (some (record { number = n; hash = block.hash; cosigning = cosigning })))
        s (cosigners_lem serai block.parent_hash key networks s)
        (λ cosigning t (are, same). (
          (
            record { number = n; hash = block.hash; cosigning = cosigning },
            refl,
            refl,
            (block, known, refl, are),
          ),
          same,
        ))

  pass-IsCached : (n : ℕ) (s : Db) → IsCached serai s → IsCached serai (pass n s)
  pass-IsCached n s (d, h) = (
    erase-Distinct n s.block_has_events_cache d,
    λ m e found. h m e (ground (arith, lookup-erase n m s.block_has_events_cache d, found)),
  )

  -- The scan goes on behind a block that does not trigger.
  scan_behind :
      (key window : ℕ) (skipped : Option ℕ) (count n : ℕ) (s t u : Db) (o : Option ToCosign)
      → IsPassed window skipped n
      → t.intended_cosign ≡ s.intended_cosign
      → t.cosign_transactions ≡ s.cosign_transactions
      → Scanned key window skipped count (n + 1) (pass n t) o u
      → Scanned key window skipped (suc count) n s o u
  scan_behind key window skipped count n s t u none p i w (passed, cached, i', w') =
      ((p, passed), cached, i' ∙ i, w' ∙ w)
  scan_behind key window skipped count n s t u (some c) p i w
        (k, at, few, passed, kind, block, cached, i', w') =
      (suc k, omega (arith, at), omega (arith, few), (p, passed), kind, block, cached, i', w' ∙ w)

  -- The scan ends at a block that triggers.
  scan_chooses :
      (key window : ℕ) (skipped : Option ℕ) (count n : ℕ) (s t : Db) (c : ToCosign)
      → c.number ≡ n
      → (e : HasEvents) × HasKind serai n e × (triggers window skipped n e ≡ true)
      → IsBlock key n c
      → IsCached serai t
      → t.intended_cosign ≡ some (n, carried window skipped n)
      → t.cosign_transactions ≡ s.cosign_transactions
      → Scanned key window skipped (suc count) n s (some c) t
  scan_chooses key window skipped count n s t c at kind block cached i w = (
    0,
    omega (arith, at),
    omega arith,
    tt,
    subst (λ m. (e : HasEvents) × HasKind serai m e × (triggers window skipped m e ≡ true)) (sym at)
        kind,
    subst (λ m. IsBlock key m c) (sym at) block,
    cached,
    i ∙ ap (λ m. some (m, carried window skipped m)) (sym at),
    w,
  )

  pub scan_lem :
      (key window : ℕ) (skipped : Option ℕ) (count n : ℕ) (s : Db)
      → 0 < n
      → IsCached serai s
      → Ensures (Scanned key window skipped count n s) (scan key serai skipped window count n s)
  unfolding scan
  scan_lem key window skipped zero n s positive c = (tt, c, refl, refl)
  scan_lem key window skipped (suc count) n s positive c =
      found (λ t cached. scan_lem key window skipped count (n + 1) t (omega arith) cached)
        (serai.finalized_block_by_number n) refl
    where
      P : Option ToCosign → Db → Type 0
      P = Scanned key window skipped (suc count) n s

      goes : Block → Bool → Txn (Option ToCosign)
      goes block to_cosign =
          if to_cosign
          then choose key serai n block
          else (modify (pass n) >> scan key serai skipped window count (n + 1))

      Rest : Type 0
      Rest =
          (t : Db)
          → IsCached serai t
          → Ensures (Scanned key window skipped count (n + 1) t)
              (scan key serai skipped window count (n + 1) t)

      went :
          Rest
          → (block : Block) (r : Bool) (t : Db)
          → serai.finalized_block_by_number n ≡ some (some block)
          → Decided serai window skipped n
              (record s { serai_block_number = insert block.hash n s.serai_block_number })
              r
              t
          → Ensures P (goes block r t)
      went more block true t known (kind, cached, (from, told), intended) =
          Ensures-intro P (choose key serai n block t) (λ o u e.
            let ((c, chosen, at, is), same) =
              Ensures-inv (λ o u. Chosen key n o × (u ≡ t)) (choose key serai n block t) o u
                (choose_lem key n block t known) e in
            subst (λ o. P o u) (sym chosen)
              (subst (P (some c)) (sym same)
                (scan_chooses key window skipped count n s t c at kind is cached intended told)))
      went more block false t known (kind, cached, (from, told), intended) =
          Ensures-intro P ((modify (pass n) >> scan key serai skipped window count (n + 1)) t)
            (λ o u e. scan_behind key window skipped count n s t u o kind intended told (
              Ensures-inv (Scanned key window skipped count (n + 1) (pass n t)) _ o u
                (more (pass n t) (pass-IsCached n t cached)) e))

      found :
          Rest
          → (a : Answer (Option Block)) → serai.finalized_block_by_number n ≡ a
          → Ensures P (
              (ask a >>= λ found. unwrap found >>= λ block.
              modify
                (λ s. record s { serai_block_number = insert block.hash n s.serai_block_number })
              >> (potentially_cosign_block serai n skipped window >>= goes block))
                s)
      found more none known = tt
      found more (some none) known = tt
      found more (some (some block)) known =
          let s₁ : Db = record s {
            serai_block_number = insert block.hash n s.serai_block_number;
          } in
          Ensures->>= (Decided serai window skipped n s₁) P
            (potentially_cosign_block serai n skipped window) (goes block) s₁
            (potentially_cosign_block_lem serai window skipped n s₁ positive c)
            (λ r t d. went more block r t known d)
