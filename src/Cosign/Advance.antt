-- ===== src/Cosign/Advance.antt =====
-- coordinator/src/substrate/cosign.rs: what a call of `advance_cosign_protocol_inner` has cosigned.
use serai.Common.{
  ℕ, zero, suc, ◌+◌, ◌-◌, ◌%◌, ◌<◌, ◌≡◌, refl, sym, ap, ◌∙◌, subst, Bool, true, false, Option, none,
  some, List, arith, min, if◌then◌else◌, nat_eq, u64_mod, Outcome, ok, err, panic, ◌>>=◌, ◌>>◌,
  pure, gets, modify, unwrap, Ensures, Ensures-inv, Ensures-intro, Ensures->>=, Option-cases, inl,
  inr,
}
use serai.Cosign.{
  window_end_inclusive, HasEvents, SeraiError, Serai, Db, Txn, or_default, block_has_events,
  advance_txn, advance_cosign_protocol_inner, skip, scan_start, window_end, begin_intended,
  announce, max, set_intended_cosign, is_yes, set_skipped_cosign, set_intended_cosign, find_skipped,
  scan, ToCosign, CosignTransaction,
}
use serai.Cosign.Events.{Untouched, Untouched-trans, Found, IsCached, HasKind, block_has_events_lem}
use serai.Cosign.Scanning.{Scanned, scan_lem}

-- The block that is intended to be cosigned, and the block that was skipped for it.
abbrev pub intended_of : Db → ℕ × Option ℕ
intended_of s = elim s.intended_cosign [ none ↦ (1, none) | some i ↦ i ]

module _ (serai : Serai) where
  -- The `count` blocks from `n` on without events, other than those of key generation.
  abbrev AreQuiet : ℕ → ℕ → Type 0
  AreQuiet zero n = Unit
  AreQuiet (suc count) n =
      ((e : HasEvents) × HasKind serai n e × (is_yes e ≡ false)) × AreQuiet count (n + 1)

  -- The block that is skipped: the first of `count` from `n` on that has events, and it is recorded
  -- next to the last intended one.
  abbrev Skips : ℕ → ℕ → ℕ → Option ℕ → Db → Type 0
  Skips last count n none t = AreQuiet count n × (t.intended_cosign ≡ some (last, none))
  Skips last count n (some m) t =
      (k : ℕ) × (m ≡ n + k)
      × (k < count)
      × AreQuiet k n
      × HasKind serai m HasEvents.yes
      × (t.intended_cosign ≡ some (last, some m))

  set_skipped_cosign_lem :
      (last b : ℕ) (s : Db)
      → s.intended_cosign ≡ some (last, none)
      → Ensures {E = SeraiError}
          (λ _ t. (t ≡ record s { intended_cosign = some (last, some b) }))
          (set_skipped_cosign b s)
  unfolding set_skipped_cosign
  set_skipped_cosign_lem last b s i = ground (arith, i)

  yes_lem : (e : HasEvents) → is_yes e ≡ true → e ≡ HasEvents.yes
  yes_lem HasEvents.yes h = refl
  yes_lem HasEvents.no h = absurd (ground (arith, h))
  yes_lem HasEvents.key_gen h = absurd (ground (arith, h))

  Skips-behind :
      (last count n : ℕ) (o : Option ℕ) (t : Db)
      → (e : HasEvents) × HasKind serai n e × (is_yes e ≡ false)
      → Skips last count (n + 1) o t
      → Skips last (suc count) n o t
  Skips-behind last count n none t quiet (all, i) = ((quiet, all), i)
  Skips-behind last count n (some m) t quiet (k, at, few, all, kind, i) =
      (suc k, omega (arith, at), omega (arith, few), (quiet, all), kind, i)

  abbrev Skipped : ℕ → ℕ → ℕ → Db → Option ℕ → Db → Type 0
  Skipped last count n s o t = Skips last count n o t × IsCached serai t × Untouched s t

  find_skipped_lem :
      (last count n : ℕ) (s : Db)
      → IsCached serai s
      → s.intended_cosign ≡ some (last, none)
      → Ensures (Skipped last count n s) (find_skipped serai count n s)
  unfolding find_skipped
  find_skipped_lem last zero n s c i = ((tt, i), c, (refl, refl))
  find_skipped_lem last (suc count) n s c i =
      Ensures->>= (Found serai n s) (Skipped last (suc count) n s) (block_has_events serai n)
        (λ e.
          if is_yes e
          then (set_skipped_cosign n >> pure (some n))
          else find_skipped serai count (n + 1))
        s (block_has_events_lem serai n s c)
        (λ e t (kind, cached, (same, from)).
          goes t (find_skipped_lem last count (n + 1) t cached (same ∙ i)) (is_yes e) e refl kind
            cached (same ∙ i) from)
    where
      goes :
          (t : Db)
          → Ensures (Skipped last count (n + 1) t) (find_skipped serai count (n + 1) t)
          → (yes : Bool) (e : HasEvents) → is_yes e ≡ yes
          → HasKind serai n e
          → IsCached serai t
          → t.intended_cosign ≡ some (last, none)
          → Untouched s t
          → Ensures (Skipped last (suc count) n s) (
              (if yes
                  then (set_skipped_cosign n >> pure (some n))
                  else find_skipped serai count (n + 1))
                t)
      goes t rest true e is kind cached i' from =
          Ensures->>= (λ _ u. u ≡ record t { intended_cosign = some (last, some n) })
            (Skipped last (suc count) n s) (set_skipped_cosign n) (λ _. pure (some n)) t
            (set_skipped_cosign_lem last n t i')
            (λ _ u set. subst (Skipped last (suc count) n s (some n)) (sym set) (
              (0, omega arith, omega arith, tt, subst (HasKind serai n) (yes_lem e is) kind, refl),
              cached,
              from,
            ))
      goes t rest false e is kind cached i' from =
          Ensures-intro (Skipped last (suc count) n s) (find_skipped serai count (n + 1) t)
            (λ o u went.
              let (skips, cached', from') =
                Ensures-inv (Skipped last count (n + 1) t) (find_skipped serai count (n + 1) t) o u
                  rest went in
              (
                Skips-behind last count n o u (e, kind, is) skips,
                cached',
                Untouched-trans s t u from from',
              ))

  -- The skipped block is the recorded one, or it is looked for.
  abbrev SkipsOrKeeps : ℕ → ℕ → ℕ → Option ℕ → Option ℕ → Db → Type 0
  SkipsOrKeeps last count n none o t = Skips last count n o t
  SkipsOrKeeps last count n (some m) o t = (o ≡ some m) × (t.intended_cosign ≡ some (last, some m))

  skip_lem :
      (start window latest last : ℕ) (stored : Option ℕ) (s : Db)
      → IsCached serai s
      → s.intended_cosign ≡ some (last, stored)
      → Ensures
          (λ o t.
            SkipsOrKeeps last
              (min (window_end_inclusive window) latest + 1 - start)
              start
              stored
              o
              t
            × IsCached serai t
            × Untouched s t)
          (skip serai start window latest stored s)
  skip_lem start window latest last none s c i =
      find_skipped_lem last (min (window_end_inclusive window) latest + 1 - start) start s c i
  skip_lem start window latest last (some m) s c i = ((refl, i), c, (refl, refl))

  -- What a call leaves behind: a block is skipped, the first later one that triggers is picked, and
  -- the sets are told of it.
  abbrev pub Advanced : ℕ → ℕ → List CosignTransaction → ℕ → Option ℕ → ℕ → Db → Type 0
  Advanced key latest told last stored start t =
      (skipped : Option ℕ) × (picked : Option ToCosign) × (u v : Db) × SkipsOrKeeps last
        (min (window_end_inclusive (window_end last)) latest + 1 - start) start stored skipped u
      × (u.cosign_transactions ≡ told)
      × Scanned serai key (window_end last) skipped (latest + 1 - start) start u picked v
      × (t ≡ announce picked v)

  pub begin_intended_lem : (s : Db) → (begin_intended s).intended_cosign ≡ some (intended_of s)
  begin_intended_lem s = elim (Option-cases s.intended_cosign) [
    | inl fresh ↦ ground (arith, fresh)
    | inr (i, held) ↦ ground (arith, held)
  ]

  pub begin_intended-IsCached :
      (s : Db)
      → IsCached serai s
      → IsCached serai (begin_intended s) × Untouched s (begin_intended s)
  begin_intended-IsCached s c = begun s.intended_cosign
    where
      begun :
          (o : Option (ℕ × Option ℕ))
          → IsCached serai (elim o as (λ _. Db) [ none ↦ set_intended_cosign 1 s | some i ↦ s ])
            × Untouched s (elim o as (λ _. Db) [ none ↦ set_intended_cosign 1 s | some i ↦ s ])
      begun none = (c, (refl, refl))
      begun (some i) = (c, (refl, refl))

  -- The rest of a call, once the intended block is read.
  abbrev pub after_intended : ℕ → ℕ → ℕ × Option ℕ → Txn (Unit {0})
  after_intended key latest (last, stored) = do
    start ← gets (scan_start last)
    skipped ← skip serai start (window_end last) latest stored
    picked ← scan key serai skipped (window_end last) (latest + 1 - start) start
    modify (announce picked)

  after_intended_lem :
      (key latest last : ℕ) (stored : Option ℕ) (s : Db)
      → IsCached serai s
      → s.intended_cosign ≡ some (last, stored)
      → 0 < scan_start last s
      → Ensures
          (λ _ t. Advanced key latest s.cosign_transactions last stored (scan_start last s) t)
          (after_intended key latest (last, stored) s)
  after_intended_lem key latest last stored s c i positive =
      let start : ℕ = scan_start last s in
      let Goal : Unit {0} → Db → Type 0 =
        λ _ t. Advanced key latest s.cosign_transactions last stored start t in
      Ensures->>=
        (λ o t.
          SkipsOrKeeps last (min (window_end_inclusive (window_end last)) latest + 1 - start) start
            stored o t
          × IsCached serai t
          × Untouched s t)
        Goal (skip serai start (window_end last) latest stored)
        (λ skipped.
          scan key serai skipped (window_end last) (latest + 1 - start) start >>= λ picked.
          modify (announce picked))
        s (skip_lem start (window_end last) latest last stored s c i)
        (λ skipped u (skips, cached, from).
          Ensures->>= (Scanned serai key (window_end last) skipped (latest + 1 - start) start u)
            Goal (scan key serai skipped (window_end last) (latest + 1 - start) start)
            (λ picked. modify (announce picked)) u
            (scan_lem serai key (window_end last) skipped (latest + 1 - start) start u positive
              cached)
            (λ picked v scanned. (skipped, picked, u, v, skips, from.1, scanned, refl)))

  advance_txn_lem :
      (key latest : ℕ) (s : Db)
      → IsCached serai s
      → 0 < scan_start (intended_of s).0 s
      → Ensures
          (λ _ t.
            Advanced key latest s.cosign_transactions
              (intended_of s).0
              (intended_of s).1
              (scan_start (intended_of s).0 s)
              t)
          (advance_txn key serai latest s)
  unfolding advance_txn
  advance_txn_lem key latest s c positive =
      let (last, stored) = intended_of s in
      let t : Db = begin_intended s in
      let (cached, from) = begin_intended-IsCached s c in
      let starts : scan_start last t ≡ scan_start last s =
        ap (λ o. max ((last + 1) % u64_mod) (or_default 1 o)) from.0 in
      subst
        (λ o.
          Ensures
            (λ _ r. Advanced key latest s.cosign_transactions last stored (scan_start last s) r)
            ((unwrap {E = SeraiError} o >>= after_intended key latest) t))
        (sym (begin_intended_lem s))
        (subst
          (λ start.
            Ensures (λ _ r. Advanced key latest s.cosign_transactions last stored start r)
              (after_intended key latest (last, stored) t))
          starts
          (subst
            (λ told.
              Ensures (λ _ r. Advanced key latest told last stored (scan_start last t) r)
                (after_intended key latest (last, stored) t))
            from.1
            (after_intended_lem key latest last stored t cached (begin_intended_lem s)
              (subst (λ start. 0 < start) (sym starts) positive))))

  -- Where the cache of events agrees with the chain and the scan starts above block 0, a call that
  -- returns takes for the skipped block the recorded one, or else the first block with events in what
  -- is left of the window. It picks the first block from the start of the scan on that triggers, so
  -- every block before it is known not to, with the hash of the finalized block of that number, and
  -- for its cosigners, of each network with keys as of the block's parent, the set before the latest
  -- while that has keys and else the latest, each with whether our key is in it. Then the picked block
  -- is the intended one; what is recorded as skipped with it is nothing, unless it lies in the window
  -- and below the skipped block: then it is the picked block itself. The cosign transactions grow by
  -- those of the picked block for the sets that we are in, and without cosigners the block is taken
  -- for cosigned. If none is picked, no block up to the latest triggers, the intended block stays,
  -- with the skipped one next to it, and no cosign transaction is added.
  pub advance_cosign_protocol_inner_lem :
      (key latest : ℕ) (s : Db)
      → IsCached serai s
      → 0 < scan_start (intended_of s).0 s
      → Ensures
          (λ _ t.
            Advanced key latest s.cosign_transactions
              (intended_of s).0
              (intended_of s).1
              (scan_start (intended_of s).0 s)
              t)
          (advance_cosign_protocol_inner key serai latest s)
  unfolding advance_cosign_protocol_inner
  advance_cosign_protocol_inner_lem key latest s c positive =
      Ensures-intro Goal (advance_cosign_protocol_inner key serai latest s) (λ _ t went.
        committed (advance_txn key serai latest s) (advance_txn_lem key latest s c positive) t went)
    where
      Goal : Unit {0} → Db → Type 0
      Goal _ t =
          Advanced key latest s.cosign_transactions (intended_of s).0 (intended_of s).1
            (scan_start (intended_of s).0 s) t

      committed :
          (r : Outcome SeraiError (Unit {0}) × Db)
          → Ensures Goal r
          → (t : Db)
          → elim r.0 as (λ _. Outcome SeraiError (Unit {0}) × Db) [
            | ok _ ↦ (ok tt, r.1)
            | err e ↦ (err e, s)
            | panic ↦ (panic, s)
          ]
            ≡ (ok tt, t)
          → Goal tt t
      committed (ok _, u) ensured t went = ground (arith, ensured, went)
      committed (err e, u) ensured t went = ground (arith, went)
      committed (panic, u) ensured t went = ground (arith, went)
