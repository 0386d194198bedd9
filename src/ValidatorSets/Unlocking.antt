-- ===== src/ValidatorSets/Unlocking.antt =====
-- substrate/validator-sets/pallet/src/lib.rs: when stake that waits can be claimed.
use serai.Common.{
  ℕ, ◌+◌, ◌%◌, ◌≤◌, ◌<◌, ◌≡◌, ◌⊎◌, refl, ap, ◌∙◌, subst, false, none, some, arith, ==_iff, leb,
  lookup, Distinct, nat_eq, pair_eq, u32_mod, u64_mod, ok, Bool-cases, leb→le, inl, inr,
}
use serai.Primitives.{NetworkId, network_eq}
use serai.ValidatorSets.{
  Storage, decrease_allocation, session, unlocking, pending, take_deallocatable_amount,
  handover_completed,
}
use serai.ValidatorSets.Deallocating.{IsReleased, decrease_allocation_lem}

delayed :
    (net : NetworkId) (account amount n : ℕ) (s t : Storage)
    → session net s ≡ some n
    → IsReleased net account amount false s t
    → lookup ((net, account), unlocking net n) t.pending_deallocations
      ≡ some ((pending net account (unlocking net n) s + amount) % u64_mod)
delayed net account amount n s t at (inl (impossible, _, _)) = absurd (ground (arith, impossible))
delayed net account amount n s t at (inr (_, _, (k, known, waits))) =
    subst
      (λ j.
        lookup ((net, account), unlocking net j) t.pending_deallocations
        ≡ some ((pending net account (unlocking net j) s + amount) % u64_mod))
      (ground (arith, at, known)) waits

unlocking_bounds :
    (net : NetworkId) (n : ℕ)
    → n + 3 < u32_mod
    → (n + 2 ≤ unlocking net n) × (unlocking net n ≤ n + 3)
unlocking_bounds net n small = ground (arith, small)

take_early :
    (net : NetworkId) (who k m : ℕ) (u : Storage)
    → session net u ≡ some m
    → 0 < m
    → m < k
    → take_deallocatable_amount net k who u ≡ (none, u)
unfolding take_deallocatable_amount handover_completed
take_early net who k m u now later early = ground (arith, now, later, early)

take_late :
    (net : NetworkId) (who k m : ℕ) (u : Storage)
    → session net u ≡ some m
    → (m ≡ 0) ⊎ (k < m)
    → (take_deallocatable_amount net k who u).0 ≡ lookup ((net, who), k) u.pending_deallocations
unfolding take_deallocatable_amount handover_completed
take_late net who k m u now due = ground (arith, now, due, ==_iff m k)

-- In session n of its network, above 0 and below 2 ^ 32 - 3, a validator takes stake back that has
-- to wait. In a later state with the same pending deallocations: while the session is n or n + 1,
-- nothing can be claimed of it; once the session is past the one that unlocks it, the amount can
-- be claimed, with what was pending for that session before, in 64 bits.
pub stake_waits :
    (hash : NetworkId → ℕ → ℕ → ℕ) (required : NetworkId → ℕ) (net : NetworkId)
    (account amount n m : ℕ) (s t u : Storage)
    → Distinct s.allocations
    → decrease_allocation hash required net account amount s ≡ (ok false, t)
    → session net s ≡ some n
    → 0 < n
    → n + 3 < u32_mod
    → session net u ≡ some m
    → n ≤ m
    → u.pending_deallocations ≡ t.pending_deallocations
    → ((m ≤ n + 1) × (take_deallocatable_amount net (unlocking net n) account u ≡ (none, u)))
      ⊎ ((n + 1 < m) × (m ≤ unlocking net n))
      ⊎ ((unlocking net n < m)
          × ((take_deallocatable_amount net (unlocking net n) account u).0
              ≡ some ((pending net account (unlocking net n) s + amount) % u64_mod)))
stake_waits hash required net account amount n m s t u d e at later small now on kept =
    let lem = decrease_allocation_lem hash required net account amount s t false d e in
    let waits = delayed net account amount n s t at lem.6 in
    let (least, most) = unlocking_bounds net n small in
    elim (Bool-cases (leb m (n + 1))) [
      | inl early ↦ inl (
        ground (arith, early),
        take_early net account (unlocking net n) m u now (omega (arith, later, on))
            (ground (arith, early, least)),
      )
      | inr past ↦ elim (Bool-cases (leb m (unlocking net n))) [
        | inl soon ↦ inr (inl (ground (arith, past), leb→le m (unlocking net n) soon))
        | inr over ↦
            let after : unlocking net n < m = ground (arith, over) in
            inr (
              inr (
                after,
                take_late net account (unlocking net n) m u now (inr after)
                    ∙ ap (lookup ((net, account), unlocking net n)) kept
                    ∙ waits,
              ))
      ]
    ]

-- In the first session of a network, the stake that a validator of its set takes back, which waits
-- for a later session, can be claimed at once.
pub genesis_unlocks :
    (hash : NetworkId → ℕ → ℕ → ℕ) (required : NetworkId → ℕ) (net : NetworkId) (account amount : ℕ)
    (s t : Storage)
    → Distinct s.allocations
    → decrease_allocation hash required net account amount s ≡ (ok false, t)
    → session net s ≡ some 0
    → (take_deallocatable_amount net (unlocking net 0) account t).0
      ≡ some ((pending net account (unlocking net 0) s + amount) % u64_mod)
genesis_unlocks hash required net account amount s t d e at =
    let lem = decrease_allocation_lem hash required net account amount s t false d e in
    take_late net account (unlocking net 0) 0 t (ap (lookup net) lem.5 ∙ at) (inl refl)
    ∙ delayed net account amount 0 s t at lem.6
