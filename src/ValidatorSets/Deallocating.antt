-- ===== src/ValidatorSets/Deallocating.antt =====
-- substrate/validator-sets/pallet/src/lib.rs: taking stake back.
use serai.Common.{
  ℕ, ◌+◌, ◌-◌, ◌/◌, ◌%◌, ◌≤◌, ◌≡◌, ◌⊎◌, refl, sym, ◌∙◌, subst, Bool, true, false, not, ◌&&◌, Option,
  none, some, arith, ◌==◌, ==_iff, ltb, if◌then◌else◌, lookup, erase, Distinct, lookup-insert_self,
  lookup-erase_self, unwrap, ok_or, throw_if, assert, gets, modify, nat_eq, pair_eq, u64_mod,
  Action, ok, ◌>>=◌, ◌>>◌, Ensures, Ensures-inv, Ensures-intro, Ensures->>=, Option-cases, inl, inr,
  checked_sub,
}
use serai.Primitives.{NetworkId, network_eq}
use serai.ValidatorSets.{
  Storage, Error, set_allocation, is_bft, was_bft_if, check_bft, decrease_to, decrease_allocation,
  allocation, session, unlocking, pending, in_set, postpone, release_now,
}

is_bft-same : (net : NetworkId) (s : Storage) → Ensures (λ _ t. t ≡ s) (is_bft net s)
unfolding is_bft
is_bft-same net s = elim (Option-cases (lookup net s.allocation_per_key_share)) [
  | inl absent ↦ ground (arith, absent)
  | inr (share, known) ↦ ground (arith, known)
]

was_bft_if-same :
    (changes : Bool) (net : NetworkId) (s : Storage)
    → Ensures (λ _ t. t ≡ s) (was_bft_if changes net s)
was_bft_if-same true net s = is_bft-same net s
was_bft_if-same false net s = refl

check_bft-same :
    (was : Bool) (net : NetworkId) (e : Error) (s : Storage)
    → Ensures (λ _ t. t ≡ s) (check_bft was net e s)
check_bft-same false net e s = refl
check_bft-same true net e s = ground (arith, is_bft-same net s)

-- What else the allocation of a validator leaves as it is.
abbrev Leaves : Storage → Storage → Type 0
Leaves s t =
    (t.current_session ≡ s.current_session)
    × (t.in_set ≡ s.in_set)
    × (t.babe ≡ s.babe)
    × (t.pending_deallocations ≡ s.pending_deallocations)
    × (t.keys ≡ s.keys)

set_allocation-Leaves :
    (hash : NetworkId → ℕ → ℕ → ℕ) (net : NetworkId) (key amount : ℕ) (s : Storage)
    → Leaves s (set_allocation hash net key amount s)
unfolding set_allocation
set_allocation-Leaves hash net key amount s = ground arith

allocation-set_allocation :
    (hash : NetworkId → ℕ → ℕ → ℕ) (net : NetworkId) (key amount : ℕ) (s : Storage)
    → Distinct s.allocations
    → allocation net key (set_allocation hash net key amount s) ≡ amount
unfolding set_allocation
allocation-set_allocation hash net key amount s d = ground (
  arith,
  lookup-insert_self (net, key) amount (erase (net, key) s.allocations),
  lookup-insert_self (net, key) amount s.allocations,
  lookup-erase_self (net, key) s.allocations d,
)

-- The stake is released at once, or it waits, where the validator is in a set, for the session that
-- unlocks it.
abbrev pub IsReleased : NetworkId → ℕ → ℕ → Bool → Storage → Storage → Type 0
IsReleased net account amount r s t =
    ((r ≡ true)
      × (in_set net account s ≡ false)
      × (t.pending_deallocations ≡ s.pending_deallocations))
    ⊎ ((r ≡ false)
        × (in_set net account s ≡ true)
        × ((n : ℕ) × (session net s ≡ some n)
            × (lookup ((net, account), unlocking net n) t.pending_deallocations
                ≡ some ((pending net account (unlocking net n) s + amount) % u64_mod))))

IsReleased-eq :
    (net : NetworkId) (account amount : ℕ) (r : Bool) (s u t : Storage)
    → Leaves s u
    → IsReleased net account amount r u t
    → IsReleased net account amount r s t
IsReleased-eq net account amount r s u t (c, i, b, p, k) released =
    ground (arith, c, i, b, p, released)

-- What a decrease from `s` to `t` does.
abbrev Decreases : NetworkId → ℕ → ℕ → ℕ → Bool → Storage → Storage → Type 0
Decreases net account amount new r s t =
    (allocation net account t ≡ new)
    × (t.current_session ≡ s.current_session)
    × (t.keys ≡ s.keys)
    × IsReleased net account amount r s t

release_now_lem :
    (net : NetworkId) (account amount : ℕ) (s : Storage)
    → Ensures
        (λ r t. Decreases net account amount (allocation net account s) r s t)
        ((if in_set net account s
            then postpone net account amount
            else release_now net account amount)
          s)
release_now_lem net account amount s = elim (Option-cases (session net s)) [
  | inl absent ↦ ground (arith, absent)
  | inr (n, known) ↦ ground (
    arith,
    known,
    lookup-insert_self ((net, account), unlocking net n)
        ((pending net account (unlocking net n) s + amount) % u64_mod) s.pending_deallocations,
  )
]

-- From the new allocation on.
abbrev proceed : NetworkId → ℕ → ℕ → Bool → Action Storage Error Bool
proceed net account amount was = do
  check_bft was net Error.deallocation_would_remove_fault_tolerance
  stays ← gets (in_set net account)
  if stays then postpone net account amount else release_now net account amount

proceed_lem :
    (net : NetworkId) (account amount : ℕ) (was : Bool) (s : Storage)
    → Ensures
        (λ r t. Decreases net account amount (allocation net account s) r s t)
        (proceed net account amount was s)
proceed_lem net account amount was s =
    Ensures->>= (λ _ t. t ≡ s)
      (λ r t. Decreases net account amount (allocation net account s) r s t)
      (check_bft was net Error.deallocation_would_remove_fault_tolerance) _ s
      (check_bft-same was net Error.deallocation_would_remove_fault_tolerance s)
      (λ _ t same.
        subst
          (λ u.
            Ensures (λ r t. Decreases net account amount (allocation net account s) r s t)
              ((if in_set net account u
                  then postpone net account amount
                  else release_now net account amount)
                u))
          (sym same) (release_now_lem net account amount s))

-- The decrease, once a share is known.
abbrev reallocate :
    (NetworkId → ℕ → ℕ → ℕ) → NetworkId → ℕ → ℕ → ℕ → Bool → Action Storage Error Bool
reallocate hash net account amount new changes = do
  was ← was_bft_if changes net
  modify (set_allocation hash net account new)
  proceed net account amount was

reallocate_lem :
    (hash : NetworkId → ℕ → ℕ → ℕ) (net : NetworkId) (account amount new : ℕ) (changes : Bool)
    (s : Storage)
    → Distinct s.allocations
    → Ensures
        (λ r t. Decreases net account amount new r s t)
        (reallocate hash net account amount new changes s)
reallocate_lem hash net account amount new changes s d =
    Ensures->>= (λ _ t. t ≡ s) (λ r t. Decreases net account amount new r s t)
      (was_bft_if changes net) _ s (was_bft_if-same changes net s)
      (λ was t same.
        subst
          (λ u.
            Ensures (λ r t. Decreases net account amount new r s t)
              (proceed net account amount was (set_allocation hash net account new u)))
          (sym same) (moves was))
  where
    moves :
        (was : Bool)
        → Ensures
            (λ r t. Decreases net account amount new r s t)
            (proceed net account amount was (set_allocation hash net account new s))
    moves was =
        let u : Storage = set_allocation hash net account new s in
        Ensures-intro (λ r t. Decreases net account amount new r s t)
          (proceed net account amount was u)
          (λ r t e.
            let (a, c, k, released) =
              Ensures-inv (λ r t. Decreases net account amount (allocation net account u) r u t) _ r
                t (proceed_lem net account amount was u) e in
            let (c', i, b, p, k') = set_allocation-Leaves hash net account new s in
            (
              a ∙ allocation-set_allocation hash net account new s d,
              c ∙ c',
              k ∙ k',
              IsReleased-eq net account amount r s u t (c', i, b, p, k') released,
            ))

guarded :
    (P : Bool → Storage → Type 0) (low fits : Bool) (e : Error) (k : Action Storage Error Bool)
    (s : Storage)
    → (low ≡ false → Ensures P (k s))
    → Ensures P ((throw_if low e >> (assert fits >> k)) s)
guarded P true fits e k s h = tt
guarded P false true e k s h = h refl
guarded P false false e k s h = tt

-- What is left is nothing, or enough for a key share.
abbrev IsEnough : NetworkId → ℕ → Storage → Type 0
IsEnough net new s =
    (share : ℕ) × (lookup net s.allocation_per_key_share ≡ some share) × ((new ≡ 0) ⊎ (share ≤ new))

above : (new share : ℕ) → (not (new == 0) && ltb new share) ≡ false → (new ≡ 0) ⊎ (share ≤ new)
above new share h = ground (arith, h, ==_iff new 0)

decrease_to_lem :
    (hash : NetworkId → ℕ → ℕ → ℕ) (net : NetworkId) (account amount old new : ℕ) (s : Storage)
    → Distinct s.allocations
    → Ensures
        (λ r t. Decreases net account amount new r s t × IsEnough net new s)
        (decrease_to hash net account amount old new s)
unfolding decrease_to
decrease_to_lem hash net account amount old new s d =
    elim (Option-cases (lookup net s.allocation_per_key_share)) [
      | inl absent ↦ ground (arith, absent)
      | inr (share, known) ↦
          subst (λ o. Ensures P ((unwrap o >>= rest) s)) (sym known)
            (guarded P (not (new == 0) && ltb new share) (ltb 0 share)
              Error.deallocation_would_remove_participant
              (reallocate hash net account amount new (ltb (new / share) (old / share))) s
              (λ fine. Ensures-intro P _ (λ r t e. (
                Ensures-inv (λ r t. Decreases net account amount new r s t) _ r t
                    (reallocate_lem hash net account amount new (ltb (new / share) (old / share)) s
                      d)
                    e,
                (share, known, above new share fine),
              ))))
    ]
  where
    P : Bool → Storage → Type 0
    P r t = Decreases net account amount new r s t × IsEnough net new s

    rest : ℕ → Action Storage Error Bool
    rest share = do
      throw_if (not (new == 0) && ltb new share) Error.deallocation_would_remove_participant
      assert (ltb 0 share)
      reallocate hash net account amount new (ltb (new / share) (old / share))

-- The checks of a decrease, before the key shares.
checked :
    (staked : Option ℕ) (allocated : Storage → Option ℕ) (amount required : ℕ)
    (k : ℕ → ℕ → Action Storage Error Bool) (s t : Storage) (r : Bool)
    → (unwrap staked >>= λ total.
          ok_or (checked_sub total amount) Error.not_enough_allocated >>= λ left.
          throw_if (ltb left required) Error.deallocation_would_remove_economic_security >>= λ _.
          gets allocated >>= λ o. ok_or o Error.non_existent_validator >>= λ old.
          ok_or (checked_sub old amount) Error.not_enough_allocated >>= λ new. k old new)
        s
      ≡ (ok r, t)
    → (total : ℕ) × (old : ℕ) × (staked ≡ some total)
      × (allocated s ≡ some old)
      × (amount ≤ old)
      × (required + amount ≤ total)
      × (k old (old - amount) s ≡ (ok r, t))
checked none allocated amount required k s t r e = absurd (ground (arith, e))
checked (some total) allocated amount required k s t r e = elim (Option-cases (allocated s)) [
  | inl absent ↦ absurd (ground (arith, absent, e))
  | inr (old, known) ↦
      let (covered, enough, goes) : (amount ≤ old)
          × (required + amount ≤ total)
          × (k old (old - amount) s ≡ (ok r, t)) =
        ground (arith, known, e) in
      (total, old, refl, known, covered, enough, goes)
]

-- A decrease of an allocation that succeeds takes exactly the amount from the allocation; what
-- remains is nothing or enough for a key share, and the total stake less the amount is what the
-- network requires, at least. A validator that is in no set can take the amount back at once; any
-- other has it added to what is unlocked with a later session.
pub decrease_allocation_lem :
    (hash : NetworkId → ℕ → ℕ → ℕ) (required : NetworkId → ℕ) (net : NetworkId) (account amount : ℕ)
    (s t : Storage) (r : Bool)
    → Distinct s.allocations
    → decrease_allocation hash required net account amount s ≡ (ok r, t)
    → (total : ℕ) × (lookup net s.total_allocated_stake ≡ some total)
      × (required net + amount ≤ total)
      × (allocation net account t + amount ≡ allocation net account s)
      × IsEnough net (allocation net account t) s
      × (t.current_session ≡ s.current_session)
      × IsReleased net account amount r s t
unfolding decrease_allocation
decrease_allocation_lem hash required net account amount s t r d e =
    let (total, old, staked, allocated, covered, enough, goes) =
      checked (lookup net s.total_allocated_stake) (λ u. lookup (net, account) u.allocations) amount
        (required net) (decrease_to hash net account amount) s t r e in
    let ((a, same, _, released), share) =
      Ensures-inv
        (λ r t. Decreases net account amount (old - amount) r s t × IsEnough net (old - amount) s) _
        r t (decrease_to_lem hash net account amount old (old - amount) s d) goes in
    (
      total,
      staked,
      enough,
      ground (arith, a, allocated, covered),
      subst (λ n. IsEnough net n s) (sym a) share,
      same,
      released,
    )
