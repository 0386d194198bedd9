-- ===== src/Signals/Locking.antt =====
-- What the functions of the signals pallet do to the lock of a retirement.
use serai.Common.{
  ℕ, ◌+◌, ◌%◌, ◌≤◌, ◌≡◌, ◌⊎◌, inl, inr, refl, ap, ◌∙◌, Bool, true, false, Option, none, some,
  lookup, erase, nat_eq, pair_eq, u64_mod, Option-cases, ok, arith, Ensures, Ensures->>=,
  Ensures-inv, Ensures-intro, ◌>>=◌,
}
use serai.Primitives.{NetworkId, network_eq}
use serai.Signals.Types.{
  SignalId, signal_eq, in_latest_decided_set, Chain, Storage, RegisteredRetirementSignal, Event,
}
use serai.Signals.{
  put_in_favor, put_against, put_favor, tally_for_network, tally_for_all_networks,
  revoke_favor_internal, favor, conclude, deposit_event,
}

-- The lock and the registered signals stay.
abbrev pub Keeps : Storage → Storage → Type 0
Keeps s s' = (s'.locked_in ≡ s.locked_in) × (s'.registered ≡ s.registered)

tally-Keeps :
    (c : Chain) (sid : SignalId) (net : NetworkId) (s : Storage)
    → Ensures (λ _ s'. Keeps s s') (tally_for_network c sid net s)
unfolding tally_for_network put_in_favor put_against
tally-Keeps c sid net s = ground arith

pub put_favor-Keeps :
    (sid : SignalId) (net : NetworkId) (who : ℕ) (s : Storage) → Keeps s (put_favor sid net who s)
unfolding put_favor
put_favor-Keeps sid net who s = ground arith

pub revoke_favor_internal-Keeps :
    (c : Chain) (who : ℕ) (sid : SignalId) (net : NetworkId) (s : Storage)
    → Ensures (λ _ s'. Keeps s s') (revoke_favor_internal c who sid net s)
unfolding revoke_favor_internal
revoke_favor_internal-Keeps c who sid net s =
    let s' : Storage =
      deposit_event (Event.favor_revoked sid who net)
        (record s { favors = erase ((sid, net), who) s.favors }) in
    ground (arith, tally-Keeps c sid net s')

tally_all-stays :
    (c : Chain) (sid : SignalId) (s : Storage)
    → Ensures (λ _ s'. s' ≡ s) (tally_for_all_networks c sid s)
unfolding tally_for_all_networks
tally_all-stays c sid s = ground arith

conclude-halt-Keeps :
    (c : Chain) (n : NetworkId) (b : Bool) (s t : Storage)
    → Keeps s t
    → Ensures (λ _ s'. Keeps s s') (conclude b c (SignalId.halt n) t)
conclude-halt-Keeps c n false s t k = k
conclude-halt-Keeps c n true s t k = ground (arith, tally_all-stays c (SignalId.halt n) t, k)

-- The lock that a retirement gets now.
abbrev lock_of : Chain → ℕ → ℕ × ℕ
lock_of c id = (id, (c.block_number + c.lock_in_duration) % u64_mod)

-- Both tallies say so: that of the network, from the state with the new favor, and that of all
-- networks, from the state that the first one leaves.
abbrev IsCarried : Chain → SignalId → NetworkId → Storage → Type 0
IsCarried c sid net s =
    (t : Storage) × (tally_for_network c sid net s ≡ (ok true, t))
    × (tally_for_all_networks c sid t ≡ (ok true, t))

conclude-locks :
    (c : Chain) (id : ℕ) (b : Bool) (s : Storage)
    → Ensures
        (λ _ s'.
          (s'.registered ≡ s.registered)
          × ((s'.locked_in ≡ s.locked_in)
              ⊎ ((b ≡ true)
                  × (tally_for_all_networks c (SignalId.retirement id) s ≡ (ok true, s))
                  × (s'.locked_in ≡ some (lock_of c id)))))
        (conclude b c (SignalId.retirement id) s)
conclude-locks c id false s = (refl, inl refl)
conclude-locks c id true s = ground (arith, tally_all-stays c (SignalId.retirement id) s)

tallied :
    (c : Chain) (sid : SignalId) (net : NetworkId) (s : Storage)
    → Ensures
        (λ b t. (tally_for_network c sid net s ≡ (ok b, t)) × Keeps s t)
        (tally_for_network c sid net s)
tallied c sid net s =
    Ensures-intro (λ b t. (tally_for_network c sid net s ≡ (ok b, t)) × Keeps s t)
      (tally_for_network c sid net s)
      (λ b t e. (e, Ensures-inv (λ _ s'. Keeps s s') _ b t (tally-Keeps c sid net s) e))

-- What a vote leaves: the registered signals, and the lock unless the vote carried the signal.
abbrev pub Voted : Chain → ℕ → NetworkId → Storage → Storage → Type 0
Voted c id net s s' =
    (s'.registered ≡ s.registered)
    × ((s'.locked_in ≡ s.locked_in)
        ⊎ (IsCarried c (SignalId.retirement id) net s × (s'.locked_in ≡ some (lock_of c id))))

vote-Voted :
    (c : Chain) (id : ℕ) (net : NetworkId) (s : Storage)
    → Ensures
        (λ _ s'. Voted c id net s s')
        ((tally_for_network c (SignalId.retirement id) net >>= λ b.
            conclude b c (SignalId.retirement id))
          s)
vote-Voted c id net s =
    Ensures->>=
      (λ b t. (tally_for_network c (SignalId.retirement id) net s ≡ (ok b, t)) × Keeps s t)
      (λ _ s'. Voted c id net s s') (tally_for_network c (SignalId.retirement id) net)
      (λ b. conclude b c (SignalId.retirement id)) s (tallied c (SignalId.retirement id) net s)
      (λ b t (e, (l, r)).
        Ensures-intro (λ _ s'. Voted c id net s s') (conclude b c (SignalId.retirement id) t)
          (λ a s' q.
            let (reg, lock) =
              Ensures-inv
                (λ _ s'.
                  (s'.registered ≡ t.registered)
                  × ((s'.locked_in ≡ t.locked_in)
                      ⊎ ((b ≡ true)
                          × (tally_for_all_networks c (SignalId.retirement id) t ≡ (ok true, t))
                          × (s'.locked_in ≡ some (lock_of c id)))))
                _ a s' (conclude-locks c id b t) q in
            (
              reg ∙ r,
              elim lock [
                | inl same ↦ inl (same ∙ l)
                | inr (yes_b, all, locked) ↦ inr ((t, e ∙ ap (λ x. (ok x, t)) yes_b, all), locked)
              ],
            )))

favor-checks :
    (c : Chain) (account id : ℕ) (net : NetworkId) (s s' : Storage)
    → favor c (some account) (SignalId.retirement id) net s ≡ (ok tt, s')
    → (s.locked_in ≡ none)
      × (in_latest_decided_set net account c.sets ≡ true)
      × ((tally_for_network c (SignalId.retirement id) net >>= λ b.
              conclude b c (SignalId.retirement id))
            (put_favor (SignalId.retirement id) net account s)
          ≡ (ok tt, s'))
unfolding favor
favor-checks c account id net s s' e = ground (arith, e)

favor-registered :
    (c : Chain) (account id : ℕ) (net : NetworkId) (s s' : Storage)
    → favor c (some account) (SignalId.retirement id) net s ≡ (ok tt, s')
    → (signal : RegisteredRetirementSignal) × (lookup id s.registered ≡ some signal)
      × (c.block_number ≤ (signal.registered_at + c.validity_duration) % u64_mod)
unfolding favor
favor-registered c account id net s s' e = elim (Option-cases (lookup id s.registered)) [
  | inl missing ↦ ground (arith, e, missing)
  | inr (signal, found) ↦ (signal, found, ground (arith, e, found))
]

-- A vote for the retirement `id` that succeeds: nothing was locked in, the signal is registered and
-- not out of date, and the account is in the latest decided set. The registered signals stay, and
-- so does the lock, unless both tallies, with the new favor counted, carry the signal, which locks
-- it in for the set duration from this block.
pub favor_cases :
    (c : Chain) (origin : Option ℕ) (id : ℕ) (net : NetworkId) (s s' : Storage)
    → favor c origin (SignalId.retirement id) net s ≡ (ok tt, s')
    → (account : ℕ) × (signal : RegisteredRetirementSignal) × (origin ≡ some account)
      × (s.locked_in ≡ none)
      × (lookup id s.registered ≡ some signal)
      × (c.block_number ≤ (signal.registered_at + c.validity_duration) % u64_mod)
      × (in_latest_decided_set net account c.sets ≡ true)
      × Voted c id net (put_favor (SignalId.retirement id) net account s) s'
unfolding favor
favor_cases c none id net s s' e = ground arith
favor_cases c (some account) id net s s' e =
    let (unlocked, member, rest) = favor-checks c account id net s s' e in
    let (signal, found, fresh) = favor-registered c account id net s s' e in
    let s₁ : Storage = put_favor (SignalId.retirement id) net account s in
    let (r, l) = Ensures-inv (λ _ t. Voted c id net s₁ t) _ tt s' (vote-Voted c id net s₁) rest in
    (account, signal, refl, unlocked, found, fresh, member, (r, l))

pub halt-Keeps :
    (c : Chain) (n net : NetworkId) (s : Storage)
    → Ensures
        (λ _ s'. Keeps s s')
        ((tally_for_network c (SignalId.halt n) net >>= λ b. conclude b c (SignalId.halt n)) s)
halt-Keeps c n net s =
    Ensures->>= (λ _ t. Keeps s t) (λ _ t. Keeps s t) (tally_for_network c (SignalId.halt n) net)
      (λ b. conclude b c (SignalId.halt n)) s (tally-Keeps c (SignalId.halt n) net s)
      (λ b t k. conclude-halt-Keeps c n b s t k)
