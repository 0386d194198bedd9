-- ===== src/Signals/Calls.antt =====
-- The dispatchable calls as one entry point, and how long a locked-in retirement stays.
use serai.Common.{
  ℕ, ◌≡◌, ◌≢◌, ◌∙◌, ◌⊎◌, inl, inr, Option, none, some, sym, ap, lookup, nat_eq, pair_eq, ◌==◌,
  ==_iff, Action, ok, arith, Ensures, Ensures-inv, Bool-cases, Option-cases,
}
use serai.Primitives.{NetworkId, network_eq}
use serai.Signals.Types.{SignalId, signal_eq, Error, Chain, Storage, RegisteredRetirementSignal}
use serai.Signals.{
  register_retirement_signal, revoke_retirement_signal, favor, revoke_favor, stand_against,
  put_favor,
}
use serai.Signals.Locking.{
  revoke_favor_internal-Keeps, favor_cases, Keeps, halt-Keeps, put_favor-Keeps,
}

pub data Call : Type 0 where
  registers : ℕ → Call
  revokes : ℕ → Call
  favors : SignalId → NetworkId → Call
  revokes_favor : SignalId → NetworkId → Call
  stands_against : SignalId → NetworkId → Call

unfoldable pub dispatch : Chain → Option ℕ → Call → Action Storage Error (Unit {0})
dispatch c origin (Call.registers x) = register_retirement_signal c origin x
dispatch c origin (Call.revokes id) = revoke_retirement_signal c origin id
dispatch c origin (Call.favors sid net) = favor c origin sid net
dispatch c origin (Call.revokes_favor sid net) = revoke_favor c origin sid net
dispatch c origin (Call.stands_against sid net) = stand_against c origin sid net

-- A call on a storage with the lock `x`: the lock stays, or the registrant of the locked signal
-- revokes it.
abbrev pub Persists : Option ℕ → Call → ℕ × ℕ → Storage → Storage → Type 0
Persists origin call x s s' =
    (s'.locked_in ≡ some x)
    ⊎ ((signal : RegisteredRetirementSignal) × (call ≡ Call.revokes x.0)
        × (lookup x.0 s.registered ≡ some signal)
        × (origin ≡ some signal.registrant)
        × (s'.locked_in ≡ none))

revoke-Persists :
    (c : Chain) (account id : ℕ) (x : ℕ × ℕ) (s s' : Storage)
    → s.locked_in ≡ some x
    → revoke_retirement_signal c (some account) id s ≡ (ok tt, s')
    → Persists (some account) (Call.revokes id) x s s'
unfolding revoke_retirement_signal
revoke-Persists c account id (j, at) s s' l e = elim (Option-cases (lookup id s.registered)) [
  | inl missing ↦ ground (arith, e, missing)
  | inr (signal, found) ↦ elim (Bool-cases (j == id)) [
    | inl same ↦ inr (
      signal,
      ap Call.revokes (sym ((==_iff j id).0 same)),
      rw ((==_iff j id).0 same) found,
      ground (arith, e, found, ==_iff account signal.registrant),
      ground (arith, e, found, l, same),
    )
    | inr other ↦ inl (ground (arith, e, found, l, other))
  ]
]

favor-halt-Keeps :
    (c : Chain) (account : ℕ) (n net : NetworkId) (s : Storage)
    → Ensures (λ _ s'. Keeps s s') (favor c (some account) (SignalId.halt n) net s)
unfolding favor
favor-halt-Keeps c account n net s = ground (
  arith,
  halt-Keeps c n net (put_favor (SignalId.halt n) net account s),
  put_favor-Keeps (SignalId.halt n) net account s,
)

revoke_favor-Keeps :
    (c : Chain) (origin : Option ℕ) (sid : SignalId) (net : NetworkId) (s : Storage)
    → Ensures (λ _ s'. Keeps s s') (revoke_favor c origin sid net s)
unfolding revoke_favor
revoke_favor-Keeps c none sid net s = ground arith
revoke_favor-Keeps c (some account) sid net s =
    ground (arith, revoke_favor_internal-Keeps c account sid net s)

locked-stops_against :
    (c : Chain) (origin : Option ℕ) (sid : SignalId) (net : NetworkId) (x : ℕ × ℕ) (s s' : Storage)
    → s.locked_in ≡ some x
    → stand_against c origin sid net s ≢ (ok tt, s')
unfolding stand_against
locked-stops_against c origin sid net x s s' l e = ground (arith, l, e)

locked-stops_register :
    (c : Chain) (origin : Option ℕ) (y : ℕ) (x : ℕ × ℕ) (s s' : Storage)
    → s.locked_in ≡ some x
    → register_retirement_signal c origin y s ≢ (ok tt, s')
unfolding register_retirement_signal
locked-stops_register c origin y x s s' l e = ground (arith, l, e)

-- A call that succeeds while a retirement is locked in leaves the lock as it is, or is the
-- revocation of that retirement, by the account that registered it, which removes the lock.
pub dispatch-Persists :
    (c : Chain) (origin : Option ℕ) (call : Call) (x : ℕ × ℕ) (s s' : Storage)
    → s.locked_in ≡ some x
    → dispatch c origin call s ≡ (ok tt, s')
    → Persists origin call x s s'
unfolding dispatch revoke_retirement_signal favor
dispatch-Persists c origin (Call.registers y) x s s' l e =
    absurd (locked-stops_register c origin y x s s' l e)
dispatch-Persists c none (Call.revokes id) x s s' l e = ground (arith, e)
dispatch-Persists c (some account) (Call.revokes id) x s s' l e =
    revoke-Persists c account id x s s' l e
dispatch-Persists c origin (Call.favors (SignalId.retirement id) net) x s s' l e =
    let (_, _, _, unlocked, _, _, _, _) = favor_cases c origin id net s s' e in
    ground (arith, unlocked, l)
dispatch-Persists c none (Call.favors (SignalId.halt n) net) x s s' l e = ground (arith, e)
dispatch-Persists c (some account) (Call.favors (SignalId.halt n) net) x s s' l e =
    let (same, _) = Ensures-inv (λ _ t. Keeps s t) _ tt s' (favor-halt-Keeps c account n net s) e in
    inl (same ∙ l)
dispatch-Persists c origin (Call.revokes_favor sid net) x s s' l e =
    let (same, _) =
      Ensures-inv (λ _ t. Keeps s t) _ tt s' (revoke_favor-Keeps c origin sid net s) e in
    inl (same ∙ l)
dispatch-Persists c origin (Call.stands_against sid net) x s s' l e =
    absurd (locked-stops_against c origin sid net x s s' l e)
