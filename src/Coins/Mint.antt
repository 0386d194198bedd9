-- ===== src/Coins/Mint.antt =====
-- Minting and burning: `mint`, `burn_internal`, `on_initialize` and the genesis build.
use serai.Common.{
  ℕ, ◌+◌, ◌-◌, ◌≤◌, ◌<◌, ◌≡◌, refl, ◌⊎◌, inl, inr, true, false, ◌&&◌, [], ◌∷◌, ◌++◌, arith, ◌==◌,
  ==_iff, if◌then◌else◌, Bool-cases, beq, u64_mod, ok, err,
}
use serai.Primitives.{Coin, Balance, coin_eq}
use serai.Coins.Types.{
  Config, Storage, Event, balance_of, supply_of, set_supply, not_enough_coins, amount_overflowed,
  mint_not_allowed,
}
use serai.Coins.{decrease_balance_internal, mint, reduce_supply, burn_internal, on_initialize}
use serai.Coins.Supply.{share}
use serai.Coins.Invariant.{
  IsSound, debited, credited, decrease_cases, increase_cases, balance_of-debited,
  balance_of-credited, total-debited, total-credited, debited-Distinct, credited-Distinct,
  supply_of-set, balance-le-total,
}

-- The balance of an account that a write to `(who, c)` leaves at `n`.
abbrev pub moved : ℕ → Coin → ℕ → Storage → ℕ → Coin → ℕ
moved who c n s w d = if who == w && beq c d then n else balance_of w d s

abbrev pub minted : ℕ → Balance → Storage → Storage
minted to b s = record (set_supply b.coin (supply_of b.coin s + b.amount) t) {
  events = t.events ++ Event.mint to b ∷ [];
}
  where
    t : Storage
    t = credited to b.coin b.amount s

abbrev burnt : ℕ → Balance → Storage → Storage
burnt who b s = set_supply b.coin (supply_of b.coin s - b.amount) (debited who b.coin b.amount s)

balance-le-supply :
    (who : ℕ) (c : Coin) (s : Storage) → IsSound s → balance_of who c s ≤ supply_of c s
balance-le-supply who c s v = omega (arith, balance-le-total who c s, v.backed c)

minted-IsSound :
    (to : ℕ) (b : Balance) (s : Storage)
    → IsSound s
    → supply_of b.coin s + b.amount < u64_mod
    → IsSound (minted to b s)
minted-IsSound to b s v fits = record {
  backed = λ d. ground (
    arith,
    v.backed d,
    coin_eq.beq_iff b.coin d,
    total-credited to b.coin b.amount s d,
    supply_of-set b.coin (supply_of b.coin s + b.amount) s d,
  );
  bounded =
      λ d. ground (arith, v.bounded d, supply_of-set b.coin (supply_of b.coin s + b.amount) s d);
  distinct = credited-Distinct to b.coin b.amount s v.distinct;
}

minted-supply :
    (to : ℕ) (b : Balance) (s : Storage) (d : Coin)
    → supply_of d (minted to b s) ≡ supply_of d s + share d b.coin b.amount
minted-supply to b s d =
    ground
      (arith, coin_eq.beq_iff b.coin d, supply_of-set b.coin (supply_of b.coin s + b.amount) s d)

burnt-supply :
    (who : ℕ) (b : Balance) (s : Storage)
    → b.amount ≤ supply_of b.coin s
    → (d : Coin) → supply_of d (burnt who b s) + share d b.coin b.amount ≡ supply_of d s
burnt-supply who b s enough d =
    ground
      (arith, coin_eq.beq_iff b.coin d, supply_of-set b.coin (supply_of b.coin s - b.amount) s d)

burnt-IsSound :
    (who : ℕ) (b : Balance) (s : Storage)
    → IsSound s
    → b.amount ≤ balance_of who b.coin s
    → IsSound (burnt who b s)
burnt-IsSound who b s v covered = record {
  backed = λ d. ground (
    arith,
    v.backed d,
    coin_eq.beq_iff b.coin d,
    total-debited who b.coin b.amount s d covered,
    supply_of-set b.coin (supply_of b.coin s - b.amount) s d,
  );
  bounded = λ d. ground (
    arith,
    v.bounded b.coin,
    v.bounded d,
    supply_of-set b.coin (supply_of b.coin s - b.amount) s d,
  );
  distinct = debited-Distinct who b.coin b.amount s v.distinct;
}

-- With a sound storage: a mint that is not allowed changes nothing; one that is, and whose new
-- supply does not fit 64 bits, is refused; any other succeeds, keeps the storage sound, raises the supply of the
-- coin and the balance of the account by the amount, and leaves every other balance.
pub mint_cases :
    (cfg : Config) (to : ℕ) (b : Balance) (s : Storage)
    → IsSound s
    → let (r, s') = mint cfg to b s in
      ((cfg.allow_mint b ≡ false) × (r ≡ err mint_not_allowed) × (s' ≡ s))
      ⊎ ((cfg.allow_mint b ≡ true)
          × (u64_mod ≤ supply_of b.coin s + b.amount)
          × (r ≡ err amount_overflowed))
      ⊎ ((cfg.allow_mint b ≡ true)
          × (supply_of b.coin s + b.amount < u64_mod)
          × (r ≡ ok tt)
          × IsSound s'
          × ((d : Coin) → supply_of d s' ≡ supply_of d s + share d b.coin b.amount)
          × ((w : ℕ) (d : Coin)
              → balance_of w d s' ≡ moved to b.coin (balance_of to b.coin s + b.amount) s w d))
unfolding mint
mint_cases cfg to b s v = elim (increase_cases to b s) [
  | inl (room, e) ↦ ground (
    arith,
    e,
    minted-IsSound to b s v,
    balance_of-credited to b.coin b.amount s,
    minted-supply to b s,
  )
  | inr (full, e) ↦ ground (arith, e, balance-le-supply to b.coin s v)
]

reduce_supply-eq-burnt :
    (who : ℕ) (b : Balance) (s : Storage)
    → decrease_balance_internal who b s ≡ (ok tt, debited who b.coin b.amount s)
    → b.amount ≤ supply_of b.coin s
    → reduce_supply who b s ≡ (ok tt, burnt who b s)
unfolding reduce_supply
reduce_supply-eq-burnt who b s e enough = ground (arith, e)

reduce_cases :
    (who : ℕ) (b : Balance) (s : Storage)
    → IsSound s
    → let (r, s') = reduce_supply who b s in
      ((balance_of who b.coin s < b.amount) × (r ≡ err not_enough_coins) × (s' ≡ s))
      ⊎ ((b.amount ≤ balance_of who b.coin s)
          × (r ≡ ok tt)
          × IsSound s'
          × ((d : Coin) → supply_of d s' + share d b.coin b.amount ≡ supply_of d s)
          × ((w : ℕ) (d : Coin)
              → balance_of w d s' ≡ moved who b.coin (balance_of who b.coin s - b.amount) s w d))
unfolding reduce_supply
reduce_cases who b s v = elim (decrease_cases who b s) [
  | inl (covered, e) ↦
      let enough : b.amount ≤ supply_of b.coin s =
        omega (arith, balance-le-supply who b.coin s v) in
      rw (reduce_supply-eq-burnt who b s e enough) (
        inr (
          covered,
          refl,
          burnt-IsSound who b s v covered,
          burnt-supply who b s enough,
          λ w d. balance_of-debited who b.coin b.amount s w d v.distinct,
        ))
  | inr (short, e) ↦ ground (arith, e)
]

-- With a sound storage a burn is refused, and changes nothing, exactly when the account holds less
-- than the amount. Otherwise the supply of the coin and the balance of the account fall by the
-- amount, every other balance stays, and the storage stays sound; `unwrap` never panics.
pub burn_cases :
    (who : ℕ) (b : Balance) (s : Storage)
    → IsSound s
    → let (r, s') = burn_internal who b s in
      ((balance_of who b.coin s < b.amount) × (r ≡ err not_enough_coins) × (s' ≡ s))
      ⊎ ((b.amount ≤ balance_of who b.coin s)
          × (r ≡ ok tt)
          × IsSound s'
          × ((d : Coin) → supply_of d s' + share d b.coin b.amount ≡ supply_of d s)
          × ((w : ℕ) (d : Coin)
              → balance_of w d s' ≡ moved who b.coin (balance_of who b.coin s - b.amount) s w d))
unfolding burn_internal
burn_cases who b s v = elim (Bool-cases (b.amount == 0)) [
  | inl nothing ↦ rw nothing (
      inr (
        omega (arith, (==_iff b.amount 0).0 nothing),
        refl,
        v,
        λ d. ground (arith, (==_iff b.amount 0).0 nothing),
        λ w d. ground (arith, (==_iff b.amount 0).0 nothing, coin_eq.beq_iff b.coin d),
      ))
  | inr some_amount ↦ rw some_amount (reduce_cases who b s v)
]

-- The fees of the previous block are burnt whole: from a sound storage the hook never panics, it
-- empties the fee account's SRI, lowers the supply of SRI by as much, touches nothing else, and
-- keeps the storage sound.
pub on_initialize_burns_fees :
    (cfg : Config) (s : Storage)
    → IsSound s
    → let (r, s') = on_initialize cfg s in
      let fees = balance_of cfg.fee_account Coin.serai_coin s in
      (r ≡ ok tt)
      × IsSound s'
      × (supply_of Coin.serai_coin s' + fees ≡ supply_of Coin.serai_coin s)
      × ((w : ℕ) (d : Coin) → balance_of w d s' ≡ moved cfg.fee_account Coin.serai_coin 0 s w d)
unfolding on_initialize
on_initialize_burns_fees cfg s v = elim (burn_cases cfg.fee_account fees s v) [
  | inl (short, _, _) ↦ absurd (omega arith)
  | inr (_, r, sound, less, rest) ↦ ground (arith, r, sound, less Coin.serai_coin, rest)
]
  where
    fees : Balance
    fees = record { coin = Coin.serai_coin; amount = balance_of cfg.fee_account Coin.serai_coin s }
