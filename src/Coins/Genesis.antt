-- ===== src/Coins/Genesis.antt =====
-- The genesis build, which mints what each genesis account holds.
use serai.Common.{ℕ, ◌+◌, ◌≡◌, refl, inl, inr, List, [], ◌∷◌, arith, if◌then◌else◌, beq, sum_of, ok}
use serai.Primitives.{Coin, Balance, coin_eq, coins}
use serai.Coins.Types.{Config, Storage, supply_of, set_supply}
use serai.Coins.{mint, build, init_supply, mint_all}
use serai.Coins.Invariant.{IsSound, supply_of-set}
use serai.Coins.Mint.{mint_cases}

abbrev pub empty : Storage
empty = record { balances = []; supply = []; events = [] }

-- What one genesis account adds to the supply of `c`.
abbrev granted : Coin → ℕ × Balance → ℕ
granted c (who, b) = if beq b.coin c then b.amount else 0

init_supply-zero :
    (cs : List Coin) (s : Storage)
    → ((c : Coin) → supply_of c s ≡ 0)
    → (c : Coin) → supply_of c (init_supply cs s) ≡ 0
unfolding init_supply
init_supply-zero [] s h c = h c
init_supply-zero (d ∷ cs) s h c =
    init_supply-zero cs (set_supply d 0 s) (λ k. ground (arith, supply_of-set d 0 s k, h k)) c

init_supply-balances : (cs : List Coin) (s : Storage) → (init_supply cs s).balances ≡ s.balances
unfolding init_supply
init_supply-balances [] s = refl
init_supply-balances (d ∷ cs) s = init_supply-balances cs (set_supply d 0 s)

abbrev start : Storage
start = init_supply coins empty

start-IsSound : IsSound start
start-IsSound = record {
  backed = λ c. rw (init_supply-balances coins empty) (omega (arith, zero c));
  bounded = λ c. omega (arith, zero c);
  distinct = rw (init_supply-balances coins empty) tt;
}
  where
    zero : (c : Coin) → supply_of c start ≡ 0
    zero = init_supply-zero coins empty (λ c. refl)

mint_all_grants :
    (cfg : Config) (accounts : List (ℕ × Balance)) (s : Storage)
    → IsSound s
    → (mint_all cfg accounts s).0 ≡ ok tt
    → let s' = (mint_all cfg accounts s).1 in
      IsSound s' × ((c : Coin) → supply_of c s' ≡ supply_of c s + sum_of (granted c) accounts)
unfolding mint_all
mint_all_grants cfg [] s v e = (v, λ c. omega arith)
mint_all_grants cfg ((who, b) ∷ rest) s v e = elim (mint_cases cfg who b s v) [
  | inl (_, r, _) ↦ absurd (ground (arith, r))
  | inr (inl (_, _, r)) ↦ absurd (ground (arith, r))
  | inr (inr (_, _, r, sound, more, _)) ↦
      let s₁ = (mint cfg who b s).1 in
      let later = mint_all_grants cfg rest s₁ sound (ground (arith, r)) in
      ground (arith, r, later, more)
]

-- A genesis build that does not panic leaves a sound storage, in which the supply of each coin is
-- the sum of what the genesis accounts were given of it.
pub build_grants :
    (cfg : Config) (accounts : List (ℕ × Balance))
    → (build cfg accounts empty).0 ≡ ok tt
    → let s' = (build cfg accounts empty).1 in
      IsSound s' × ((c : Coin) → supply_of c s' ≡ sum_of (granted c) accounts)
unfolding build
build_grants cfg accounts e =
    let granting = mint_all_grants cfg accounts start start-IsSound e in
    (granting.0, λ c. omega (arith, granting.1 c, init_supply-zero coins empty (λ _. refl) c))
