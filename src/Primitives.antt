-- ===== src/Primitives.antt =====
-- substrate/primitives/src/networks.rs, balance.rs and amount.rs: the networks, the coins and the
-- amounts that the pallets share. A constructor for `Serai` says what it is one of.
-- Public keys, hashes and block numbers are numbers: the code only compares them and adds to the
-- block numbers.
use serai.Common.{ℕ, ◌≡◌, ◌↔◌, Bool, true, false, List, [], ◌∷◌, arith, Eq, ◌==◌}

pub data NetworkId : Type 0 where
  serai_network bitcoin ethereum monero : NetworkId

pub data Coin : Type 0 where
  serai_coin bitcoin ether dai monero : Coin

pub record Balance : Type 0 where
  pub coin : Coin
  pub amount : ℕ

abbrev pub networks : List NetworkId
networks = NetworkId.serai_network ∷ NetworkId.bitcoin ∷ NetworkId.ethereum ∷ NetworkId.monero ∷ []

abbrev pub coins : List Coin
coins = Coin.serai_coin ∷ Coin.bitcoin ∷ Coin.ether ∷ Coin.dai ∷ Coin.monero ∷ []

-- The position in the declaration, which the derived encodings write.
abbrev network_index : NetworkId → ℕ
network_index NetworkId.serai_network = 0
network_index NetworkId.bitcoin = 1
network_index NetworkId.ethereum = 2
network_index NetworkId.monero = 3

abbrev coin_index : Coin → ℕ
coin_index Coin.serai_coin = 0
coin_index Coin.bitcoin = 1
coin_index Coin.ether = 2
coin_index Coin.dai = 3
coin_index Coin.monero = 4

abbrev network_beq : NetworkId → NetworkId → Bool
network_beq a b = network_index a == network_index b

abbrev coin_beq : Coin → Coin → Bool
coin_beq a b = coin_index a == coin_index b

pub network_beq_iff : (a b : NetworkId) → (network_beq a b ≡ true) ↔ (a ≡ b)
network_beq_iff NetworkId.serai_network b = ground arith
network_beq_iff _ b = ground arith

pub coin_beq_iff : (a b : Coin) → (coin_beq a b ≡ true) ↔ (a ≡ b)
coin_beq_iff Coin.serai_coin b = ground arith
coin_beq_iff _ b = ground arith

instance abbrev pub network_eq : Eq NetworkId
network_eq = record { beq = network_beq; beq_iff = network_beq_iff }

instance abbrev pub coin_eq : Eq Coin
coin_eq = record { beq = coin_beq; beq_iff = coin_beq_iff }

abbrev pub network_of : Coin → NetworkId
network_of Coin.serai_coin = NetworkId.serai_network
network_of Coin.bitcoin = NetworkId.bitcoin
network_of Coin.ether = NetworkId.ethereum
network_of Coin.dai = NetworkId.ethereum
network_of Coin.monero = NetworkId.monero

abbrev pub is_native : Coin → Bool
is_native Coin.serai_coin = true
is_native Coin.bitcoin = false
is_native Coin.ether = false
is_native Coin.dai = false
is_native Coin.monero = false
