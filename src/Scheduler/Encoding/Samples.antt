-- ===== src/Scheduler/Encoding/Samples.antt =====
-- Encodings of a simple network, and a scheduler and a plan that they encode.
use serai.Common.{
  ℕ, ◌<◌, ◌≡◌, refl, Option, none, some, [], ◌∷◌, ◌++◌, arith, if◌then◌else◌, ◌==◌, nat_eq, pair_eq,
  ok,
}
use serai.Common.{
  ◌^◌, ap, subst, ◌∙◌, ◌>>=◌, ◌>>◌, pure, Bytes, Reader, write_all, read_exact, write_int, read_int,
  to_le_bytes, RoundTrips, RoundTrips->>=, RoundTrips-map, RoundTrips-int, bind_ok,
  read_int-to_le_bytes,
}
use serai.Primitives.{Coin, Balance}
use serai.Scheduler.Types.{Output, OutputType, Payment, Plan, Scheduler}
use serai.Scheduler.Encoding.{Codecs, serialize, from_db, write_plan, read_plan}
use serai.Scheduler.Encoding.Payments.{AreFaithful}
use serai.Scheduler.Encoding.RoundTrip.{
  IsSavable, IsSendable, from_db-serialize, read_plan-write_plan,
}

abbrev coin_byte : Coin → ℕ
coin_byte Coin.serai_coin = 0
coin_byte Coin.bitcoin = 1
coin_byte Coin.ether = 2
coin_byte Coin.dai = 3
coin_byte Coin.monero = 4

abbrev coin_of : ℕ → Coin
coin_of n =
    if n == 0
    then Coin.serai_coin
    else (if n == 1
        then Coin.bitcoin
        else (if n == 2 then Coin.ether else (if n == 3 then Coin.dai else Coin.monero)))

abbrev balance_behind : ℕ → Reader Balance
balance_behind c = read_int 8 >>= λ amount. pure (record { coin = coin_of c; amount = amount })

-- An output of bitcoin with an identifier and an amount.
abbrev output : ℕ → ℕ → Output
output id amount = record {
  id = id;
  kind = OutputType.external;
  balance = record { coin = Coin.bitcoin; amount = amount };
}

abbrev of_first_byte : Bytes → Option ℕ
of_first_byte [] = none
of_first_byte (a ∷ bs) = some a

abbrev codecs : Codecs
codecs = record {
  write_output = λ o. write_int 8 o.id >> write_int 8 o.balance.amount;
  read_output = read_int 8 >>= λ id. read_int 8 >>= λ amount. pure (output id amount);
  write_key = write_int 8;
  read_key = read_int 8;
  address_bytes = λ a. some (a ∷ []);
  address_of = of_first_byte;
  encode_balance = λ b. coin_byte b.coin ∷ to_le_bytes 8 b.amount;
  read_balance = read_int 1 >>= balance_behind;
}

abbrev IsOutput : Output → Type 0
IsOutput o = (id amount : ℕ) × (output id amount ≡ o) × (id < 256 ^ 8) × (amount < 256 ^ 8)

abbrev IsKey : ℕ → Type 0
IsKey k = k < 256 ^ 8

output-RoundTrips :
    (o : Output) → IsOutput o → RoundTrips (codecs.write_output o) codecs.read_output o
output-RoundTrips o (id, amount, made, small, bounded) =
    subst (λ o. RoundTrips (codecs.write_output o) codecs.read_output o) made
      (RoundTrips->>= (write_int 8 id) (write_int 8 amount) (read_int 8)
        (λ id. read_int 8 >>= λ amount. pure (output id amount)) id (output id amount)
        (RoundTrips-int 8 id small)
        (RoundTrips-map (write_int 8 amount) (read_int 8) (output id) amount
          (RoundTrips-int 8 amount bounded)))

balance_behind-read :
    (c amount : ℕ) (left : Bytes)
    → amount < 256 ^ 8
    → balance_behind c (to_le_bytes 8 amount ++ left)
      ≡ (ok (record { coin = coin_of c; amount = amount }), left)
balance_behind-read c amount left bounded =
    bind_ok (read_int 8) (λ amount. pure (record { coin = coin_of c; amount = amount }))
      (to_le_bytes 8 amount ++ left) amount left (read_int-to_le_bytes 8 amount left bounded)

amount-read :
    (coin : Coin) (amount : ℕ) (left : Bytes)
    → amount < 256 ^ 8
    → codecs.read_balance ((coin_byte coin ∷ to_le_bytes 8 amount) ++ left)
      ≡ (ok (record { coin = coin_of (coin_byte coin); amount = amount }), left)
unfolding read_exact
amount-read Coin.serai_coin amount left bounded = balance_behind-read 0 amount left bounded
amount-read Coin.bitcoin amount left bounded = balance_behind-read 1 amount left bounded
amount-read Coin.ether amount left bounded = balance_behind-read 2 amount left bounded
amount-read Coin.dai amount left bounded = balance_behind-read 3 amount left bounded
amount-read Coin.monero amount left bounded = balance_behind-read 4 amount left bounded

balance-RoundTrips :
    (b : Balance)
    → b.amount < 256 ^ 8
    → RoundTrips (write_all (codecs.encode_balance b)) codecs.read_balance b
balance-RoundTrips b bounded = (
  coin_byte b.coin ∷ to_le_bytes 8 b.amount,
  λ buf. refl,
  λ left.
      amount-read b.coin b.amount left bounded
      ∙ ap (λ c. (ok (record { coin = c; amount = b.amount }), left)) (coin_lem b.coin),
)
  where
    coin_lem : (c : Coin) → coin_of (coin_byte c) ≡ c
    coin_lem Coin.serai_coin = refl
    coin_lem Coin.bitcoin = refl
    coin_lem Coin.ether = refl
    coin_lem Coin.dai = refl
    coin_lem Coin.monero = refl

codecs-AreFaithful : AreFaithful codecs IsOutput IsKey
codecs-AreFaithful = record {
  outputs = output-RoundTrips;
  keys = λ k small. RoundTrips-int 8 k small;
  addresses = λ a bs known. subst (λ o. read_address o ≡ some a) known refl;
  balances = balance-RoundTrips;
}
  where
    read_address : Option Bytes → Option ℕ
    read_address o = elim o [ none ↦ none | some bs ↦ of_first_byte bs ]

abbrev sent_payment : Payment
sent_payment = record {
  address = 7;
  memo = some (1 ∷ 2 ∷ []);
  balance = record { coin = Coin.bitcoin; amount = 500 };
}

abbrev scheduler : Scheduler
scheduler = record {
  key = 3;
  coin = Coin.bitcoin;
  queued_plans = (500, (sent_payment ∷ []) ∷ []) ∷ [];
  plans = [];
  utxos = output 4 1000 ∷ [];
  payments = sent_payment ∷ [];
}

abbrev plan : Plan
plan = record {
  key = 3;
  inputs = output 4 1000 ∷ [];
  payments = sent_payment ∷ [];
  change = some 9;
}

output-IsOutput : IsOutput (output 4 1000)
output-IsOutput = (4, 1000, refl, omega arith, omega arith)

scheduler-IsSavable : IsSavable codecs IsOutput IsKey codecs-AreFaithful scheduler
scheduler-IsSavable = record {
  queued = (
    (refl, tt),
    omega arith,
    (
      (
        omega arith,
        omega arith,
        ((omega arith, (((7 ∷ [], refl, omega arith), omega arith, omega arith), tt)), tt),
      ),
      tt,
    ),
  );
  planned = (tt, omega arith, tt);
  few_utxos = omega arith;
  are_outputs = (output-IsOutput, tt);
  are_payable = (omega arith, (((7 ∷ [], refl, omega arith), omega arith, omega arith), tt));
}

plan-IsSendable : IsSendable codecs IsOutput IsKey codecs-AreFaithful plan
plan-IsSendable = record {
  is_key = omega arith;
  few_inputs = omega arith;
  are_inputs = (output-IsOutput, tt);
  are_paid = (omega arith, (((7 ∷ [], refl, omega arith), omega arith, omega arith), tt));
  is_change = (9, [], refl, omega arith);
}

from_db-serialize_example :
    (bs : Bytes) × (serialize codecs scheduler [] ≡ (ok tt, bs))
    × (from_db codecs scheduler.key scheduler.coin (some bs) ≡ ok scheduler)
from_db-serialize_example =
    from_db-serialize codecs IsOutput IsKey codecs-AreFaithful scheduler scheduler-IsSavable

read_plan-write_plan_example :
    (bs : Bytes) × (write_plan codecs plan [] ≡ (ok tt, bs))
    × (read_plan codecs (bs ++ (5 ∷ [])) ≡ (ok plan, (5 ∷ [])))
read_plan-write_plan_example =
    read_plan-write_plan codecs IsOutput IsKey codecs-AreFaithful plan (5 ∷ []) plan-IsSendable
