-- ===== src/Scheduler/Encoding/Payments.antt =====
-- processor/src/plan.rs: what is written of a payment is read back.
use serai.Common.{
  map-All, ℕ, ◌^◌, ◌<◌, ◌≡◌, refl, sym, ap, subst, Option, none, some, List, [], ◌∷◌, length, All,
  nat_eq, ◌>>=◌, ◌>>◌, pure, ok_or, expect, Bytes, io_error, write_all, read_exact, write_int,
  read_int, write_list, read_list, RoundTrips, RoundTrips->>=, RoundTrips-map, RoundTrips-then,
  RoundTrips-bytes, RoundTrips-int, RoundTrips-list, RoundTrips-expect,
}
use serai.Primitives.{Balance}
use serai.Scheduler.Types.{Output, Payment}
use serai.Scheduler.Encoding.{
  Codecs, write_memo, write_address, write_payment, read_bytes, read_address, memo_behind,
  read_memo, read_payment,
}

-- What the encodings of the network and of the chain's types promise: what they write of a proper
-- output, key, address or balance they read back.
pub record AreFaithful (codecs : Codecs) (IsOutput : Output → Type 0) (IsKey : ℕ → Type 0)
    : Type 0 where
  pub outputs : (o : Output) → IsOutput o → RoundTrips (codecs.write_output o) codecs.read_output o
  pub keys : (k : ℕ) → IsKey k → RoundTrips (codecs.write_key k) codecs.read_key k
  pub addresses :
      (a : ℕ) (bs : Bytes) → codecs.address_bytes a ≡ some bs → codecs.address_of bs ≡ some a
  pub balances :
      (b : Balance)
      → b.amount < 256 ^ 8
      → RoundTrips (write_all (codecs.encode_balance b)) codecs.read_balance b

module _ (codecs : Codecs) (IsOutput : Output → Type 0) (IsKey : ℕ → Type 0)
    (faithful : AreFaithful codecs IsOutput IsKey) where
  -- The address of a payment has bytes, and they and its memo have a length of 32 bits.
  abbrev IsShort : Option Bytes → Type 0
  IsShort none = Unit
  IsShort (some memo) = length memo < 256 ^ 4

  abbrev HasBytes : ℕ → ℕ → Type 0
  HasBytes width address =
      (bs : Bytes) × (codecs.address_bytes address ≡ some bs) × (length bs < 256 ^ width)

  abbrev pub IsPayable : Payment → Type 0
  IsPayable p = HasBytes 4 p.address × IsShort p.memo × (p.balance.amount < 256 ^ 8)

  bytes-RoundTrips :
      (bs : Bytes)
      → length bs < 256 ^ 4
      → RoundTrips (write_int 4 (length bs) >> write_all bs) (read_bytes codecs) bs
  bytes-RoundTrips bs short =
      RoundTrips->>= (write_int 4 (length bs)) (write_all bs) (read_int 4) read_exact (length bs) bs
        (RoundTrips-int 4 (length bs) short) (RoundTrips-bytes bs)

  address-RoundTrips :
      (a : ℕ) → HasBytes 4 a → RoundTrips (write_address codecs a) (read_address codecs) a
  address-RoundTrips a (bs, known, short) =
      subst
        (λ o.
          RoundTrips (ok_or o io_error >>= λ bs. write_int 4 (length bs) >> write_all bs)
            (read_address codecs) a)
        (sym known)
        (RoundTrips-then (write_int 4 (length bs) >> write_all bs) (read_bytes codecs)
          (λ bs. ok_or (codecs.address_of bs) io_error) bs a (bytes-RoundTrips bs short)
          (ap (λ o. ok_or o io_error) (faithful.addresses a bs known)))

  memo-RoundTrips :
      (memo : Option Bytes)
      → IsShort memo
      → RoundTrips (write_memo codecs memo) (read_memo codecs) memo
  unfolding read_exact
  memo-RoundTrips none short = (0 ∷ [], λ buf. refl, λ left. refl)
  memo-RoundTrips (some memo) short =
      RoundTrips->>= (write_all (1 ∷ [])) (write_int 4 (length memo) >> write_all memo) (read_int 1)
        (memo_behind codecs) 1 (some memo) (1 ∷ [], λ buf. refl, λ left. refl)
        (RoundTrips-map (write_int 4 (length memo) >> write_all memo) (read_bytes codecs)
          (λ bs. some bs) memo (bytes-RoundTrips memo short))

  payment-RoundTrips :
      (p : Payment) → IsPayable p → RoundTrips (write_payment codecs p) (read_payment codecs) p
  unfolding write_payment read_payment
  payment-RoundTrips p (has_bytes, short, bounded) =
      RoundTrips->>= (write_address codecs p.address)
        (write_memo codecs p.memo >> write_all (codecs.encode_balance p.balance))
        (read_address codecs)
        (λ address. read_memo codecs >>= λ memo. codecs.read_balance >>= λ balance.
          pure (record { address = address; memo = memo; balance = balance }))
        p.address p (address-RoundTrips p.address has_bytes)
        (RoundTrips->>= (write_memo codecs p.memo) (write_all (codecs.encode_balance p.balance))
          (read_memo codecs)
          (λ memo. codecs.read_balance >>= λ balance.
            pure (record { address = p.address; memo = memo; balance = balance }))
          p.memo p (memo-RoundTrips p.memo short)
          (RoundTrips-map (write_all (codecs.encode_balance p.balance)) codecs.read_balance
            (λ balance. record { address = p.address; memo = p.memo; balance = balance }) p.balance
            (faithful.balances p.balance bounded)))

  pub payments-RoundTrips :
      (ps : List Payment)
      → length ps < 256 ^ 4
      → All IsPayable ps
      → RoundTrips (write_list (write_payment codecs) ps) (read_list (read_payment codecs)) ps
  payments-RoundTrips ps few payable =
      RoundTrips-list (write_payment codecs) (read_payment codecs) ps few
        (map-All payment-RoundTrips ps payable)

  -- Where errors are unwrapped, as `serialize` does.
  pub saved_payments-RoundTrips :
      (ps : List Payment)
      → length ps < 256 ^ 4
      → All IsPayable ps
      → RoundTrips
          (write_list (λ p. expect (write_payment codecs p)) ps)
          (read_list (read_payment codecs))
          ps
  saved_payments-RoundTrips ps few payable =
      RoundTrips-list (λ p. expect (write_payment codecs p)) (read_payment codecs) ps few
        (map-All
          (λ p ok.
            RoundTrips-expect (write_payment codecs p) (read_payment codecs) p
              (payment-RoundTrips p ok))
          ps payable)
