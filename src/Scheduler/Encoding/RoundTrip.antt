-- ===== src/Scheduler/Encoding/RoundTrip.antt =====
-- processor/src/multisigs/scheduler.rs and processor/src/plan.rs: what is encoded is decoded again.
use serai.Common.{
  map-All, append-nil, ℕ, suc, ◌^◌, ◌<◌, ◌≡◌, refl, sym, ap, subst, ◌∙◌, Option, none, some, List,
  [], ◌∷◌, ◌++◌, arith, length, All, insert, lookup, lookup-insert, Distinct, nat_eq, ok, ◌>>=◌,
  ◌>>◌, pure, ok_or, expect, Bytes, io_error, Writer, write_all, read_exact, write_int, read_int,
  write_each, write_list, read_list, RoundTrips, RoundTrips-pure, RoundTrips->>=, RoundTrips-map,
  RoundTrips-then, RoundTrips-bytes, RoundTrips-int, RoundTrips-list, RoundTrips-expect,
}
use serai.Scheduler.Types.{Output, Payment, Plan, Plans, Scheduler}
use serai.Scheduler.Encoding.{
  Codecs, write_payment, read_payment, write_plan_list, write_plans, serialize, read_plan_list,
  read_plans_into, read_plans, read, from_db, change_bytes, change_of, write_plan, read_plan,
}
use serai.Scheduler.Encoding.Payments.{
  AreFaithful, IsPayable, payments-RoundTrips, saved_payments-RoundTrips,
}

insert-append :
    (k : ℕ) (v : List (List Payment)) (acc m : Plans)
    → lookup k acc ≡ none
    → insert k v acc ++ m ≡ acc ++ ((k, v) ∷ m)
insert-append k v [] m missing = refl
insert-append k v ((j, w) ∷ acc) m missing = ground (arith, missing, insert-append k v acc m)

-- The keys that are still to come are missing from the map with the new one too.
insert-All :
    (k : ℕ) (v : List (List Payment)) (acc m : Plans)
    → lookup k m ≡ none
    → All (λ entry. lookup entry.0 acc ≡ none) m
    → All (λ entry. lookup entry.0 (insert k v acc) ≡ none) m
insert-All k v acc [] unlisted fresh = tt
insert-All k v acc ((j, w) ∷ m) unlisted (missing, fresh) = (
  ground (arith, lookup-insert k j v acc, unlisted, missing),
  insert-All k v acc m (ground (arith, unlisted)) fresh,
)

empty-All : (m : Plans) → All (λ entry. lookup {V = List (List Payment)} entry.0 [] ≡ none) m
empty-All [] = tt
empty-All (entry ∷ m) = (refl, empty-All m)

module _ (codecs : Codecs) (IsOutput : Output → Type 0) (IsKey : ℕ → Type 0)
    (faithful : AreFaithful codecs IsOutput IsKey) where
  abbrev AreFew : List Payment → Type 0
  AreFew ps = (length ps < 256 ^ 4) × All (IsPayable codecs IsOutput IsKey faithful) ps

  abbrev IsPlanList : ℕ × List (List Payment) → Type 0
  IsPlanList (amount, plans) = (amount < 256 ^ 8) × (length plans < 256 ^ 4) × All AreFew plans

  plan_list-RoundTrips :
      (entry : ℕ × List (List Payment))
      → IsPlanList entry
      → RoundTrips (write_plan_list codecs entry) (read_plan_list codecs) entry
  plan_list-RoundTrips (amount, plans) (bounded, few, each) =
      RoundTrips->>= (write_int 8 amount)
        (write_list (write_list (λ p. expect (write_payment codecs p))) plans) (read_int 8)
        (λ amount. read_list (read_list (read_payment codecs)) >>= λ plans. pure (amount, plans))
        amount (amount, plans) (RoundTrips-int 8 amount bounded)
        (RoundTrips-map (write_list (write_list (λ p. expect (write_payment codecs p))) plans)
          (read_list (read_list (read_payment codecs))) (λ plans. (amount, plans)) plans
          (RoundTrips-list (write_list (λ p. expect (write_payment codecs p)))
            (read_list (read_payment codecs)) plans few
            (map-All
              (λ ps (few, payable).
                saved_payments-RoundTrips codecs IsOutput IsKey faithful ps few payable)
              plans each)))

  into-RoundTrips :
      (m acc : Plans)
      → Distinct m
      → All (λ entry. lookup entry.0 acc ≡ none) m
      → All IsPlanList m
      → RoundTrips
          (write_each (write_plan_list codecs) m)
          (read_plans_into codecs (length m) acc)
          (acc ++ m)
  unfolding read_plans_into
  into-RoundTrips [] acc distinct fresh each =
      subst (RoundTrips (pure tt) (pure acc)) (sym (append-nil acc)) (RoundTrips-pure acc)
  into-RoundTrips ((amount, plans) ∷ m) acc (unlisted, distinct) (missing, fresh) (entry, each) =
      subst
        (RoundTrips (write_each (write_plan_list codecs) ((amount, plans) ∷ m))
          (read_plans_into codecs (suc (length m)) acc))
        (insert-append amount plans acc m missing)
        (RoundTrips->>= (write_plan_list codecs (amount, plans))
          (write_each (write_plan_list codecs) m) (read_plan_list codecs)
          (λ (amount, plans). read_plans_into codecs (length m) (insert amount plans acc))
          (amount, plans) (insert amount plans acc ++ m)
          (plan_list-RoundTrips (amount, plans) entry)
          (into-RoundTrips m (insert amount plans acc) distinct
            (insert-All amount plans acc m unlisted fresh) each))

  abbrev ArePlans : Plans → Type 0
  ArePlans m = Distinct m × (length m < 256 ^ 4) × All IsPlanList m

  plans-RoundTrips :
      (m : Plans) → ArePlans m → RoundTrips (write_plans codecs m) (read_plans codecs) m
  plans-RoundTrips m (distinct, few, each) =
      RoundTrips->>= (write_int 4 (length m)) (write_each (write_plan_list codecs) m) (read_int 4)
        (λ count. read_plans_into codecs count []) (length m) m (RoundTrips-int 4 (length m) few)
        (into-RoundTrips m [] distinct (empty-All m) each)

  -- A scheduler whose lists have lengths of 32 bits and amounts of 64, without an amount listed
  -- twice, and of proper outputs and addresses.
  pub record IsSavable (s : Scheduler) : Type 0 where
    pub queued : ArePlans s.queued_plans
    pub planned : ArePlans s.plans
    pub few_utxos : length s.utxos < 256 ^ 4
    pub are_outputs : All IsOutput s.utxos
    pub are_payable : AreFew s.payments

  serialize-RoundTrips :
      (s : Scheduler) → IsSavable s → RoundTrips (serialize codecs s) (read codecs s.key s.coin) s
  unfolding serialize read
  serialize-RoundTrips s savable =
      RoundTrips->>= (write_plans codecs s.queued_plans)
        (write_plans codecs s.plans
          >> (write_list (λ o. expect (codecs.write_output o)) s.utxos
              >> write_list (λ p. expect (write_payment codecs p)) s.payments))
        (read_plans codecs)
        (λ queued. read_plans codecs >>= λ plans. read_list codecs.read_output >>= λ utxos.
          read_list (read_payment codecs) >>= λ payments. pure (made queued plans utxos payments))
        s.queued_plans s (plans-RoundTrips s.queued_plans savable.queued)
        (RoundTrips->>= (write_plans codecs s.plans)
          (write_list (λ o. expect (codecs.write_output o)) s.utxos
            >> write_list (λ p. expect (write_payment codecs p)) s.payments)
          (read_plans codecs)
          (λ plans. read_list codecs.read_output >>= λ utxos.
            read_list (read_payment codecs) >>= λ payments.
            pure (made s.queued_plans plans utxos payments))
          s.plans s (plans-RoundTrips s.plans savable.planned)
          (RoundTrips->>= (write_list (λ o. expect (codecs.write_output o)) s.utxos)
            (write_list (λ p. expect (write_payment codecs p)) s.payments)
            (read_list codecs.read_output)
            (λ utxos. read_list (read_payment codecs) >>= λ payments.
              pure (made s.queued_plans s.plans utxos payments))
            s.utxos s
            (RoundTrips-list (λ o. expect (codecs.write_output o)) codecs.read_output s.utxos
              savable.few_utxos
              (map-All
                (λ o proper.
                  RoundTrips-expect (codecs.write_output o) codecs.read_output o
                    (faithful.outputs o proper))
                s.utxos savable.are_outputs))
            (RoundTrips-map (write_list (λ p. expect (write_payment codecs p)) s.payments)
              (read_list (read_payment codecs)) (made s.queued_plans s.plans s.utxos) s.payments
              (saved_payments-RoundTrips codecs IsOutput IsKey faithful s.payments
                savable.are_payable.0 savable.are_payable.1))))
    where
      made : Plans → Plans → List Output → List Payment → Scheduler
      made queued plans utxos payments = record {
        key = s.key;
        coin = s.coin;
        queued_plans = queued;
        plans = plans;
        utxos = utxos;
        payments = payments;
      }

  -- Where the encodings of outputs, addresses and balances are faithful, a scheduler whose lists
  -- have lengths of 32 bits and amounts of 64 is serialized without a panic, and is what from_db
  -- reads of the bytes.
  pub from_db-serialize :
      (s : Scheduler)
      → IsSavable s
      → (bs : Bytes) × (serialize codecs s [] ≡ (ok tt, bs))
        × (from_db codecs s.key s.coin (some bs) ≡ ok s)
  unfolding from_db
  from_db-serialize s savable =
      let (bs, written, read_back) = serialize-RoundTrips s savable in
      (
        bs,
        written [],
        ap (λ r. r.0) (ap (read codecs s.key s.coin) (sym (append-nil bs)) ∙ read_back []),
      )

  -- The change address of a plan, if it has one, has bytes, at least one and fewer than 256.
  abbrev IsChange : Option ℕ → Type 0
  IsChange none = Unit
  IsChange (some a) =
      (b : ℕ) × (bs : Bytes) × (codecs.address_bytes a ≡ some (b ∷ bs))
      × (length (b ∷ bs) < 256 ^ 1)

  pub record IsSendable (p : Plan) : Type 0 where
    pub is_key : IsKey p.key
    pub few_inputs : length p.inputs < 256 ^ 4
    pub are_inputs : All IsOutput p.inputs
    pub are_paid : AreFew p.payments
    pub is_change : IsChange p.change

  -- The bytes of a change address, behind their length, a byte.
  change_bytes-RoundTrips :
      (bs : Bytes)
      → length bs < 256 ^ 1
      → RoundTrips (write_int 1 (length bs) >> write_all bs) (read_int 1 >>= read_exact) bs
  change_bytes-RoundTrips bs short =
      RoundTrips->>= (write_int 1 (length bs)) (write_all bs) (read_int 1) read_exact (length bs) bs
        (RoundTrips-int 1 (length bs) short) (RoundTrips-bytes bs)

  change-RoundTrips :
      {A : Type 0} (change : Option ℕ) (f : Option ℕ → A)
      → IsChange change
      → RoundTrips
          (change_bytes codecs change >>= λ bs. write_int 1 (length bs) >> write_all bs)
          ((read_int 1 >>= read_exact) >>= λ bs. change_of codecs bs >>= λ change. pure (f change))
          (f change)
  change-RoundTrips none f proper =
      RoundTrips-then (write_int 1 0 >> write_all []) (read_int 1 >>= read_exact)
        (λ bs. change_of codecs bs >>= λ change. pure (f change)) [] (f none)
        (change_bytes-RoundTrips [] (omega arith)) refl
  change-RoundTrips (some a) f (b, bs, known, short) =
      subst
        (λ o.
          RoundTrips (ok_or o io_error >>= λ bs. write_int 1 (length bs) >> write_all bs)
            ((read_int 1 >>= read_exact) >>= λ bs.
              change_of codecs bs >>= λ change. pure (f change))
            (f (some a)))
        (sym known)
        (RoundTrips-then (write_int 1 (length (b ∷ bs)) >> write_all (b ∷ bs))
          (read_int 1 >>= read_exact) (λ bs. change_of codecs bs >>= λ change. pure (f change))
          (b ∷ bs) (f (some a)) (change_bytes-RoundTrips (b ∷ bs) short)
          (ap
            (λ o.
              (ok_or o io_error >>= λ address. pure (some address)) >>= λ change. pure (f change))
            (faithful.addresses a (b ∷ bs) known)))

  plan-RoundTrips :
      (p : Plan) → IsSendable p → RoundTrips (write_plan codecs p) (read_plan codecs) p
  unfolding write_plan read_plan
  plan-RoundTrips p sendable =
      RoundTrips->>= (codecs.write_key p.key)
        (write_list codecs.write_output p.inputs
          >> (write_list (write_payment codecs) p.payments >> change))
        codecs.read_key
        (λ key. read_list codecs.read_output >>= λ inputs.
          read_list (read_payment codecs) >>= λ payments. (read_int 1 >>= read_exact) >>= λ bs.
          change_of codecs bs >>= λ change. pure (made key inputs payments change))
        p.key p (faithful.keys p.key sendable.is_key)
        (RoundTrips->>= (write_list codecs.write_output p.inputs)
          (write_list (write_payment codecs) p.payments >> change) (read_list codecs.read_output)
          (λ inputs. read_list (read_payment codecs) >>= λ payments.
            (read_int 1 >>= read_exact) >>= λ bs.
            change_of codecs bs >>= λ change. pure (made p.key inputs payments change))
          p.inputs p
          (RoundTrips-list codecs.write_output codecs.read_output p.inputs sendable.few_inputs
            (map-All faithful.outputs p.inputs sendable.are_inputs))
          (RoundTrips->>= (write_list (write_payment codecs) p.payments) change
            (read_list (read_payment codecs))
            (λ payments. (read_int 1 >>= read_exact) >>= λ bs.
              change_of codecs bs >>= λ change. pure (made p.key p.inputs payments change))
            p.payments p
            (payments-RoundTrips codecs IsOutput IsKey faithful p.payments sendable.are_paid.0
              sendable.are_paid.1)
            (change-RoundTrips p.change (made p.key p.inputs p.payments) sendable.is_change)))
    where
      made : ℕ → List Output → List Payment → Option ℕ → Plan
      made key inputs payments change = record {
        key = key;
        inputs = inputs;
        payments = payments;
        change = change;
      }

      change : Writer
      change = change_bytes codecs p.change >>= λ bs. write_int 1 (length bs) >> write_all bs

  -- Where the encodings of keys, outputs, addresses and balances are faithful, a plan whose lists
  -- have lengths of 32 bits and whose change address, if it has one, has from 1 to 255 bytes is
  -- written without an error, and is what is read of the bytes, whatever follows them.
  pub read_plan-write_plan :
      (p : Plan) (left : Bytes)
      → IsSendable p
      → (bs : Bytes) × (write_plan codecs p [] ≡ (ok tt, bs))
        × (read_plan codecs (bs ++ left) ≡ (ok p, left))
  read_plan-write_plan p left sendable =
      let (bs, written, read_back) = plan-RoundTrips p sendable in (bs, written [], read_back left)
