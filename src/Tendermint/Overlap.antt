-- ===== src/Tendermint/Overlap.antt =====
-- Two quorums of one round in the logs of different machines.
use serai.Common.{
  ℕ, ◌+◌, ◌*◌, ◌≤◌, ◌<◌, ◌≡◌, refl, ◌∙◌, sym, subst, Bool, true, false, Option, none, some, [], ◌∷◌,
  ◌++◌, arith, nat_eq, ◌==◌, ==_iff, not, ◌&&◌, if◌then◌else◌, lookup, erase, contains_key,
  Distinct, lookup-erase, erase-Distinct, sum_of, sum_of-append, Bool-cases, Option-cases, inl, inr,
  u64_mod,
}
use serai.Tendermint.Types.{
  Step, Data, step_of, data_beq, SignedMessage, RoundLog, Messages, step_eq, data_beq_trans,
}
use serai.Tendermint.Weighing.{Weights, IsWeighing, threshold, fault_threshold}
use serai.Tendermint.Log.{agreeing}

-- The validators that are not faulty have not sent contents that differ, in this step, to the two
-- logs.
abbrev pub AreConsistent : RoundLog → Step → RoundLog → RoundLog → Type 0
AreConsistent faulty st a b =
    (who : ℕ) (ms ns : Messages) (m n : SignedMessage)
    → lookup who faulty ≡ none
    → lookup who a ≡ some ms
    → lookup who b ≡ some ns
    → lookup st ms ≡ some m
    → lookup st ns ≡ some n
    → data_beq m.msg.content n.msg.content ≡ true

module _ (w : Weights) where
  abbrev weigh : RoundLog → ℕ
  weigh r = sum_of (λ e. w.weight e.0) r

  -- What the entries of `r` weigh whose validators are faulty.
  abbrev faulty_weight : RoundLog → RoundLog → ℕ
  faulty_weight faulty [] = 0
  faulty_weight faulty ((who, ms) ∷ r) =
      (if contains_key who faulty then w.weight who else 0) + faulty_weight faulty r

  weigh-erase :
      (who : ℕ) (r : RoundLog)
      → contains_key who r ≡ true
      → weigh (erase who r) + w.weight who ≡ weigh r
  weigh-erase who [] h = ground arith
  weigh-erase who ((v, ms) ∷ r) h = ground (arith, weigh-erase who r, ==_iff v who)

  faulty_weight-erase :
      (who : ℕ) (faulty r : RoundLog)
      → Distinct faulty
      → lookup who r ≡ none
      → faulty_weight (erase who faulty) r ≡ faulty_weight faulty r
  faulty_weight-erase who faulty [] d h = refl
  faulty_weight-erase who faulty ((v, ms) ∷ r) d h = ground (
    arith,
    lookup-erase who v faulty d,
    faulty_weight-erase who faulty r d,
    ==_iff v who,
    ==_iff who v,
  )

  faulty_weight-le :
      (faulty r : RoundLog) → Distinct faulty → Distinct r → faulty_weight faulty r ≤ weigh faulty
  faulty_weight-le faulty [] d e = omega arith
  faulty_weight-le faulty ((who, ms) ∷ r) d e = elim (Bool-cases (contains_key who faulty)) [
    | inl bad ↦
        let rest = faulty_weight-le (erase who faulty) r (erase-Distinct who faulty d) e.1 in
        ground
          (arith, bad, rest, weigh-erase who faulty bad, faulty_weight-erase who faulty r d e.0)
    | inr good ↦ ground (arith, good, faulty_weight-le faulty r d e.1)
  ]

  abbrev agrees : Data → Option SignedMessage → Bool
  agrees d none = false
  agrees d (some m) = data_beq d m.msg.content

  -- The entries of validators that are not faulty, and whose message agrees with `d`.
  abbrev select : RoundLog → Data → RoundLog → RoundLog
  select faulty d [] = []
  select faulty d ((who, ms) ∷ r) =
      if not (contains_key who faulty) && agrees d (lookup (step_of d) ms)
      then (who, ms) ∷ select faulty d r
      else select faulty d r

  agreeing-select :
      (faulty : RoundLog) (d : Data) (r : RoundLog)
      → agreeing w d r ≤ weigh (select faulty d r) + faulty_weight faulty r
  agreeing-select faulty d [] = omega arith
  agreeing-select faulty d ((who, ms) ∷ r) = ground (arith, agreeing-select faulty d r)

  lookup-select-none :
      (faulty : RoundLog) (d : Data) (who : ℕ) (r : RoundLog)
      → lookup who r ≡ none
      → lookup who (select faulty d r) ≡ none
  lookup-select-none faulty d who [] h = refl
  lookup-select-none faulty d who ((v, ms) ∷ r) h =
      ground (arith, lookup-select-none faulty d who r)

  select-Distinct :
      (faulty : RoundLog) (d : Data) (r : RoundLog) → Distinct r → Distinct (select faulty d r)
  select-Distinct faulty d [] e = tt
  select-Distinct faulty d ((v, ms) ∷ r) e =
      ground (arith, select-Distinct faulty d r e.1, lookup-select-none faulty d v r e.0)

  -- A selected validator is not faulty, and its message agrees.
  lookup-select :
      (faulty : RoundLog) (d : Data) (who : ℕ) (r : RoundLog) (ms : Messages)
      → Distinct r
      → lookup who (select faulty d r) ≡ some ms
      → (lookup who r ≡ some ms)
        × (contains_key who faulty ≡ false)
        × (agrees d (lookup (step_of d) ms) ≡ true)
  lookup-select faulty d who [] ms e h = ground arith
  lookup-select faulty d who ((v, ns) ∷ r) ms e h = elim (Bool-cases (v == who)) [
    | inl same ↦
        let v_is : v ≡ who = (==_iff v who).0 same in
        let gone : lookup who (select faulty d r) ≡ none =
          lookup-select-none faulty d who r (subst (λ x. lookup x r ≡ none) v_is e.0) in
        ground (arith, h, same, gone, v_is)
    | inr other ↦
        let below : lookup who (select faulty d r) ≡ some ms = ground (arith, h, other) in
        ground (arith, other, lookup-select faulty d who r ms e.1 below)
  ]

  lookup-append :
      (who : ℕ) (a b : RoundLog) → lookup who a ≡ none → lookup who (a ++ b) ≡ lookup who b
  lookup-append who [] b h = refl
  lookup-append who ((v, ms) ∷ a) b h = ground (arith, lookup-append who a b)

  append-Distinct :
      (a b : RoundLog)
      → Distinct a
      → Distinct b
      → ((who : ℕ) (ms : Messages) → lookup who a ≡ some ms → lookup who b ≡ none)
      → Distinct (a ++ b)
  append-Distinct [] b d e apart = e
  append-Distinct ((v, ms) ∷ a) b (fresh, d) e apart =
      let here : lookup v b ≡ none = apart v ms (ground (arith, ==_iff v v)) in
      (
        lookup-append v a b fresh ∙ here,
        append-Distinct a b d e (λ who ns found. apart who ns (behind who ns found)),
      )
    where
      behind :
          (who : ℕ) (ns : Messages) → lookup who a ≡ some ns → lookup who ((v, ms) ∷ a) ≡ some ns
      behind who ns found = elim (Bool-cases (v == who)) [
        | inl same ↦
            let v_is : v ≡ who = (==_iff v who).0 same in
            let gone : lookup who a ≡ none = subst (λ x. lookup x a ≡ none) v_is fresh in
            ground (arith, gone, found)
        | inr other ↦ ground (arith, other, found)
      ]

  agrees-message :
      (d : Data) (o : Option SignedMessage)
      → agrees d o ≡ true
      → (m : SignedMessage) × (o ≡ some m) × (data_beq d m.msg.content ≡ true)
  agrees-message d none h = ground arith
  agrees-message d (some m) h = (m, refl, h)

  -- Contents that differ are selected of different validators.
  select_apart :
      (faulty a b : RoundLog) (d d' : Data) (who : ℕ) (ms : Messages)
      → Distinct a
      → Distinct b
      → step_of d ≡ step_of d'
      → AreConsistent faulty (step_of d) a b
      → data_beq d d' ≡ false
      → lookup who (select faulty d a) ≡ some ms
      → lookup who (select faulty d' b) ≡ none
  select_apart faulty a b d d' who ms e f same agreed apart found =
      elim (Option-cases (lookup who (select faulty d' b))) [
        | inl missing ↦ missing
        | inr (ns, found') ↦
            let (in_a, good, says) = lookup-select faulty d who a ms e found in
            let (in_b, _, says') = lookup-select faulty d' who b ns f found' in
            let (m, is_m, dm) = agrees-message d (lookup (step_of d) ms) says in
            let (n, is_n, dn) = agrees-message d' (lookup (step_of d') ns) says' in
            let honest : lookup who faulty ≡ none = ground (arith, good) in
            let is_n' : lookup (step_of d) ns ≡ some n =
              subst (λ st. lookup st ns ≡ some n) (sym same) is_n in
            let mn : data_beq m.msg.content n.msg.content ≡ true =
              agreed who ms ns m n honest in_a in_b is_m is_n' in
            let dm' : data_beq d' m.msg.content ≡ true =
              data_beq_trans d' m.msg.content n.msg.content dn mn in
            let equal : data_beq d d' ≡ true = data_beq_trans d d' m.msg.content dm dm' in
            absurd (ground (arith, equal, apart))
      ]

  select_faulty_apart :
      (faulty r : RoundLog) (d : Data) (who : ℕ) (ms : Messages)
      → Distinct r
      → lookup who (select faulty d r) ≡ some ms
      → lookup who faulty ≡ none
  select_faulty_apart faulty r d who ms e found =
      let (_, good, _) = lookup-select faulty d who r ms e found in ground (arith, good)

  -- Two quorums for contents that differ share no more than the faulty validators.
  pub agreeing_bound :
      (faulty a b : RoundLog) (d d' : Data)
      → IsWeighing w
      → Distinct faulty
      → Distinct a
      → Distinct b
      → step_of d ≡ step_of d'
      → AreConsistent faulty (step_of d) a b
      → data_beq d d' ≡ false
      → agreeing w d a + agreeing w d' b ≤ w.total_weight + weigh faulty
  agreeing_bound faulty a b d d' contract df da db same agreed apart =
      let sa : RoundLog = select faulty d a in
      let sb : RoundLog = select faulty d' b in
      let rest_distinct : Distinct (sb ++ faulty) =
        append-Distinct sb faulty (select-Distinct faulty d' b db) df
          (λ who ms found. select_faulty_apart faulty b d' who ms db found) in
      let all_distinct : Distinct (sa ++ (sb ++ faulty)) =
        append-Distinct sa (sb ++ faulty) (select-Distinct faulty d a da) rest_distinct
          (λ who ms found.
            lookup-append who sb faulty
              (select_apart faulty a b d d' who ms da db same agreed apart found)
            ∙ select_faulty_apart faulty a d who ms da found) in
      omega (
        arith,
        contract.covers (sa ++ (sb ++ faulty)) all_distinct,
        sum_of-append (λ (e : ℕ × Messages). w.weight e.0) sa (sb ++ faulty),
        sum_of-append (λ (e : ℕ × Messages). w.weight e.0) sb faulty,
        agreeing-select faulty d a,
        agreeing-select faulty d' b,
        faulty_weight-le faulty a df da,
        faulty_weight-le faulty b df db,
      )

  pub quorums_overlap :
      w.total_weight * 2 < u64_mod
      → (n : ℕ) → n < fault_threshold w
      → w.total_weight + n < threshold w + threshold w
  unfolding threshold fault_threshold
  quorums_overlap small n few = ground arith
