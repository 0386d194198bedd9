-- ===== src/Tendermint/Times.antt =====
-- When the rounds end.
use serai.Common.{
  ℕ, zero, suc, ◌+◌, ◌-◌, ◌*◌, ◌<◌, ◌≡◌, refl, ap, ◌∙◌, Option, none, some, arith, u32_mod, Map,
  lookup, insert, nat_eq, lookup-insert,
}
use serai.Tendermint.Types.{Step}
use serai.Tendermint.Rounds.{
  CanonicalInstant, Latency, RoundData, block_time, timeout_offset, timeout, end_time, populate,
  new_round_data,
}

block_time-inv :
    (c : Latency) (b : ℕ)
    → c.block_processing_time + 3 * c.latency_time < u32_mod
    → block_time c ≡ some b
    → c.block_processing_time + 3 * c.latency_time ≡ b * 1000
unfolding block_time
block_time-inv c b small e = ground arith

offset_lem :
    (c : Latency) (b n : ℕ)
    → block_time c ≡ some b
    → c.block_processing_time + 3 * c.latency_time < u32_mod
    → b * (n + 1) * 1000 < u32_mod
    → timeout_offset c n Step.precommit ≡ b * (n + 1) * 1000
unfolding timeout_offset
offset_lem c b n e small fits =
    let raw = ap (λ (t : ℕ). t * (n + 1)) (block_time-inv c b small e) in omega (arith, raw)

-- Where the constants make a block time of `b` seconds and nothing overflows 32 bits, round `n`
-- ends `b * (n + 1)` seconds after it starts.
pub end_time_lem :
    (c : Latency) (r : RoundData) (b : ℕ)
    → block_time c ≡ some b
    → c.block_processing_time + 3 * c.latency_time < u32_mod
    → b * (r.number + 1) * 1000 < u32_mod
    → (end_time c r).time ≡ r.start_time.time + b * (r.number + 1)
unfolding end_time timeout
end_time_lem c r b e small fits = rw (offset_lem c b r.number e small fits) (omega arith)

abbrev resumed :
    Latency
    → ℕ
    → ℕ
    → Map ℕ CanonicalInstant
    → Option CanonicalInstant
    → Option (Map ℕ CanonicalInstant)
resumed c count r ends o = elim o [
  | none ↦ none
  | some prior ↦
      populate c count (r + 1 + 1) (insert (r + 1) (end_time c (new_round_data (r + 1) prior)) ends)
]

populate-step :
    (c : Latency) (count r : ℕ) (ends : Map ℕ CanonicalInstant) (t : CanonicalInstant)
    → lookup r ends ≡ some t
    → populate c (suc count) (r + 1) ends
      ≡ populate c count (r + 1 + 1) (insert (r + 1) (end_time c (new_round_data (r + 1) t)) ends)
unfolding populate
populate-step c count r ends t known =
    let back : r + 1 - 1 ≡ r = omega arith in
    let known' : lookup (r + 1 - 1) ends ≡ some t = rw back known in
    ap (resumed c count r ends) known'

-- Populating the end times up to `count` rounds past `r`, from a known end of round `r`, never
-- panics, and round `r + count` ends where the block times of the rounds between, `b` seconds for
-- each round number, have gone by: twice the difference is `b * (count * (2 * r + count + 3))`.
pub populate_lem :
    (c : Latency) (b count r : ℕ) (ends : Map ℕ CanonicalInstant) (t : CanonicalInstant)
    → block_time c ≡ some b
    → c.block_processing_time + 3 * c.latency_time < u32_mod
    → b * (r + count + 1) * 1000 < u32_mod
    → lookup r ends ≡ some t
    → (ends' : Map ℕ CanonicalInstant) × (u : CanonicalInstant) × (populate c count (r + 1) ends
        ≡ some ends')
      × (lookup (r + count) ends' ≡ some u)
      × (2 * u.time ≡ 2 * t.time + b * (count * (2 * r + count + 3)))
unfolding populate
populate_lem c b zero r ends t e small fits known =
    let same : r + 0 ≡ r = omega arith in (ends, t, refl, rw same known, omega arith)
populate_lem c b (suc count) r ends t e small fits known =
    let u : CanonicalInstant = end_time c (new_round_data (r + 1) t) in
    let ends₁ : Map ℕ CanonicalInstant = insert (r + 1) u ends in
    let there : lookup (r + 1) ends₁ ≡ some u =
      ground (arith, lookup-insert (r + 1) (r + 1) u ends) in
    let passed : u.time ≡ t.time + b * (r + 1 + 1) =
      end_time_lem c (new_round_data (r + 1) t) b e small (grind arith) in
    let (ends', v, p, q, h) = populate_lem c b count (r + 1) ends₁ u e small (grind arith) there in
    let on : r + suc count ≡ r + 1 + count = omega arith in
    (ends', v, populate-step c count r ends t known ∙ p, rw on q, omega (arith, h, passed))
