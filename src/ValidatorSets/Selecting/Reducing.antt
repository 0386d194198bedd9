-- ===== src/ValidatorSets/Selecting/Reducing.antt =====
-- substrate/validator-sets/primitives/src/lib.rs: how key shares are reduced, one at a time.
use serai.Common.{
  ℕ, zero, suc, ◌+◌, ◌-◌, ◌/◌, ◌%◌, ◌≤◌, ◌<◌, ◌≡◌, refl, sym, ap, subst, ◌∙◌, [], ◌∷◌, arith,
  length, All, u64_mod, min,
}
use native.Mathlib.Nat.{mod-lt, zero-div, div-add-mod, div-eq_of_lt-le}
use serai.ValidatorSets.{max_key_shares_per_set, post_amortization_key_shares_for_top_validator}
use serai.ValidatorSets.Selecting.{
  Validators, total_key_shares, reduce_at, reduce_from, amortize_excess_key_shares,
}

-- The key shares of the validators, added up.
abbrev pub shares_of : Validators → ℕ
shares_of [] = 0
shares_of ((key, shares) ∷ more) = shares + shares_of more

abbrev pub AreFrom : ℕ → Validators → Type 0
AreFrom least validators = All (λ v. (least ≤ v.1) × (v.1 < u64_mod)) validators

reduce_share : (n : ℕ) → 1 ≤ n → n < u64_mod → ((n + (u64_mod - 1)) % u64_mod) + 1 ≡ n
reduce_share n positive bounded = ground (arith, positive, bounded)

AreFrom-mono : (b c : ℕ) (vs : Validators) → b ≤ c → AreFrom c vs → AreFrom b vs
AreFrom-mono b c [] less all = tt
AreFrom-mono b c (v ∷ vs) less ((low, high), all) =
    ((omega (arith, low, less), high), AreFrom-mono b c vs less all)

-- A reduction of one takes one share from one validator.
Reduces : ℕ → Validators → Validators → Type 0
Reduces b vs ws = (length ws ≡ length vs) × (shares_of ws + 1 ≡ shares_of vs) × AreFrom b ws

reduce_at-Reduces :
    (b index : ℕ) (vs : Validators)
    → index < length vs
    → AreFrom (suc b) vs
    → Reduces b vs (reduce_at index vs)
unfolding Reduces
reduce_at-Reduces b index [] inside all = absurd (ground (arith, inside))
reduce_at-Reduces b zero ((key, n) ∷ vs) inside ((low, high), all) =
    let less : ((n + (u64_mod - 1)) % u64_mod) + 1 ≡ n = reduce_share n (omega (arith, low)) high in
    (
      refl,
      omega (arith, less),
      (
        (omega (arith, less, low), omega (arith, less, high)),
        AreFrom-mono b (suc b) vs (omega arith) all,
      ),
    )
reduce_at-Reduces b (suc index) ((key, n) ∷ vs) inside ((low, high), all) =
    let (long, less, rest) = reduce_at-Reduces b index vs (omega (arith, inside)) all in
    (omega (arith, long), omega (arith, less), ((omega (arith, low), high), rest))

index_inside : (i len : ℕ) → 0 < len → len - (i % len + 1) < len
index_inside i len positive = omega (arith, mod-lt i positive, positive)

reduce_from-shares_of :
    (b count i : ℕ) (vs : Validators)
    → 0 < length vs
    → AreFrom (count + b) vs
    → (shares_of (reduce_from count i vs) + count ≡ shares_of vs)
      × AreFrom b (reduce_from count i vs)
      × (length (reduce_from count i vs) ≡ length vs)
unfolding reduce_from Reduces
reduce_from-shares_of b zero i vs some_left all =
    (omega arith, subst (λ c. AreFrom c vs) (omega arith) all, refl)
reduce_from-shares_of b (suc count) i vs some_left all =
    let ws : Validators = reduce_at (length vs - (i % length vs + 1)) vs in
    let (long, less, low) =
      reduce_at-Reduces (count + b) (length vs - (i % length vs + 1)) vs
        (index_inside i (length vs) some_left) (subst (λ c. AreFrom c vs) (omega arith) all) in
    let (sums, left, long') =
      reduce_from-shares_of b count (i + 1) ws (omega (arith, long, some_left)) low in
    (omega (arith, sums, less), left, omega (arith, long, long'))

total_key_shares_lem :
    (vs : Validators) → shares_of vs < u64_mod → total_key_shares vs ≡ shares_of vs
total_key_shares_lem [] small = refl
total_key_shares_lem ((key, n) ∷ vs) small =
    ground (arith, total_key_shares_lem vs (omega (arith, small)), small)

-- Where every validator has more shares than are too many, the reduction leaves the maximum, if
-- there are that many, and everyone a share.
abbrev pub excess : Validators → ℕ
excess vs = shares_of vs - max_key_shares_per_set

pub amortize-shares_of :
    (vs : Validators)
    → 0 < length vs
    → shares_of vs < u64_mod
    → AreFrom (excess vs + 1) vs
    → (shares_of (amortize_excess_key_shares vs) ≡ min (shares_of vs) max_key_shares_per_set)
      × AreFrom 1 (amortize_excess_key_shares vs)
unfolding amortize_excess_key_shares
amortize-shares_of vs some_left small all =
    let (sums, left, _) = reduce_from-shares_of 1 (excess vs) 0 vs some_left all in
    subst
      (λ t.
        (shares_of (reduce_from (t - max_key_shares_per_set) 0 vs)
          ≡ min (shares_of vs) max_key_shares_per_set)
        × AreFrom 1 (reduce_from (t - max_key_shares_per_set) 0 vs))
      (sym (total_key_shares_lem vs small))
      (reduced (shares_of vs) (shares_of (reduce_from (excess vs) 0 vs)) sums, left)
  where
    reduced : (t r : ℕ) → r + (t - max_key_shares_per_set) ≡ t → r ≡ min t max_key_shares_per_set
    reduced t r sums = ground (arith, sums)

abbrev pub top_of : Validators → ℕ
top_of [] = 0
top_of ((key, shares) ∷ more) = shares

-- One more is divided: the quotient rises at a multiple.
div-suc : (i len : ℕ) → 0 < len → i % len + 1 ≡ len → (i + 1) / len ≡ i / len + 1
div-suc i len positive last =
    div-eq_of_lt-le len (omega (arith, div-add-mod i len, last))
      (omega (arith, div-add-mod i len, last, positive))

div-stays : (i len : ℕ) → 0 < len → i % len + 1 < len → (i + 1) / len ≡ i / len
div-stays i len positive earlier =
    div-eq_of_lt-le len (omega (arith, div-add-mod i len))
      (omega (arith, div-add-mod i len, earlier))

-- The first validator is reduced at the end of each round over the validators.
reduce_at-top :
    (i : ℕ) (vs : Validators)
    → 0 < length vs
    → AreFrom 1 vs
    → top_of (reduce_at (length vs - (i % length vs + 1)) vs) + (i + 1) / length vs
      ≡ top_of vs + i / length vs
reduce_at-top i [] some_left all = absurd (ground (arith, some_left))
reduce_at-top i ((key, n) ∷ vs) some_left ((low, high), all) =
    at_end (length ((key, n) ∷ vs) - (i % length ((key, n) ∷ vs) + 1)) refl
  where
    len : ℕ
    len = length ((key, n) ∷ vs)

    at_end :
        (index : ℕ)
        → len - (i % len + 1) ≡ index
        → top_of (reduce_at index ((key, n) ∷ vs)) + (i + 1) / len ≡ n + i / len
    at_end zero at = omega (
      arith,
      div-suc i len some_left (omega (arith, at, mod-lt i some_left)),
      reduce_share n low high,
    )
    at_end (suc index) at = omega (arith, div-stays i len some_left (omega (arith, at)))

reduce_from-top :
    (count i : ℕ) (vs : Validators)
    → 0 < length vs
    → AreFrom count vs
    → top_of (reduce_from count i vs) + (i + count) / length vs ≡ top_of vs + i / length vs
unfolding reduce_from Reduces
reduce_from-top zero i vs some_left all = ap (λ j. top_of vs + j / length vs) (omega arith)
reduce_from-top (suc count) i vs some_left all =
    let len : ℕ = length vs in
    let ws : Validators = reduce_at (len - (i % len + 1)) vs in
    let (long, less, low) =
      reduce_at-Reduces count (len - (i % len + 1)) vs (index_inside i len some_left) all in
    let here : top_of ws + (i + 1) / len ≡ top_of vs + i / len =
      reduce_at-top i vs some_left (AreFrom-mono 1 (suc count) vs (omega arith) all) in
    let rest : top_of (reduce_from count (i + 1) ws) + (i + 1 + count) / length ws
        ≡ top_of ws + (i + 1) / length ws =
      reduce_from-top count (i + 1) ws (omega (arith, long, some_left)) low in
    let there : top_of (reduce_from count (i + 1) ws) + (i + 1 + count) / len
        ≡ top_of ws + (i + 1) / len =
      subst
        (λ l. top_of (reduce_from count (i + 1) ws) + (i + 1 + count) / l ≡ top_of ws + (i + 1) / l)
        long rest in
    subst (λ j. top_of (reduce_from count (i + 1) ws) + j / len ≡ top_of vs + i / len) (omega arith)
      (there ∙ here)

pub amortize-top :
    (vs : Validators)
    → 0 < length vs
    → shares_of vs < u64_mod
    → AreFrom (excess vs + 1) vs
    → top_of (amortize_excess_key_shares vs)
      ≡ post_amortization_key_shares_for_top_validator (length vs) (top_of vs) (shares_of vs)
unfolding amortize_excess_key_shares
amortize-top vs some_left small all =
    subst
      (λ t.
        top_of (reduce_from (t - max_key_shares_per_set) 0 vs)
        ≡ post_amortization_key_shares_for_top_validator (length vs) (top_of vs) (shares_of vs))
      (sym (total_key_shares_lem vs small)) (omega (arith, counted, zero_div (length vs)))
  where
    counted :
        top_of (reduce_from (excess vs) 0 vs) + excess vs / length vs ≡ top_of vs + 0 / length vs
    counted =
        subst
          (λ j. top_of (reduce_from (excess vs) 0 vs) + j / length vs ≡ top_of vs + 0 / length vs)
          (omega arith)
          (reduce_from-top (excess vs) 0 vs some_left
            (AreFrom-mono (excess vs) (excess vs + 1) vs (omega arith) all))

    zero_div : (m : ℕ) → 0 / m ≡ 0
    zero_div m = zero-div m
