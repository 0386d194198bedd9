-- ===== src/Scheduler/Ledger.antt =====
-- What the maps of plans hold, measured. A measure of payments stands for any way to count them: at
-- the one that is 1 on one payment and 0 elsewhere it counts its copies, at the amount it adds up.
use serai.Common.{
  ℕ, ◌+◌, ◌≡◌, some, List, [], ◌∷◌, ◌++◌, arith, lookup, insert, erase, nat_eq, sum_of,
  sum_of-append,
}
use serai.Scheduler.Types.{Payment, Plans}
use serai.Scheduler.Execute.{or_empty, push_plan, put_rest}

abbrev lists_sum : (Payment → ℕ) → List (List Payment) → ℕ
lists_sum f = sum_of (sum_of f)

abbrev pub plans_sum : (Payment → ℕ) → Plans → ℕ
plans_sum f [] = 0
plans_sum f ((amount, pss) ∷ m) = lists_sum f pss + plans_sum f m

plans_sum-insert :
    (f : Payment → ℕ) (a : ℕ) (pss : List (List Payment)) (m : Plans)
    → plans_sum f (insert a pss m) + lists_sum f (or_empty (lookup a m))
      ≡ plans_sum f m + lists_sum f pss
plans_sum-insert f a pss [] = ground arith
plans_sum-insert f a pss ((b, qss) ∷ m) = ground (arith, plans_sum-insert f a pss m)

plans_sum-erase :
    (f : Payment → ℕ) (a : ℕ) (m : Plans)
    → plans_sum f (erase a m) + lists_sum f (or_empty (lookup a m)) ≡ plans_sum f m
plans_sum-erase f a [] = ground arith
plans_sum-erase f a ((b, qss) ∷ m) = ground (arith, plans_sum-erase f a m)

pub plans_sum-push :
    (f : Payment → ℕ) (a : ℕ) (ps : List Payment) (m : Plans)
    → plans_sum f (push_plan a ps m) ≡ plans_sum f m + sum_of f ps
unfolding push_plan
plans_sum-push f a ps m = omega (
  arith,
  plans_sum-insert f a (or_empty (lookup a m) ++ ps ∷ []) m,
  sum_of-append {0} (sum_of f) (or_empty (lookup a m)) (ps ∷ []),
)

plans_sum-pop :
    (f : Payment → ℕ) (a : ℕ) (ps : List Payment) (rest : List (List Payment)) (m : Plans)
    → lookup a m ≡ some (ps ∷ rest)
    → plans_sum f (put_rest a rest m) + sum_of f ps ≡ plans_sum f m
unfolding put_rest
plans_sum-pop f a ps [] m e = ground (arith, plans_sum-erase f a m)
plans_sum-pop f a ps (q ∷ qs) m e = ground (arith, plans_sum-insert f a (q ∷ qs) m)
