-- ===== src/ValidatorSets/Sorting.antt =====
-- substrate/validator-sets/pallet/src/lib.rs: the sorted view of the allocations.
use serai.Common.{
  ℕ, ◌+◌, ◌-◌, ◌≡◌, ◌↔◌, refl, sym, ◌∙◌, Bool, true, false, ◌&&◌, Option, none, some, List, [], ◌∷◌,
  arith, ◌==◌, ==_iff, if◌then◌else◌, lookup, insert, Distinct, lookup-insert, lookup-erase,
  lookup-erase_self, insert-Distinct, erase-Distinct, beq, nat_eq, pair_eq,
}
use serai.Primitives.{NetworkId, network_eq, network_beq_iff}
use serai.ValidatorSets.{
  Storage, SortedKey, set_allocation, remove_prior, place, take_out, key_beq, before,
  sorted_allocation_key,
}

-- How often a key is in the view.
abbrev pub count : SortedKey → List SortedKey → ℕ
count k [] = 0
count k (j ∷ more) = (if key_beq j k then 1 else 0) + count k more

count-place :
    (k j : SortedKey) (l : List SortedKey)
    → count k (place j l) ≡ (if key_beq j k then 1 else 0) + count k l
count-place k j [] = refl
count-place k j (i ∷ l) = placed (before j i) (count-place k j l)
  where
    placed :
        (first : Bool)
        → count k (place j l) ≡ (if key_beq j k then 1 else 0) + count k l
        → count k (if first then j ∷ i ∷ l else i ∷ place j l)
          ≡ (if key_beq j k then 1 else 0) + ((if key_beq i k then 1 else 0) + count k l)
    placed true h = refl
    placed false h = omega (arith, h)

key_beq_iff : (j k : SortedKey) → (key_beq j k ≡ true) ↔ (j ≡ k)
key_beq_iff ((m, a), (h, v)) ((n, b), (i, w)) =
    ground (arith, network_beq_iff m n, ==_iff a b, ==_iff h i, ==_iff v w)

key_beq_sym : (j k : SortedKey) → key_beq j k ≡ true → key_beq k j ≡ true
key_beq_sym j k e = (key_beq_iff k j).1 (sym ((key_beq_iff j k).0 e))

key_beq_trans : (i j k : SortedKey) → key_beq i j ≡ true → key_beq i k ≡ true → key_beq j k ≡ true
key_beq_trans i j k e f = (key_beq_iff j k).1 (sym ((key_beq_iff i j).0 e) ∙ (key_beq_iff i k).0 f)

count-take_out :
    (k j : SortedKey) (l : List SortedKey)
    → count k (take_out j l) ≡ count k l - (if key_beq j k then 1 else 0)
count-take_out k j [] = omega arith
count-take_out k j (i ∷ l) =
    taken (key_beq i j) (key_beq i k) (key_beq j k) refl refl refl (count-take_out k j l)
  where
    taken :
        (ij ik jk : Bool)
        → key_beq i j ≡ ij
        → key_beq i k ≡ ik
        → key_beq j k ≡ jk
        → count k (take_out j l) ≡ count k l - (if jk then 1 else 0)
        → count k (if ij then l else i ∷ take_out j l)
          ≡ ((if ik then 1 else 0) + count k l) - (if jk then 1 else 0)
    taken true true true e f g h = omega arith
    taken true true false e f g h = absurd (ground (arith, key_beq_trans i j k e f, g))
    taken true false true e f g h =
        absurd (ground (arith, key_beq_trans j i k (key_beq_sym i j e) g, f))
    taken true false false e f g h = omega arith
    taken false true true e f g h =
        absurd (ground (arith, key_beq_trans k i j (key_beq_sym i k f) (key_beq_sym j k g), e))
    taken false true false e f g h = ground (arith, f, h)
    taken false false jk e f g h = ground (arith, f, h)

-- The key of an allocation is that of the same network, validator and amount, with their hash.
key_beq_lem :
    (hash : NetworkId → ℕ → ℕ → ℕ) (m n : NetworkId) (v w a b h : ℕ)
    → key_beq (sorted_allocation_key hash m v a) ((n, b), (h, w))
      ≡ ((h == hash n b w) && ((beq m n && v == w) && a == b))
key_beq_lem hash m n v w a b h = ground (
  arith,
  network_beq_iff m n,
  ==_iff v w,
  ==_iff a b,
  ==_iff (hash m a v) h,
  ==_iff h (hash n b w),
)

abbrev pub holds : ℕ → Option ℕ → Bool
holds a none = false
holds a (some b) = b == a

-- The view has the key of each allocation once, and no other key: a key is in it once if its
-- amount is the allocation of its validator to its network and its hash is that of the three, and
-- not at all otherwise.
abbrev pub IsSynced : (NetworkId → ℕ → ℕ → ℕ) → Storage → Type 0
IsSynced hash s =
    (net : NetworkId) (who a h : ℕ)
    → count ((net, a), (h, who)) s.sorted
      ≡ (if (h == hash net a who) && holds a (lookup (net, who) s.allocations) then 1 else 0)

remove_prior-IsSynced :
    (hash : NetworkId → ℕ → ℕ → ℕ) (net : NetworkId) (key : ℕ) (prior : Option ℕ) (s : Storage)
    → Distinct s.allocations
    → lookup (net, key) s.allocations ≡ prior
    → IsSynced hash s
    → IsSynced hash (remove_prior hash net key prior s)
remove_prior-IsSynced hash net key none s d e h = h
remove_prior-IsSynced hash net key (some b) s d e h = λ n w a i. ground (
  arith,
  e,
  h n w a i,
  network_beq_iff net n,
  ==_iff key w,
  ==_iff b a,
  key_beq_lem hash net n key w b a i,
  lookup-erase (net, key) (n, w) s.allocations d,
  count-take_out ((n, a), (i, w)) (sorted_allocation_key hash net key b) s.sorted,
)

remove_prior-none :
    (hash : NetworkId → ℕ → ℕ → ℕ) (net : NetworkId) (key : ℕ) (prior : Option ℕ) (s : Storage)
    → Distinct s.allocations
    → lookup (net, key) s.allocations ≡ prior
    → lookup (net, key) (remove_prior hash net key prior s).allocations ≡ none
remove_prior-none hash net key none s d e = e
remove_prior-none hash net key (some b) s d e = lookup-erase_self (net, key) s.allocations d

-- The allocation of a validator that has none.
abbrev add_allocation : (NetworkId → ℕ → ℕ → ℕ) → NetworkId → ℕ → ℕ → Storage → Storage
add_allocation hash net key amount s = record s {
  allocations = insert (net, key) amount s.allocations;
  sorted = place (sorted_allocation_key hash net key amount) s.sorted;
}

add_allocation-IsSynced :
    (hash : NetworkId → ℕ → ℕ → ℕ) (net : NetworkId) (key amount : ℕ) (s : Storage)
    → lookup (net, key) s.allocations ≡ none
    → IsSynced hash s
    → IsSynced hash (add_allocation hash net key amount s)
add_allocation-IsSynced hash net key amount s e h = λ n w a i. ground (
  arith,
  e,
  h n w a i,
  network_beq_iff net n,
  ==_iff key w,
  ==_iff amount a,
  key_beq_lem hash net n key w amount a i,
  lookup-insert (net, key) (n, w) amount s.allocations,
  count-place ((n, a), (i, w)) (sorted_allocation_key hash net key amount) s.sorted,
)

-- The map lists no allocation twice, and the view agrees with it.
abbrev pub IsView : (NetworkId → ℕ → ℕ → ℕ) → Storage → Type 0
IsView hash s = Distinct s.allocations × IsSynced hash s

remove_prior-IsView :
    (hash : NetworkId → ℕ → ℕ → ℕ) (net : NetworkId) (key : ℕ) (s : Storage)
    → IsView hash s
    → IsView hash (remove_prior hash net key (lookup (net, key) s.allocations) s)
remove_prior-IsView hash net key s (d, h) = (
  shorter (lookup (net, key) s.allocations),
  remove_prior-IsSynced hash net key (lookup (net, key) s.allocations) s d refl h,
)
  where
    shorter : (prior : Option ℕ) → Distinct (remove_prior hash net key prior s).allocations
    shorter none = d
    shorter (some b) = erase-Distinct (net, key) s.allocations d

-- Setting an allocation, of whatever amount, keeps the sorted view a refinement of the map: it has
-- the key of each allocation once, and no other key.
pub set_allocation-IsView :
    (hash : NetworkId → ℕ → ℕ → ℕ) (net : NetworkId) (key amount : ℕ) (s : Storage)
    → IsView hash s
    → IsView hash (set_allocation hash net key amount s)
unfolding set_allocation
set_allocation-IsView hash net key amount s v =
    let prior = lookup (net, key) s.allocations in
    let s₁ : Storage = remove_prior hash net key prior s in
    let (d, synced) : IsView hash s₁ = remove_prior-IsView hash net key s v in
    chosen (amount == 0) s₁ (d, synced)
      (
        insert-Distinct (net, key) amount s₁.allocations d,
        add_allocation-IsSynced hash net key amount s₁
            (remove_prior-none hash net key prior s v.0 refl) synced,
      )
  where
    chosen :
        (nothing : Bool) (t : Storage)
        → IsView hash t
        → IsView hash (add_allocation hash net key amount t)
        → IsView hash (if nothing then t else add_allocation hash net key amount t)
    chosen true t kept added = kept
    chosen false t kept added = added
