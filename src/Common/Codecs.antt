-- ===== src/Common/Codecs.antt =====
-- Bytes that are written to a buffer and read back: `io::Write` and `io::Read`.
use Prim.Native.Nat.{ℕ, zero, suc, ◌+◌, ◌*◌, ◌/◌, ◌%◌, ◌^◌, ◌<◌}
use mathlib.Core.Path.{◌≡◌, refl, sym, ap, ◌∙◌}
use mathlib.Core.Bool.{true}
use mathlib.Core.List.{List, [], ◌∷◌, ◌++◌}
use native.Mathlib.Omega.{arith}
use serai.Common.Tests.{ltb}
use serai.Common.Lists.{append-nil, length, All}
use serai.Common.Outcomes.{
  Outcome, Action, ok, err, panic, ◌>>=◌, ◌>>◌, pure, modify, assert, expect,
}

abbrev pub Bytes : Type 0
Bytes = List ℕ

pub data IoError : Type 0 where
  io_error : IoError

-- A call that writes appends to the buffer; a call that reads takes from what is left.
abbrev pub Writer : Type 0
Writer = Action Bytes IoError (Unit {0})

abbrev pub Reader : Type 0 → Type 0
Reader = Action Bytes IoError

abbrev pub write_all : Bytes → Writer
write_all bs = modify (λ buf. buf ++ bs)

abbrev next_byte : Reader ℕ
next_byte [] = (err io_error, [])
next_byte (b ∷ left) = (ok b, left)

unfoldable pub read_exact : (n : ℕ) → Reader Bytes
read_exact zero = pure []
read_exact (suc n) = do b ← next_byte; bs ← read_exact n; pure (b ∷ bs)

-- `to_le_bytes` and `from_le_bytes` of an integer of a number of bytes
unfoldable pub to_le_bytes : (width : ℕ) → ℕ → Bytes
to_le_bytes zero n = []
to_le_bytes (suc width) n = (n % 256) ∷ to_le_bytes width (n / 256)

abbrev pub from_le_bytes : Bytes → ℕ
from_le_bytes [] = 0
from_le_bytes (b ∷ bs) = b + 256 * from_le_bytes bs

abbrev pub read_int : ℕ → Reader ℕ
read_int width = read_exact width >>= λ bs. pure (from_le_bytes bs)

-- `u32::try_from(n).unwrap().to_le_bytes()` and the like
abbrev pub write_int : ℕ → ℕ → Writer
write_int width n = assert (ltb n (256 ^ width)) >> write_all (to_le_bytes width n)

abbrev pub write_each : {A : Type 0} → (A → Writer) → List A → Writer
write_each w [] = pure tt
write_each w (x ∷ xs) = w x >> write_each w xs

unfoldable pub read_times : {A : Type 0} → Reader A → (count : ℕ) → Reader (List A)
read_times r zero = pure []
read_times r (suc count) = do x ← r; xs ← read_times r count; pure (x ∷ xs)

-- What is written is read back, whatever is in the buffer before it and after it.
abbrev pub RoundTrips : {A : Type 0} → Writer → Reader A → A → Type 0
RoundTrips w r a =
    (bs : Bytes) × ((buf : Bytes) → w buf ≡ (ok tt, buf ++ bs))
    × ((left : Bytes) → r (bs ++ left) ≡ (ok a, left))

append_assoc : (xs bs cs : Bytes) → (xs ++ bs) ++ cs ≡ xs ++ (bs ++ cs)
append_assoc [] bs cs = refl
append_assoc (x ∷ xs) bs cs = ap (λ r. x ∷ r) (append_assoc xs bs cs)

pub RoundTrips-pure : {A : Type 0} (a : A) → RoundTrips (pure tt) (pure a) a
RoundTrips-pure a = ([], λ buf. ap (λ r. (ok tt, r)) (sym (append-nil buf)), λ left. refl)

-- A call that returns is followed by the next.
pub bind_ok :
    {A B : Type 0} (m : Reader A) (f : A → Reader B) (s : Bytes) (a : A) (t : Bytes)
    → m s ≡ (ok a, t)
    → (m >>= f) s ≡ f a t
bind_ok {A} {B} m f s a t went =
    ap
      (λ r. elim r.0 as (λ _. Outcome IoError B × Bytes) [
        | ok a ↦ f a r.1
        | err e ↦ (err e, r.1)
        | panic ↦ (panic, r.1)
      ])
      went

pub RoundTrips->>= :
    {A B : Type 0} (w v : Writer) (r : Reader A) (f : A → Reader B) (a : A) (b : B)
    → RoundTrips w r a
    → RoundTrips v (f a) b
    → RoundTrips (w >> v) (r >>= f) b
RoundTrips->>= w v r f a b (xs, written, read) (bs, written', read') = (
  xs ++ bs,
  λ buf.
      bind_ok w (λ _. v) buf tt (buf ++ xs) (written buf)
      ∙ written' (buf ++ xs)
      ∙ ap (λ s. (ok tt, s)) (append_assoc buf xs bs),
  λ left.
      ap (r >>= f) (append_assoc xs bs left)
      ∙ bind_ok r f (xs ++ (bs ++ left)) a (bs ++ left) (read (bs ++ left))
      ∙ read' left,
)

-- What is read is put into another value.
pub RoundTrips-map :
    {A B : Type 0} (w : Writer) (r : Reader A) (f : A → B) (a : A)
    → RoundTrips w r a
    → RoundTrips w (r >>= λ x. pure (f x)) (f a)
RoundTrips-map w r f a (xs, written, read) =
    (xs, written, λ left. bind_ok r (λ x. pure (f x)) (xs ++ left) a left (read left))

-- What is read decides what comes of it.
pub RoundTrips-then :
    {A B : Type 0} (w : Writer) (r : Reader A) (f : A → Reader B) (a : A) (b : B)
    → RoundTrips w r a
    → f a ≡ pure b
    → RoundTrips w (r >>= f) b
RoundTrips-then w r f a b (bs, written, read) decides =
    (bs, written, λ left. bind_ok r f (bs ++ left) a left (read left) ∙ ap (λ g. g left) decides)

pub read_exact_lem : (bs left : Bytes) → read_exact (length bs) (bs ++ left) ≡ (ok bs, left)
unfolding read_exact
read_exact_lem [] left = refl
read_exact_lem (b ∷ bs) left =
    bind_ok (read_exact (length bs)) (λ bs. pure (b ∷ bs)) (bs ++ left) bs left
      (read_exact_lem bs left)

pub RoundTrips-bytes : (bs : Bytes) → RoundTrips (write_all bs) (read_exact (length bs)) bs
RoundTrips-bytes bs = (bs, λ buf. refl, λ left. read_exact_lem bs left)

length-to_le_bytes : (width n : ℕ) → length (to_le_bytes width n) ≡ width
unfolding to_le_bytes
length-to_le_bytes zero n = refl
length-to_le_bytes (suc width) n = omega (arith, length-to_le_bytes width (n / 256))

quotient_bound : (m n : ℕ) → n < 256 * m → n / 256 < m
quotient_bound m n h = omega (arith, h)

pub from_le_bytes-to_le_bytes :
    (width n : ℕ) → n < 256 ^ width → from_le_bytes (to_le_bytes width n) ≡ n
unfolding to_le_bytes
from_le_bytes-to_le_bytes zero n h = ground (arith, h)
from_le_bytes-to_le_bytes (suc width) n h = omega (
  arith,
  from_le_bytes-to_le_bytes width (n / 256) (quotient_bound (256 ^ width) n (omega (arith, h))),
)

pub read_int-to_le_bytes :
    (width n : ℕ) (left : Bytes)
    → n < 256 ^ width
    → read_int width (to_le_bytes width n ++ left) ≡ (ok n, left)
read_int-to_le_bytes width n left small =
    let bs : Bytes = to_le_bytes width n in
    ap (λ w. (read_exact w >>= λ bs. pure (from_le_bytes bs)) (bs ++ left))
      (sym (length-to_le_bytes width n))
    ∙ bind_ok (read_exact (length bs)) (λ bs. pure (from_le_bytes bs)) (bs ++ left) bs left
        (read_exact_lem bs left)
    ∙ ap (λ m. (ok m, left)) (from_le_bytes-to_le_bytes width n small)

pub RoundTrips-int :
    (width n : ℕ) → n < 256 ^ width → RoundTrips (write_int width n) (read_int width) n
RoundTrips-int width n small = (
  to_le_bytes width n,
  λ buf.
      ap (λ b. (assert b >> write_all (to_le_bytes width n)) buf) (ltb_true n (256 ^ width) small),
  λ left. read_int-to_le_bytes width n left small,
)
  where
    ltb_true : (a b : ℕ) → a < b → ltb a b ≡ true
    ltb_true a b h = ground (arith, h)

pub RoundTrips-times :
    {A : Type 0} (w : A → Writer) (r : Reader A) (xs : List A)
    → All (λ x. RoundTrips (w x) r x) xs
    → RoundTrips (write_each w xs) (read_times r (length xs)) xs
unfolding read_times
RoundTrips-times w r [] each = RoundTrips-pure []
RoundTrips-times w r (x ∷ xs) (here, each) =
    RoundTrips->>= (w x) (write_each w xs) r (λ x. read_times r (length xs) >>= λ xs. pure (x ∷ xs))
      x (x ∷ xs) here
      (RoundTrips-map (write_each w xs) (read_times r (length xs)) (λ ys. x ∷ ys) xs
        (RoundTrips-times w r xs each))

-- Where what is written is unwrapped, an error is a panic.
pub RoundTrips-expect :
    {A : Type 0} (w : Writer) (r : Reader A) (a : A) → RoundTrips w r a → RoundTrips (expect w) r a
RoundTrips-expect w r a (bs, written, read) = (
  bs,
  λ buf.
      ap
        (λ o. elim o.0 as (λ _. Outcome IoError (Unit {0}) × Bytes) [
          | ok _ ↦ (ok tt, o.1)
          | err e ↦ (panic, o.1)
          | panic ↦ (panic, o.1)
        ])
        (written buf),
  read,
)

-- A list behind its length, a `u32`.
abbrev pub write_list : {A : Type 0} → (A → Writer) → List A → Writer
write_list w xs = write_int 4 (length xs) >> write_each w xs

abbrev pub read_list : {A : Type 0} → Reader A → Reader (List A)
read_list r = read_int 4 >>= read_times r

pub RoundTrips-list :
    {A : Type 0} (w : A → Writer) (r : Reader A) (xs : List A)
    → length xs < 256 ^ 4
    → All (λ x. RoundTrips (w x) r x) xs
    → RoundTrips (write_list w xs) (read_list r) xs
RoundTrips-list w r xs few each =
    RoundTrips->>= (write_int 4 (length xs)) (write_each w xs) (read_int 4) (read_times r)
      (length xs) xs (RoundTrips-int 4 (length xs) few) (RoundTrips-times w r xs each)
