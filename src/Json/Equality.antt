-- ===== src/Json/Equality.antt =====
-- Python's `==` on the values of `json.loads`, as storage/data_governance.py compares the messages of
-- two trajectories: numbers by their value, `True` and `False` among them, and dicts without their
-- order.
use nf_safety_hub.Prelude.{
  ℕ, ◌+◌, ◌-◌, ◌*◌, ◌/◌, ◌%◌, ◌^◌, Bool, true, false, not, ◌&&◌, ◌||◌, Option, none, some,
  if◌then◌else◌, eqb, length, ◌≡◌, refl,
}
use nf_safety_hub.Prelude.Text.{◌==◌}
use nf_safety_hub.Json.{
  Value, null, bool, int, float, string, array, object, Items, nil, cons, Fields, end, field,
  fields, get, same, same_iff,
}

-- A number as its sign and its magnitude in units of 2 ^ -1074, the least part of a 64-bit float.
abbrev Exact : Type 0
Exact = Bool × ℕ

-- the magnitude, from the exponent and the fraction of the 64-bit pattern; none if not finite
abbrev magnitude : ℕ → ℕ → Option ℕ
magnitude exponent fraction =
    if eqb exponent 2047
    then none
    else if eqb exponent 0
    then some fraction
    else some ((2 ^ 52 + fraction) * 2 ^ (exponent - 1))

abbrev with_sign : Bool → Option ℕ → Option Exact
with_sign negative none = none
with_sign negative (some n) = some (negative, n)

unfoldable pub exact_of : Value → Option Exact
exact_of (bool b) = some (false, if b then 2 ^ 1074 else 0)
exact_of (int negative n) = some (negative, n * 2 ^ 1074)
exact_of (float bits) =
    with_sign (eqb (bits / 2 ^ 63 % 2) 1) (magnitude (bits / 2 ^ 52 % 2048) (bits % 2 ^ 52))
exact_of _ = none

abbrev equal_exact : Option Exact → Option Exact → Bool
equal_exact (some (a, m)) (some (b, n)) = eqb m n && (eqb m 0 || (if a then b else not b))
equal_exact _ _ = false

abbrev is_found : (Value → Bool) → Option Value → Bool
is_found test none = false
is_found test (some w) = test w

unfoldable mutual
  unfolding exact_of

  pub loosely : Value → Value → Bool
  loosely null null = true
  loosely (string s) (string t) = s == t
  loosely (array xs) (array ys) = loosely_items xs ys
  loosely (object fs) (object gs) =
      eqb (length (fields fs)) (length (fields gs)) && loosely_fields fs gs
  -- the constant NaN of the parser is one object, which a list holds as equal to itself
  loosely (float m) (float n) = eqb m n || equal_exact (exact_of (float m)) (exact_of (float n))
  loosely v w = equal_exact (exact_of v) (exact_of w)

  pub loosely_items : Items → Items → Bool
  loosely_items nil nil = true
  loosely_items (cons x xs) (cons y ys) = loosely x y && loosely_items xs ys
  loosely_items _ _ = false

  -- Each key of the first is in the second, with an equal value.
  pub loosely_fields : Fields → Fields → Bool
  loosely_fields end gs = true
  loosely_fields (field k v fs) gs = is_found (loosely v) (get k gs) && loosely_fields fs gs

-- `v == w`
unfoldable pub equals : Value → Value → Bool
equals v w = same v w || loosely v w

pub equals_refl : (v : Value) → equals v v ≡ true
unfolding equals
equals_refl v = rw ((same_iff v v).1 refl) refl
