-- ===== src/Json.antt =====
-- The values that `json.loads` builds and the program walks with `isinstance`: request and response
-- bodies of proxy/relay.py, storage/training.py and storage/image_assets.py.
-- An `int` is a sign and a magnitude, a `float` its 64-bit pattern; a list or a dict inside a value
-- is a list type of its own, with conversions to `List`.
pub mod Equality
use nf_safety_hub.Prelude.{
  ℕ, ◌^◌, ◌↔◌, Bool, true, false, not, ◌&&◌, ◌||◌, Option, none, some, List, [], ◌∷◌, eqb,
  if◌then◌else◌, is_empty, &&-eq-true_iff, ◌≡◌, refl, ap, arith,
}
use nf_safety_hub.Prelude.Text.{Text, ◌==◌, eq_iff}
use nf_safety_hub.Prelude.Dict.{Dict, lookup, assign, lookup-assign}

mutual
  pub data Value : Type 0 where
    null : Value
    bool : Bool → Value
    int : (negative : Bool) → ℕ → Value
    float : ℕ → Value
    string : Text → Value
    array : Items → Value
    object : Fields → Value

  pub data Items : Type 0 where
    nil : Items
    cons : Value → Items → Items

  pub data Fields : Type 0 where
    end : Fields
    field : Text → Value → Fields → Fields

abbrev pub items : Items → List Value
items nil = []
items (cons v vs) = v ∷ items vs

abbrev pub of_list : List Value → Items
of_list [] = nil
of_list (v ∷ vs) = cons v (of_list vs)

abbrev pub fields : Fields → Dict Value
fields end = []
fields (field k v fs) = (k, v) ∷ fields fs

abbrev pub of_dict : Dict Value → Fields
of_dict [] = end
of_dict ((k, v) ∷ fs) = field k v (of_dict fs)

pub items-of_list : (vs : List Value) → items (of_list vs) ≡ vs
items-of_list [] = refl
items-of_list (v ∷ vs) = ap (λ t. v ∷ t) (items-of_list vs)

pub fields-of_dict : (d : Dict Value) → fields (of_dict d) ≡ d
fields-of_dict [] = refl
fields-of_dict ((k, v) ∷ d) = ap (λ t. (k, v) ∷ t) (fields-of_dict d)

-- `bool(value)`: zero, the empty text, list and dict, and `None` are false. A float is false if its
-- pattern is that of 0.0 or -0.0.
unfoldable pub truthy : Value → Bool
truthy null = false
truthy (bool b) = b
truthy (int negative n) = not (eqb n 0)
truthy (float bits) = not (eqb bits 0 || eqb bits (2 ^ 63))
truthy (string s) = not (is_empty s)
truthy (array nil) = false
truthy (array (cons _ _)) = true
truthy (object end) = false
truthy (object (field _ _ _)) = true

-- `body.get(key)` where `body` is known to be a dict, and the tests on what it returns.
abbrev pub get : Text → Fields → Option Value
get key fs = lookup key (fields fs)

abbrev pub or_null : Option Value → Value
or_null none = null
or_null (some v) = v

-- `d.get(key)` with `None` for a missing key.
abbrev pub get_value : Text → Fields → Value
get_value key fs = or_null (get key fs)

-- `d[key] = value`
abbrev pub write : Text → Value → Fields → Fields
write key v fs = of_dict (assign key v (fields fs))

pub get-write :
    (key j : Text) (v : Value) (fs : Fields)
    → get j (write key v fs) ≡ (if key == j then some v else get j fs)
get-write key j v fs =
    rw (fields-of_dict (assign key v (fields fs))) (lookup-assign key j v (fields fs))

abbrev pub as_text : Value → Option Text
as_text (string s) = some s
as_text _ = none

abbrev pub as_fields : Value → Option Fields
as_fields (object fs) = some fs
as_fields _ = none

abbrev pub is_object : Value → Bool
is_object (object _) = true
is_object _ = false

-- Structural equality of two values, which on a value and its edited deep copy is Python's `==`.
unfoldable mutual
  pub same : Value → Value → Bool
  same null null = true
  same (bool true) (bool true) = true
  same (bool false) (bool false) = true
  same (int true m) (int true n) = eqb m n
  same (int false m) (int false n) = eqb m n
  same (float m) (float n) = eqb m n
  same (string s) (string t) = s == t
  same (array xs) (array ys) = same_items xs ys
  same (object fs) (object gs) = same_fields fs gs
  same _ _ = false

  pub same_items : Items → Items → Bool
  same_items nil nil = true
  same_items (cons x xs) (cons y ys) = same x y && same_items xs ys
  same_items _ _ = false

  pub same_fields : Fields → Fields → Bool
  same_fields end end = true
  same_fields (field k v fs) (field j w gs) = k == j && (same v w && same_fields fs gs)
  same_fields _ _ = false

mutual
  unfolding same

  same→eq : (v w : Value) → same v w ≡ true → v ≡ w
  same→eq null w h = ground arith
  same→eq (bool true) w h = ground arith
  same→eq (bool false) w h = ground arith
  same→eq (int true m) w h = ground arith
  same→eq (int false m) w h = ground arith
  same→eq (float m) w h = ground arith
  same→eq (string s) (string t) h = ap string ((eq_iff s t).0 h)
  same→eq (array xs) (array ys) h = ap array (same_items→eq xs ys h)
  same→eq (object fs) (object gs) h = ap object (same_fields→eq fs gs h)
  same→eq _ _ h = cc

  same_items→eq : (xs ys : Items) → same_items xs ys ≡ true → xs ≡ ys
  same_items→eq nil nil h = refl
  same_items→eq (cons x xs) (cons y ys) h = ground (arith, same→eq x y, same_items→eq xs ys)
  same_items→eq _ _ h = cc

  same_fields→eq : (fs gs : Fields) → same_fields fs gs ≡ true → fs ≡ gs
  same_fields→eq end end h = refl
  same_fields→eq (field k v fs) (field j w gs) h =
      let (keys, later) = (&&-eq-true_iff (k == j) (same v w && same_fields fs gs)).0 h in
      let (values, rest) = (&&-eq-true_iff (same v w) (same_fields fs gs)).0 later in
      cc ((eq_iff k j).0 keys, same→eq v w values, same_fields→eq fs gs rest)
  same_fields→eq _ _ h = cc

mutual
  unfolding same

  refl_value : (v : Value) → same v v ≡ true
  refl_value null = refl
  refl_value (bool true) = refl
  refl_value (bool false) = refl
  refl_value (int true m) = ground arith
  refl_value (int false m) = ground arith
  refl_value (float m) = ground arith
  refl_value (string s) = (eq_iff s s).1 refl
  refl_value (array xs) = refl_items xs
  refl_value (object fs) = refl_fields fs

  refl_items : (xs : Items) → same_items xs xs ≡ true
  refl_items nil = refl
  refl_items (cons x xs) = ground (arith, refl_value x, refl_items xs)

  refl_fields : (fs : Fields) → same_fields fs fs ≡ true
  refl_fields end = refl
  refl_fields (field k v fs) = ground (arith, eq_iff k k, refl_value v, refl_fields fs)

pub same_iff : (v w : Value) → (same v w ≡ true) ↔ (v ≡ w)
same_iff v w = (same→eq v w, λ e. rw e (refl_value w))
