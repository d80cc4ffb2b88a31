-- ===== src/Json.antt =====
-- JSON documents, as the SDK's receipts are before they are hashed: Python's dicts, lists,
-- texts, integers, booleans and None. No document of the modelled code holds a float.
pub mod Equality
use liminal_osai.Prelude.{
  ℤ, pos, eqb_ℤ, String, Bool, true, false, not, ◌&&◌, ℕ, zero, suc, all, List, [], ◌∷◌, Option,
  none, some, ◌==◌, member, any, is_subset, if◌then◌else◌,
}

mutual
  pub data Value : Type 0 where
    null : Value
    bool : Bool → Value
    int : ℤ → Value
    str : String → Value
    arr : Items → Value
    obj : Fields → Value

  pub data Items : Type 0 where
    nil : Items
    item : Value → Items → Items

  pub data Fields : Type 0 where
    end : Fields
    field : String → Value → Fields → Fields

abbrev pub items : List Value → Items
items [] = nil
items (v ∷ vs) = item v (items vs)

abbrev pub fields : List (String × Value) → Fields
fields [] = end
fields ((k, v) ∷ kvs) = field k v (fields kvs)

abbrev pub object : List (String × Value) → Value
object kvs = obj (fields kvs)

abbrev pub array : List Value → Value
array vs = arr (items vs)

abbrev pub string_items : List String → Items
string_items [] = nil
string_items (s ∷ ss) = item (str s) (string_items ss)

-- `list(texts)`
abbrev pub strings : List String → Value
strings ss = arr (string_items ss)

abbrev pub nat : ℕ → Value
nat n = int (pos n)

-- a text or None
abbrev pub optional : Option String → Value
optional none = null
optional (some s) = str s

-- `d.get(k)`
abbrev pub get_field : String → Fields → Option Value
get_field k end = none
get_field k (field j v fs) = if j == k then some v else get_field k fs

-- the keys of a dict
abbrev pub keys : Fields → List String
keys end = []
keys (field k v fs) = k ∷ keys fs

-- `k in d`
abbrev pub has_key : String → Fields → Bool
has_key k fs = member k (keys fs)

-- Only a text is equal to a text.
abbrev pub is_text : Value → String → Bool
is_text (str s) t = s == t
is_text _ t = false

-- `d[k] == t` and `d[k] in ts`, for a key that is there
abbrev pub field_is : String → Fields → String → Bool
field_is k fs t = elim (get_field k fs) [ none ↦ false | some v ↦ is_text v t ]

abbrev pub field_in : String → Fields → List String → Bool
field_in k fs ts = any (λ t. field_is k fs t) ts

-- `set(d) == names`
abbrev pub has_exactly : Fields → List String → Bool
has_exactly fs names = is_subset (keys fs) names && is_subset names (keys fs)

-- `{k: d[k] for k in names if k in d}`
abbrev pub select : List String → Fields → Fields
select [] fs = end
select (k ∷ ks) fs =
    let rest = select ks fs in elim (get_field k fs) [ none ↦ rest | some v ↦ field k v rest ]

abbrev pub is_end : Fields → Bool
is_end end = true
is_end (field k v fs) = false

-- the entries of a dict, for a display that takes them over
abbrev pub entries : Fields → List (String × Value)
entries end = []
entries (field k v fs) = (k, v) ∷ entries fs

-- `d.pop(k, None)`: the dict without the key
abbrev pub without : String → Fields → Fields
without k end = end
without k (field j v fs) = if j == k then without k fs else field j v (without k fs)

-- `bool(v)`
abbrev pub truthy : Value → Bool
truthy null = false
truthy (bool b) = b
truthy (int (pos zero)) = false
truthy (int _) = true
truthy (str s) = not (s == "")
truthy (arr nil) = false
truthy (arr _) = true
truthy (obj fs) = not (is_end fs)

-- `v == w` for a text or a boolean `w`; Python's `True` and `False` are equal to 1 and 0
abbrev pub is_atom : Value → Value → Bool
is_atom (str s) (str t) = s == t
is_atom (bool true) (bool b) = b
is_atom (bool false) (bool b) = not b
is_atom (int (pos (suc zero))) (bool b) = b
is_atom (int (pos zero)) (bool b) = not b
is_atom _ _ = false

abbrev pub get_or_null : String → Fields → Value
get_or_null k fs = elim (get_field k fs) [ none ↦ null | some v ↦ v ]

-- `d == entries`, for a flat dict of texts and booleans
abbrev pub is_flat : Fields → List (String × Value) → Bool
is_flat fs kvs =
    has_exactly fs (keys (fields kvs)) && all (λ (k, v). is_atom (get_or_null k fs) v) kvs

-- `v == w`, for documents without booleans beside numbers, whose dicts hold their keys in one order
unfoldable mutual
  pub eq_value : Value → Value → Bool
  eq_value null null = true
  eq_value (bool a) (bool b) = is_atom (bool a) (bool b)
  eq_value (int m) (int n) = eqb_ℤ m n
  eq_value (str s) (str t) = s == t
  eq_value (arr vs) (arr ws) = eq_items vs ws
  eq_value (obj fs) (obj gs) = eq_fields fs gs
  eq_value _ _ = false

  pub eq_items : Items → Items → Bool
  eq_items nil nil = true
  eq_items (item v vs) (item w ws) = eq_value v w && eq_items vs ws
  eq_items _ _ = false

  pub eq_fields : Fields → Fields → Bool
  eq_fields end end = true
  eq_fields (field j v fs) (field k w gs) = j == k && eq_value v w && eq_fields fs gs
  eq_fields _ _ = false
