-- ===== src/Hashing/Toy.antt =====
-- A concrete digest for the tests: a weight of the document, in decimal, padded to 64 characters.
use Prim.Native.Char.{code}
use Prim.Native.String.{String}
use liminal_osai.Prelude.{ℕ, ◌+◌, ◌*◌, ◌%◌, pos, negsuc, Bool, true, false, [], ◌∷◌, concat, show}
use liminal_osai.Json.{Value, Items, Fields, null, bool, int, str, arr, obj, nil, item, end, field}
use liminal_osai.Hashing.{Hashing}

abbrev text_weight : ℕ → String → ℕ
text_weight acc String.[] = acc
text_weight acc (String.◌∷◌ c s) = text_weight ((acc * 31 + code c) % 9973) s

abbrev bool_weight : Bool → ℕ
bool_weight true = 17
bool_weight false = 13

mutual
  weight : Value → ℕ
  weight null = 7
  weight (bool b) = bool_weight b
  weight (int (pos n)) = n % 9973 + 3
  weight (int (negsuc n)) = n % 9973 + 5
  weight (str s) = text_weight 11 s
  weight (arr vs) = items_weight vs
  weight (obj fs) = fields_weight fs

  items_weight : Items → ℕ
  items_weight nil = 19
  items_weight (item v vs) = (weight v * 37 + items_weight vs * 41) % 9973

  fields_weight : Fields → ℕ
  fields_weight end = 23
  fields_weight (field k v fs) = (text_weight (weight v) k + fields_weight fs * 43) % 9973

-- sixty zeros and four digits
unfoldable pub toy_digest : Value → String
unfolding weight show concat
toy_digest v = concat (
    "000000000000000000000000000000000000000000000000000000000000"
    ∷ show (1000 + weight v % 9000)
    ∷ [])

instance abbrev pub toy : Hashing
toy = record { digest = toy_digest }
