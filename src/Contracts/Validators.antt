-- ===== src/Contracts/Validators.antt =====
-- `_mapping`, `_string`, `_identifier`, `_sha`, `_time`, `_bool`, `_int`, `_exact` and
-- `_sorted_unique_strings`.
use Prim.Native.Char.{Char, code}
use liminal_osai.Prelude.{
  ℕ, pos, String, Bool, true, false, not, ◌&&◌, ◌||◌, List, [], ◌∷◌, if◌then◌else◌, Exception,
  Result, ok, err, Done, raise_if, ◌>>=◌, ◌>>◌, concat, join, sorted, distinct, is_blank, has_nul,
  is_sha256, str_len, nat_beq, leb, keep, member, is_empty, length,
}
use liminal_osai.Json.{Value, Items, Fields, bool, int, str, arr, obj, nil, item, keys, is_flat}

abbrev pub contract_error : List String → Exception
contract_error parts = record { type_name = "ContractError"; message = concat parts }

unfoldable pub mapping : Value → String → Result Fields
mapping (obj fs) name = ok fs
mapping _ name = err (contract_error (name ∷ " must be a JSON object" ∷ []))

-- the text of one character
abbrev one : Char → String
one c = String.◌∷◌ c ""

-- the last character is white space, or there is none
abbrev ends_blank : Char → String → Bool
ends_blank c String.[] = is_blank (one c)
ends_blank c (String.◌∷◌ d s) = ends_blank d s

-- `value.strip() and value == value.strip()`
unfoldable pub is_trimmed : String → Bool
unfolding is_blank
is_trimmed String.[] = false
is_trimmed (String.◌∷◌ c s) = not (is_blank (one c)) && not (ends_blank c s)

unfoldable pub string : Value → String → Result String
string (str s) name =
    if is_trimmed s && not (has_nul s)
    then ok s
    else err (contract_error (name ∷ " must be a non-empty trimmed string without NUL" ∷ []))
string _ name = err (contract_error (name ∷ " must be a non-empty trimmed string without NUL" ∷ []))

-- `[A-Za-z0-9]`
abbrev is_alphanumeric : ℕ → Bool
is_alphanumeric c = leb 48 c && leb c 57 || leb 65 c && leb c 90 || leb 97 c && leb c 122

-- `[A-Za-z0-9_.:@/-]`
abbrev is_ident_char : ℕ → Bool
is_ident_char c =
    is_alphanumeric c
    || nat_beq c 95
    || nat_beq c 46
    || nat_beq c 58
    || nat_beq c 64
    || nat_beq c 47
    || nat_beq c 45

abbrev all_ident : String → Bool
all_ident String.[] = true
all_ident (String.◌∷◌ c s) = is_ident_char (code c) && all_ident s

-- `_IDENT.fullmatch`: one letter or digit, then at most 191 characters
unfoldable pub is_ident : String → Bool
is_ident String.[] = false
is_ident (String.◌∷◌ c s) = is_alphanumeric (code c) && all_ident s && leb (str_len s) 191

unfoldable pub identifier : Value → String → Result String
unfolding string is_ident
identifier v name = do
  s ← string v name
  raise_if (not (is_ident s)) (contract_error (name ∷ " contains unsupported characters" ∷ []))
  ok s

-- `lower()`, on the letters that a digest can have
abbrev lower_char : Char → Char
lower_char c =
    if nat_beq (code c) 65
    then "a"
    else if nat_beq (code c) 66
    then "b"
    else if nat_beq (code c) 67
    then "c"
    else if nat_beq (code c) 68
    then "d"
    else if nat_beq (code c) 69
    then "e"
    else if nat_beq (code c) 70
    then "f"
    else c

abbrev pub lower_digest : String → String
lower_digest String.[] = ""
lower_digest (String.◌∷◌ c s) = String.◌∷◌ (lower_char c) (lower_digest s)

-- No letter but A to F becomes one of a to f, so the other letters may stay as they are.
unfoldable pub sha : Value → String → Result String
unfolding string is_sha256
sha v name = do
  s ← string v name
  raise_if (not (is_sha256 (lower_digest s)))
      (contract_error (name ∷ " must be a lowercase SHA-256 digest" ∷ []))
  ok (lower_digest s)

unfoldable pub time : Value → String → Result ℕ
time (int (pos n)) name = ok n
time _ name = err (contract_error (name ∷ " must be a non-negative Unix timestamp" ∷ []))

-- `sorted(expected - set(raw))`
abbrev pub missing_keys : List String → List String → List String
missing_keys expected present = sorted (keep (λ k. not (member k present)) expected)

unfoldable pub exact : Fields → List String → String → Result Done
exact raw expected name = do
  raise_if (not (is_empty (missing_keys expected (keys raw)))) (
      contract_error (name ∷ " missing keys: " ∷ join ", " (missing_keys expected (keys raw)) ∷ []))
  raise_if (not (is_empty (missing_keys (keys raw) expected))) (
      contract_error
        (name ∷ " contains unsupported keys: " ∷ join ", " (missing_keys (keys raw) expected) ∷ []))

-- `_identifier(item, f"{name}[]") for item in value`
abbrev pub identifiers : Items → String → Result (List String)
identifiers nil name = ok []
identifiers (item v vs) name =
    let rest = identifiers vs name in do s ← identifier v name; ss ← rest; ok (s ∷ ss)

unfoldable pub sorted_unique_strings : Value → String → Result (List String)
sorted_unique_strings (arr vs) name = do
  found ← identifiers vs (concat (name ∷ "[]" ∷ []))
  raise_if (not (nat_beq (length found) (length (distinct found))))
      (contract_error (name ∷ " contains duplicates" ∷ []))
  ok (sorted found)
sorted_unique_strings _ name = err (contract_error (name ∷ " must be an array" ∷ []))

-- `AUTHORITY`
abbrev pub authority : List (String × Value)
authority =
    ("mode", str "contract_definition_only")
    ∷ ("capability_grant", bool false)
    ∷ ("capability_use", bool false)
    ∷ ("execution", bool false)
    ∷ ("network_mediation", bool false)
    ∷ ("credential_access", bool false)
    ∷ ("process_control", bool false)
    ∷ ("containment_execution", bool false)
    ∷ ("human_release", bool false)
    ∷ ("policy_mutation", bool false)
    ∷ []

-- `value == AUTHORITY`
abbrev pub is_authority : Value → Bool
is_authority (obj fs) = is_flat fs authority
is_authority _ = false
