-- ===== src/Contracts/Scope.antt =====
-- `validate_scope`: the scope of a capability, item by item.
use liminal_osai.Prelude.{
  ℤ, pos, String, Bool, true, false, not, ◌&&◌, ◌||◌, List, [], ◌∷◌, ◌==◌, if◌then◌else◌, Result,
  ok, err, raise_if, ◌>>=◌, ◌>>◌, concat, join, sorted, distinct, nat_beq, ltb_ℤ, leb_ℤ, eqb_ℤ,
  is_empty, length, any, str_leb,
}
use liminal_osai.Json.{
  Value, Items, Fields, bool, int, str, arr, nil, item, end, field, strings, keys, is_end, array,
}
use liminal_osai.Contracts.Validators.{contract_error, mapping, string, missing_keys}
use liminal_osai.Contracts.Names.{lower, is_repo, is_domain}

-- `CAPABILITY_TYPES`
abbrev pub capability_types : List String
capability_types =
    "repository.read" ∷ "repository.write" ∷ "process.execute" ∷ "package.install" ∷ "network.open"
    ∷ "network.connect_domain" ∷ "credential.access" ∷ "filesystem.write_outside_workspace"
    ∷ "process.spawn_child" ∷ "runtime.configure" ∷ []

-- `allowed_by_type[capability_type]`
unfoldable pub allowed_keys : String → Result (List String)
allowed_keys t =
    if t == "repository.read" || t == "repository.write"
    then ok ("repository" ∷ "refs" ∷ "paths" ∷ [])
    else if t == "process.execute"
    then ok ("executables" ∷ "working_directory" ∷ "argument_profile" ∷ [])
    else if t == "package.install"
    then ok ("registries" ∷ "packages" ∷ [])
    else if t == "network.open"
    then ok ("protocols" ∷ [])
    else if t == "network.connect_domain"
    then ok ("domains" ∷ "protocols" ∷ "ports" ∷ [])
    else if t == "credential.access"
    then ok ("credential_ids" ∷ "purpose" ∷ [])
    else if t == "filesystem.write_outside_workspace"
    then ok ("paths" ∷ [])
    else if t == "process.spawn_child"
    then ok ("executables" ∷ "max_children" ∷ [])
    else if t == "runtime.configure"
    then ok ("setting_keys" ∷ [])
    else err (record { type_name = "KeyError"; message = t })

-- `_int(value, name, minimum=minimum)`, which keeps the value
unfoldable pub integer : Value → String → ℤ → String → Result Value
integer (int n) name minimum shown =
    if ltb_ℤ n minimum
    then err (contract_error (name ∷ " must be an integer >= " ∷ shown ∷ []))
    else ok (int n)
integer _ name minimum shown = err (contract_error (name ∷ " must be an integer >= " ∷ shown ∷ []))

-- `_string(v, name) for v in item`
abbrev pub texts : Items → String → Result (List String)
texts nil name = ok []
texts (item v vs) name = let rest = texts vs name in do s ← string v name; ss ← rest; ok (s ∷ ss)

abbrev pub lower_all : List String → List String
lower_all [] = []
lower_all (s ∷ ss) = lower s ∷ lower_all ss

-- `len(values) != len(set(values))`
abbrev pub has_duplicates : List String → Bool
has_duplicates ss = not (nat_beq (length ss) (length (distinct ss)))

abbrev insert_port : ℤ → List ℤ → List ℤ
insert_port n [] = n ∷ []
insert_port n (m ∷ ms) = if leb_ℤ n m then n ∷ m ∷ ms else m ∷ insert_port n ms

abbrev sort_ports : List ℤ → List ℤ
sort_ports [] = []
sort_ports (n ∷ ns) = insert_port n (sort_ports ns)

abbrev repeated : List ℤ → Bool
repeated [] = false
repeated (n ∷ ns) = any (λ m. eqb_ℤ n m) ns || repeated ns

abbrev port_values : List ℤ → List Value
port_values [] = []
port_values (n ∷ ns) = int n ∷ port_values ns

-- what a list of ports holds
pub data Ports : Type 0 where
  numbers : List ℤ → Ports
  no_port : Ports
  incomparable : Ports

abbrev is_number : Value → Bool
is_number (int n) = true
is_number (bool b) = true
is_number _ = false

abbrev is_string : Value → Bool
is_string (str s) = true
is_string _ = false

abbrev all_items : (Value → Bool) → Items → Bool
all_items p nil = true
all_items p (item v vs) = p v && all_items p vs

abbrev add_port : Value → Ports → Ports
add_port (int n) (numbers ns) = numbers (n ∷ ns)
add_port _ _ = no_port

abbrev ports_only : Items → Ports
ports_only nil = numbers []
ports_only (item v vs) = add_port v (ports_only vs)

-- `sorted(item)` compares only numbers with numbers and texts with texts. (It also compares two
-- lists; the exception is a ContractError then, and a TypeError here.)
abbrev read_ports : Items → Ports
read_ports (item v nil) = ports_only (item v nil)
read_ports vs =
    if all_items is_number vs
    then ports_only vs
    else if all_items is_string vs
    then no_port
    else incomparable

unfoldable pub check_ports : Ports → Result Value
check_ports incomparable =
    err (record { type_name = "TypeError"; message = "'<' not supported between the ports" })
check_ports no_port = err (contract_error ("scope.ports must contain valid TCP/UDP ports" ∷ []))
check_ports (numbers ns) = do
  raise_if (any (λ n. ltb_ℤ n (pos 1) || ltb_ℤ (pos 65535) n) ns)
      (contract_error ("scope.ports must contain valid TCP/UDP ports" ∷ []))
  raise_if (repeated ns) (contract_error ("scope.ports contains duplicates" ∷ []))
  ok (array (port_values (sort_ports ns)))

abbrev is_nonempty_list : Value → Bool
is_nonempty_list (arr (item v vs)) = true
is_nonempty_list _ = false

abbrev items_of : Value → Items
items_of (arr vs) = vs
items_of _ = nil

abbrev is_list : Value → Bool
is_list (arr vs) = true
is_list _ = false

unfoldable pub check_repository : Value → Result Value
check_repository v = do
  repo ← string v "scope.repository"
  raise_if (not (is_repo repo)) (contract_error ("scope.repository must use owner/name form" ∷ []))
  ok (str repo)

unfoldable pub check_domains : Value → Result Value
check_domains v = do
  raise_if (not (is_nonempty_list v))
      (contract_error ("scope.domains must be a non-empty array" ∷ []))
  found ← texts (items_of v) "scope.domains[]"
  let domains = sorted (lower_all found)
  raise_if (has_duplicates domains || any (λ d. not (is_domain d)) domains)
      (contract_error ("scope.domains must contain unique DNS names" ∷ []))
  ok (strings domains)

unfoldable pub check_list : String → Items → Result Value
check_list key vs = do
  raise_if (not (is_nonempty_list (arr vs)))
      (contract_error ("scope." ∷ key ∷ " must not be empty" ∷ []))
  values ← texts vs (concat ("scope." ∷ key ∷ "[]" ∷ []))
  raise_if (has_duplicates values) (contract_error ("scope." ∷ key ∷ " contains duplicates" ∷ []))
  ok (strings (sorted values))

unfoldable pub check_text : String → Value → Result Value
check_text key v = do s ← string v (concat ("scope." ∷ key ∷ [])); ok (str s)

-- one round of the loop
unfoldable pub check_item : String → Value → Result Value
unfolding check_repository check_domains check_ports check_list check_text integer
check_item key v =
    if key == "repository"
    then check_repository v
    else if key == "domains"
    then check_domains v
    else if key == "ports"
    then (do
      raise_if (not (is_nonempty_list v))
          (contract_error ("scope.ports must be a non-empty array" ∷ []))
      check_ports (read_ports (items_of v)))
    else if key == "max_children"
    then integer v "scope.max_children" (pos 1) "1"
    else if is_list v
    then check_list key (items_of v)
    else check_text key v

unfoldable pub check_items : Fields → Result Fields
unfolding check_item
check_items end = ok end
check_items (field k v fs) =
    let rest = check_items fs in do w ← check_item k v; ws ← rest; ok (field k w ws)

abbrev insert_field : String → Value → Fields → Fields
insert_field k v end = field k v end
insert_field k v (field j w fs) =
    if str_leb k j then field k v (field j w fs) else field j w (insert_field k v fs)

-- `{key: result[key] for key in sorted(result)}`
unfoldable pub sort_fields : Fields → Fields
sort_fields end = end
sort_fields (field k v fs) = insert_field k v (sort_fields fs)

unfoldable pub validate_scope : String → Value → Result Fields
unfolding allowed_keys check_items sort_fields
validate_scope capability_type value = do
  raw ← mapping value "scope"
  allowed ← allowed_keys capability_type
  raise_if (not (is_empty (missing_keys (keys raw) allowed))) (
      contract_error
        ("scope contains unsupported keys: " ∷ join ", " (missing_keys (keys raw) allowed) ∷ []))
  raise_if (is_end raw) (contract_error ("scope must not be empty" ∷ []))
  result ← check_items raw
  ok (sort_fields result)
