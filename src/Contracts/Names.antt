-- ===== src/Contracts/Names.antt =====
-- The patterns `_REPO` and `_DOMAIN`, and `str.lower` as they need it.
use Prim.Native.Char.{Char, code}
use Prim.Native.String
use liminal_osai.Prelude.{
  ℕ, ◌-◌, String, Bool, true, false, ◌&&◌, ◌||◌, List, [], ◌∷◌, if◌then◌else◌, str_len, nat_beq,
  leb,
}

abbrev is_letter : ℕ → Bool
is_letter c = leb 65 c && leb c 90 || leb 97 c && leb c 122

abbrev is_digit : ℕ → Bool
is_digit c = leb 48 c && leb c 57

-- `lower()` of one character. Of the characters beyond ASCII, the Kelvin sign alone becomes an ASCII
-- letter; the others stay as they are here, and no pattern below accepts them, lowered or not.
abbrev lower_text : Char → String
lower_text c =
    if leb 65 (code c) && leb (code c) 90
    then String.slice "abcdefghijklmnopqrstuvwxyz" (code c - 65) (code c - 64)
    else if nat_beq (code c) 8490
    then "k"
    else String.◌∷◌ c ""

unfoldable pub lower : String → String
lower String.[] = ""
lower (String.◌∷◌ c s) = String.◌++◌ (lower_text c) (lower s)

-- the parts between the separators: the first one, and those after it
pub record Parts : Type 0 where
  pub first : String
  pub others : List String

abbrev pub parts : ℕ → String → Parts
parts sep String.[] = record { first = ""; others = [] }
parts sep (String.◌∷◌ c s) =
    let rest = parts sep s in
    if nat_beq (code c) sep
    then record { first = ""; others = rest.first ∷ rest.others }
    else record { first = String.◌∷◌ c rest.first; others = rest.others }

abbrev every : (ℕ → Bool) → String → Bool
every p String.[] = true
every p (String.◌∷◌ c s) = p (code c) && every p s

-- `[A-Za-z0-9_.-]`
abbrev is_repo_char : ℕ → Bool
is_repo_char c = is_letter c || is_digit c || nat_beq c 95 || nat_beq c 46 || nat_beq c 45

abbrev is_repo_part : String → Bool
is_repo_part s = leb 1 (str_len s) && every is_repo_char s

abbrev two_parts : String → List String → Bool
two_parts owner (name ∷ []) = is_repo_part owner && is_repo_part name
two_parts owner _ = false

-- `_REPO.fullmatch`: two parts with one slash between them
unfoldable pub is_repo : String → Bool
is_repo s = let p = parts 47 s in two_parts p.first p.others

abbrev is_alphanumeric : ℕ → Bool
is_alphanumeric c = is_letter c || is_digit c

abbrev ends_alphanumeric : ℕ → String → Bool
ends_alphanumeric c String.[] = is_alphanumeric c
ends_alphanumeric c (String.◌∷◌ d s) = ends_alphanumeric (code d) s

-- `[A-Za-z0-9](?:[A-Za-z0-9-]{0,61}[A-Za-z0-9])?`
abbrev is_label : String → Bool
is_label String.[] = false
is_label (String.◌∷◌ c s) =
    is_alphanumeric (code c)
    && every (λ d. is_alphanumeric d || nat_beq d 45) s
    && ends_alphanumeric (code c) s
    && leb (str_len s) 62

-- `[A-Za-z]{2,63}`
abbrev is_top : String → Bool
is_top s = every is_letter s && leb 2 (str_len s) && leb (str_len s) 63

-- labels, and the top-level name as the last one of at least two
abbrev is_labels : String → List String → Bool
is_labels s [] = false
is_labels s (t ∷ []) = is_label s && is_top t
is_labels s (t ∷ u ∷ us) = is_label s && is_labels t (u ∷ us)

-- `_DOMAIN.fullmatch`
unfoldable pub is_domain : String → Bool
is_domain s = let p = parts 46 s in is_labels p.first p.others
