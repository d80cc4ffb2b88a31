-- ===== src/Prelude/Text.antt =====
-- Texts: f-strings, `sorted` and `set` on texts, numbers in decimal.
use Prim.Native.Nat.{ℕ, zero, suc, ◌/◌, ◌%◌}
use Prim.Native.Char.{code}
use Prim.Native.String.{String, compare}
use Prim.Native.String
use mathlib.Core.Bool.{Bool, true, false, ◌&&◌, ◌||◌}
use mathlib.Core.List.{List, [], ◌∷◌}
use text.Mathlib.Text.{is_le}
use liminal_osai.Prelude.Tests.{ltb, leb, nat_beq, if◌then◌else◌}
use liminal_osai.Prelude.Int.{ℤ, pos, negsuc}
use liminal_osai.Prelude.Lists.{member}

-- an f-string, part by part
unfoldable pub concat : List String → String
concat [] = ""
concat (s ∷ ss) = String.◌++◌ s (concat ss)

-- `", ".join(parts)`
unfoldable pub join : String → List String → String
join sep [] = ""
join sep (s ∷ []) = s
join sep (s ∷ t ∷ ss) = String.◌++◌ s (String.◌++◌ sep (join sep (t ∷ ss)))

abbrev digit : ℕ → String
digit zero = "0"
digit (suc zero) = "1"
digit (suc (suc zero)) = "2"
digit (suc (suc (suc zero))) = "3"
digit (suc (suc (suc (suc zero)))) = "4"
digit (suc (suc (suc (suc (suc zero))))) = "5"
digit (suc (suc (suc (suc (suc (suc zero)))))) = "6"
digit (suc (suc (suc (suc (suc (suc (suc zero))))))) = "7"
digit (suc (suc (suc (suc (suc (suc (suc (suc zero)))))))) = "8"
digit (suc (suc (suc (suc (suc (suc (suc (suc (suc n))))))))) = "9"

-- A number has at most as many digits as its value, so `n` rounds suffice for `n`.
decimal : ℕ → ℕ → String
decimal zero n = digit n
decimal (suc fuel) n =
    let more = String.◌++◌ (decimal fuel (n / 10)) (digit (n % 10)) in
    if ltb n 10 then digit n else more

-- `str(n)`
unfoldable pub show : ℕ → String
unfolding decimal
show n = decimal n n

unfoldable pub show_ℤ : ℤ → String
unfolding show
show_ℤ (pos n) = show n
show_ℤ (negsuc n) = String.◌++◌ "-" (show (suc n))

abbrev pub str_leb : String → String → Bool
str_leb s t = is_le (compare s t)

abbrev pub insert_sorted : String → List String → List String
insert_sorted x [] = x ∷ []
insert_sorted x (y ∷ ys) = if str_leb x y then x ∷ y ∷ ys else y ∷ insert_sorted x ys

-- `sorted(xs)`
unfoldable pub sorted : List String → List String
sorted [] = []
sorted (x ∷ xs) = insert_sorted x (sorted xs)

-- `set(xs)`, kept as a list with no repeated entry
unfoldable pub distinct : List String → List String
distinct [] = []
distinct (x ∷ xs) = let rest = distinct xs in if member x rest then rest else x ∷ rest

-- the code points that Python's `str.strip` removes
abbrev is_space : ℕ → Bool
is_space c =
    leb 9 c && leb c 13
    || leb 28 c && leb c 32
    || nat_beq c 133
    || nat_beq c 160
    || nat_beq c 5760
    || leb 8192 c && leb c 8202
    || nat_beq c 8232
    || nat_beq c 8233
    || nat_beq c 8239
    || nat_beq c 8287
    || nat_beq c 12288

-- `not s.strip()`
unfoldable pub is_blank : String → Bool
is_blank String.[] = true
is_blank (String.◌∷◌ c s) = is_space (code c) && is_blank s

-- `len(s)`, in code points
abbrev pub str_len : String → ℕ
str_len s = String.count s

-- `"\x00" in s`
unfoldable pub has_nul : String → Bool
has_nul String.[] = false
has_nul (String.◌∷◌ c s) = nat_beq (code c) 0 || has_nul s

-- every character is one of `0123456789abcdef`
unfoldable pub is_hex : String → Bool
is_hex String.[] = true
is_hex (String.◌∷◌ c s) =
    (leb 48 (code c) && leb (code c) 57 || leb 97 (code c) && leb (code c) 102) && is_hex s

-- a lowercase SHA-256 digest
unfoldable pub is_sha256 : String → Bool
unfolding is_hex
is_sha256 s = nat_beq (str_len s) 64 && is_hex s
