-- ===== src/Base/Text.antt =====
-- The functions of Go's `strings` and `fmt` that the program calls, over the characters of a text.
use Prim.Native.Nat.{ℕ, zero, suc, ◌-◌, ◌/◌, ◌%◌}
use Prim.Native.Char.{Char, code}
use Prim.Native.String.{String, ◌++◌}
use mathlib.Core.Bool.{Bool, true, false}
use mathlib.Core.List.{List}
use mathlib.Core.Option
use mathlib.Core.Option.{Option, none, some}
use kube_snapshot.Base.Tests.{eqb, if◌then◌else◌}

abbrev pub is_empty : String → Bool
is_empty String.[] = true
is_empty (String.◌∷◌ c s) = false

-- `strings.HasPrefix s p`, and the text after the prefix
unfoldable pub strip_prefix : String → String → Option String
strip_prefix String.[] s = some s
strip_prefix (String.◌∷◌ c p) String.[] = none
strip_prefix (String.◌∷◌ c p) (String.◌∷◌ d s) =
    let rest = strip_prefix p s in if eqb (code c) (code d) then rest else none

-- `strings.Contains s p`
unfoldable pub contains : String → String → Bool
unfolding strip_prefix
contains String.[] p = is_empty p
contains (String.◌∷◌ c s) p =
    let later = contains s p in
    elim (strip_prefix p (String.◌∷◌ c s)) [ some _ ↦ true | none ↦ later ]

-- `strings.Join`
unfoldable pub join : List String → String → String
join List.[] sep = ""
join (List.◌∷◌ x xs) sep = elim xs [ List.[] ↦ x | List.◌∷◌ _ _ ↦ x ++ sep ++ join xs sep ]

-- `fmt.Sprintf`, with the pieces of its format in order
abbrev pub sprint : List String → String
sprint List.[] = ""
sprint (List.◌∷◌ x xs) = x ++ sprint xs

-- the number of characters
abbrev pub text_size : String → ℕ
text_size String.[] = 0
text_size (String.◌∷◌ c s) = suc (text_size s)

abbrev pub cons_head : Char → List String → List String
cons_head c List.[] = List.[]
cons_head c (List.◌∷◌ x xs) = List.◌∷◌ (String.◌∷◌ c x) xs

-- The pieces of a text between the places of `sep`, with `skip` characters of a place still to pass.
unfoldable pub split_from : String → ℕ → String → List String
split_from sep skip String.[] = List.◌∷◌ "" List.[]
split_from sep (suc skip) (String.◌∷◌ c s) = split_from sep skip s
split_from sep zero (String.◌∷◌ c s) = elim (strip_prefix sep (String.◌∷◌ c s)) [
  | some _ ↦ List.◌∷◌ "" (split_from sep (text_size sep - 1) s)
  | none ↦ cons_head c (split_from sep zero s)
]

-- `strings.Split s sep`, for a `sep` that is not empty
unfoldable pub split : String → String → List String
unfolding split_from strip_prefix
split s sep = split_from sep zero s

unfoldable pub replace_from : String → String → ℕ → String → String
replace_from old new skip String.[] = ""
replace_from old new (suc skip) (String.◌∷◌ c s) = replace_from old new skip s
replace_from old new zero (String.◌∷◌ c s) = elim (strip_prefix old (String.◌∷◌ c s)) [
  | some _ ↦ new ++ replace_from old new (text_size old - 1) s
  | none ↦ String.◌∷◌ c (replace_from old new zero s)
]

-- `strings.ReplaceAll s old new`, for an `old` that is not empty
unfoldable pub replace_all : String → String → String → String
unfolding replace_from strip_prefix
replace_all s old new = replace_from old new zero s

-- `%v` of a list of texts
unfoldable pub show_list : List String → String
unfolding join
show_list xs = sprint (List.◌∷◌ "[" (List.◌∷◌ (join xs " ") (List.◌∷◌ "]" List.[])))

-- `%v` of a map of texts, whose keys `fmt` prints in order
show_entries : List (String × String) → List String
show_entries List.[] = List.[]
show_entries (List.◌∷◌ (k, v) m) = List.◌∷◌ (k ++ ":" ++ v) (show_entries m)

unfoldable pub show_map : List (String × String) → String
unfolding join show_entries
show_map m = "map[" ++ join (show_entries m) " " ++ "]"

-- the first `n` characters, if there are so many
abbrev pub take_text : ℕ → String → Option String
take_text zero s = some ""
take_text (suc n) String.[] = none
take_text (suc n) (String.◌∷◌ c s) = Option.map (λ r. String.◌∷◌ c r) (take_text n s)

abbrev pub digit : ℕ → String
digit zero = "0"
digit (suc zero) = "1"
digit (suc (suc zero)) = "2"
digit (suc (suc (suc zero))) = "3"
digit (suc (suc (suc (suc zero)))) = "4"
digit (suc (suc (suc (suc (suc zero))))) = "5"
digit (suc (suc (suc (suc (suc (suc zero)))))) = "6"
digit (suc (suc (suc (suc (suc (suc (suc zero))))))) = "7"
digit (suc (suc (suc (suc (suc (suc (suc (suc zero)))))))) = "8"
digit (suc (suc (suc (suc (suc (suc (suc (suc (suc n))))))))) = "9"

-- the decimal digits of `n` before `later`; a number has at most as many digits as its value
unfoldable pub digits_before : ℕ → ℕ → String → String
digits_before zero n later = later
digits_before (suc fuel) n later =
    let rest = digits_before fuel (n / 10) (digit (n % 10) ++ later) in
    if eqb n 0 then later else rest

-- `%d` of a number that is not negative
unfoldable pub show_nat : ℕ → String
unfolding digits_before
show_nat n = if eqb n 0 then "0" else digits_before n n ""

-- `strings.Split` never returns an empty list, so its last part is there.
abbrev pub last_text : List String → String
last_text List.[] = ""
last_text (List.◌∷◌ x xs) = elim xs [ List.[] ↦ x | List.◌∷◌ _ _ ↦ last_text xs ]
