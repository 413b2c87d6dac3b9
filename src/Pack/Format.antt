-- ===== src/Pack/Format.antt =====
-- `extract_tokens`: a format string read token by token. A character is its code, and the list of a
-- string stops before its terminating 0. The sum of sizes does not reach the range of `int`.
pub mod Laws
pub mod Names
pub mod Print
use pfunc.Base.{
  ℕ, zero, suc, ◌+◌, List, [], ◌∷◌, ◌++◌, Option, none, some, ◌==◌, if◌then◌else◌, length,
}
use pfunc.Pack.Token.{
  Token, size, by_stars, int, uint, lint, intp, uintp, lintp, intpp, uintpp, lintpp, uchrp, uchrpp,
  fltp, fltpp, dbl, dblp, dblpp, voidp,
}

-- `get_star_count`, with where it stops; `none` is INVALID_TOKEN.
unfoldable pub get_star_count : List ℕ → Option (ℕ × List ℕ)
get_star_count [] = some (0, [])
get_star_count (c ∷ format) =
    let rest = get_star_count format in
    if c == b','
    then some (0, c ∷ format)
    else if c == b' '
    then rest
    else if c == b'*'
    then elim rest [ none ↦ none | some (n, after) ↦ some (suc n, after) ]
    else none

unfoldable pub skip_spaces : List ℕ → List ℕ
skip_spaces [] = []
skip_spaces (c ∷ format) = let rest = skip_spaces format in if c == b' ' then rest else c ∷ format

-- The tests `'n' != *++format || …` of a word, and where the word ends.
unfoldable pub expect : List ℕ → List ℕ → Option (List ℕ)
expect [] format = some format
expect (w ∷ word) [] = none
expect (w ∷ word) (c ∷ format) = let rest = expect word format in if w == c then rest else none

abbrev pub skip_comma : List ℕ → List ℕ
skip_comma [] = []
skip_comma (c ∷ format) = if c == b',' then format else c ∷ format

-- The stars behind the name of a type, and the comma behind them.
unfoldable pub finish : (ℕ → Option Token) → List ℕ → Option (Token × List ℕ)
finish stars format = elim (get_star_count format) [
  | none ↦ none
  | some (n, rest) ↦ elim (stars n) [ none ↦ none | some t ↦ some (t, skip_comma rest) ]
]

abbrev pub named : List ℕ → (ℕ → Option Token) → List ℕ → Option (Token × List ℕ)
named word stars format = elim (expect word format) [ none ↦ none | some rest ↦ finish stars rest ]

-- What may follow `unsigned ` and `long `, after more spaces.
unfoldable pub after_unsigned : List ℕ → Option (Token × List ℕ)
after_unsigned [] = none
after_unsigned (c ∷ format) =
    if c == b'i'
    then named (b'n' ∷ b't' ∷ []) (by_stars (some uint) (some uintp) (some uintpp)) format
    else if c == b'c'
    then named (b'h' ∷ b'a' ∷ b'r' ∷ []) (by_stars none (some uchrp) (some uchrpp)) format
    else none

unfoldable pub after_long : List ℕ → Option (Token × List ℕ)
after_long [] = none
after_long (c ∷ format) =
    if c == b'i'
    then named (b'n' ∷ b't' ∷ []) (by_stars (some lint) (some lintp) (some lintpp)) format
    else none

-- A prefix, then spaces, then the rest of a type.
abbrev pub prefixed : List ℕ → (List ℕ → Option (Token × List ℕ)) → List ℕ → Option (Token × List ℕ)
prefixed word type format = elim (expect word format) [
  | none ↦ none
  | some rest ↦ type (skip_spaces rest)
]

-- One turn of the loop: the `switch` on the first character. `char` has the token of `unsigned char`.
unfoldable pub read_token : List ℕ → Option (Token × List ℕ)
read_token [] = none
read_token (c ∷ format) =
    if c == b'i'
    then named (b'n' ∷ b't' ∷ []) (by_stars (some int) (some intp) (some intpp)) format
    else if c == b'c'
    then named (b'h' ∷ b'a' ∷ b'r' ∷ []) (by_stars none (some uchrp) (some uchrpp)) format
    else if c == b'd'
    then named (b'o' ∷ b'u' ∷ b'b' ∷ b'l' ∷ b'e' ∷ [])
        (by_stars (some dbl) (some dblp) (some dblpp)) format
    else if c == b'v'
    then named (b'o' ∷ b'i' ∷ b'd' ∷ []) (by_stars none (some voidp) none) format
    else if c == b'f'
    then named (b'l' ∷ b'o' ∷ b'a' ∷ b't' ∷ []) (by_stars none (some fltp) (some fltpp)) format
    else if c == b'u'
    then prefixed (b'n' ∷ b's' ∷ b'i' ∷ b'g' ∷ b'n' ∷ b'e' ∷ b'd' ∷ b' ' ∷ []) after_unsigned format
    else if c == b'l'
    then prefixed (b'o' ∷ b'n' ∷ b'g' ∷ b' ' ∷ []) after_long format
    else none

-- INVALID_TOKEN, or the token array and the size of the buffer.
pub data Extracted : Type 0 where
  out_of_fuel invalid_token : Extracted
  extracted : List Token → ℕ → Extracted

-- The loop, with fuel for its turns.
unfoldable pub extract_from : ℕ → List ℕ → List Token → ℕ → Extracted
extract_from zero format token_array buffer_size = out_of_fuel
extract_from (suc fuel) [] token_array buffer_size = extracted token_array buffer_size
extract_from (suc fuel) (c ∷ format) token_array buffer_size =
    elim (read_token (skip_spaces (c ∷ format))) [
      | none ↦ invalid_token
      | some (t, rest) ↦ extract_from fuel rest (token_array ++ t ∷ []) (buffer_size + size t)
    ]

unfoldable pub extract_tokens : List ℕ → Extracted
extract_tokens format = extract_from (suc (length format)) format [] 0
