-- ===== src/Pack/Format/Names.antt =====
-- The name of each type, and what it is read as.

use pfunc.Base.{ℕ, ◌<◌, ◌≡◌, refl, List, [], ◌∷◌, ◌++◌, some, arith, length}
use pfunc.Pack.Token.{
  Token, size, int, uint, lint, intp, uintp, lintp, intpp, uintpp, lintpp, chrp, uchrp, chrpp,
  uchrpp, fltp, fltpp, dbl, dblp, dblpp, voidp,
}
use pfunc.Pack.Format.{
  get_star_count, skip_spaces, expect, finish, after_unsigned, after_long, read_token,
}

-- The type that a token stands for, as the comments of the enumeration have it.
unfoldable pub type_name : Token → List ℕ
type_name int = b'i' ∷ b'n' ∷ b't' ∷ []
type_name uint =
    b'u' ∷ b'n' ∷ b's' ∷ b'i' ∷ b'g' ∷ b'n' ∷ b'e' ∷ b'd' ∷ b' ' ∷ b'i' ∷ b'n' ∷ b't' ∷ []
type_name lint = b'l' ∷ b'o' ∷ b'n' ∷ b'g' ∷ b' ' ∷ b'i' ∷ b'n' ∷ b't' ∷ []
type_name intp = b'i' ∷ b'n' ∷ b't' ∷ b'*' ∷ []
type_name uintp =
    b'u' ∷ b'n' ∷ b's' ∷ b'i' ∷ b'g' ∷ b'n' ∷ b'e' ∷ b'd' ∷ b' ' ∷ b'i' ∷ b'n' ∷ b't' ∷ b'*' ∷ []
type_name lintp = b'l' ∷ b'o' ∷ b'n' ∷ b'g' ∷ b' ' ∷ b'i' ∷ b'n' ∷ b't' ∷ b'*' ∷ []
type_name intpp = b'i' ∷ b'n' ∷ b't' ∷ b'*' ∷ b'*' ∷ []
type_name uintpp =
    b'u' ∷ b'n' ∷ b's' ∷ b'i' ∷ b'g' ∷ b'n' ∷ b'e' ∷ b'd' ∷ b' ' ∷ b'i' ∷ b'n' ∷ b't' ∷ b'*' ∷ b'*'
    ∷ []
type_name lintpp = b'l' ∷ b'o' ∷ b'n' ∷ b'g' ∷ b' ' ∷ b'i' ∷ b'n' ∷ b't' ∷ b'*' ∷ b'*' ∷ []
type_name chrp = b'c' ∷ b'h' ∷ b'a' ∷ b'r' ∷ b'*' ∷ []
type_name uchrp =
    b'u' ∷ b'n' ∷ b's' ∷ b'i' ∷ b'g' ∷ b'n' ∷ b'e' ∷ b'd' ∷ b' ' ∷ b'c' ∷ b'h' ∷ b'a' ∷ b'r' ∷ b'*'
    ∷ []
type_name chrpp = b'c' ∷ b'h' ∷ b'a' ∷ b'r' ∷ b'*' ∷ b'*' ∷ []
type_name uchrpp =
    b'u' ∷ b'n' ∷ b's' ∷ b'i' ∷ b'g' ∷ b'n' ∷ b'e' ∷ b'd' ∷ b' ' ∷ b'c' ∷ b'h' ∷ b'a' ∷ b'r' ∷ b'*'
    ∷ b'*' ∷ []
type_name fltp = b'f' ∷ b'l' ∷ b'o' ∷ b'a' ∷ b't' ∷ b'*' ∷ []
type_name fltpp = b'f' ∷ b'l' ∷ b'o' ∷ b'a' ∷ b't' ∷ b'*' ∷ b'*' ∷ []
type_name dbl = b'd' ∷ b'o' ∷ b'u' ∷ b'b' ∷ b'l' ∷ b'e' ∷ []
type_name dblp = b'd' ∷ b'o' ∷ b'u' ∷ b'b' ∷ b'l' ∷ b'e' ∷ b'*' ∷ []
type_name dblpp = b'd' ∷ b'o' ∷ b'u' ∷ b'b' ∷ b'l' ∷ b'e' ∷ b'*' ∷ b'*' ∷ []
type_name voidp = b'v' ∷ b'o' ∷ b'i' ∷ b'd' ∷ b'*' ∷ []

-- The token that a type's name is read as: a plain `char` is taken for an unsigned one.
abbrev pub stored : Token → Token
stored chrp = uchrp
stored chrpp = uchrpp
stored t = t

pub read_last : (t : Token) → read_token (type_name t) ≡ some (stored t, [])
unfolding read_token type_name expect finish get_star_count after_unsigned after_long skip_spaces
read_last int = refl
read_last uint = refl
read_last lint = refl
read_last intp = refl
read_last uintp = refl
read_last lintp = refl
read_last intpp = refl
read_last uintpp = refl
read_last lintpp = refl
read_last chrp = refl
read_last uchrp = refl
read_last chrpp = refl
read_last uchrpp = refl
read_last fltp = refl
read_last fltpp = refl
read_last dbl = refl
read_last dblp = refl
read_last dblpp = refl
read_last voidp = refl

pub read_more :
    (t : Token) (rest : List ℕ) → read_token (type_name t ++ b',' ∷ rest) ≡ some (stored t, rest)
unfolding read_token type_name expect finish get_star_count after_unsigned after_long skip_spaces
read_more int rest = refl
read_more uint rest = refl
read_more lint rest = refl
read_more intp rest = refl
read_more uintp rest = refl
read_more lintp rest = refl
read_more intpp rest = refl
read_more uintpp rest = refl
read_more lintpp rest = refl
read_more chrp rest = refl
read_more uchrp rest = refl
read_more chrpp rest = refl
read_more uchrpp rest = refl
read_more fltp rest = refl
read_more fltpp rest = refl
read_more dbl rest = refl
read_more dblp rest = refl
read_more dblpp rest = refl
read_more voidp rest = refl

pub skip_spaces-type_name :
    (t : Token) (rest : List ℕ) → skip_spaces (type_name t ++ rest) ≡ type_name t ++ rest
unfolding type_name skip_spaces
skip_spaces-type_name int rest = refl
skip_spaces-type_name uint rest = refl
skip_spaces-type_name lint rest = refl
skip_spaces-type_name intp rest = refl
skip_spaces-type_name uintp rest = refl
skip_spaces-type_name lintp rest = refl
skip_spaces-type_name intpp rest = refl
skip_spaces-type_name uintpp rest = refl
skip_spaces-type_name lintpp rest = refl
skip_spaces-type_name chrp rest = refl
skip_spaces-type_name uchrp rest = refl
skip_spaces-type_name chrpp rest = refl
skip_spaces-type_name uchrpp rest = refl
skip_spaces-type_name fltp rest = refl
skip_spaces-type_name fltpp rest = refl
skip_spaces-type_name dbl rest = refl
skip_spaces-type_name dblp rest = refl
skip_spaces-type_name dblpp rest = refl
skip_spaces-type_name voidp rest = refl

pub length-type_name : (t : Token) → 0 < length (type_name t)
unfolding type_name
length-type_name int = omega arith
length-type_name uint = omega arith
length-type_name lint = omega arith
length-type_name intp = omega arith
length-type_name uintp = omega arith
length-type_name lintp = omega arith
length-type_name intpp = omega arith
length-type_name uintpp = omega arith
length-type_name lintpp = omega arith
length-type_name chrp = omega arith
length-type_name uchrp = omega arith
length-type_name chrpp = omega arith
length-type_name uchrpp = omega arith
length-type_name fltp = omega arith
length-type_name fltpp = omega arith
length-type_name dbl = omega arith
length-type_name dblp = omega arith
length-type_name dblpp = omega arith
length-type_name voidp = omega arith

pub size-stored : (t : Token) → size (stored t) ≡ size t
unfolding size
size-stored chrp = refl
size-stored chrpp = refl
size-stored t = refl
