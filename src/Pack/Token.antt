-- ===== src/Pack/Token.antt =====
-- The tokens of a format string.
use pfunc.Base.{ℕ, ◌+◌, List, [], ◌∷◌, Option, none, ◌==◌, if◌then◌else◌}

-- The enumeration of lib/pfunc_pack.cpp, its invalid token left out.
pub data Token : Type 0 where
  int uint lint : Token
  intp uintp lintp : Token
  intpp uintpp lintpp : Token
  chrp uchrp chrpp uchrpp : Token
  fltp fltpp : Token
  dbl dblp dblpp : Token
  voidp : Token

-- `sizeof` of each type, where `int` has 4 bytes, and `long`, `double` and all pointers have 8.
unfoldable pub size : Token → ℕ
size int = 4
size uint = 4
size t = 8

-- The sizes of a list of tokens, added up.
unfoldable pub total : List Token → ℕ
total [] = 0
total (t ∷ ts) = size t + total ts

-- The `switch` on a number of stars: the tokens for none, one and two, where the type has them.
abbrev pub by_stars : Option Token → Option Token → Option Token → ℕ → Option Token
by_stars zero_stars one_star two_stars star_count =
    if star_count == 0
    then zero_stars
    else if star_count == 1
    then one_star
    else if star_count == 2
    then two_stars
    else none
