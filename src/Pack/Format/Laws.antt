-- ===== src/Pack/Format/Laws.antt =====
-- What `extract_tokens` of lib/pfunc_pack.cpp returns, and how far it reads at each turn.

use pfunc.Base.{
  Bool, true, false, ℕ, zero, suc, ◌+◌, ◌≤◌, ◌<◌, ◌≡◌, ◌≢◌, refl, sym, ap, ◌∙◌, inl, inr, List, [],
  ◌∷◌, ◌++◌, Option, none, some, arith, ◌==◌, if◌then◌else◌, length, Option-cases,
}
use pfunc.Pack.Token.{Token, size, total}
use pfunc.Pack.Format.{
  get_star_count, skip_spaces, expect, finish, named, prefixed, after_unsigned, after_long,
  read_token, out_of_fuel, extracted, extract_from, extract_tokens,
}

total-snoc : (ts : List Token) (t : Token) → total (ts ++ t ∷ []) ≡ total ts + size t
unfolding total
total-snoc [] t = omega arith
total-snoc (u ∷ ts) t = omega (arith, total-snoc ts t)

extract_from-total :
    (fuel : ℕ) (format : List ℕ) (acc ts : List Token) (m n : ℕ)
    → m ≡ total acc
    → extract_from fuel format acc m ≡ extracted ts n
    → n ≡ total ts
unfolding extract_from
extract_from-total zero format acc ts m n e h = cc
extract_from-total (suc fuel) [] acc ts m n e h =
    let same : acc ≡ ts = ground arith in
    let num : m ≡ n = ground arith in sym num ∙ e ∙ ap total same
extract_from-total (suc fuel) (c ∷ format) acc ts m n e h =
    elim (Option-cases (read_token (skip_spaces (c ∷ format)))) [
      | inl bad ↦ cc (rw (bad, extract_from) at h)
      | inr ((t, rest), good) ↦
          extract_from-total fuel rest (acc ++ t ∷ []) ts (m + size t) n
            (omega (arith, total-snoc acc t)) (rw (good, extract_from) at h)
    ]

-- The buffer has exactly the size of its tokens: where a format string is valid, the size that
-- `extract_tokens` returns is the sum of the sizes of the types that it lists.
pub extract_tokens-total :
    (format : List ℕ) (ts : List Token) (n : ℕ)
    → extract_tokens format ≡ extracted ts n
    → n ≡ total ts
unfolding extract_tokens total
extract_tokens-total format ts n e =
    extract_from-total (suc (length format)) format [] ts 0 n refl e

skip_spaces-le : (format : List ℕ) → length (skip_spaces format) ≤ length format
unfolding skip_spaces
skip_spaces-le [] = omega arith
skip_spaces-le (c ∷ format) = ground (arith, skip_spaces-le format)

-- A reader leaves at most what it was given.
abbrev Reads {ℓ} : {A : Type ℓ} → (List ℕ → Option (A × List ℕ)) → Type ℓ
Reads {A} reader =
    (format : List ℕ) (a : A) (rest : List ℕ)
    → reader format ≡ some (a, rest)
    → length rest ≤ length format

get_star_count-Reads : Reads get_star_count
unfolding get_star_count
get_star_count-Reads [] n rest e = ground arith
get_star_count-Reads (c ∷ format) n rest e = elim (Option-cases (get_star_count format)) [
  | inl bad ↦ ground arith
  | inr ((m, after), good) ↦ ground (arith, get_star_count-Reads format m after good)
]

expect-le :
    (word format rest : List ℕ) → expect word format ≡ some rest → length rest ≤ length format
unfolding expect
expect-le [] format rest e = ground arith
expect-le (w ∷ word) [] rest e = cc
expect-le (w ∷ word) (c ∷ format) rest e = ground (arith, expect-le word format rest)

finish-Reads : (stars : ℕ → Option Token) → Reads (finish stars)
unfolding finish
finish-Reads stars format t rest e = elim (Option-cases (get_star_count format)) [
  | inl bad ↦ ground arith
  | inr ((n, []), good) ↦ ground (arith, get_star_count-Reads format n [] good)
  | inr ((n, c ∷ after), good) ↦ ground (arith, get_star_count-Reads format n (c ∷ after) good)
]

named-Reads : (word : List ℕ) (stars : ℕ → Option Token) → Reads (named word stars)
named-Reads word stars format t rest e = elim (Option-cases (expect word format)) [
  | inl bad ↦ ground arith
  | inr (after, good) ↦
      ground (arith, expect-le word format after good, finish-Reads stars after t rest)
]

prefixed-Reads :
    (word : List ℕ) (type : List ℕ → Option (Token × List ℕ))
    → Reads type
    → Reads (prefixed word type)
prefixed-Reads word type reads format t rest e = elim (Option-cases (expect word format)) [
  | inl bad ↦ ground arith
  | inr (after, good) ↦ ground (
    arith,
    expect-le word format after good,
    skip_spaces-le after,
    reads (skip_spaces after) t rest,
  )
]

-- A reader's answer leaves at most `format`.
abbrev Leaves : List ℕ → Option (Token × List ℕ) → Type 0
Leaves format o = (t : Token) (rest : List ℕ) → o ≡ some (t, rest) → length rest ≤ length format

if-Leaves :
    (format : List ℕ) (b : Bool) {x y : Option (Token × List ℕ)}
    → Leaves format x
    → Leaves format y
    → Leaves format (if b then x else y)
if-Leaves format true h k = h
if-Leaves format false h k = k

none-Leaves : (format : List ℕ) → Leaves format none
none-Leaves format t rest e = cc

after_unsigned-Reads : Reads after_unsigned
unfolding after_unsigned
after_unsigned-Reads [] t rest e = cc
after_unsigned-Reads (c ∷ format) t rest e =
    let le : length rest ≤ length format =
      if-Leaves format (c == b'i') (named-Reads _ _ format)
        (if-Leaves format (c == b'c') (named-Reads _ _ format) (none-Leaves format)) t rest e in
    omega arith

after_long-Reads : Reads after_long
unfolding after_long
after_long-Reads [] t rest e = cc
after_long-Reads (c ∷ format) t rest e =
    let le : length rest ≤ length format =
      if-Leaves format (c == b'i') (named-Reads _ _ format) (none-Leaves format) t rest e in
    omega arith

read_token-Leaves : (c : ℕ) (format : List ℕ) → Leaves format (read_token (c ∷ format))
unfolding read_token
read_token-Leaves c format = if-Leaves format (c == b'i') (named-Reads _ _ format) (
    if-Leaves format (c == b'c') (named-Reads _ _ format) (
      if-Leaves format (c == b'd') (named-Reads _ _ format) (
        if-Leaves format (c == b'v') (named-Reads _ _ format) (
          if-Leaves format (c == b'f') (named-Reads _ _ format) (
            if-Leaves format (c == b'u')
              (prefixed-Reads _ after_unsigned after_unsigned-Reads format)
              (if-Leaves format (c == b'l') (prefixed-Reads _ after_long after_long-Reads format)
                (none-Leaves format)))))))

read_token-lt :
    (format : List ℕ) (t : Token) (rest : List ℕ)
    → read_token format ≡ some (t, rest)
    → length rest < length format
unfolding read_token
read_token-lt [] t rest e = cc
read_token-lt (c ∷ format) t rest e = omega (arith, read_token-Leaves c format t rest e)

extract_from-enough :
    (fuel : ℕ) (format : List ℕ) (acc : List Token) (m : ℕ)
    → length format < fuel
    → extract_from fuel format acc m ≢ out_of_fuel
unfolding extract_from
extract_from-enough zero format acc m h e = absurd (omega arith)
extract_from-enough (suc fuel) [] acc m h e = cc
extract_from-enough (suc fuel) (c ∷ format) acc m h e =
    elim (Option-cases (read_token (skip_spaces (c ∷ format)))) [
      | inl bad ↦ cc (rw (bad, extract_from) at e)
      | inr ((t, rest), good) ↦
          extract_from-enough fuel rest (acc ++ t ∷ []) (m + size t)
            (omega (
              arith,
              read_token-lt (skip_spaces (c ∷ format)) t rest good,
              skip_spaces-le (c ∷ format),
            ))
            (rw (good, extract_from) at e)
    ]

-- Every string is read to an end: each turn of the loop takes a character at least, so the fuel
-- never runs out, and `extract_tokens` accepts the string or returns INVALID_TOKEN.
pub extract_tokens-ends : (format : List ℕ) → extract_tokens format ≢ out_of_fuel
unfolding extract_tokens
extract_tokens-ends format = extract_from-enough (suc (length format)) format [] 0 (omega arith)
