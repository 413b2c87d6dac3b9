-- ===== src/Pack/Buffer.antt =====
-- `pfunc_pack` and `pfunc_unpack`. An argument is its bytes, as `memcpy` copies them; `fresh` is what
-- `new char[n]` returns, whose contents are anything.
pub mod Roundtrip
pub mod Typing
use pfunc.Base.{ℕ, zero, suc, List, [], ◌∷◌, ◌++◌, Option, none, some}
use pfunc.Pack.Token.{Token, size}
use pfunc.Pack.Format.{extracted, extract_tokens}

-- What a call comes to: PFUNC_ERROR, an access outside the buffer or past the last argument, or
-- PFUNC_SUCCESS.
pub data Status {ℓ} (A : Type ℓ) : Type ℓ where
  failed outside_bounds : Status A
  success : A → Status A

-- The next `n` bytes of a buffer, and those behind them.
unfoldable pub split_at : ℕ → List ℕ → Option (List ℕ × List ℕ)
split_at zero buffer = some ([], buffer)
split_at (suc n) [] = none
split_at (suc n) (b ∷ buffer) = elim (split_at n buffer) [
  | none ↦ none
  | some (bytes, rest) ↦ some (b ∷ bytes, rest)
]

-- The loop of `pfunc_pack`, from where `buffer` points: the bytes from there on, afterwards.
unfoldable pub pack_loop : List Token → List (List ℕ) → List ℕ → Status (List ℕ)
pack_loop [] args buffer = success buffer
pack_loop (t ∷ ts) [] buffer = outside_bounds
pack_loop (t ∷ ts) (param ∷ args) buffer = elim (split_at (size t) buffer) [
  | none ↦ outside_bounds
  | some (old, rest) ↦ elim (pack_loop ts args rest) [
    | success bytes ↦ success (param ++ bytes)
    | _ ↦ outside_bounds
  ]
]

-- The loop of `pfunc_unpack`: what the parameters are set to.
unfoldable pub unpack_loop : List Token → List ℕ → Status (List (List ℕ))
unpack_loop [] buffer = success []
unpack_loop (t ∷ ts) buffer = elim (split_at (size t) buffer) [
  | none ↦ outside_bounds
  | some (param, rest) ↦ elim (unpack_loop ts rest) [
    | success params ↦ success (param ∷ params)
    | _ ↦ outside_bounds
  ]
]

unfoldable pub pfunc_pack : (ℕ → List ℕ) → List ℕ → List (List ℕ) → Status (List ℕ)
pfunc_pack fresh format args = elim (extract_tokens format) [
  | extracted token_array buffer_size ↦ pack_loop token_array args (fresh buffer_size)
  | _ ↦ failed
]

unfoldable pub pfunc_unpack : List ℕ → List ℕ → Status (List (List ℕ))
pfunc_unpack buffer format = elim (extract_tokens format) [
  | extracted token_array buffer_size ↦ unpack_loop token_array buffer
  | _ ↦ failed
]
