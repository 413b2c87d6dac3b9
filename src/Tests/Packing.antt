-- ===== src/Tests/Packing.antt =====
-- A format string, and arguments packed by it.
use pfunc.Base.{ℕ, zero, suc, ◌≡◌, refl, ap, List, [], ◌∷◌, length, replicate}
use pfunc.Pack.Token.{Token, size, total, int, intp, uint, chrp, uchrp, dblp}
use pfunc.Pack.Format.{
  extract_tokens, extract_from, extracted, invalid_token, read_token, skip_spaces, get_star_count,
  expect, finish,
}
use pfunc.Pack.Format.Print.{render, extract_tokens-render}
use pfunc.Pack.Buffer.{success, pfunc_pack, pfunc_unpack}
use pfunc.Pack.Buffer.Roundtrip.{Fits, pfunc_pack-pfunc_unpack}
use pfunc.Pack.Buffer.Typing.{pfunc_unpack-Fits}

-- `int, double*`.
abbrev two_types : List Token
two_types = int ∷ dblp ∷ []

spaces_around_star :
    extract_tokens (b'i' ∷ b'n' ∷ b't' ∷ b' ' ∷ b'*' ∷ b' ' ∷ b',' ∷ []) ≡ extracted (intp ∷ []) 8
unfolding extract_tokens extract_from read_token skip_spaces get_star_count expect finish size
spaces_around_star = refl

space_at_end : extract_tokens (b'i' ∷ b'n' ∷ b't' ∷ b',' ∷ b' ' ∷ []) ≡ invalid_token
unfolding extract_tokens extract_from read_token skip_spaces get_star_count expect finish
space_at_end = refl

extract_tokens-render_example :
    extract_tokens (render (uint ∷ chrp ∷ [])) ≡ extracted (uint ∷ uchrp ∷ []) 12
unfolding total size
extract_tokens-render_example = extract_tokens-render (uint ∷ chrp ∷ [])

abbrev zeroed : ℕ → List ℕ
zeroed n = replicate n 0

length-zeroed : (n : ℕ) → length (zeroed n) ≡ n
length-zeroed zero = refl
length-zeroed (suc n) = ap suc (length-zeroed n)

abbrev params : List (List ℕ)
params = (1 ∷ 2 ∷ 3 ∷ 4 ∷ []) ∷ (8 ∷ 7 ∷ 6 ∷ 5 ∷ 4 ∷ 3 ∷ 2 ∷ 1 ∷ []) ∷ []

params-Fits : Fits two_types params
unfolding size
params-Fits = (refl, (refl, tt))

pfunc_pack-pfunc_unpack_example :
    (buffer : List ℕ) × (pfunc_pack zeroed (render two_types) params ≡ success buffer)
    × (length buffer ≡ 12)
    × (pfunc_unpack buffer (render two_types) ≡ success params)
unfolding total size
pfunc_pack-pfunc_unpack_example =
    pfunc_pack-pfunc_unpack zeroed (render two_types) two_types 12 params length-zeroed
      (extract_tokens-render two_types) params-Fits

pfunc_unpack-Fits_example :
    (args : List (List ℕ)) × (pfunc_unpack (replicate 12 1) (render two_types) ≡ success args)
    × Fits two_types args
    × (pfunc_pack zeroed (render two_types) args ≡ success (replicate 12 1))
unfolding total size
pfunc_unpack-Fits_example =
    pfunc_unpack-Fits zeroed (render two_types) two_types 12 (replicate 12 1) length-zeroed
      (extract_tokens-render two_types) refl
