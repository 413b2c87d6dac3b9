-- ===== src/Pack/Buffer/Roundtrip.antt =====
-- `pfunc_pack` and `pfunc_unpack` of lib/pfunc_pack.cpp, one after the other.
use pfunc.Base.{
  ℕ, zero, suc, ◌+◌, ◌≡◌, refl, sym, ap, ◌∙◌, List, [], ◌∷◌, ◌++◌, some, arith, length,
  length-append,
}
use pfunc.Pack.Token.{Token, size, total}
use pfunc.Pack.Format.{extracted, extract_tokens}
use pfunc.Pack.Format.Laws.{extract_tokens-total}
use pfunc.Pack.Buffer.{success, split_at, pack_loop, unpack_loop, pfunc_pack, pfunc_unpack}

-- The arguments have the sizes of the tokens.
abbrev pub Fits : List Token → List (List ℕ) → Type 0
Fits [] [] = Unit
Fits [] (a ∷ args) = ⊥
Fits (t ∷ ts) [] = ⊥
Fits (t ∷ ts) (a ∷ args) = (length a ≡ size t) × Fits ts args

split_at-append : (n : ℕ) (xs ys : List ℕ) → length xs ≡ n → split_at n (xs ++ ys) ≡ some (xs, ys)
unfolding split_at
split_at-append zero [] ys e = refl
split_at-append zero (x ∷ xs) ys e = absurd (omega arith)
split_at-append (suc n) [] ys e = absurd (omega arith)
split_at-append (suc n) (x ∷ xs) ys e =
    let rest = split_at-append n xs ys (omega arith) in rw (rest, split_at)

-- The bytes that are split off, and those behind them, are the buffer.
pub split_at-parts :
    (n k : ℕ) (xs : List ℕ)
    → length xs ≡ n + k
    → (a b : List ℕ) × (split_at n xs ≡ some (a, b))
      × (length a ≡ n)
      × (length b ≡ k)
      × (a ++ b ≡ xs)
unfolding split_at
split_at-parts zero k xs e = ([], xs, refl, refl, omega arith, refl)
split_at-parts (suc n) k [] e = absurd (omega arith)
split_at-parts (suc n) k (x ∷ xs) e =
    let (a, b, split, la, lb, whole) = split_at-parts n k xs (omega arith) in
    (x ∷ a, b, rw (split, split_at), omega arith, lb, ap (λ ys. x ∷ ys) whole)

pack_loop-unpack_loop :
    (ts : List Token) (args : List (List ℕ)) (buffer : List ℕ)
    → Fits ts args
    → length buffer ≡ total ts
    → (out : List ℕ) × (pack_loop ts args buffer ≡ success out)
      × (length out ≡ total ts)
      × (unpack_loop ts out ≡ success args)
unfolding pack_loop unpack_loop total
pack_loop-unpack_loop [] [] buffer fit l = (buffer, refl, l, refl)
pack_loop-unpack_loop [] (a ∷ args) buffer fit l = absurd fit
pack_loop-unpack_loop (t ∷ ts) [] buffer fit l = absurd fit
pack_loop-unpack_loop (t ∷ ts) (a ∷ args) buffer (len, fit) l =
    let (old, rest, split, _, rest_length, _) = split_at-parts (size t) (total ts) buffer l in
    let (out, packed, out_length, unpacked) = pack_loop-unpack_loop ts args rest fit rest_length in
    (
      a ++ out,
      rw (split, pack_loop) (rw (packed)),
      omega (arith, length-append a out),
      rw (split_at-append (size t) a out len, unpack_loop) (rw (unpacked)),
    )

-- What is packed is unpacked: for a format string that `extract_tokens` accepts, and arguments of the
-- sizes of its types, `pfunc_pack` succeeds and stays in the buffer that it allocates, whatever that
-- held before; it fills that buffer, and `pfunc_unpack` with the same format string gives the same
-- arguments back.
pub pfunc_pack-pfunc_unpack :
    (fresh : ℕ → List ℕ) (format : List ℕ) (ts : List Token) (n : ℕ) (args : List (List ℕ))
    → ((k : ℕ) → length (fresh k) ≡ k)
    → extract_tokens format ≡ extracted ts n
    → Fits ts args
    → (buffer : List ℕ) × (pfunc_pack fresh format args ≡ success buffer)
      × (length buffer ≡ n)
      × (pfunc_unpack buffer format ≡ success args)
unfolding pfunc_pack pfunc_unpack
pfunc_pack-pfunc_unpack fresh format ts n args allocates valid fit =
    let needed : n ≡ total ts = extract_tokens-total format ts n valid in
    let (out, packed, l, unpacked) =
      pack_loop-unpack_loop ts args (fresh n) fit (allocates n ∙ needed) in
    (out, rw (valid, pfunc_pack) packed, l ∙ sym needed, rw (valid, pfunc_unpack) unpacked)
