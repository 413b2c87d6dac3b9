-- ===== src/Pack/Buffer/Typing.antt =====
-- `pfunc_unpack` and `pfunc_pack` of lib/pfunc_pack.cpp on a buffer from elsewhere: the types of what comes out.
use pfunc.Base.{ℕ, ◌≡◌, refl, sym, ap, ◌∙◌, List, [], ◌∷◌, arith, length}
use pfunc.Pack.Token.{Token, size, total}
use pfunc.Pack.Format.{extracted, extract_tokens}
use pfunc.Pack.Format.Laws.{extract_tokens-total}
use pfunc.Pack.Buffer.{success, pack_loop, unpack_loop, pfunc_pack, pfunc_unpack}
use pfunc.Pack.Buffer.Roundtrip.{Fits, split_at-parts}

empty : (xs : List ℕ) → length xs ≡ 0 → xs ≡ []
empty [] e = refl
empty (x ∷ xs) e = absurd (omega arith)

unpack_loop-Fits :
    (ts : List Token) (buffer : List ℕ)
    → length buffer ≡ total ts
    → (args : List (List ℕ)) × (unpack_loop ts buffer ≡ success args)
      × Fits ts args
      × ((old : List ℕ) → length old ≡ total ts → pack_loop ts args old ≡ success buffer)
unfolding pack_loop unpack_loop total
unpack_loop-Fits [] buffer l =
    ([], refl, tt, λ old l'. ap success (empty old l' ∙ sym (empty buffer l)))
unpack_loop-Fits (t ∷ ts) buffer l =
    let (a, b, split, la, lb, whole) = split_at-parts (size t) (total ts) buffer l in
    let (args, unpacked, fit, packs) = unpack_loop-Fits ts b lb in
    (
      a ∷ args,
      rw (split, unpack_loop) (rw (unpacked)),
      (la, fit),
      λ old l'.
          let (was, rest, split', _, lr, _) = split_at-parts (size t) (total ts) old l' in
          rw (split', pack_loop) (rw (packs rest lr) (ap success whole)),
    )

-- What is unpacked has its types: for a format string that `extract_tokens` accepts, and any buffer of the
-- size that it computes, `pfunc_unpack` succeeds and stays in the buffer, each of the parameters gets
-- exactly the bytes of its type, and `pfunc_pack` of these parameters gives the same buffer again,
-- whatever its memory held before.
pub pfunc_unpack-Fits :
    (fresh : ℕ → List ℕ) (format : List ℕ) (ts : List Token) (n : ℕ) (buffer : List ℕ)
    → ((k : ℕ) → length (fresh k) ≡ k)
    → extract_tokens format ≡ extracted ts n
    → length buffer ≡ n
    → (args : List (List ℕ)) × (pfunc_unpack buffer format ≡ success args)
      × Fits ts args
      × (pfunc_pack fresh format args ≡ success buffer)
unfolding pfunc_pack pfunc_unpack
pfunc_unpack-Fits fresh format ts n buffer allocates valid filled =
    let needed : n ≡ total ts = extract_tokens-total format ts n valid in
    let (args, unpacked, fit, packs) = unpack_loop-Fits ts buffer (filled ∙ needed) in
    (
      args,
      rw (valid, pfunc_unpack) unpacked,
      fit,
      rw (valid, pfunc_pack) (packs (fresh n) (allocates n ∙ needed)),
    )
