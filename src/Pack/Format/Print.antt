-- ===== src/Pack/Format/Print.antt =====
-- Format strings that list types, and what `extract_tokens` makes of them.
use mathlib.Core.List.{append-nil, append_assoc}
use mathlib.Core.Path.{ap₂}
use pfunc.Base.{
  ℕ, zero, suc, ◌+◌, ◌≤◌, ◌<◌, ◌≡◌, refl, sym, ap, ◌∙◌, List, [], ◌∷◌, ◌++◌, map, some, arith,
  length, length-append,
}
use pfunc.Pack.Token.{Token, size, total}
use pfunc.Pack.Format.{skip_spaces, read_token, extracted, extract_from, extract_tokens}
use pfunc.Pack.Format.Names.{
  type_name, stored, read_last, read_more, skip_spaces-type_name, length-type_name, size-stored,
}

-- Type names with `, ` between them.
unfoldable pub render : List Token → List ℕ
render [] = []
render (t ∷ []) = type_name t
render (t ∷ u ∷ ts) = type_name t ++ b',' ∷ b' ' ∷ render (u ∷ ts)

skip_spaces-render : (t : Token) (ts : List Token) → skip_spaces (render (t ∷ ts)) ≡ render (t ∷ ts)
unfolding render
skip_spaces-render t [] =
    ap skip_spaces (sym (append-nil (type_name t)))
    ∙ skip_spaces-type_name t []
    ∙ append-nil (type_name t)
skip_spaces-render t (u ∷ ts) = skip_spaces-type_name t _

length-render : (ts : List Token) → length ts ≤ length (render ts)
unfolding render
length-render [] = omega arith
length-render (t ∷ []) = omega (arith, length-type_name t)
length-render (t ∷ u ∷ ts) = omega (
  arith,
  length-type_name t,
  length-append (type_name t) (b',' ∷ b' ' ∷ render (u ∷ ts)),
  length-render (u ∷ ts),
)

-- One turn of the loop on a string that begins, after spaces, with a type.
turn :
    (fuel : ℕ) (format rest : List ℕ) (t : Token) (acc : List Token) (m : ℕ)
    → 0 < length (skip_spaces format)
    → read_token (skip_spaces format) ≡ some (t, rest)
    → extract_from (suc fuel) format acc m ≡ extract_from fuel rest (acc ++ t ∷ []) (m + size t)
unfolding extract_from skip_spaces
turn fuel [] rest t acc m h e = absurd (omega arith)
turn fuel (c ∷ format) rest t acc m h e = rw (e, extract_from)

extract_nil :
    (fuel : ℕ) (acc : List Token) (m : ℕ) → 0 < fuel → extract_from fuel [] acc m ≡ extracted acc m
unfolding extract_from
extract_nil zero acc m h = absurd (omega arith)
extract_nil (suc fuel) acc m h = refl

render_pos :
    (format : List ℕ) (t : Token) (ts : List Token)
    → skip_spaces format ≡ render (t ∷ ts)
    → 0 < length (skip_spaces format)
render_pos format t ts e = omega (arith, ap length e, length-render (t ∷ ts))

skip_one : (format : List ℕ) → skip_spaces (b' ' ∷ format) ≡ skip_spaces format
unfolding skip_spaces
skip_one format = refl

extract_from-render :
    (fuel : ℕ) (format : List ℕ) (t : Token) (ts acc : List Token) (m : ℕ)
    → skip_spaces format ≡ render (t ∷ ts)
    → suc (length ts) < fuel
    → extract_from fuel format acc m ≡ extracted (acc ++ map stored (t ∷ ts)) (m + total (t ∷ ts))
unfolding total render
extract_from-render zero format t ts acc m e h = absurd (omega arith)
extract_from-render (suc fuel) format t [] acc m e h =
    turn fuel format [] (stored t) acc m (render_pos format t [] e) (ap read_token e ∙ read_last t)
    ∙ extract_nil fuel (acc ++ stored t ∷ []) (m + size (stored t)) (omega arith)
    ∙ ap (extracted (acc ++ stored t ∷ [])) (omega (arith, size-stored t))
extract_from-render (suc fuel) format t (u ∷ ts) acc m e h =
    turn fuel format (b' ' ∷ render (u ∷ ts)) (stored t) acc m (render_pos format t (u ∷ ts) e)
      (ap read_token e ∙ read_more t (b' ' ∷ render (u ∷ ts)))
    ∙ extract_from-render fuel (b' ' ∷ render (u ∷ ts)) u ts (acc ++ stored t ∷ [])
        (m + size (stored t)) (skip_one (render (u ∷ ts)) ∙ skip_spaces-render u ts) (omega arith)
    ∙ ap₂ extracted (append_assoc acc (stored t ∷ []) (map stored (u ∷ ts)))
        (omega (arith, size-stored t))

-- A list of types is read as it was written: the tokens come back in order, and the size is the sum
-- of their sizes; only that a plain `char` comes back as `unsigned char`.
pub extract_tokens-render :
    (ts : List Token) → extract_tokens (render ts) ≡ extracted (map stored ts) (total ts)
unfolding extract_tokens extract_from total render
extract_tokens-render [] = refl
extract_tokens-render (t ∷ ts) =
    extract_from-render (suc (length (render (t ∷ ts)))) (render (t ∷ ts)) t ts [] 0
      (skip_spaces-render t ts) (omega (arith, length-render (t ∷ ts)))
    ∙ ap (extracted (map stored (t ∷ ts))) (omega arith)
