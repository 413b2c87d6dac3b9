-- ===== src/Examples/Matmult/Halves.antt =====
-- The order in which `dgemm_op` of examples/cxx/matmult.cpp adds: an element of C gets the sums over blocks of
-- `w` columns of A added one by one, from left to right.
use pfunc.Base.{ℕ, zero, suc, ◌+◌, ◌*◌, ◌≡◌, ap, ◌∙◌, Bool, true, false, if◌then◌else◌, arith}
use mathlib.Core.Path.{ap₂, fun_ext}
use native.Mathlib.Nat.{add-mul}
use pfunc.Examples.Doubles.{Arithmetic, sum_of}
use pfunc.Examples.Matmult.Loops.{Changes}

-- `x`, with the sums of `q` blocks of `w` values each added to it.
unfoldable pub add_blocks : (v : Arithmetic) → (w q : ℕ) → (ℕ → v.Value) → v.Value → v.Value
add_blocks v w zero f x = x
add_blocks v w (suc q) f x = v.plus (add_blocks v w q f x) (sum_of v w (λ t. f (q * w + t)))

module _ (v : Arithmetic) where
  -- Both batches, one after the other.
  pub two-Changes :
      (n : ℕ) (block : ℕ → ℕ → Bool) (e e' : ℕ → ℕ → v.Value → v.Value) (c c' c'' : ℕ → v.Value)
      → Changes v n block e c c'
      → Changes v n block e' c' c''
      → Changes v n block (λ r k x. e' r k (e r k x)) c c''
  two-Changes n block e e' c c' c'' one two r k lt = go (block r k) (one r k lt) (two r k lt)
    where
      go :
          (p : Bool)
          → c' (r * n + k) ≡ (if p then e r k (c (r * n + k)) else c (r * n + k))
          → c'' (r * n + k) ≡ (if p then e' r k (c' (r * n + k)) else c' (r * n + k))
          → c'' (r * n + k) ≡ (if p then e' r k (e r k (c (r * n + k))) else c (r * n + k))
      go true d f = f ∙ ap (e' r k) d
      go false d f = f ∙ d

  module _ (a b : ℕ → v.Value) (n w : ℕ) where
    -- The products for the element in row `r` and column `k`, from column `m0` of A on.
    abbrev pub products : (m0 r k : ℕ) → ℕ → v.Value
    products m0 r k t = v.times (a (r * n + (m0 + t))) (b ((m0 + t) * n + k))

    -- Some blocks, and then those behind them.
    pub add_blocks-add :
        (p q m0 r k : ℕ) (x : v.Value)
        → add_blocks v w q (products (m0 + p * w) r k) (add_blocks v w p (products m0 r k) x)
          ≡ add_blocks v w (p + q) (products m0 r k) x
    unfolding add_blocks
    add_blocks-add p zero m0 r k x =
        let none : p ≡ p + 0 = omega arith in ap (λ y. add_blocks v w y (products m0 r k) x) none
    add_blocks-add p (suc q) m0 r k x =
        let next : suc (p + q) ≡ p + suc q = omega arith in
        let there : (t : ℕ) → m0 + p * w + (q * w + t) ≡ m0 + ((p + q) * w + t) =
          λ t. omega (arith, add-mul p q w) in
        ap₂ v.plus (add_blocks-add p q m0 r k x) (
          ap (sum_of v w)
            (fun_ext λ t. ap (λ y. v.times (a (r * n + y)) (b (y * n + k))) (there t)))
        ∙ ap (λ y. add_blocks v w y (products m0 r k) x) next
