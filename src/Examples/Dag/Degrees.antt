-- ===== src/Examples/Dag/Degrees.antt =====
-- The degrees that `add_edge` of examples/cxx/dot_reader/dag.h keeps.

use pfunc.Base.{ℕ, ◌+◌, ◌*◌, ◌<◌, ◌≡◌, List, [], ◌∷◌, length}
use pfunc.Examples.Dag.{Dag}
use pfunc.Examples.Dag.Counts.{one, count, sum_below}

-- The degrees of each of the `n` vertices count its edges, and `num_edges` counts them all.
pub record IsCounted (n : ℕ) (g : Dag) : Type 0 where
  pub in_degrees : (w : ℕ) → (g.vertex w).in_degree ≡ sum_below n (λ u. count w (g.vertex u).edges)
  pub out_degrees : (u : ℕ) → (g.vertex u).out_degree ≡ length (g.vertex u).edges
  pub all_edges : g.num_edges ≡ sum_below n (λ u. length (g.vertex u).edges)

-- The sources of the edges are vertices.
abbrev pub IsWithin : ℕ → List (ℕ × ℕ) → Type 0
IsWithin n [] = Unit
IsWithin n ((source, destination) ∷ es) = (source < n) × IsWithin n es

-- How often an edge is among those added.
abbrev pub multiplicity : (s d : ℕ) → List (ℕ × ℕ) → ℕ
multiplicity s d [] = 0
multiplicity s d ((source, destination) ∷ es) =
    one source s * one destination d + multiplicity s d es
