-- ===== src/Examples/Dag.antt =====
-- examples/cxx/dot_reader/dag.h: the graph that the parser of dot files builds. A vertex is its `id`, and
-- `add_edge` is called with vertices that there are; the weights are left out.
pub mod Counts
pub mod Degrees
use pfunc.Base.{ℕ, suc, ◌+◌, List, [], ◌∷◌, ◌++◌, update}

pub record Vertex : Type 0 where
  pub in_degree : ℕ
  pub out_degree : ℕ
  pub edges : List ℕ  -- the destinations

-- The vertices by their `id`, and the count of all edges.
pub record Dag : Type 0 where
  pub vertex : ℕ → Vertex
  pub num_edges : ℕ

abbrev pub vertex_init : Vertex
vertex_init = record { in_degree = 0; out_degree = 0; edges = [] }

-- The two vertices may be one.
unfoldable pub add_edge : Dag → (source destination : ℕ) → Dag
add_edge g source destination =
    let from = g.vertex source in
    let linked =
      update g.vertex source (record from {
        edges = from.edges ++ destination ∷ [];
        out_degree = suc from.out_degree;
      }) in
    let to = linked destination in
    record {
      vertex = update linked destination (record to { in_degree = suc to.in_degree });
      num_edges = suc g.num_edges;
    }

-- The graph of a file: its edges, of which the last is added first.
abbrev pub add_edges : List (ℕ × ℕ) → Dag
add_edges [] = record { vertex = λ _. vertex_init; num_edges = 0 }
add_edges ((source, destination) ∷ es) = add_edge (add_edges es) source destination
