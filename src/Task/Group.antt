-- ===== src/Task/Group.antt =====
-- pfunc/group.hpp: the ranks that a group hands out. Its barriers are in Sync. `rank_token` is a
-- 32-bit word, which atomic adds wrap.
use pfunc.Base.{
  ℕ, zero, suc, ◌+◌, ◌-◌, ◌%◌, ◌^◌, ◌<◌, ◌≡◌, Bool, false, List, [], ◌∷◌, arith, ◌==◌, ◌&&◌,
}

-- The types that pfunc_common.h names; `set_barrier` takes any number.
pub data BarrierType : Type 0 where
  barrier_spin barrier_wait barrier_steal : BarrierType

pub record Group : Type 0 where
  pub barrier_phase : Bool
  pub barrier_count : ℕ
  pub rank_token : ℕ
  pub group_id : ℕ
  pub group_size : ℕ
  pub type_of_barrier : BarrierType

-- The constructors: default, with a size, and with a size and a type.
abbrev pub group : ℕ → ℕ → BarrierType → Group
group group_id group_size barrier = record {
  barrier_phase = false;
  barrier_count = 0;
  rank_token = 0;
  group_id = group_id;
  group_size = group_size;
  type_of_barrier = barrier;
}

abbrev pub default_group : Group
default_group = group 0 0 barrier_spin

-- `join_group`: the rank handed out, and the group afterwards.
unfoldable pub join_group : Group → ℕ × Group
join_group g = (g.rank_token, record g { rank_token = (g.rank_token + 1) % 2 ^ 32 })

-- `leave_group`.
unfoldable pub leave_group : Group → Group
leave_group g = record g { rank_token = (g.rank_token + 2 ^ 32 - 1) % 2 ^ 32 }

-- `operator==`.
unfoldable pub group_eq : Group → Group → Bool
group_eq one two = one.group_size == two.group_size && one.group_id == two.group_id

-- The ranks that `k` tasks get which join one after the other.
abbrev pub joins : ℕ → Group → List ℕ × Group
joins zero g = ([], g)
joins (suc k) g =
    let (rank, g') = join_group g in let (ranks, g'') = joins k g' in (rank ∷ ranks, g'')

abbrev pub count_up : ℕ → ℕ → List ℕ
count_up start zero = []
count_up start (suc k) = start ∷ count_up (start + 1) k

joins-from :
    (k : ℕ) (g : Group)
    → g.rank_token + k < 2 ^ 32
    → joins k g ≡ (count_up g.rank_token k, record g { rank_token = g.rank_token + k })
unfolding join_group
joins-from zero g h = ground arith
joins-from (suc k) g h =
    let next = record g { rank_token = g.rank_token + 1 } in
    let small : (g.rank_token + 1) % 2 ^ 32 ≡ g.rank_token + 1 = omega arith in
    ground (arith, small, joins-from k next (omega arith))

-- Tasks that join a new group one after the other, fewer than 2^32 of them, get the ranks 0, 1, 2
-- and so on, and leave the token at their number.
pub joins-ranks :
    (k group_id group_size : ℕ) (barrier : BarrierType)
    → k < 2 ^ 32
    → joins k (group group_id group_size barrier)
      ≡ (count_up 0 k, record (group group_id group_size barrier) { rank_token = k })
joins-ranks k group_id group_size barrier h =
    ground (arith, joins-from k (group group_id group_size barrier))

-- A leaving task gives back the rank that was handed out last, whoever has it: where the token is
-- below 2^32, whichever task leaves after a join, the next one to join gets the same rank as the
-- one before, and the group is as it was after that join.
pub leave-repeats_rank :
    (g : Group) → g.rank_token < 2 ^ 32 → join_group (leave_group (join_group g).1) ≡ join_group g
unfolding join_group leave_group
leave-repeats_rank g h = ground arith
