-- ===== src/Sync/Mutex/Safety.antt =====
-- The mutex of pfunc/mutex.hpp: its invariant, and who may hold it and who wakes whom.
use pfunc.Base.{update, ℕ, ◌≡◌, ◌≢◌, refl, ap, sym, subst, ◌∙◌, ◌⊎◌, inl, inr, arith}
use pfunc.Sync.Mutex.{
  Word, free, locked_with_waiters, Pc, idle, contend, asleep, retry, critical, waking, Move,
  acquire, busy, mark, marked, seen_free, sleep, changed, spurious, retake, refused, release,
  release_waiters, System, Step, move, wake, wake_nobody, Reach, here, next,
}

-- A thread that will look at the word again, or wake another, before it sleeps or rests.
abbrev pub IsActive : Pc → Type 0
IsActive idle = ⊥
IsActive asleep = ⊥
IsActive critical = ⊥
IsActive _ = Unit {0}

pub record Inv (v : Word) (pc : ℕ → Pc) : Type 0 where
  pub unique : (i j : ℕ) → pc i ≡ critical → pc j ≡ critical → i ≡ j
  pub taken : (i : ℕ) → pc i ≡ critical → v ≢ free
  pub holder : v ≢ free → (i : ℕ) × (pc i ≡ critical)
  pub watched : (i : ℕ) → pc i ≡ asleep → (v ≡ locked_with_waiters) ⊎ ((j : ℕ) × IsActive (pc j))

Move-unique :
    {v w : Word} {p p' : Pc} (pc : ℕ → Pc) (i : ℕ)
    → Move v p w p'
    → Inv v pc
    → pc i ≡ p
    → (a b : ℕ) → update pc i p' a ≡ critical
    → update pc i p' b ≡ critical
    → a ≡ b
Move-unique pc i acquire inv e a b = ground (arith, inv.taken a, inv.taken b)
Move-unique pc i retake inv e a b = ground (arith, inv.taken a, inv.taken b)
Move-unique pc i mv inv e a b = ground (arith, inv.unique a b)

Move-taken :
    {v w : Word} {p p' : Pc} (pc : ℕ → Pc) (i : ℕ)
    → Move v p w p'
    → Inv v pc
    → pc i ≡ p
    → (a : ℕ) → update pc i p' a ≡ critical
    → w ≢ free
Move-taken pc i acquire inv e a = ground (arith, inv.taken a)
Move-taken pc i retake inv e a = ground (arith, inv.taken a)
Move-taken pc i release inv e a = ground (arith, inv.unique a i)
Move-taken pc i release_waiters inv e a = ground (arith, inv.unique a i)
Move-taken pc i mv inv e a = ground (arith, inv.taken a)

Move-holder :
    {v w : Word} {p p' : Pc} (pc : ℕ → Pc) (i : ℕ)
    → Move v p w p'
    → Inv v pc
    → pc i ≡ p
    → w ≢ free
    → (a : ℕ) × (update pc i p' a ≡ critical)
Move-holder pc i acquire inv e h = (i, ground arith)
Move-holder pc i retake inv e h = (i, ground arith)
Move-holder pc i release inv e h = absurd (h refl)
Move-holder pc i release_waiters inv e h = absurd (h refl)
Move-holder pc i mark inv e h = let (a, c) = inv.holder (λ q. cc) in (a, ground arith)
Move-holder pc i mv inv e h = let (a, c) = inv.holder h in (a, ground arith)

-- Some thread is about to look at the word, or the word says that there are waiters.
abbrev Watched : Word → (ℕ → Pc) → Type 0
Watched v pc = (v ≡ locked_with_waiters) ⊎ ((j : ℕ) × IsActive (pc j))

IsActive-self : (pc : ℕ → Pc) (i : ℕ) (p : Pc) → IsActive p → IsActive (update pc i p i)
IsActive-self pc i p h = let e : update pc i p i ≡ p = ground arith in subst IsActive (sym e) h

IsActive-other :
    (pc : ℕ → Pc) (i j : ℕ) (p : Pc) → i ≢ j → IsActive (pc j) → IsActive (update pc i p j)
IsActive-other pc i j p ne h =
    let e : update pc i p j ≡ pc j = ground arith in subst IsActive (sym e) h

-- A thread that was not active goes elsewhere: the others still watch.
Watched-other :
    (pc : ℕ → Pc) (i : ℕ) (p p' : Pc) {v w : Word}
    → pc i ≡ p
    → ¬ IsActive p
    → v ≢ locked_with_waiters
    → Watched v pc
    → Watched w (update pc i p')
Watched-other pc i p p' e rest h (inl waiters) = absurd (h waiters)
Watched-other pc i p p' e rest h (inr (j, active)) = inr (
  j,
  IsActive-other pc i j p' (λ same. rest (subst IsActive (ap pc (sym same) ∙ e) active)) active,
)

Move-Watched :
    {v w : Word} {p p' : Pc} (pc : ℕ → Pc) (i : ℕ)
    → Move v p w p'
    → Inv v pc
    → pc i ≡ p
    → (a : ℕ) → update pc i p' a ≡ asleep
    → Watched w (update pc i p')
Move-Watched pc i acquire inv e a h =
    Watched-other pc i idle critical e (λ x. x) (λ q. cc) (inv.watched a (ground arith))
Move-Watched pc i release inv e a h =
    Watched-other pc i critical idle e (λ x. x) (λ q. cc) (inv.watched a (ground arith))
Move-Watched pc i (busy b) inv e a h = inr (i, IsActive-self pc i contend tt)
Move-Watched pc i mark inv e a h = inl refl
Move-Watched pc i marked inv e a h = inl refl
Move-Watched pc i seen_free inv e a h = inr (i, IsActive-self pc i retry tt)
Move-Watched pc i sleep inv e a h = inl refl
Move-Watched pc i (changed b) inv e a h = inr (i, IsActive-self pc i retry tt)
Move-Watched pc i spurious inv e a h = inr (i, IsActive-self pc i retry tt)
Move-Watched pc i retake inv e a h = inl refl
Move-Watched pc i (refused b) inv e a h = inr (i, IsActive-self pc i contend tt)
Move-Watched pc i release_waiters inv e a h = inr (i, IsActive-self pc i waking tt)

Move-Inv :
    {v w : Word} {p p' : Pc} (pc : ℕ → Pc) (i : ℕ)
    → Move v p w p'
    → Inv v pc
    → pc i ≡ p
    → Inv w (update pc i p')
Move-Inv pc i mv inv e = record {
  unique = Move-unique pc i mv inv e;
  taken = Move-taken pc i mv inv e;
  holder = Move-holder pc i mv inv e;
  watched = Move-Watched pc i mv inv e;
}

-- A step that leaves the word alone, and takes a thread from one place outside the critical section
-- to another.
shift :
    (pc : ℕ → Pc) (i : ℕ) (p : Pc) {v : Word}
    → Inv v pc
    → pc i ≢ critical
    → p ≢ critical
    → ((a : ℕ) → update pc i p a ≡ asleep → Watched v (update pc i p))
    → Inv v (update pc i p)
shift pc i p inv out out' watched = record {
  unique = λ a b. ground (arith, inv.unique a b);
  taken = λ a. ground (arith, inv.taken a);
  holder = λ h. let (a, c) = inv.holder h in (a, ground arith);
  watched = watched;
}

wake-Inv :
    (pc : ℕ → Pc) (i j : ℕ) {v : Word}
    → Inv v pc
    → pc i ≡ waking
    → pc j ≡ asleep
    → Inv v (update (update pc j retry) i idle)
wake-Inv pc i j inv at_i at_j =
    let woken = update pc j retry in
    let apart : i ≢ j = λ e. cc (ap pc e) in
    let awake : Inv _ woken =
      shift pc j retry inv (λ e. cc) (λ e. cc) (λ a h. inr (j, IsActive-self pc j retry tt)) in
    shift woken i idle awake (ground arith) (λ e. cc)
      λ a h. inr (j, IsActive-other woken i j idle apart (IsActive-self pc j retry tt))

Step-Inv : {n : ℕ} {s t : System} → Step n s t → Inv s.word s.pc → Inv t.word t.pc
Step-Inv {s} (move i lt mv) inv = Move-Inv s.pc i mv inv refl
Step-Inv {s} (wake i j lt at_i at_j) inv = wake-Inv s.pc i j inv at_i at_j
Step-Inv {s} (wake_nobody i lt at_i nobody) inv =
    shift s.pc i idle inv (λ e. cc) (λ e. cc) λ a h. absurd (nobody a (ground arith))

pub Reach-Inv : {n : ℕ} {s : System} → Reach n s → Inv s.word s.pc
Reach-Inv here = record {
  unique = λ i j h. cc;
  taken = λ i h. cc;
  holder = λ h. absurd (h refl);
  watched = λ i h. cc;
}
Reach-Inv (next r st) = Step-Inv st (Reach-Inv r)

-- Mutual exclusion: in every state that `lock` and `unlock` can reach, with any number of threads, at
-- most one thread is between its `lock` and its `unlock`, and the word is free exactly if none is.
pub mutual_exclusion :
    {n : ℕ} {s : System}
    → Reach n s
    → ((i j : ℕ) → s.pc i ≡ critical → s.pc j ≡ critical → i ≡ j)
      × ((i : ℕ) → s.pc i ≡ critical → s.word ≢ free)
      × (s.word ≢ free → (i : ℕ) × (s.pc i ≡ critical))
mutual_exclusion r = let inv = Reach-Inv r in (inv.unique, inv.taken, inv.holder)

-- No wake-up is lost: in every state that `lock` and `unlock` can reach, while a thread sleeps,
-- either the word says that there are waiters and some thread holds the mutex, or some thread is on
-- its way to look at the word again or to wake a sleeper.
pub no_lost_wakeup :
    {n : ℕ} {s : System}
    → Reach n s
    → (i : ℕ) → s.pc i ≡ asleep
    → ((s.word ≡ locked_with_waiters) × ((j : ℕ) × (s.pc j ≡ critical)))
      ⊎ ((j : ℕ) × IsActive (s.pc j))
no_lost_wakeup r i e = elim ((Reach-Inv r).watched i e) [
  | inl waiters ↦ inl (waiters, (Reach-Inv r).holder (λ q. cc))
  | inr active ↦ inr active
]
