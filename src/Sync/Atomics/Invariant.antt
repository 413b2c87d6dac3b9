-- ===== src/Sync/Atomics/Invariant.antt =====
-- While all calls are of one operation (pfunc/asm/generic.h), they take effect one after the other.
use pfunc.Base.{
  ℕ, ◌+◌, ◌%◌, ◌^◌, ◌≡◌, ◌≢◌, refl, sym, ap, subst, ◌∙◌, Bool, true, false, List, [], ◌∷◌, ◌++◌,
  ◌==◌, if◌then◌else◌, ℕ_discrete, update, update_self, update_ne, update-elim, arith,
}
use mathlib.Core.Bool.{true≢false}
use pfunc.Sync.Atomics.{
  Call, compare_and_swap, compare_and_swap_lock, fetch_and_store_lock, fetch_and_add_lock,
  fetch_and_store, fetch_and_add, Lock, lock_of, Place, outside, comparing, swapping, rereading,
  loading_to_store, storing, loading_to_add, adding, summing, leaving, entered, access, State,
  with_lock, Step, lock, go, unlock, Reach, here, next, word_after, result_of, Sequential,
}

-- The thread at a place is in a call that found the word `b`; the word is `x` now.
unfoldable pub Under : ℕ → ℕ → ℕ → Place → Type 0
Under w b x outside = ⊥
Under w b x (comparing e c) = x ≡ b
Under w b x (swapping e c) = (x ≡ b) × (b ≡ c)
Under w b x (rereading e c) = (x ≡ b) × (b ≢ c)
Under w b x (loading_to_store n) = x ≡ b
Under w b x (storing n r) = (x ≡ b) × (r ≡ b)
Under w b x (loading_to_add a) = x ≡ b
Under w b x (adding a r) = (x ≡ b) × (r ≡ b)
Under w b x (summing a r v) = (x ≡ b) × (r ≡ b) × (v ≡ b)
Under w b x (leaving call r) = (x ≡ word_after w call b) × (r ≡ result_of call b)

entered-Under : (w b : ℕ) (call : Call) → Under w b b (entered call)
unfolding Under entered
entered-Under w b (compare_and_swap e c) = refl
entered-Under w b (fetch_and_store n) = refl
entered-Under w b (fetch_and_add a) = refl

access-Under : (w b x : ℕ) (p : Place) → Under w b x p → Under w b (access w p x).1 (access w p x).0
unfolding Under access
access-Under w b x outside h = absurd h
access-Under w b x (comparing e c) h = elim (ℕ_discrete x c) [
  | yes same ↦
      let test : (x == c) ≡ true = ground arith in
      subst (λ t. Under w b x (if t then swapping e c else rereading e c)) (sym test)
        (h, sym h ∙ same)
  | no differs ↦
      let test : (x == c) ≡ false = ground arith in
      subst (λ t. Under w b x (if t then swapping e c else rereading e c)) (sym test)
        (h, λ same. differs (h ∙ same))
]
access-Under w b x (swapping e c) h = ground arith
access-Under w b x (rereading e c) h = ground arith
access-Under w b x (loading_to_store n) h = (h, h)
access-Under w b x (storing n r) h = (refl, h.1)
access-Under w b x (loading_to_add a) h = (h, h)
access-Under w b x (adding a r) h = (h.0, h.1, h.0)
access-Under w b x (summing a r v) h = (ap (λ y. (y + a) % 2 ^ w) h.2, h.1)
access-Under w b x (leaving call r) h = h

Sequential-snoc :
    (w x y : ℕ) (calls : List (Call × ℕ)) (call : Call)
    → Sequential w x calls y
    → Sequential w x (calls ++ (call, result_of call y) ∷ []) (word_after w call y)
unfolding Sequential
Sequential-snoc w x y [] call h = (ap (result_of call) (sym h), ap (word_after w call) h)
Sequential-snoc w x y ((c, r) ∷ calls) call (h, rest) =
    (h, Sequential-snoc w (word_after w c x) y calls call rest)

-- The mutex that a thread at a place has.
unfoldable pub lock_at : Place → Lock
lock_at (leaving call r) = lock_of call
lock_at (loading_to_store n) = lock_of (fetch_and_store n)
lock_at (storing n r) = lock_of (fetch_and_store n)
lock_at (loading_to_add a) = lock_of (fetch_and_add a)
lock_at (adding a r) = lock_of (fetch_and_add a)
lock_at (summing a r v) = lock_of (fetch_and_add a)
lock_at (comparing e c) = lock_of (compare_and_swap e c)
lock_at (swapping e c) = lock_of (compare_and_swap e c)
lock_at (rereading e c) = lock_of (compare_and_swap e c)
lock_at outside = compare_and_swap_lock

lock_at-entered : (call : Call) → lock_at (entered call) ≡ lock_of call
unfolding lock_at entered lock_of
lock_at-entered (compare_and_swap e c) = refl
lock_at-entered (fetch_and_store n) = refl
lock_at-entered (fetch_and_add a) = refl

lock_at-access : (w x : ℕ) (p : Place) → lock_at (access w p x).0 ≡ lock_at p
unfolding lock_at access lock_of
lock_at-access w x outside = refl
lock_at-access w x (comparing e c) = ground arith
lock_at-access w x (swapping e c) = refl
lock_at-access w x (rereading e c) = refl
lock_at-access w x (loading_to_store n) = refl
lock_at-access w x (storing n r) = refl
lock_at-access w x (loading_to_add a) = refl
lock_at-access w x (adding a r) = refl
lock_at-access w x (summing a r v) = refl
lock_at-access w x (leaving call r) = refl

-- Either nobody is in a call, or exactly one thread is, which has the mutex `l`.
pub data Inv (w x : ℕ) (l : Lock) (s : State) : Type 0 where
  idle :
      s.taken l ≡ false
      → ((j : ℕ) → s.place j ≡ outside)
      → Sequential w x s.returned s.word
      → Inv w x l s
  busy :
      (i b : ℕ)
      → s.taken l ≡ true
      → lock_at (s.place i) ≡ l
      → ((j : ℕ) → j ≢ i → s.place j ≡ outside)
      → Under w b s.word (s.place i)
      → Sequential w x s.returned b
      → Inv w x l s

with_lock-same : (taken : Lock → Bool) (l : Lock) (b : Bool) → with_lock taken l b l ≡ b
unfolding with_lock
with_lock-same taken compare_and_swap_lock b = refl
with_lock-same taken fetch_and_store_lock b = refl
with_lock-same taken fetch_and_add_lock b = refl

with_lock-at : (taken : Lock → Bool) (l m : Lock) (b : Bool) → m ≡ l → with_lock taken m b l ≡ b
with_lock-at taken l m b e = subst (λ k. with_lock taken m b k ≡ b) e (with_lock-same taken m b)

-- A thread outside has no access to make.
go_outside :
    (w : ℕ) (s : State) (i : ℕ)
    → s.place i ≡ outside
    → access w (s.place i) s.word ≡ (outside, s.word)
unfolding access
go_outside w s i out = ap (λ p. access w p s.word) out

-- The other threads stay outside when thread `i` moves.
others_outside :
    (place : ℕ → Place) (i : ℕ) (p : Place)
    → ((j : ℕ) → j ≢ i → place j ≡ outside)
    → (j : ℕ) → j ≢ i
    → update place i p j ≡ outside
others_outside place i p outs j d = update_ne place i p j d ∙ outs j d

all_outside :
    (place : ℕ → Place) (i : ℕ) (p : Place)
    → p ≡ outside
    → ((j : ℕ) → j ≢ i → place j ≡ outside)
    → (j : ℕ) → update place i p j ≡ outside
all_outside place i p out outs = update-elim (λ j q. q ≡ outside) place i p out outs

not_leaving : {p : Place} {call : Call} {result : ℕ} → p ≡ outside → p ≡ leaving call result → ⊥
not_leaving out at = cc

lock-Inv :
    {w x : ℕ} {l : Lock} (s : State) (i : ℕ) (call : Call)
    → lock_of call ≡ l
    → s.taken (lock_of call) ≡ false
    → Inv w x l s
    → Inv w x l (record s {
      taken = with_lock s.taken (lock_of call) true;
      place = update s.place i (entered call);
    })
lock-Inv {w} {x} {l} s i call own free (idle not_taken outs seq) =
    let stands = update_self s.place i (entered call) in
    busy i s.word (with_lock-at s.taken l (lock_of call) true own)
      (ap lock_at stands ∙ lock_at-entered call ∙ own)
      (others_outside s.place i (entered call) (λ j _. outs j))
      (subst (Under w s.word s.word) (sym stands) (entered-Under w s.word call)) seq
lock-Inv {w} {x} {l} s i call own free (busy k b taken at outs under seq) =
    absurd (true≢false (sym taken ∙ ap s.taken (sym own) ∙ free))

go-Inv :
    {w x : ℕ} {l : Lock} (s : State) (i : ℕ)
    → Inv w x l s
    → Inv w x l (record s {
      word = (access w (s.place i) s.word).1;
      place = update s.place i (access w (s.place i) s.word).0;
    })
go-Inv {w} {x} {l} s i (idle not_taken outs seq) =
    let stays = go_outside w s i (outs i) in
    idle not_taken (all_outside s.place i _ (ap (λ r. r.0) stays) (λ j _. outs j))
      (subst (Sequential w x s.returned) (sym (ap (λ r. r.1) stays)) seq)
go-Inv {w} {x} {l} s i (busy k b taken at outs under seq) = elim (ℕ_discrete i k) [
  | yes same ↦
      let p = (access w (s.place k) s.word).0 in
      let stands = update_self s.place k p in
      let moved : Inv w x l
          (record s { word = (access w (s.place k) s.word).1; place = update s.place k p }) =
        busy k b taken (ap lock_at stands ∙ lock_at-access w s.word (s.place k) ∙ at)
          (others_outside s.place k p outs)
          (subst (Under w b (access w (s.place k) s.word).1) (sym stands)
            (access-Under w b s.word (s.place k) under))
          seq in
      subst
        (λ j. Inv w x l (record s {
          word = (access w (s.place j) s.word).1;
          place = update s.place j (access w (s.place j) s.word).0;
        }))
        (sym same) moved
  | no differs ↦
      let stays = go_outside w s i (outs i differs) in
      let p = (access w (s.place i) s.word).0 in
      let keeps = update_ne s.place i p k (λ e. differs (sym e)) in
      busy k b taken (ap lock_at keeps ∙ at)
        (update-elim (λ j q. j ≢ k → q ≡ outside) s.place i p (λ _. ap (λ r. r.0) stays)
          (λ j _ d. outs j d))
        (subst (Under w b (access w (s.place i) s.word).1) (sym keeps)
          (subst (λ y. Under w b y (s.place k)) (sym (ap (λ r. r.1) stays)) under))
        seq
]

unlock-Inv :
    {w x : ℕ} {l : Lock} (s : State) (i : ℕ) (call : Call) (result : ℕ)
    → s.place i ≡ leaving call result
    → Inv w x l s
    → Inv w x l (record s {
      taken = with_lock s.taken (lock_of call) false;
      place = update s.place i outside;
      returned = s.returned ++ (call, result) ∷ [];
    })
unfolding Under lock_at
unlock-Inv s i call result at (idle not_taken outs seq) = absurd (not_leaving (outs i) at)
unlock-Inv {w} {x} {l} s i call result at (busy k b taken holds outs under seq) =
    elim (ℕ_discrete i k) [
      | yes same ↦
          let at' : s.place k ≡ leaving call result =
            subst (λ j. s.place j ≡ leaving call result) same at in
          let (word_is, result_is) = subst (Under w b s.word) at' under in
          let own : lock_of call ≡ l = sym (ap lock_at at') ∙ holds in
          idle (with_lock-at s.taken l (lock_of call) false own)
            (all_outside s.place i outside refl (λ j d. outs j (λ e. d (e ∙ sym same))))
            (subst (λ r. Sequential w x (s.returned ++ (call, r) ∷ []) s.word) (sym result_is)
              (subst (Sequential w x (s.returned ++ (call, result_of call b) ∷ [])) (sym word_is)
                (Sequential-snoc w x b s.returned call seq)))
      | no differs ↦ absurd (not_leaving (outs i differs) at)
    ]

Step-Inv :
    {w x : ℕ} {makes : Call → Type 0} {l : Lock} {s t : State}
    → ((call : Call) → makes call → lock_of call ≡ l)
    → Inv w x l s
    → Step w makes s t
    → Inv w x l t
Step-Inv {s = s} one inv (lock i call may out free) = lock-Inv s i call (one call may) free inv
Step-Inv {s = s} one inv (go i) = go-Inv s i inv
Step-Inv {s = s} one inv (unlock i call result at) = unlock-Inv s i call result at inv

pub Reach-Inv :
    {w x : ℕ} {makes : Call → Type 0} {l : Lock} {s : State}
    → ((call : Call) → makes call → lock_of call ≡ l)
    → Reach w makes x s
    → Inv w x l s
unfolding Sequential
Reach-Inv one here = idle refl (λ _. refl) refl
Reach-Inv one (next r step) = Step-Inv one (Reach-Inv one r) step
