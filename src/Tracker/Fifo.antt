-- ===== src/Tracker/Fifo.antt =====
-- The order and the content of the runnable queue.
use simple_coding_agent.Base.{
  ℕ, ◌+◌, ◌≤◌, ◌<◌, ◌≡◌, refl, sym, ◌∙◌, ◌⊎◌, inl, inr, Bool, true, false, Option, List, [], ◌∷◌,
  ◌++◌, arith, if◌then◌else◌, Bool-cases, select, All, All-append, All-map,
}
use simple_coding_agent.Tracker.Issue.{TrackerIssue, is_eligible}
use simple_coding_agent.Tracker.Eligibility.{Budgets}
use simple_coding_agent.Tracker.Reasons.{is_claimable}
use simple_coding_agent.Tracker.Queue.{
  by_fifo, insert_fifo, sorted, is_conflict_work, is_continuation_work, queue_of,
}

-- How many issues of a list pass a test.
abbrev pub count_of : (TrackerIssue → Bool) → List TrackerIssue → ℕ
count_of p [] = 0
count_of p (i ∷ issues) = (if p i then 1 else 0) + count_of p issues

count_of-append :
    (p : TrackerIssue → Bool) (xs ys : List TrackerIssue)
    → count_of p (xs ++ ys) ≡ count_of p xs + count_of p ys
count_of-append p [] ys = omega arith
count_of-append p (x ∷ xs) ys = omega (arith, count_of-append p xs ys)

count_of-insert :
    (p : TrackerIssue → Bool) (i : TrackerIssue) (xs : List TrackerIssue)
    → count_of p (insert_fifo i xs) ≡ count_of p (i ∷ xs)
unfolding insert_fifo
count_of-insert p i [] = refl
count_of-insert p i (x ∷ xs) = ground (arith, count_of-insert p i xs)

count_of-sorted :
    (p : TrackerIssue → Bool) (xs : List TrackerIssue) → count_of p (sorted xs) ≡ count_of p xs
unfolding sorted
count_of-sorted p [] = refl
count_of-sorted p (x ∷ xs) = count_of-insert p x (sorted xs) ∙ omega (arith, count_of-sorted p xs)

-- The three groups cover the claimable issues, each once.
count_of-groups :
    (p : TrackerIssue → Bool) (budgets : Budgets) (counts : TrackerIssue → Option ℕ)
    (xs : List TrackerIssue)
    → count_of p (select (is_conflict_work budgets) xs)
        + (count_of p (select (is_continuation_work budgets counts) xs)
            + count_of p (select is_eligible xs))
      ≡ count_of p (select (λ i. is_claimable budgets (counts i) i) xs)
unfolding select is_conflict_work is_continuation_work
count_of-groups p budgets counts [] = omega arith
count_of-groups p budgets counts (x ∷ xs) = ground (arith, count_of-groups p budgets counts xs)

-- The queue holds exactly the claimable issues of the poll, each as often as the poll has it: the
-- counts agree for every test on issues.
pub queue_of-count :
    (p : TrackerIssue → Bool) (budgets : Budgets) (counts : TrackerIssue → Option ℕ)
    (table : List TrackerIssue)
    → count_of p (queue_of budgets counts table)
      ≡ count_of p (select (λ i. is_claimable budgets (counts i) i) table)
unfolding queue_of
queue_of-count p budgets counts table =
    let cs = select (is_conflict_work budgets) table in
    let ks = select (is_continuation_work budgets counts) table in
    let os = select is_eligible table in
    omega (
      arith,
      count_of-append p (sorted cs) (sorted ks ++ sorted os),
      count_of-append p (sorted ks) (sorted os),
      count_of-sorted p cs,
      count_of-sorted p ks,
      count_of-sorted p os,
      count_of-groups p budgets counts table,
    )

-- The place of an issue's group in the queue.
abbrev pub group_rank : Budgets → (TrackerIssue → Option ℕ) → TrackerIssue → ℕ
group_rank budgets counts i =
    if is_conflict_work budgets i then 0 else if is_continuation_work budgets counts i then 1 else 2

-- One issue may stand before another: an earlier group, or the same group and not created later.
abbrev pub MayPrecede : Budgets → (TrackerIssue → Option ℕ) → TrackerIssue → TrackerIssue → Type 0
MayPrecede budgets counts a b =
    (group_rank budgets counts a < group_rank budgets counts b)
    ⊎ ((group_rank budgets counts a ≡ group_rank budgets counts b) × (by_fifo a b ≡ true))

-- Every issue of the list may stand before those after it.
abbrev pub IsOrdered : (TrackerIssue → TrackerIssue → Type 0) → List TrackerIssue → Type 0
IsOrdered R [] = Unit
IsOrdered R (x ∷ xs) = All (R x) xs × IsOrdered R xs

abbrev IsBefore : TrackerIssue → TrackerIssue → Type 0
IsBefore a b = by_fifo a b ≡ true

by_fifo_trans : (a b c : TrackerIssue) → IsBefore a b → IsBefore b c → IsBefore a c
unfolding by_fifo
by_fifo_trans a b c h k = ground arith

by_fifo_total : (a b : TrackerIssue) → by_fifo a b ≡ false → IsBefore b a
unfolding by_fifo
by_fifo_total a b h = ground arith

module _ {ℓ} (P : TrackerIssue → Type ℓ) where
  insert_fifo-All :
      (i : TrackerIssue) (xs : List TrackerIssue) → P i → All P xs → All P (insert_fifo i xs)
  unfolding insert_fifo
  insert_fifo-All i [] h hs = (h, tt)
  insert_fifo-All i (x ∷ xs) h hs = elim (Bool-cases (by_fifo i x)) [
    | inl b ↦ rw b (h, hs)
    | inr b ↦ rw b (hs.0, insert_fifo-All i xs h hs.1)
  ]

  sorted-All : (xs : List TrackerIssue) → All P xs → All P (sorted xs)
  unfolding sorted
  sorted-All [] h = tt
  sorted-All (x ∷ xs) h = insert_fifo-All x (sorted xs) h.0 (sorted-All xs h.1)

select-All :
    (p : TrackerIssue → Bool) (xs : List TrackerIssue) → All (λ i. p i ≡ true) (select p xs)
unfolding select
select-All p [] = tt
select-All p (x ∷ xs) = elim (Bool-cases (p x)) [
  | inl b ↦ rw b (b, select-All p xs)
  | inr b ↦ rw b (select-All p xs)
]

insert_fifo-IsOrdered :
    (i : TrackerIssue) (xs : List TrackerIssue)
    → IsOrdered IsBefore xs
    → IsOrdered IsBefore (insert_fifo i xs)
unfolding insert_fifo
insert_fifo-IsOrdered i [] h = (tt, tt)
insert_fifo-IsOrdered i (x ∷ xs) h = elim (Bool-cases (by_fifo i x)) [
  | inl b ↦ rw b ((b, All-map (IsBefore x) (IsBefore i) (λ y. by_fifo_trans i x y b) xs h.0), h)
  | inr b ↦
      rw b (
        insert_fifo-All (IsBefore x) i xs (by_fifo_total i x b) h.0,
        insert_fifo-IsOrdered i xs h.1,
      )
]

sorted-IsOrdered : (xs : List TrackerIssue) → IsOrdered IsBefore (sorted xs)
unfolding sorted
sorted-IsOrdered [] = tt
sorted-IsOrdered (x ∷ xs) = insert_fifo-IsOrdered x (sorted xs) (sorted-IsOrdered xs)

IsOrdered-append :
    (R : TrackerIssue → TrackerIssue → Type 0) (xs ys : List TrackerIssue)
    → IsOrdered R xs
    → IsOrdered R ys
    → All (λ x. All (R x) ys) xs
    → IsOrdered R (xs ++ ys)
IsOrdered-append R [] ys hx hy c = hy
IsOrdered-append R (x ∷ xs) ys hx hy c =
    (All-append (R x) xs ys hx.0 c.0, IsOrdered-append R xs ys hx.1 hy c.1)

module _ (budgets : Budgets) (counts : TrackerIssue → Option ℕ) where
  abbrev HasRank : ℕ → TrackerIssue → Type 0
  HasRank k i = group_rank budgets counts i ≡ k

  same_rank-precedes :
      (k : ℕ) (a : TrackerIssue) (xs : List TrackerIssue)
      → HasRank k a
      → All (HasRank k) xs
      → All (IsBefore a) xs
      → All (MayPrecede budgets counts a) xs
  same_rank-precedes k a [] h hs fs = tt
  same_rank-precedes k a (x ∷ xs) h hs fs =
      (inr (h ∙ sym hs.0, fs.0), same_rank-precedes k a xs h hs.1 fs.1)

  same_rank-IsOrdered :
      (k : ℕ) (xs : List TrackerIssue)
      → All (HasRank k) xs
      → IsOrdered IsBefore xs
      → IsOrdered (MayPrecede budgets counts) xs
  same_rank-IsOrdered k [] h o = tt
  same_rank-IsOrdered k (x ∷ xs) h o =
      (same_rank-precedes k x xs h.0 h.1 o.0, same_rank-IsOrdered k xs h.1 o.1)

  lower_rank-precedes :
      (k j : ℕ) (xs ys : List TrackerIssue)
      → k < j
      → All (HasRank k) xs
      → All (λ y. j ≤ group_rank budgets counts y) ys
      → All (λ x. All (MayPrecede budgets counts x) ys) xs
  lower_rank-precedes k j [] ys l hx hy = tt
  lower_rank-precedes k j (x ∷ xs) ys l hx hy = (
    All-map (λ y. j ≤ group_rank budgets counts y) (MayPrecede budgets counts x)
        (λ y h. inl (omega (arith, hx.0))) ys hy,
    lower_rank-precedes k j xs ys l hx.1 hy,
  )

  conflict_rank : (i : TrackerIssue) → is_conflict_work budgets i ≡ true → HasRank 0 i
  conflict_rank i h = rw h refl

  continuation_rank :
      (i : TrackerIssue) → is_continuation_work budgets counts i ≡ true → HasRank 1 i
  unfolding is_continuation_work is_conflict_work
  continuation_rank i h = ground arith

  eligible_rank : (i : TrackerIssue) → is_eligible i ≡ true → HasRank 2 i
  unfolding is_continuation_work is_conflict_work
  eligible_rank i h = ground arith

  group-HasRank :
      (k : ℕ) (p : TrackerIssue → Bool) (xs : List TrackerIssue)
      → ((i : TrackerIssue) → p i ≡ true → HasRank k i)
      → All (HasRank k) (sorted (select p xs))
  group-HasRank k p xs f =
      sorted-All (HasRank k) (select p xs)
        (All-map (λ i. p i ≡ true) (HasRank k) f (select p xs) (select-All p xs))

  at_least :
      (k j : ℕ) (xs : List TrackerIssue)
      → j ≤ k
      → All (HasRank k) xs
      → All (λ y. j ≤ group_rank budgets counts y) xs
  at_least k j xs l h =
      All-map (HasRank k) (λ y. j ≤ group_rank budgets counts y) (λ y e. omega (arith, e)) xs h

  -- The queue stands in order: conflict work before continuations before ordinary work, and within
  -- each group by the time of creation, then by number.
  pub queue_of-IsOrdered :
      (table : List TrackerIssue)
      → IsOrdered (MayPrecede budgets counts) (queue_of budgets counts table)
  unfolding queue_of
  queue_of-IsOrdered table =
      let R = MayPrecede budgets counts in
      let cs = select (is_conflict_work budgets) table in
      let ks = select (is_continuation_work budgets counts) table in
      let os = select is_eligible table in
      let rank_c = group-HasRank 0 (is_conflict_work budgets) table conflict_rank in
      let rank_k = group-HasRank 1 (is_continuation_work budgets counts) table continuation_rank in
      let rank_o = group-HasRank 2 is_eligible table eligible_rank in
      IsOrdered-append R (sorted cs) (sorted ks ++ sorted os)
        (same_rank-IsOrdered 0 (sorted cs) rank_c (sorted-IsOrdered cs))
        (IsOrdered-append R (sorted ks) (sorted os)
          (same_rank-IsOrdered 1 (sorted ks) rank_k (sorted-IsOrdered ks))
          (same_rank-IsOrdered 2 (sorted os) rank_o (sorted-IsOrdered os))
          (lower_rank-precedes 1 2 (sorted ks) (sorted os) (omega arith) rank_k
            (at_least 2 2 (sorted os) (omega arith) rank_o)))
        (lower_rank-precedes 0 1 (sorted cs) (sorted ks ++ sorted os) (omega arith) rank_c (
          All-append _ (sorted ks) (sorted os) (at_least 1 1 (sorted ks) (omega arith) rank_k)
            (at_least 2 1 (sorted os) (omega arith) rank_o)))
