-- ===== src/Stress/Report/Order.antt =====
-- examples/stress.rs: the order of the percentiles that a run reports.
use mathlib.Core.List.{Memᴰ}
use ws_gateway.Common.{
  ℕ, zero, suc, ◌-◌, ◌/◌, ◌<◌, ◌≤◌, ◌≡◌, ◌⊎◌, refl, inl, inr, none, some, List, [], ◌∷◌, length,
  leb, leb→le, All, All-get_or, arith, get_or, get_elem?-get_or, Bool-cases,
}
use ws_gateway.Stress.Report.{insert, sort, Scaling, Report, report}

-- Every item is at most those after it.
abbrev IsSorted : List ℕ → Type 0
IsSorted [] = Unit {0}
IsSorted (x ∷ xs) = All (λ y. x ≤ y) xs × IsSorted xs

All-weaken : {P Q : ℕ → Type 0} → ((x : ℕ) → P x → Q x) → (xs : List ℕ) → All P xs → All Q xs
All-weaken f [] h = tt
All-weaken f (x ∷ xs) h = (f x h.0, All-weaken f xs h.1)

All-insert : (P : ℕ → Type 0) (x : ℕ) (ys : List ℕ) → P x → All P ys → All P (insert x ys)
unfolding insert
All-insert P x [] p h = (p, tt)
All-insert P x (y ∷ ys) p h = elim (Bool-cases (leb x y)) [
  | inl le ↦ rw (le, insert) (p, h)
  | inr gt ↦ rw (gt, insert) (h.0, All-insert P x ys p h.1)
]

insert-IsSorted : (x : ℕ) (ys : List ℕ) → IsSorted ys → IsSorted (insert x ys)
unfolding insert
insert-IsSorted x [] h = (tt, tt)
insert-IsSorted x (y ∷ ys) h = elim (Bool-cases (leb x y)) [
  | inl le ↦
      let small = leb→le x y le in
      rw (le, insert) ((small, All-weaken (λ z q. omega arith) ys h.0), h)
  | inr gt ↦
      rw (gt, insert) (All-insert (λ z. y ≤ z) x ys (ground arith) h.0, insert-IsSorted x ys h.1)
]

sort-IsSorted : (xs : List ℕ) → IsSorted (sort xs)
unfolding sort
sort-IsSorted [] = tt
sort-IsSorted (x ∷ xs) = insert-IsSorted x (sort xs) (sort-IsSorted xs)

length-insert : (x : ℕ) (ys : List ℕ) → length (insert x ys) ≡ suc (length ys)
unfolding insert
length-insert x [] = refl
length-insert x (y ∷ ys) = ground (arith, length-insert x ys)

length-sort : (xs : List ℕ) → length (sort xs) ≡ length xs
unfolding sort
length-sort [] = refl
length-sort (x ∷ xs) = omega (arith, length-insert x (sort xs), length-sort xs)

All-sort : (P : ℕ → Type 0) (xs : List ℕ) → All P xs → All P (sort xs)
unfolding sort
All-sort P [] h = tt
All-sort P (x ∷ xs) h = All-insert P x (sort xs) h.0 (All-sort P xs h.1)

All-of_insert : (P : ℕ → Type 0) (x : ℕ) (ys : List ℕ) → All P (insert x ys) → P x × All P ys
unfolding insert
All-of_insert P x [] h = (h.0, tt)
All-of_insert P x (y ∷ ys) h = elim (Bool-cases (leb x y)) [
  | inl le ↦ (let h' : All P (x ∷ y ∷ ys) = rw (le, insert) at h in (h'.0, h'.1))
  | inr gt ↦
      let h' : All P (y ∷ insert x ys) = rw (gt, insert) at h in
      let (p, rest) = All-of_insert P x ys h'.1 in (p, (h'.0, rest))
]

All-of_sort : (P : ℕ → Type 0) (xs : List ℕ) → All P (sort xs) → All P xs
unfolding sort
All-of_sort P [] h = tt
All-of_sort P (x ∷ xs) h =
    let (p, rest) = All-of_insert P x (sort xs) h in (p, All-of_sort P xs rest)

All-self : (xs : List ℕ) → All (λ v. Memᴰ v xs) xs
All-self [] = tt
All-self (x ∷ xs) = (Memᴰ.head refl, All-weaken (λ v m. Memᴰ.tail m) xs (All-self xs))

get_or_mono :
    (q : List ℕ) (i j : ℕ) → IsSorted q → i ≤ j → j < length q → get_or q i 0 ≤ get_or q j 0
get_or_mono [] i j s le lt = absurd (omega arith)
get_or_mono (x ∷ q) zero zero s le lt = omega arith
get_or_mono (x ∷ q) zero (suc j) s le lt = All-get_or (λ y. x ≤ y) q j 0 (omega arith) s.0
get_or_mono (x ∷ q) (suc i) zero s le lt = absurd (omega arith)
get_or_mono (x ∷ q) (suc i) (suc j) s le lt = get_or_mono q i j s.1 (omega arith) (omega arith)

first_least : (q : List ℕ) → IsSorted q → All (λ y. get_or q 0 0 ≤ y) q
first_least [] s = tt
first_least (x ∷ q) s = (omega arith, s.0)

last_greatest : (q : List ℕ) (k : ℕ) → length q ≡ suc k → IsSorted q → All (λ y. y ≤ get_or q k 0) q
last_greatest [] k e s = absurd (omega arith)
last_greatest (x ∷ []) zero e s = (omega arith, tt)
last_greatest (x ∷ []) (suc k) e s = absurd (omega arith)
last_greatest (x ∷ y ∷ q) zero e s = absurd (omega arith)
last_greatest (x ∷ y ∷ q) (suc k) e s =
    let rest = last_greatest (y ∷ q) k (omega arith) s.1 in (omega (arith, s.0.0, rest.0), rest)

-- What a report says of the latencies: its values are latencies, they are in order, and all latencies
-- lie between the least and the greatest.
pub record IsReport (xs : List ℕ) (r : Report) : Type 0 where
  pub measured : All (λ v. Memᴰ v xs) (r.min ∷ r.p50 ∷ r.p90 ∷ r.p99 ∷ r.p999 ∷ r.max ∷ [])
  pub ordered :
      (r.min ≤ r.p50) × (r.p50 ≤ r.p90) × (r.p90 ≤ r.p99) × (r.p99 ≤ r.p999) × (r.p999 ≤ r.max)
  pub least : All (λ x. r.min ≤ x) xs
  pub greatest : All (λ x. x ≤ r.max) xs

module _ (s : Scaling) where
  open s use {scaled, below, grows, half}

  abbrev made : List ℕ → Report
  made q =
      let n = length q in
      record {
        p50 = get_or q (n / 2) 0;
        p90 = get_or q (scaled 900 n) 0;
        p99 = get_or q (scaled 990 n) 0;
        p999 = get_or q (scaled 999 n) 0;
        min = get_or q 0 0;
        max = get_or q (n - 1) 0;
      }

  -- The indices of a report lie in a list that is not empty.
  report-made : (xs : List ℕ) → 0 < length xs → report s xs ≡ some (made (sort xs))
  unfolding report
  report-made xs pos =
      let q = sort xs in
      let n = length q in
      let some_left : 0 < n = omega (arith, length-sort xs) in
      rw
        (
          get_elem?-get_or q (n / 2) 0 (omega arith),
          get_elem?-get_or q (scaled 900 n) 0 (below 900 n (omega arith) some_left),
          get_elem?-get_or q (scaled 990 n) 0 (below 990 n (omega arith) some_left),
          get_elem?-get_or q (scaled 999 n) 0 (below 999 n (omega arith) some_left),
          get_elem?-get_or q 0 0 some_left,
          get_elem?-get_or q (n - 1) 0 (omega arith),
        )
        refl

  made-IsReport : (xs : List ℕ) → 0 < length xs → IsReport xs (made (sort xs))
  made-IsReport xs pos =
      let q = sort xs in
      let n = length q in
      let up = sort-IsSorted xs in
      let some_left : 0 < n = omega (arith, length-sort xs) in
      let b90 = below 900 n (omega arith) some_left in
      let b99 = below 990 n (omega arith) some_left in
      let b999 = below 999 n (omega arith) some_left in
      let g99 = grows 900 990 n (omega arith) in
      let g999 = grows 990 999 n (omega arith) in
      let from = λ (i : ℕ) (lt : i < n).
        All-get_or (λ v. Memᴰ v xs) q i 0 lt (All-sort (λ v. Memᴰ v xs) xs (All-self xs)) in
      record {
        measured = (
          from 0 some_left,
          (
            from (n / 2) (omega arith),
            (
              from (scaled 900 n) b90,
              (
                from (scaled 990 n) b99,
                (from (scaled 999 n) b999, (from (n - 1) (omega arith), tt)),
              ),
            ),
          ),
        );
        ordered = (
          get_or_mono q 0 (n / 2) up (omega arith) (omega arith),
          get_or_mono q (n / 2) (scaled 900 n) up (half n) b90,
          get_or_mono q (scaled 900 n) (scaled 990 n) up g99 b99,
          get_or_mono q (scaled 990 n) (scaled 999 n) up g999 b999,
          get_or_mono q (scaled 999 n) (n - 1) up (omega arith) (omega arith),
        );
        least = All-of_sort _ xs (first_least q up);
        greatest = All-of_sort _ xs (last_greatest q (n - 1) (omega arith) up);
      }

  -- Of any latencies that a run has measured, the report has values that are latencies and are in
  -- order: the least, the percentiles 50, 90, 99 and 99.9, and the greatest, between which all
  -- latencies lie; without a latency the run panics.
  pub report_cases :
      (xs : List ℕ)
      → ((xs ≡ []) × (report s xs ≡ none)) ⊎ ((r : Report) × (report s xs ≡ some r) × IsReport xs r)
  unfolding report
  report_cases [] = inl (refl, refl)
  report_cases (x ∷ xs) =
      let all = x ∷ xs in
      inr (made (sort all), report-made all (omega arith), made-IsReport all (omega arith))
