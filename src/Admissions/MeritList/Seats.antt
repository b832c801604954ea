-- ===== src/Admissions/MeritList/Seats.antt =====
-- How many candidates a merit list admits, and whom the general pool passes over.
use Prim.Native.Nat.{min}
use uni_acmis.Prelude.{
  ℕ, ◌-◌, ◌≤◌, ◌<◌, ◌≡◌, refl, ◌∙◌, ap, some, List, [], ◌∷◌, map, arith, length, count_if, ◌==◌,
  sorted_by-count_if, sorted_by-length,
}
use uni_acmis.Admissions.MeritList.{
  Candidate, Bucket, QuotaRules, Admitted, Dict, before, lookup, member, fill_reserved, entry, seat,
  rank_candidates, ranks_from, generate_merit_list,
}
use uni_acmis.Admissions.MeritList.Loops.{
  Fresh, Distinct, seated, seated-fill_general, length-fill_reserved, length-fill_reserved-le,
  seats_of, seated-le-length,
}

-- Each application id belongs to one candidate at most.
abbrev pub UniqueIds : List Candidate → Type 0
UniqueIds cs = (i : ℕ) → count_if (λ c. c.application_id == i) cs ≤ 1

count-zero-Fresh :
    (i : ℕ) (cs : List Candidate) → count_if (λ c. c.application_id == i) cs ≡ 0 → Fresh i cs
count-zero-Fresh i [] h = tt
count-zero-Fresh i (c ∷ cs) h = ground (arith, count-zero-Fresh i cs)

pub UniqueIds-Distinct : (cs : List Candidate) → UniqueIds cs → Distinct cs
UniqueIds-Distinct [] u = tt
UniqueIds-Distinct (c ∷ cs) u = (
  count-zero-Fresh c.application_id cs (ground (arith, u c.application_id)),
  UniqueIds-Distinct cs (λ i. ground (arith, u i)),
)

pub ranked-Distinct : (cs : List Candidate) → UniqueIds cs → Distinct (rank_candidates cs)
unfolding rank_candidates
ranked-Distinct cs u =
    UniqueIds-Distinct _ (λ i. rw (sorted_by-count_if before (λ c. c.application_id == i) cs) (u i))

count-admitted :
    (ranks : Dict ℕ) (a : Admitted) (cs : List Candidate)
    → count_if (λ e. e.admitted) (map (entry ranks a) cs) ≡ seated a cs
unfolding entry
count-admitted ranks a [] = refl
count-admitted ranks a (c ∷ cs) = ground (arith, count-admitted ranks a cs)

seated-empty : (cs : List Candidate) → seated [] cs ≡ 0
unfolding member lookup
seated-empty [] = refl
seated-empty (c ∷ cs) = seated-empty cs

seated-seat :
    (total : ℕ) (bs : List Bucket) (cs : List Candidate)
    → Distinct cs
    → seats_of bs ≤ total
    → seated (seat total bs cs) cs ≡ min (length cs) total
unfolding seat
seated-seat total bs cs d fits =
    let first = fill_reserved bs cs [] in
    omega (
      arith,
      seated-fill_general (total - length first) cs first d,
      length-fill_reserved bs cs [] d,
      length-fill_reserved-le bs cs [],
      seated-empty cs,
    )

length-ranked : (cs : List Candidate) → length (rank_candidates cs) ≡ length cs
unfolding rank_candidates
length-ranked cs = sorted_by-length before cs

-- When the reserved seats do not exceed the cap, a capped merit list admits as many candidates as
-- there are seats, or all if there are fewer: reserved seats that cannot be filled are not lost.
pub admitted_fills_seats :
    (candidates : List Candidate) (rules : QuotaRules) (total : ℕ)
    → UniqueIds candidates
    → rules.total_seats ≡ some total
    → seats_of rules.reserved ≤ total
    → count_if (λ e. e.admitted) (generate_merit_list candidates rules)
      ≡ min (length candidates) total
unfolding generate_merit_list
admitted_fills_seats candidates rules total u capped fits =
    let ranked = rank_candidates candidates in
    rw (capped, generate_merit_list)
      (count-admitted (ranks_from 0 [] ranked) (seat total rules.reserved ranked) ranked
        ∙ seated-seat total rules.reserved ranked (ranked-Distinct candidates u) fits
        ∙ ap (λ n. min n total) (length-ranked candidates))

seated-over :
    (total : ℕ) (bs : List Bucket) (cs : List Candidate)
    → Distinct cs
    → total < length (fill_reserved bs cs [])
    → total < seated (seat total bs cs) cs
unfolding seat
seated-over total bs cs d more =
    let first = fill_reserved bs cs [] in
    omega (
      arith,
      seated-fill_general (total - length first) cs first d,
      length-fill_reserved bs cs [] d,
      seated-empty cs,
      seated-le-length first cs,
    )

-- The cap does not bind the reserved seats: when the buckets alone seat more candidates than
-- `total_seats`, the list admits more than `total_seats`.
pub reserved_seats_exceed_cap :
    (candidates : List Candidate) (rules : QuotaRules) (total : ℕ)
    → UniqueIds candidates
    → rules.total_seats ≡ some total
    → total < length (fill_reserved rules.reserved (rank_candidates candidates) [])
    → total < count_if (λ e. e.admitted) (generate_merit_list candidates rules)
unfolding generate_merit_list
reserved_seats_exceed_cap candidates rules total u capped more =
    let ranked = rank_candidates candidates in
    let a = seat total rules.reserved ranked in
    rw (capped, generate_merit_list)
      (rw (count-admitted (ranks_from 0 [] ranked) a ranked)
        (seated-over total rules.reserved ranked (ranked-Distinct candidates u) more))
