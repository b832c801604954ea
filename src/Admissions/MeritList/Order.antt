-- ===== src/Admissions/MeritList/Order.antt =====
-- The order of a merit list, its ranks, and the fairness of the general pool.
use mathlib.Core.Path.{subst}
use mathlib.Core.List.{Perm}
use mathlib.Core.List.Perm
use uni_acmis.Prelude.{
  eq_of_parts, ℕ, ◌+◌, ◌≤◌, ◌≡◌, refl, sym, ◌∙◌, ap, ◌⊎◌, Option, none, some, true, false, ◌&&◌,
  Bool-cases, All, ℤ, ltb_ℤ, eqb_ℤ, leb, List, [], ◌∷◌, map, arith, inl, inr, sorted_by-perm,
  sorted_by-InOrder, InOrder, Option-cases,
}
use uni_acmis.Admissions.MeritList.{
  Candidate, QuotaRules, MeritListEntry, Dict, before, lookup, entry, open_entry, seat,
  rank_candidates, ranks_from, generate_merit_list, or_default,
}
use uni_acmis.Admissions.MeritList.Loops.{Fresh, Distinct}
use uni_acmis.Admissions.MeritList.Seats.{UniqueIds, ranked-Distinct}

before-total : (a b : Candidate) → before a b ≡ false → before b a ≡ true
unfolding before
before-total a b h = ground arith

before_trans : (a b c : Candidate) → before a b ≡ true → before b c ≡ true → before a c ≡ true
unfolding before
before_trans a b c p q = ground arith

-- i + 1, i + 2, …, one number for each element
abbrev pub count_up {ℓ} : {A : Type ℓ} → ℕ → List A → List ℕ
count_up i [] = []
count_up i (x ∷ xs) = (i + 1) ∷ count_up (i + 1) xs

lookup-ranks_from-Fresh :
    (j i : ℕ) (d : Dict ℕ) (cs : List Candidate)
    → Fresh j cs
    → lookup j (ranks_from i d cs) ≡ lookup j d
unfolding ranks_from
lookup-ranks_from-Fresh j i d [] f = refl
lookup-ranks_from-Fresh j i d (c ∷ cs) f =
    let one : lookup j ((c.application_id, i + 1) ∷ d) ≡ lookup j d =
      unfold lookup in ground (arith, f.0) in
    lookup-ranks_from-Fresh j (i + 1) ((c.application_id, i + 1) ∷ d) cs f.1 ∙ one

lookup_front : {V : Type 0} (j : ℕ) (v : V) (d : Dict V) → lookup j ((j, v) ∷ d) ≡ some v
unfolding lookup
lookup_front j v d = ground arith

abbrev rank_in : Dict ℕ → Candidate → ℕ
rank_in ranks c = or_default 0 (lookup c.application_id ranks)

map-rank_in :
    (i : ℕ) (d : Dict ℕ) (cs : List Candidate)
    → Distinct cs
    → map (rank_in (ranks_from i d cs)) cs ≡ count_up i cs
unfolding ranks_from
map-rank_in i d [] u = refl
map-rank_in i d (c ∷ cs) u =
    let d' = (c.application_id, i + 1) ∷ d in
    let head =
      lookup-ranks_from-Fresh c.application_id (i + 1) d' cs u.0
      ∙ lookup_front c.application_id (i + 1) d in
    rw head (ap (λ r. (i + 1) ∷ r) (map-rank_in (i + 1) d' cs u.1))

map-map_rank :
    (f : Candidate → MeritListEntry) (ranks : Dict ℕ) (cs : List Candidate)
    → ((c : Candidate) → (f c).rank ≡ rank_in ranks c)
    → map (λ e. e.rank) (map f cs) ≡ map (rank_in ranks) cs
map-map_rank f ranks [] h = refl
map-map_rank f ranks (c ∷ cs) h = cc (h c, map-map_rank f ranks cs h)

map-map_id :
    (f : Candidate → MeritListEntry) (cs : List Candidate)
    → ((c : Candidate) → (f c).application_id ≡ c.application_id)
    → map (λ e. e.application_id) (map f cs) ≡ map (λ c. c.application_id) cs
map-map_id f [] h = refl
map-map_id f (c ∷ cs) h = cc (h c, map-map_id f cs h)

-- The ranks of a merit list are 1, 2, 3, … down the list, whether or not it has a cap and whoever is
-- admitted.
pub ranks_are_positions :
    (candidates : List Candidate) (rules : QuotaRules)
    → UniqueIds candidates
    → map (λ e. e.rank) (generate_merit_list candidates rules)
      ≡ count_up 0 (rank_candidates candidates)
unfolding generate_merit_list entry open_entry
ranks_are_positions candidates rules u =
    let ranked = rank_candidates candidates in
    let ranks = ranks_from 0 [] ranked in
    let positions = map-rank_in 0 [] ranked (ranked-Distinct candidates u) in
    elim (Option-cases rules.total_seats) [
      | inl e ↦
          rw (e, generate_merit_list)
            (map-map_rank (open_entry ranks) ranks ranked (λ c. refl) ∙ positions)
      | inr (total, e) ↦
          rw (e, generate_merit_list)
            (map-map_rank (entry ranks (seat total rules.reserved ranked)) ranks ranked (λ c. refl)
              ∙ positions)
    ]

-- the entries of a merit list are those of the ranked candidates
pub entries_of_ranked :
    (candidates : List Candidate) (rules : QuotaRules)
    → (map (λ e. e.application_id) (generate_merit_list candidates rules)
        ≡ map (λ c. c.application_id) (rank_candidates candidates))
      × Perm (rank_candidates candidates) candidates
unfolding generate_merit_list entry open_entry rank_candidates
entries_of_ranked candidates rules =
    let ranked = rank_candidates candidates in
    let ranks = ranks_from 0 [] ranked in
    (
      elim (Option-cases rules.total_seats) [
        | inl e ↦ rw (e, generate_merit_list) (map-map_id (open_entry ranks) ranked (λ c. refl))
        | inr (total, e) ↦
            rw (e, generate_merit_list)
              (map-map_id (entry ranks (seat total rules.reserved ranked)) ranked (λ c. refl))
      ],
      sorted_by-perm before candidates,
    )

-- A score against another: a score above one that is lower or missing.
abbrev pub IsAbove : Option ℤ → Option ℤ → Type 0
IsAbove s t = (x : ℤ) × (s ≡ some x) × ((t ≡ none) ⊎ ((y : ℤ) × (t ≡ some y) × (ltb_ℤ y x ≡ true)))

-- an entry that stands before another by merit
abbrev pub Outranks : MeritListEntry → MeritListEntry → Type 0
Outranks a b =
    IsAbove a.score b.score ⊎ ((a.score ≡ b.score) × (a.application_id ≤ b.application_id))

-- every entry stands before all the later ones by merit
abbrev pub IsRanked : List MeritListEntry → Type 0
IsRanked [] = Unit
IsRanked (e ∷ es) = All (Outranks e) es × IsRanked es

before-scores :
    (s t : Option ℤ) (a b : Candidate)
    → a.score ≡ s
    → b.score ≡ t
    → before a b ≡ true
    → IsAbove s t ⊎ ((s ≡ t) × (a.application_id ≤ b.application_id))
unfolding before
before-scores none none a b p q h = inr (refl, ground (arith, p, q, h))
before-scores none (some y) a b p q h = absurd (ground (arith, p, q, h))
before-scores (some x) none a b p q h = inl (x, refl, inl refl)
before-scores (some x) (some y) a b p q h = elim (Bool-cases (ltb_ℤ y x)) [
  | inl e ↦ inl (x, refl, inr (y, refl, e))
  | inr e ↦
      let tie : (eqb_ℤ x y && leb a.application_id b.application_id) ≡ true =
        ground (arith, p, q, h, e) in
      inr (ap some (eq_of_parts x y (ground (arith, tie))), ground (arith, tie))
]

before-Outranks :
    (f : Candidate → MeritListEntry)
    → ((c : Candidate) → ((f c).score ≡ c.score) × ((f c).application_id ≡ c.application_id))
    → (a b : Candidate) → before a b ≡ true
    → Outranks (f a) (f b)
before-Outranks f same a b h =
    rw ((same a).0, (same b).0, (same a).1, (same b).1)
      (before-scores a.score b.score a b refl refl h)

map-Outranks :
    (f : Candidate → MeritListEntry)
    → ((c : Candidate) → ((f c).score ≡ c.score) × ((f c).application_id ≡ c.application_id))
    → (a : Candidate) (cs : List Candidate) → All (λ b. before a b ≡ true) cs
    → All (Outranks (f a)) (map f cs)
map-Outranks f same a [] h = tt
map-Outranks f same a (c ∷ cs) (h, hs) = (before-Outranks f same a c h, map-Outranks f same a cs hs)

map-IsRanked :
    (f : Candidate → MeritListEntry)
    → ((c : Candidate) → ((f c).score ≡ c.score) × ((f c).application_id ≡ c.application_id))
    → (cs : List Candidate) → InOrder before cs
    → IsRanked (map f cs)
map-IsRanked f same [] h = tt
map-IsRanked f same (c ∷ cs) (h, hs) = (map-Outranks f same c cs h, map-IsRanked f same cs hs)

-- A merit list has an entry for each candidate exactly once, with or without a cap on the seats. Of two
-- entries the first has a score and the second a lower one or none, or both have one score, or none, and
-- the first the application id that is not the higher.
pub merit_order :
    (candidates : List Candidate) (rules : QuotaRules)
    → IsRanked (generate_merit_list candidates rules)
      × Perm
          (map (λ e. e.application_id) (generate_merit_list candidates rules))
          (map (λ c. c.application_id) candidates)
unfolding generate_merit_list entry open_entry rank_candidates
merit_order candidates rules =
    let ranked = rank_candidates candidates in
    let ranks = ranks_from 0 [] ranked in
    let sorted = sorted_by-InOrder before before-total before_trans candidates in
    let (ids, perm) = entries_of_ranked candidates rules in
    (
      elim (Option-cases rules.total_seats) [
        | inl e ↦
            rw (e, generate_merit_list)
              (map-IsRanked (open_entry ranks) (λ c. (refl, refl)) ranked sorted)
        | inr (total, e) ↦
            rw (e, generate_merit_list)
              (map-IsRanked (entry ranks (seat total rules.reserved ranked)) (λ c. (refl, refl))
                ranked sorted)
      ],
      subst (λ ks. Perm ks (map (λ c. c.application_id) candidates)) (sym ids)
          (Perm.map (λ c. c.application_id) perm),
    )
