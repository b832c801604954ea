-- ===== src/Admissions/MeritList/Pool.antt =====
-- Whom the general pool and the buckets seat.
use mathlib.Core.Path.{subst}
use uni_acmis.Prelude.{
  sym, ℕ, zero, suc, ◌-◌, ◌≡◌, ◌≢◌, ◌⊎◌, refl, Option, none, some, true, false, List, [], ◌∷◌, map,
  arith, length, All, ◌==◌, Bool-cases, inl, inr,
}
use uni_acmis.Admissions.MeritList.{
  Candidate, Label, Bucket, QuotaRules, MeritListEntry, Admitted, Dict, lookup, member, attribute,
  value_eq, matches, fill_bucket, fill_reserved, fill_general, entry, seat, rank_candidates,
  ranks_from, generate_merit_list,
}
use uni_acmis.Admissions.MeritList.Loops.{Fresh, Distinct, member-fill_general, member_front}
use uni_acmis.Admissions.MeritList.Seats.{UniqueIds, ranked-Distinct}

lookup_ne :
    (i j : ℕ) (l : Option Label) (a : Admitted)
    → (j == i) ≡ false
    → lookup j ((i, l) ∷ a) ≡ lookup j a
unfolding lookup
lookup_ne i j l a h = ground (arith, h)

pub lookup_eq : (i : ℕ) (l : Option Label) (a : Admitted) → lookup i ((i, l) ∷ a) ≡ some l
unfolding lookup
lookup_eq i l a = ground arith

lookup-fill_general-Fresh :
    (i n : ℕ) (cs : List Candidate) (a : Admitted)
    → Fresh i cs
    → lookup i (fill_general n cs a) ≡ lookup i a
unfolding fill_general
lookup-fill_general-Fresh i n [] a f = refl
lookup-fill_general-Fresh i zero (c ∷ cs) a f = refl
lookup-fill_general-Fresh i (suc n) (c ∷ cs) a f = ground (
  arith,
  lookup_ne c.application_id i none a,
  lookup-fill_general-Fresh i (suc n) cs a f.1,
  lookup-fill_general-Fresh i n cs ((c.application_id, none) ∷ a) f.1,
)

lookup-fill_bucket-Fresh :
    (i : ℕ) (b : Bucket) (left : ℕ) (cs : List Candidate) (a : Admitted)
    → Fresh i cs
    → lookup i (fill_bucket b left cs a) ≡ lookup i a
unfolding fill_bucket
lookup-fill_bucket-Fresh i b left [] a f = refl
lookup-fill_bucket-Fresh i b zero (c ∷ cs) a f = refl
lookup-fill_bucket-Fresh i b (suc left) (c ∷ cs) a f = ground (
  arith,
  lookup_ne c.application_id i (some b.label) a,
  lookup-fill_bucket-Fresh i b (suc left) cs a f.1,
  lookup-fill_bucket-Fresh i b left cs ((c.application_id, some b.label) ∷ a) f.1,
)

-- no candidate of the list holds a seat of the general pool
abbrev NoGeneral : Admitted → List Candidate → Type 0
NoGeneral a cs = All (λ d. lookup d.application_id a ≢ some none) cs

-- whoever has no seat is followed by nobody with a seat of the general pool
abbrev NoGap : Admitted → List Candidate → Type 0
NoGap a [] = Unit
NoGap a (c ∷ cs) = (member c.application_id a ≡ false → NoGeneral a cs) × NoGap a cs

NoGeneral-NoGap : (a : Admitted) (cs : List Candidate) → NoGeneral a cs → NoGap a cs
NoGeneral-NoGap a [] h = tt
NoGeneral-NoGap a (c ∷ cs) h = (λ _. h.1, NoGeneral-NoGap a cs h.1)

NoGeneral-Fresh :
    (i : ℕ) (l : Option Label) (a : Admitted) (cs : List Candidate)
    → Fresh i cs
    → NoGeneral a cs
    → NoGeneral ((i, l) ∷ a) cs
NoGeneral-Fresh i l a [] f h = tt
NoGeneral-Fresh i l a (c ∷ cs) f h =
    (rw (lookup_ne i c.application_id l a f.0) h.0, NoGeneral-Fresh i l a cs f.1 h.1)

fill_general_skip :
    (n : ℕ) (c : Candidate) (cs : List Candidate) (a : Admitted)
    → member c.application_id a ≡ true
    → fill_general (suc n) (c ∷ cs) a ≡ fill_general (suc n) cs a
unfolding fill_general
fill_general_skip n c cs a e = rw e refl

fill_general_take :
    (n : ℕ) (c : Candidate) (cs : List Candidate) (a : Admitted)
    → member c.application_id a ≡ false
    → fill_general (suc n) (c ∷ cs) a ≡ fill_general n cs ((c.application_id, none) ∷ a)
unfolding fill_general
fill_general_take n c cs a e = rw e refl

fill_general-zero : (cs : List Candidate) (a : Admitted) → fill_general zero cs a ≡ a
unfolding fill_general
fill_general-zero [] a = refl
fill_general-zero (c ∷ cs) a = refl

fill_general-NoGap :
    (n : ℕ) (cs : List Candidate) (a : Admitted)
    → Distinct cs
    → NoGeneral a cs
    → NoGap (fill_general n cs a) cs
fill_general-NoGap n [] a d h = tt
fill_general-NoGap zero (c ∷ cs) a d h =
    subst (λ x. NoGap x (c ∷ cs)) (sym (fill_general-zero (c ∷ cs) a))
      (NoGeneral-NoGap a (c ∷ cs) h)
fill_general-NoGap (suc n) (c ∷ cs) a d h =
    let i = c.application_id in
    let a' = (i, none) ∷ a in
    elim (Bool-cases (member i a)) [
      | inl e ↦
          subst (λ x. NoGap x (c ∷ cs)) (sym (fill_general_skip n c cs a e))
            (
              λ out. cc (member-fill_general i (suc n) cs a e),
              fill_general-NoGap (suc n) cs a d.1 h.1,
            )
      | inr e ↦
          subst (λ x. NoGap x (c ∷ cs)) (sym (fill_general_take n c cs a e))
            (
              λ out. cc (member-fill_general i n cs a' (member_front i none a)),
              fill_general-NoGap n cs a' d.1 (NoGeneral-Fresh i none a cs d.0 h.1),
            )
    ]

-- every reserved seat goes to a candidate whose attribute has the value that the label names
abbrev Earned : Admitted → Candidate → Type 0
Earned a c = elim (lookup c.application_id a) [
  | none ↦ Unit
  | some none ↦ ⊥
  | some (some l) ↦ value_eq (attribute l.category c.attributes) l.value ≡ true
]

Earned-same :
    (a a' : Admitted) (c : Candidate)
    → lookup c.application_id a' ≡ lookup c.application_id a
    → Earned a c
    → Earned a' c
Earned-same a a' c e h = rw (e, Earned) h

Earned-Fresh :
    (i : ℕ) (l : Option Label) (a : Admitted) (cs : List Candidate)
    → Fresh i cs
    → All (Earned a) cs
    → All (Earned ((i, l) ∷ a)) cs
Earned-Fresh i l a [] f h = tt
Earned-Fresh i l a (c ∷ cs) f h = (
  Earned-same a ((i, l) ∷ a) c (lookup_ne i c.application_id l a f.0) h.0,
  Earned-Fresh i l a cs f.1 h.1,
)

Earned-front :
    (b : Bucket) (c : Candidate) (a : Admitted)
    → matches b c ≡ true
    → Earned ((c.application_id, some b.label) ∷ a) c
unfolding matches
Earned-front b c a m = rw (lookup_eq c.application_id (some b.label) a, Earned) m

fill_bucket_skip :
    (b : Bucket) (n : ℕ) (c : Candidate) (cs : List Candidate) (a : Admitted)
    → (member c.application_id a ≡ true) ⊎ (matches b c ≡ false)
    → fill_bucket b (suc n) (c ∷ cs) a ≡ fill_bucket b (suc n) cs a
unfolding fill_bucket
fill_bucket_skip b n c cs a e = ground arith

fill_bucket_take :
    (b : Bucket) (n : ℕ) (c : Candidate) (cs : List Candidate) (a : Admitted)
    → member c.application_id a ≡ false
    → matches b c ≡ true
    → fill_bucket b (suc n) (c ∷ cs) a ≡ fill_bucket b n cs ((c.application_id, some b.label) ∷ a)
unfolding fill_bucket
fill_bucket_take b n c cs a e m = ground arith

fill_bucket-zero : (b : Bucket) (cs : List Candidate) (a : Admitted) → fill_bucket b zero cs a ≡ a
unfolding fill_bucket
fill_bucket-zero b [] a = refl
fill_bucket-zero b (c ∷ cs) a = refl

fill_bucket-Earned :
    (b : Bucket) (n : ℕ) (cs : List Candidate) (a : Admitted)
    → Distinct cs
    → All (Earned a) cs
    → All (Earned (fill_bucket b n cs a)) cs
fill_bucket-Earned b n [] a d h = tt
fill_bucket-Earned b zero (c ∷ cs) a d h =
    subst (λ x. All (Earned x) (c ∷ cs)) (sym (fill_bucket-zero b (c ∷ cs) a)) h
fill_bucket-Earned b (suc n) (c ∷ cs) a d h =
    let i = c.application_id in
    let a' = (i, some b.label) ∷ a in
    let skip : (e : (member i a ≡ true) ⊎ (matches b c ≡ false))
        → All (Earned (fill_bucket b (suc n) (c ∷ cs) a)) (c ∷ cs) =
      λ e.
        subst (λ x. All (Earned x) (c ∷ cs)) (sym (fill_bucket_skip b n c cs a e))
          (
            Earned-same a (fill_bucket b (suc n) cs a) c
                (lookup-fill_bucket-Fresh i b (suc n) cs a d.0) h.0,
            fill_bucket-Earned b (suc n) cs a d.1 h.1,
          ) in
    elim (Bool-cases (member i a)) [
      | inl e ↦ skip (inl e)
      | inr e ↦ elim (Bool-cases (matches b c)) [
        | inr m ↦ skip (inr m)
        | inl m ↦
            subst (λ x. All (Earned x) (c ∷ cs)) (sym (fill_bucket_take b n c cs a e m))
              (
                Earned-same a' (fill_bucket b n cs a') c (lookup-fill_bucket-Fresh i b n cs a' d.0)
                    (Earned-front b c a m),
                fill_bucket-Earned b n cs a' d.1 (Earned-Fresh i (some b.label) a cs d.0 h.1),
              )
      ]
    ]

fill_reserved-Earned :
    (bs : List Bucket) (cs : List Candidate) (a : Admitted)
    → Distinct cs
    → All (Earned a) cs
    → All (Earned (fill_reserved bs cs a)) cs
unfolding fill_reserved
fill_reserved-Earned [] cs a d h = h
fill_reserved-Earned (b ∷ bs) cs a d h =
    fill_reserved-Earned bs cs (fill_bucket b b.seats cs a) d
      (fill_bucket-Earned b b.seats cs a d h)

Earned-empty : (cs : List Candidate) → All (Earned []) cs
unfolding lookup
Earned-empty [] = tt
Earned-empty (c ∷ cs) = (tt, Earned-empty cs)

Earned-NoGeneral : (a : Admitted) (cs : List Candidate) → All (Earned a) cs → NoGeneral a cs
Earned-NoGeneral a [] h = tt
Earned-NoGeneral a (c ∷ cs) h = (λ e. rw (e, Earned) at h.0, Earned-NoGeneral a cs h.1)

-- an entry that holds a seat of the general pool
abbrev pub OnMerit : MeritListEntry → Type 0
OnMerit e = (e.admitted ≡ true) × (e.quota_category ≡ none)

-- below an entry that is not admitted no entry holds a seat of the general pool
abbrev pub IsFair : List MeritListEntry → Type 0
IsFair [] = Unit
IsFair (e ∷ es) = (e.admitted ≡ false → All (λ f. ¬ OnMerit f) es) × IsFair es

NoGeneral-entries :
    (ranks : Dict ℕ) (a : Admitted) (cs : List Candidate)
    → NoGeneral a cs
    → All (λ f. ¬ OnMerit f) (map (entry ranks a) cs)
unfolding entry member
NoGeneral-entries ranks a [] h = tt
NoGeneral-entries ranks a (c ∷ cs) h = (λ m. ground (arith, h.0), NoGeneral-entries ranks a cs h.1)

NoGap-entries :
    (ranks : Dict ℕ) (a : Admitted) (cs : List Candidate)
    → NoGap a cs
    → IsFair (map (entry ranks a) cs)
unfolding entry
NoGap-entries ranks a [] h = tt
NoGap-entries ranks a (c ∷ cs) h =
    (λ out. NoGeneral-entries ranks a cs (h.0 out), NoGap-entries ranks a cs h.1)

seat-NoGap :
    (total : ℕ) (bs : List Bucket) (cs : List Candidate) → Distinct cs → NoGap (seat total bs cs) cs
unfolding seat
seat-NoGap total bs cs d =
    let first = fill_reserved bs cs [] in
    fill_general-NoGap (total - length first) cs first d
      (Earned-NoGeneral first cs (fill_reserved-Earned bs cs [] d (Earned-empty cs)))

-- In a capped merit list no candidate is passed over on general merit: nobody below a candidate who
-- is not admitted holds a seat that is not a reserved one.
pub general_pool-IsFair :
    (candidates : List Candidate) (rules : QuotaRules) (total : ℕ)
    → UniqueIds candidates
    → rules.total_seats ≡ some total
    → IsFair (generate_merit_list candidates rules)
unfolding generate_merit_list
general_pool-IsFair candidates rules total u capped =
    let ranked = rank_candidates candidates in
    rw (capped, generate_merit_list)
      (NoGap-entries (ranks_from 0 [] ranked) (seat total rules.reserved ranked) ranked
        (seat-NoGap total rules.reserved ranked (ranked-Distinct candidates u)))
