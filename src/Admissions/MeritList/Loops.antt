-- ===== src/Admissions/MeritList/Loops.antt =====
-- What the two loops add to the dictionary of the admitted.
use Prim.Native.Nat.{min}
use uni_acmis.Prelude.{
  ℕ, zero, suc, ◌+◌, ◌≤◌, ◌≡◌, refl, Option, none, some, true, false, List, [], ◌∷◌, arith, length,
  count_if, All, ◌==◌,
}
use uni_acmis.Admissions.MeritList.{
  Candidate, Label, Bucket, Admitted, lookup, member, fill_bucket, fill_reserved, fill_general,
}

-- No later candidate has the application id `i`.
abbrev pub Fresh : ℕ → List Candidate → Type 0
Fresh i cs = All (λ c. (c.application_id == i) ≡ false) cs

-- No application id occurs twice.
abbrev pub Distinct : List Candidate → Type 0
Distinct [] = Unit
Distinct (c ∷ cs) = Fresh c.application_id cs × Distinct cs

-- how many of the candidates are in the dictionary
abbrev pub seated : Admitted → List Candidate → ℕ
seated admitted cs = count_if (λ c. member c.application_id admitted) cs

pub seated-le-length : (a : Admitted) (cs : List Candidate) → seated a cs ≤ length cs
seated-le-length a [] = omega arith
seated-le-length a (c ∷ cs) = ground (arith, seated-le-length a cs)

-- an id that no candidate has does not count
pub seated-Fresh :
    (i : ℕ) (l : Option Label) (a : Admitted) (cs : List Candidate)
    → Fresh i cs
    → seated ((i, l) ∷ a) cs ≡ seated a cs
unfolding member lookup
seated-Fresh i l a [] f = refl
seated-Fresh i l a (c ∷ cs) f = ground (arith, seated-Fresh i l a cs f.1)

pub member-fill_bucket :
    (i : ℕ) (b : Bucket) (left : ℕ) (cs : List Candidate) (a : Admitted)
    → member i a ≡ true
    → member i (fill_bucket b left cs a) ≡ true
unfolding fill_bucket
member-fill_bucket i b left [] a h = h
member-fill_bucket i b zero (c ∷ cs) a h = h
member-fill_bucket i b (suc left) (c ∷ cs) a h =
    let grown : member i ((c.application_id, some b.label) ∷ a) ≡ true =
      unfold member lookup in ground arith in
    ground (
      arith,
      member-fill_bucket i b (suc left) cs a h,
      member-fill_bucket i b left cs ((c.application_id, some b.label) ∷ a) grown,
    )

pub member-fill_general :
    (i n : ℕ) (cs : List Candidate) (a : Admitted)
    → member i a ≡ true
    → member i (fill_general n cs a) ≡ true
unfolding fill_general
member-fill_general i n [] a h = h
member-fill_general i zero (c ∷ cs) a h = h
member-fill_general i (suc n) (c ∷ cs) a h =
    let grown : member i ((c.application_id, none) ∷ a) ≡ true =
      unfold member lookup in ground arith in
    ground (
      arith,
      member-fill_general i (suc n) cs a h,
      member-fill_general i n cs ((c.application_id, none) ∷ a) grown,
    )

pub member_front : (i : ℕ) (l : Option Label) (a : Admitted) → member i ((i, l) ∷ a) ≡ true
unfolding member lookup
member_front i l a = ground arith

-- the general pool seats as many as there are seats and candidates left
pub seated-fill_general :
    (n : ℕ) (cs : List Candidate) (a : Admitted)
    → Distinct cs
    → seated (fill_general n cs a) cs ≡ min (length cs) (seated a cs + n)
unfolding fill_general
seated-fill_general n [] a d = omega arith
seated-fill_general zero (c ∷ cs) a d = omega (arith, seated-le-length a (c ∷ cs))
seated-fill_general (suc n) (c ∷ cs) a d =
    let i = c.application_id in
    ground (
      arith,
      seated-fill_general (suc n) cs a d.1,
      seated-fill_general n cs ((i, none) ∷ a) d.1,
      seated-Fresh i none a cs d.0,
      member-fill_general i (suc n) cs a,
      member-fill_general i n cs ((i, none) ∷ a) (member_front i none a),
      seated-le-length a cs,
    )

-- a bucket adds no id but those of the candidates
pub member-fill_bucket-Fresh :
    (i : ℕ) (b : Bucket) (left : ℕ) (cs : List Candidate) (a : Admitted)
    → Fresh i cs
    → member i (fill_bucket b left cs a) ≡ member i a
unfolding fill_bucket
member-fill_bucket-Fresh i b left [] a f = refl
member-fill_bucket-Fresh i b zero (c ∷ cs) a f = refl
member-fill_bucket-Fresh i b (suc left) (c ∷ cs) a f =
    let same : member i ((c.application_id, some b.label) ∷ a) ≡ member i a =
      unfold member lookup in ground arith in
    ground (
      arith,
      same,
      member-fill_bucket-Fresh i b (suc left) cs a f.1,
      member-fill_bucket-Fresh i b left cs ((c.application_id, some b.label) ∷ a) f.1,
    )

-- the dictionary grows by one entry for each candidate that the bucket seats
pub length-fill_bucket :
    (b : Bucket) (left : ℕ) (cs : List Candidate) (a : Admitted)
    → Distinct cs
    → length (fill_bucket b left cs a) + seated a cs
      ≡ length a + seated (fill_bucket b left cs a) cs
unfolding fill_bucket
length-fill_bucket b left [] a d = omega arith
length-fill_bucket b zero (c ∷ cs) a d = omega arith
length-fill_bucket b (suc left) (c ∷ cs) a d =
    let i = c.application_id in
    let a' = (i, some b.label) ∷ a in
    ground (
      arith,
      length-fill_bucket b (suc left) cs a d.1,
      length-fill_bucket b left cs a' d.1,
      seated-Fresh i (some b.label) a cs d.0,
      member-fill_bucket i b (suc left) cs a,
      member-fill_bucket-Fresh i b (suc left) cs a d.0,
      member-fill_bucket i b left cs a' (member_front i (some b.label) a),
    )

-- a bucket takes no more than its seats
pub length-fill_bucket-le :
    (b : Bucket) (left : ℕ) (cs : List Candidate) (a : Admitted)
    → length (fill_bucket b left cs a) ≤ length a + left
unfolding fill_bucket
length-fill_bucket-le b left [] a = omega arith
length-fill_bucket-le b zero (c ∷ cs) a = omega arith
length-fill_bucket-le b (suc left) (c ∷ cs) a = ground (
  arith,
  length-fill_bucket-le b (suc left) cs a,
  length-fill_bucket-le b left cs ((c.application_id, some b.label) ∷ a),
)

-- all reserved seats together
abbrev pub seats_of : List Bucket → ℕ
seats_of [] = 0
seats_of (b ∷ bs) = b.seats + seats_of bs

pub length-fill_reserved :
    (bs : List Bucket) (cs : List Candidate) (a : Admitted)
    → Distinct cs
    → length (fill_reserved bs cs a) + seated a cs ≡ length a + seated (fill_reserved bs cs a) cs
unfolding fill_reserved
length-fill_reserved [] cs a d = omega arith
length-fill_reserved (b ∷ bs) cs a d = omega (
  arith,
  length-fill_bucket b b.seats cs a d,
  length-fill_reserved bs cs (fill_bucket b b.seats cs a) d,
)

pub length-fill_reserved-le :
    (bs : List Bucket) (cs : List Candidate) (a : Admitted)
    → length (fill_reserved bs cs a) ≤ length a + seats_of bs
unfolding fill_reserved
length-fill_reserved-le [] cs a = omega arith
length-fill_reserved-le (b ∷ bs) cs a = omega (
  arith,
  length-fill_bucket-le b b.seats cs a,
  length-fill_reserved-le bs cs (fill_bucket b b.seats cs a),
)
