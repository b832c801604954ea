-- ===== src/Admissions/MeritList.antt =====
-- backend/apps/admissions/merit_list.py
pub mod Loops
pub mod Rules
pub mod Seats
pub mod Order
pub mod Pool
use uni_acmis.Prelude.{
  ℕ, zero, suc, ◌+◌, ◌-◌, String, Option, none, some, Bool, true, false, not, ◌&&◌, ◌||◌, List, [],
  ◌∷◌, map, leb, ltb, ◌==◌, ltb_ℤ, eqb_ℤ, if◌then◌else◌, ℤ, sorted_by, length, is_none, pos,
}
use text.Mathlib.Text.{◌==◌ as str_eq}

-- a value of the configuration or of a candidate's attributes
pub data Value : Type 0 where
  word : String → Value
  flag : Bool → Value
  null : Value

-- `==` on such values
unfoldable pub value_eq : Value → Value → Bool
value_eq (word s) (word t) = str_eq s t
value_eq (flag true) (flag b) = b
value_eq (flag false) (flag b) = not b
value_eq null null = true
value_eq _ _ = false

-- scores are in hundredths
pub record Candidate : Type 0 where
  pub application_id : ℕ
  pub score : Option ℤ
  pub attributes : List (String × Value)

-- the `f"{category}:{value}"` that a reserved seat is marked with, as its two parts
pub record Label : Type 0 where
  pub category : String
  pub value : Value

pub record MeritListEntry : Type 0 where
  pub application_id : ℕ
  pub rank : ℕ
  pub score : Option ℤ
  pub admitted : Bool
  pub quota_category : Option Label

pub record Bucket : Type 0 where
  pub label : Label
  pub seats : ℕ

-- `quota_rules`: absent rules have neither field
pub record QuotaRules : Type 0 where
  pub total_seats : Option ℕ
  pub reserved : List Bucket

-- the comparison of two `_sort_key`s: a higher score first, no score last, then the lower id
unfoldable pub before : Candidate → Candidate → Bool
before a b = elim a.score [
  | none ↦ elim b.score [ none ↦ leb a.application_id b.application_id | some _ ↦ false ]
  | some x ↦ elim b.score [
    | none ↦ true
    | some y ↦ ltb_ℤ y x || (eqb_ℤ x y && leb a.application_id b.application_id)
  ]
]

-- a dictionary keyed by application id; a later assignment stands in front of an earlier one
abbrev pub Dict : Type 0 → Type 0
Dict V = List (ℕ × V)

unfoldable pub lookup : {V : Type 0} → ℕ → Dict V → Option V
lookup k [] = none
lookup k ((j, v) ∷ d) = if k == j then some v else lookup k d

-- `key in d`
unfoldable pub member : {V : Type 0} → ℕ → Dict V → Bool
unfolding lookup
member k d = not (is_none (lookup k d))

unfoldable pub attribute : String → List (String × Value) → Value
attribute k [] = null
attribute k ((j, v) ∷ rest) = if str_eq j k then v else attribute k rest

unfoldable pub matches : Bucket → Candidate → Bool
matches b c = value_eq (attribute b.label.category c.attributes) b.label.value

-- `ranks`, from the position of the first of `ranked`
unfoldable pub ranks_from : ℕ → Dict ℕ → List Candidate → Dict ℕ
ranks_from i d [] = d
ranks_from i d (c ∷ rest) = ranks_from (i + 1) ((c.application_id, i + 1) ∷ d) rest

abbrev pub Admitted : Type 0
Admitted = Dict (Option Label)

-- the loop over the ranked candidates that fills one reserved bucket; `left` is `seats - filled`
unfoldable pub fill_bucket : Bucket → ℕ → List Candidate → Admitted → Admitted
fill_bucket b left [] admitted = admitted
fill_bucket b zero (c ∷ rest) admitted = admitted
fill_bucket b (suc left) (c ∷ rest) admitted =
    let skip = fill_bucket b (suc left) rest admitted in
    let take = fill_bucket b left rest ((c.application_id, some b.label) ∷ admitted) in
    if member c.application_id admitted then skip else if matches b c then take else skip

-- the loop over `reserved`
unfoldable pub fill_reserved : List Bucket → List Candidate → Admitted → Admitted
fill_reserved [] ranked admitted = admitted
fill_reserved (b ∷ rest) ranked admitted =
    fill_reserved rest ranked (fill_bucket b b.seats ranked admitted)

-- the loop that fills the remaining seats in rank order
unfoldable pub fill_general : ℕ → List Candidate → Admitted → Admitted
fill_general remaining [] admitted = admitted
fill_general zero (c ∷ rest) admitted = admitted
fill_general (suc remaining) (c ∷ rest) admitted =
    let skip = fill_general (suc remaining) rest admitted in
    let take = fill_general remaining rest ((c.application_id, none) ∷ admitted) in
    if member c.application_id admitted then skip else take

-- a dictionary's value, or the one given for a missing key
abbrev pub or_default : {V : Type 0} → V → Option V → V
or_default d none = d
or_default d (some v) = v

unfoldable pub entry : Dict ℕ → Admitted → Candidate → MeritListEntry
entry ranks admitted c = record {
  application_id = c.application_id;
  rank = or_default 0 (lookup c.application_id ranks);
  score = c.score;
  admitted = member c.application_id admitted;
  quota_category = or_default none (lookup c.application_id admitted);
}

-- the entry of a list without a cap
unfoldable pub open_entry : Dict ℕ → Candidate → MeritListEntry
open_entry ranks c = record {
  application_id = c.application_id;
  rank = or_default 0 (lookup c.application_id ranks);
  score = c.score;
  admitted = true;
  quota_category = none;
}

-- the dictionary `admitted` when both loops are done
unfoldable pub seat : ℕ → List Bucket → List Candidate → Admitted
seat total reserved ranked =
    let first = fill_reserved reserved ranked [] in fill_general (total - length first) ranked first

unfoldable pub rank_candidates : List Candidate → List Candidate
rank_candidates = sorted_by before

unfoldable pub generate_merit_list : List Candidate → QuotaRules → List MeritListEntry
generate_merit_list candidates rules =
    let ranked = rank_candidates candidates in
    let ranks = ranks_from 0 [] ranked in
    elim rules.total_seats [
      | none ↦ map (open_entry ranks) ranked
      | some total ↦ map (entry ranks (seat total rules.reserved ranked)) ranked
    ]
