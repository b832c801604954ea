-- ===== src/Admissions/Shortlist.antt =====
-- The merit list of a programme and intake year over its applications, `build_merit_list` of
-- backend/apps/admissions/services.py, and the screen of backend/apps/admissions/eligibility.py.
pub mod Whole
use text.Mathlib.Text.{◌==◌ as str_eq}
use uni_acmis.Prelude.{
  ℕ, String, Option, none, some, Bool, true, false, ◌&&◌, not, List, [], ◌∷◌, ◌++◌, map, keep, get,
  find_first, ◌==◌, ltb, leb, if◌then◌else◌, concat_text, strip, ℤ, Result, ok, err,
}
use uni_acmis.Registry.{is_empty}
use uni_acmis.Admissions.Applications.{
  Application, ApplicationStatus, draft, submitted, under_review, offered, accepted, rejected,
  withdrawn, enrolled, application_id,
}
use uni_acmis.Admissions.MeritList.{Candidate, word, flag, Label, MeritListEntry}
use uni_acmis.Admissions.MeritList.Rules.{RawRules, QuotaError, merit_list_of}

-- `admission_quota_rules` of a programme, if there is one; without rules it has no cap and no buckets
unfoldable pub admission_quota_rules : List (ℕ × RawRules) → (programme_id : ℕ) → Option RawRules
admission_quota_rules [] programme_id = none
admission_quota_rules ((k, rules) ∷ rest) programme_id =
    let later = admission_quota_rules rest programme_id in
    if k == programme_id then some rules else later

-- whether a status is one of those that the list is drawn from
abbrev pub is_ranked : ApplicationStatus → Bool
is_ranked draft = false
is_ranked submitted = true
is_ranked under_review = true
is_ranked offered = true
is_ranked accepted = true
is_ranked rejected = true
is_ranked withdrawn = false
is_ranked enrolled = false

abbrev pub is_applicant : (programme_id academic_year_id : ℕ) → Application → Bool
is_applicant programme_id academic_year_id a =
    (a.programme == programme_id)
    && (a.intended_academic_year == academic_year_id)
    && is_ranked a.status

abbrev pub candidate_of : Application → Candidate
candidate_of a = record {
  application_id = a.id;
  score = a.score;
  attributes =
      ("gender", word a.gender)
      ∷ ("state", word a.state_of_origin)
      ∷ ("disability", flag a.has_disability)
      ∷ [];
}

-- `" ".join(p for p in parts if p)`
unfoldable pub join_names : List String → String
join_names [] = ""
join_names (p ∷ []) = p
join_names (p ∷ (q ∷ parts)) = concat_text (p ∷ " " ∷ join_names (q ∷ parts) ∷ [])

unfoldable pub get_full_name : Application → String
get_full_name a =
    strip
      (join_names (keep (λ p. not (is_empty p)) (a.first_name ∷ a.middle_name ∷ a.last_name ∷ [])))

pub record ListedApplication : Type 0 where
  pub application_id : ℕ
  pub reference_number : String
  pub full_name : String
  pub rank : ℕ
  pub score : Option ℤ
  pub admitted : Bool
  pub quota_category : Option Label

abbrev pub listed : MeritListEntry → Application → ListedApplication
listed e a = record {
  application_id = e.application_id;
  reference_number = a.reference_number;
  full_name = get_full_name a;
  rank = e.rank;
  score = e.score;
  admitted = e.admitted;
  quota_category = e.quota_category;
}

-- the exceptions of `build_merit_list`: `DoesNotExist`, one of the rules, or a key that `by_id` lacks
pub data ShortlistError : Type 0 where
  programme_not_found application_not_found : ShortlistError
  bad_rules : QuotaError → ShortlistError

unfoldable pub lift_rules : {A : Type 0} → Result QuotaError A → Result ShortlistError A
lift_rules (ok a) = ok a
lift_rules (err e) = err (bad_rules e)

-- the rows of the result
unfoldable pub list_rows :
    List Application → List MeritListEntry → Result ShortlistError (List ListedApplication)
list_rows by_id [] = ok []
list_rows by_id (e ∷ entries) = elim (get application_id e.application_id by_id) [
  | none ↦ err application_not_found
  | some a ↦ elim (list_rows by_id entries) [ err x ↦ err x | ok rows ↦ ok (listed e a ∷ rows) ]
]

unfoldable pub build_merit_list :
    (parse : String → Option ℤ)
    → List (ℕ × RawRules)
    → List Application
    → (programme_id academic_year_id : ℕ) → Result ShortlistError (List ListedApplication)
build_merit_list parse quota_rules applications programme_id academic_year_id =
    elim (admission_quota_rules quota_rules programme_id) [
      | none ↦ err programme_not_found
      | some raw ↦
          let queryset = keep (is_applicant programme_id academic_year_id) applications in
          elim (lift_rules (merit_list_of parse (map candidate_of queryset) raw)) [
            | err x ↦ err x
            | ok entries ↦ list_rows queryset entries
          ]
    ]
