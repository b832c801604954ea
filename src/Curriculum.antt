-- ===== src/Curriculum.antt =====
-- backend/apps/curriculum/services.py: the checks that registration calls, on the rows of
-- backend/apps/curriculum/models.py. Grade points are in hundredths.
pub mod Structure
use uni_acmis.Prelude.{
  in_list, ℕ, String, Option, none, some, Bool, ◌&&◌, List, [], ◌∷◌, ltb, ◌==◌, if◌then◌else◌, any,
  keep, sum_by, get, ◌++◌,
}

pub record Course : Type 0 where
  pub id : ℕ
  pub code : String
  pub credit_hours : ℕ

pub record Programme : Type 0 where
  pub id : ℕ
  pub department : ℕ
  pub code : String
  pub duration_years : ℕ
  pub total_credits_required : ℕ
  pub min_credits_per_semester : ℕ
  pub max_credits_per_semester : ℕ

pub record Prerequisite : Type 0 where
  pub course : ℕ
  pub required_course : ℕ
  pub minimum_grade_point : Option ℕ
  pub is_concurrent_allowed : Bool

-- the texts of `reason` as data
pub data Reason : Type 0 where
  grade_point_below : (minimum achieved : ℕ) → Reason
  not_passed : Reason

pub record UnmetPrerequisite : Type 0 where
  pub course : ℕ
  pub required_course : ℕ
  pub reason : Reason

-- the grade point reached in a passed course; the outer `none` is for a course not passed
unfoldable pub achieved_in : ℕ → List (ℕ × Option ℕ) → Option (Option ℕ)
achieved_in required [] = none
achieved_in required ((course, grade) ∷ passed) =
    let rest = achieved_in required passed in if course == required then some grade else rest

-- whether a link names a minimum that the known grade point misses
unfoldable pub check_grade : Prerequisite → Option ℕ → Option ℕ → List UnmetPrerequisite
check_grade link none achieved = []
check_grade link (some minimum) none = []
check_grade link (some minimum) (some achieved) =
    if ltb achieved minimum
    then record {
      course = link.course;
      required_course = link.required_course;
      reason = grade_point_below minimum achieved;
    }
      ∷ []
    else []

-- the body of the loop over the links
unfoldable pub check_link : List (ℕ × Option ℕ) → List ℕ → Prerequisite → List UnmetPrerequisite
check_link passed concurrent link = elim (achieved_in link.required_course passed) [
  | some achieved ↦ check_grade link link.minimum_grade_point achieved
  | none ↦
      if link.is_concurrent_allowed && in_list link.required_course concurrent
      then []
      else record {
        course = link.course;
        required_course = link.required_course;
        reason = not_passed;
      }
        ∷ []
]

unfoldable pub check_links :
    List (ℕ × Option ℕ) → List ℕ → List Prerequisite → List UnmetPrerequisite
check_links passed concurrent [] = []
check_links passed concurrent (link ∷ links) =
    check_link passed concurrent link ++ check_links passed concurrent links

unfoldable pub unmet_prerequisites :
    List Prerequisite → List ℕ → List (ℕ × Option ℕ) → List ℕ → List UnmetPrerequisite
unmet_prerequisites prerequisites course_ids passed concurrent =
    check_links passed concurrent (keep (λ l. in_list l.course course_ids) prerequisites)

unfoldable pub total_credits : List Course → List ℕ → ℕ
total_credits courses course_ids =
    sum_by (λ c. c.credit_hours) (keep (λ c. in_list c.id course_ids) courses)

unfoldable pub credit_limits : List Programme → ℕ → Option (ℕ × ℕ)
credit_limits programmes programme_id = elim (get (λ p. p.id) programme_id programmes) [
  | none ↦ none
  | some p ↦ some (p.min_credits_per_semester, p.max_credits_per_semester)
]
