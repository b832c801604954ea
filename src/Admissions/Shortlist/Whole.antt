-- ===== src/Admissions/Shortlist/Whole.antt =====
-- The merit list of a programme has each of its applicants once.
use mathlib.Core.List.{Perm}
use mathlib.Core.List.Perm
use uni_acmis.Prelude.{ℕ, ◌≡◌, some, Bool, List, ◌==◌, map, keep, any, get, All}
use uni_acmis.Admissions.Applications.{Application, application_id}
use uni_acmis.Admissions.MeritList.Order.{count_up}
use uni_acmis.Admissions.Shortlist.{is_applicant, get_full_name, ListedApplication}

-- whether a table has a row of a key
abbrev has_key : List Application → ℕ → Bool
has_key rows k = any (λ a. a.id == k) rows

-- a listed row shows an application of the table
abbrev pub Shows : List Application → ListedApplication → Type 0
Shows rows r =
    (a : Application) × (get application_id r.application_id rows ≡ some a)
    × (r.reference_number ≡ a.reference_number)
    × (r.full_name ≡ get_full_name a)

-- the merit list of a programme and year: each of its applicants once, as their application shows them
abbrev pub ListsApplicants :
    List Application → (programme year : ℕ) → List ListedApplication → Type 0
ListsApplicants applications programme year rows =
    Perm (map (λ r. r.application_id) rows)
      (map application_id (keep (is_applicant programme year) applications))
    × (map (λ r. r.rank) rows ≡ count_up 0 rows)
    × All (Shows (keep (is_applicant programme year) applications)) rows
