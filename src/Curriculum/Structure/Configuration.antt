-- ===== src/Curriculum/Structure/Configuration.antt =====
-- What a healthy curriculum version has.
use uni_acmis.Prelude.{
  ℕ, ◌-◌, none, leb, zero, suc, ◌≤◌, ◌≡◌, ◌↔◌, refl, sym, ◌∙◌, ap, Bool, true, false, ◌&&◌, not,
  List, [], ◌∷◌, ◌++◌, arith, ◌==◌, any, keep, Bool-cases, inl, inr,
}
use uni_acmis.Curriculum.{Course, Programme}
use uni_acmis.Curriculum.Structure.{
  CurriculumCourse, courses_for, total_core_credits, credit_shortfall, years_to, shortfall_problem,
  empty_problem, missing_years, years_problem, Problem, no_problem, curriculum_health,
}

-- whether a version has a course, and one in a year
abbrev pub has_courses : List CurriculumCourse → (version : ℕ) → Bool
has_courses entries version = any (λ e. e.curriculum_version == version) entries

abbrev pub covers_year : List CurriculumCourse → (version year : ℕ) → Bool
covers_year entries version year =
    any (λ e. (e.curriculum_version == version) && (e.year_of_study == year)) entries

abbrev of_version : List CurriculumCourse → ℕ → List CurriculumCourse
of_version entries version = courses_for entries version none none false

any-courses_for :
    (entries : List CurriculumCourse) (version year : ℕ)
    → any (λ e. e.year_of_study == year) (of_version entries version)
      ≡ covers_year entries version year
unfolding courses_for
any-courses_for [] version year = refl
any-courses_for (e ∷ entries) version year = ground (arith, any-courses_for entries version year)

no_problem-empty :
    (entries : List CurriculumCourse) (version : ℕ)
    → no_problem (empty_problem (of_version entries version)) ≡ has_courses entries version
unfolding courses_for
no_problem-empty [] version = refl
no_problem-empty (e ∷ entries) version = ground (arith, no_problem-empty entries version)

no_problem-append :
    (ps qs : List Problem) → no_problem (ps ++ qs) ≡ (no_problem ps && no_problem qs)
no_problem-append [] qs = refl
no_problem-append (p ∷ ps) qs = refl

abbrev no_years : List ℕ → Bool
no_years [] = true
no_years (_ ∷ _) = false

no_problem-years : (ys : List ℕ) → no_problem (years_problem ys) ≡ no_years ys
no_problem-years [] = refl
no_problem-years (y ∷ ys) = refl

-- a selection of the years to a last one is empty exactly when none of them is selected
keep_none :
    (p : ℕ → Bool) (xs : List ℕ) (x : ℕ)
    → no_years (keep p (xs ++ x ∷ [])) ≡ (no_years (keep p xs) && not (p x))
keep_none p [] x = ground arith
keep_none p (y ∷ xs) x = ground (arith, keep_none p xs x)

none_selected :
    (p : ℕ → Bool) (d y : ℕ) → no_years (keep p (years_to d)) ≡ true → 1 ≤ y → y ≤ d → p y ≡ false
none_selected p zero y h low high = absurd (omega (arith, low, high))
none_selected p (suc d) y h low high =
    let both = sym (keep_none p (years_to d) (suc d)) ∙ h in
    elim (Bool-cases (y == suc d)) [
      | inl e ↦ ground (arith, both, e)
      | inr e ↦ none_selected p d y (ground (arith, both)) low (ground (arith, e, high))
    ]

selected_none :
    (p : ℕ → Bool) (d : ℕ)
    → ((y : ℕ) → 1 ≤ y → y ≤ d → p y ≡ false)
    → no_years (keep p (years_to d)) ≡ true
selected_none p zero h = refl
selected_none p (suc d) h =
    let before = selected_none p d (λ y low high. h y low (omega (arith, high))) in
    keep_none p (years_to d) (suc d) ∙ ground (arith, before, h (suc d) (omega arith) (omega arith))

no_problem-shortfall :
    (core required : ℕ)
    → no_problem (shortfall_problem core required (required - core)) ≡ leb required core
no_problem-shortfall core required = ground arith

-- the three checks of the report
healthy_parts :
    (courses : List Course) (entries : List CurriculumCourse) (programme : Programme) (version : ℕ)
    → (curriculum_health courses entries programme version).healthy ≡ (
        leb programme.total_credits_required (total_core_credits courses entries version)
        && (has_courses entries version
            && no_years (
                keep
                  (λ y. not (any (λ e. e.year_of_study == y) (of_version entries version)))
                  (years_to programme.duration_years))))
unfolding curriculum_health credit_shortfall missing_years
healthy_parts courses entries programme version =
    let required = programme.total_credits_required in
    let core = total_core_credits courses entries version in
    let es = of_version entries version in
    let years = missing_years programme.duration_years es in
    no_problem-append (shortfall_problem core required (required - core))
      (empty_problem es ++ years_problem years)
    ∙ ap (λ b. no_problem (shortfall_problem core required (required - core)) && b)
        (no_problem-append (empty_problem es) (years_problem years))
    ∙ ground (
      arith,
      no_problem-shortfall core required,
      no_problem-empty entries version,
      no_problem-years years,
    )

-- A curriculum version is reported as healthy exactly when its core courses have the credits that the
-- programme requires, it has a course, and every year from the first to the last has one.
pub curriculum_health_iff :
    (courses : List Course) (entries : List CurriculumCourse) (programme : Programme) (version : ℕ)
    → ((curriculum_health courses entries programme version).healthy ≡ true) ↔ (
        (programme.total_credits_required ≤ total_core_credits courses entries version)
        × (has_courses entries version ≡ true)
        × ((year : ℕ)
            → 1 ≤ year
            → year ≤ programme.duration_years
            → covers_year entries version year ≡ true))
unfolding curriculum_health
curriculum_health_iff courses entries programme version =
    let es = of_version entries version in
    let core = total_core_credits courses entries version in
    let uncovered : ℕ → Bool = λ y. not (any (λ e. e.year_of_study == y) es) in
    let parts = healthy_parts courses entries programme version in
    (
      λ h. (
        ground (arith, parts, h),
        ground (arith, parts, h),
        λ year low high. ground (
          arith,
          any-courses_for entries version year,
          none_selected uncovered programme.duration_years year (ground (arith, parts, h)) low high,
        ),
      ),
      λ h.
          let none_left =
            selected_none uncovered programme.duration_years
              (λ y low high. ground (arith, any-courses_for entries version y, h.2 y low high)) in
          parts ∙ ground (arith, h.0, h.1, none_left),
    )
