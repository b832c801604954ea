-- ===== src/Admissions/Applications/Review.antt =====
-- The scores of reviewers and the average of an application. Scores are hundredths.
use uni_acmis.Prelude.{
  ℕ, zero, suc, ◌*◌, Option, none, some, Bool, true, false, ◌&&◌, List, [], ◌∷◌, keep, find_first,
  length, next_key, update_row, String, ◌==◌, if◌then◌else◌, Result, ok, ◌>>=◌, ℤ, pos, negsuc,
  ◌+ℤ◌,
}
use uni_acmis.Decimal.{quantize, round_context}
use uni_acmis.Registry.{Reference}
use uni_acmis.Admissions.Applications.{
  Application, ApplicationStatus, draft, submitted, under_review, offered, accepted, rejected,
  withdrawn, enrolled, Admissions, AdmissionError, save_application,
}

pub record ApplicationReview : Type 0 where
  pub id : ℕ
  pub application : ℕ
  pub reviewer : ℕ
  pub score : ℤ
  pub comments : String

abbrev pub review_id : ApplicationReview → ℕ
review_id r = r.id

abbrev pub is_by : (application reviewer : ℕ) → ApplicationReview → Bool
is_by application reviewer r = (r.application == application) && (r.reviewer == reviewer)

-- `update_or_create`: the reviews that it leaves
unfoldable pub save_review :
    List ApplicationReview
    → (application reviewer : ℕ) → (score : ℤ) → (comments : String)
    → List ApplicationReview × ApplicationReview
save_review reviews application reviewer score comments =
    elim (find_first (is_by application reviewer) reviews) [
      | some old ↦
          let r : ApplicationReview = record old { score = score; comments = comments } in
          (update_row review_id r reviews, r)
      | none ↦
          let r : ApplicationReview = record {
            id = next_key review_id reviews;
            application = application;
            reviewer = reviewer;
            score = score;
            comments = comments;
          } in
          (r ∷ reviews, r)
    ]

abbrev pub sum_scores : List ApplicationReview → ℤ
sum_scores [] = pos 0
sum_scores (r ∷ reviews) = r.score +ℤ sum_scores reviews

-- minus a number
abbrev pub minus : ℕ → ℤ
minus zero = pos zero
minus (suc n) = negsuc n

-- a sum of hundredths by a count, to hundredths; division and rounding are symmetric in the sign
unfoldable pub mean : ℤ → (count : ℕ) → ℤ
mean (pos n) count = pos (quantize (round_context n (100 * count)))
mean (negsuc n) count = minus (quantize (round_context (suc n) (100 * count)))

unfoldable pub average_score : List ApplicationReview → (application : ℕ) → Option ℤ
average_score reviews application =
    let scores = keep (λ r. r.application == application) reviews in
    if length scores == 0 then none else some (mean (sum_scores scores) (length scores))

abbrev pub is_submitted : ApplicationStatus → Bool
is_submitted draft = false
is_submitted submitted = true
is_submitted under_review = false
is_submitted offered = false
is_submitted accepted = false
is_submitted rejected = false
is_submitted withdrawn = false
is_submitted enrolled = false

-- the status that a review leaves
abbrev pub reviewed_status : ApplicationStatus → ApplicationStatus
reviewed_status s = if is_submitted s then under_review else s

unfoldable pub record_review :
    Reference
    → Admissions
    → List ApplicationReview
    → Application
    → (reviewer : ℕ) → (score : ℤ) → (comments : String)
    → Result AdmissionError (Admissions × (List ApplicationReview × ApplicationReview))
record_review reference s reviews a reviewer score comments = do
  let review = save_review reviews a.id reviewer score comments
  saved ←
      save_application reference s
        (record a { score = average_score review.0 a.id; status = reviewed_status a.status })
  ok (saved.0, review)
