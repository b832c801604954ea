-- ===== src/Admissions/Applications/Evidence.antt =====
-- What the status of an application needs on record, and what it needs to change.
use uni_acmis.Prelude.{◌≡◌, is_none, Bool, true, false, ◌&&◌, not, arith, is_blank}
use uni_acmis.Admissions.Applications.{
  Application, ApplicationStatus, draft, submitted, under_review, offered, accepted, rejected,
  withdrawn, enrolled, allowed,
}
use uni_acmis.Admissions.Applications.Decisions.{is_decision}

-- what an application that was submitted has
abbrev pub was_submitted : Application → Bool
was_submitted a = a.fee_paid && not (is_none a.submitted_at)

-- what one that was offered a place has besides
abbrev pub was_offered : Application → Bool
was_offered a = was_submitted a && (not (is_none a.reviewed_at) && not (is_blank a.decision_reason))

-- what the status of an application needs on record
abbrev pub has_evidence : ApplicationStatus → Application → Bool
has_evidence draft a = is_none a.student
has_evidence submitted a = was_submitted a && is_none a.student
has_evidence under_review a = was_submitted a && is_none a.student
has_evidence offered a = was_offered a && is_none a.student
has_evidence accepted a = was_offered a && is_none a.student
has_evidence rejected a = was_submitted a && is_none a.student
has_evidence withdrawn a = is_none a.student
has_evidence enrolled a = was_offered a && not (is_none a.student)

abbrev pub IsEvident : Application → Type 0
IsEvident a = has_evidence a.status a ≡ true

pub submit_needs :
    (from : ApplicationStatus) (a : Application)
    → allowed from submitted ≡ true
    → has_evidence from a ≡ true
    → is_none a.student ≡ true
unfolding allowed
submit_needs from a m e = ground (arith, m, e)

pub withdraw_needs :
    (from : ApplicationStatus) (a : Application)
    → allowed from withdrawn ≡ true
    → has_evidence from a ≡ true
    → is_none a.student ≡ true
unfolding allowed
withdraw_needs from a m e = ground (arith, m, e)

-- what a status from which one may be offered a place or rejected needs
pub decision_needs :
    (from to : ApplicationStatus) (a : Application)
    → is_decision to ≡ true
    → allowed from to ≡ true
    → has_evidence from a ≡ true
    → (was_submitted a && is_none a.student) ≡ true
unfolding allowed
decision_needs from to a d m e = ground (arith, d, m, e)

pub accept_needs :
    (from : ApplicationStatus) (a : Application)
    → allowed from accepted ≡ true
    → has_evidence from a ≡ true
    → (was_offered a && is_none a.student) ≡ true
unfolding allowed
accept_needs from a m e = ground (arith, m, e)

pub enroll_needs :
    (from : ApplicationStatus) (a : Application)
    → allowed from enrolled ≡ true
    → has_evidence from a ≡ true
    → was_offered a ≡ true
unfolding allowed
enroll_needs from a m e = ground (arith, m, e)

-- evidence of a decision that is made
pub decided_evident :
    (to : ApplicationStatus) (a : Application)
    → is_decision to ≡ true
    → (was_submitted a && is_none a.student) ≡ true
    → not (is_none a.reviewed_at) ≡ true
    → is_blank a.decision_reason ≡ false
    → has_evidence to a ≡ true
decided_evident to a d e r b = ground (arith, d, e, r, b)
