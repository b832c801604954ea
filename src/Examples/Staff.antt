-- ===== src/Examples/Staff.antt =====
-- Runs of leave requests.
use uni_acmis.Prelude.{next, done, ◌≡◌, refl, none, some, true, [], ◌∷◌, All, ok, is_blank}
use uni_acmis.Hr.{
  LeaveRequest, annual, submitted, endorsed, approved, submit_leave_request, endorse_leave_request,
  decide_leave_request,
}
use uni_acmis.Hr.Leave.{Evident, submits, endorses, decides, leave_requests-Evident}

abbrev asked : LeaveRequest
asked = record {
  id = 1;
  staff = 5;
  leave_type = annual;
  start_date = 10;
  end_date = 20;
  reason = "rest";
  status = submitted;
  endorsed_by = none;
  endorsed_at = none;
  decided_by = none;
  decision_notes = "";
  decided_at = none;
}

abbrev supported : LeaveRequest
supported = record asked { status = endorsed; endorsed_by = some 2; endorsed_at = some 6 }

abbrev granted : LeaveRequest
granted = record supported {
  status = approved;
  decided_by = some 3;
  decision_notes = "fine";
  decided_at = some 7;
}

asking : submit_leave_request [] 5 annual 10 20 "rest" ≡ ok (asked ∷ [], asked)
unfolding submit_leave_request is_blank
asking = refl

supporting : endorse_leave_request 6 (asked ∷ []) asked (some 2) ≡ ok (supported ∷ [], supported)
unfolding endorse_leave_request
supporting = refl

granting :
    decide_leave_request 7 (supported ∷ []) supported true (some 3) "fine"
    ≡ ok (granted ∷ [], granted)
unfolding decide_leave_request is_blank
granting = refl

leave_requests-Evident_example : All Evident (granted ∷ [])
leave_requests-Evident_example = leave_requests-Evident (granted ∷ []) (
    next (submits 5 annual 10 20 "rest" asked asking) (
      next (endorses 6 asked supported (some 2) refl supporting)
        (next (decides 7 supported granted true (some 3) "fine" refl granting) done)))
