-- ===== src/Hr/Leave.antt =====
-- What is on record of a leave request in each of its states.
use mathlib.Core.Path.{subst}
use uni_acmis.Prelude.{
  Run, Run-keeps, ℕ, ◌≤◌, ◌≡◌, refl, ap, String, Option, some, Bool, true, false, ◌&&◌, not, List,
  [], arith, All, All-update_row, get-All, get, is_none, ltb, is_blank, ok, raise_if_ok,
  ok_injective,
}
use uni_acmis.Hr.{
  LeaveType, LeaveStatus, submitted, endorsed, approved, rejected, LeaveRequest, request_id,
  is_submitted, is_endorsed, submit_leave_request, endorse_leave_request, decide_leave_request,
  save_request,
}

-- what a state needs: an endorsement, and of a decision its time and its reason
abbrev pub has_evidence : LeaveStatus → LeaveRequest → Bool
has_evidence submitted r = true
has_evidence endorsed r = not (is_none r.endorsed_at)
has_evidence approved r =
    not (is_none r.endorsed_at) && (not (is_none r.decided_at) && not (is_blank r.decision_notes))
has_evidence rejected r =
    not (is_none r.endorsed_at) && (not (is_none r.decided_at) && not (is_blank r.decision_notes))

abbrev pub Evident : LeaveRequest → Type 0
Evident r =
    (r.start_date ≤ r.end_date) × (is_blank r.reason ≡ false) × (has_evidence r.status r ≡ true)

pub data Step : List LeaveRequest → List LeaveRequest → Type 0 where
  submits :
      {rows rows' : List LeaveRequest} (staff_id : ℕ) (leave_type : LeaveType)
      (start_date end_date : ℕ) (reason : String) (r : LeaveRequest)
      → submit_leave_request rows staff_id leave_type start_date end_date reason ≡ ok (rows', r)
      → Step rows rows'
  endorses :
      {rows rows' : List LeaveRequest} (now : ℕ) (old r : LeaveRequest) (actor : Option ℕ)
      → get request_id old.id rows ≡ some old
      → endorse_leave_request now rows old actor ≡ ok (rows', r)
      → Step rows rows'
  decides :
      {rows rows' : List LeaveRequest} (now : ℕ) (old r : LeaveRequest) (approve : Bool)
      (actor : Option ℕ) (notes : String)
      → get request_id old.id rows ≡ some old
      → decide_leave_request now rows old approve actor notes ≡ ok (rows', r)
      → Step rows rows'

abbrev pub Steps : List LeaveRequest → List LeaveRequest → Type 0
Steps = Run Step

submit_keeps :
    (rows rows' : List LeaveRequest) (staff_id : ℕ) (leave_type : LeaveType)
    (start_date end_date : ℕ) (reason : String) (r : LeaveRequest)
    → submit_leave_request rows staff_id leave_type start_date end_date reason ≡ ok (rows', r)
    → All Evident rows
    → All Evident rows'
unfolding submit_leave_request
submit_keeps rows rows' staff_id leave_type start_date end_date reason r h all =
    let (given, h1) = raise_if_ok (is_blank reason) _ _ h in
    let (ordered, h2) = raise_if_ok (ltb end_date start_date) _ _ h1 in
    subst (All Evident) (ap (λ q. q.0) (ok_injective h2))
      ((ground (arith, ordered), given, refl), all)

save_keeps :
    (rows rows' : List LeaveRequest) (r saved : LeaveRequest)
    → save_request rows r ≡ ok (rows', saved)
    → (is_blank r.reason ≡ false)
    → (has_evidence r.status r ≡ true)
    → All Evident rows
    → All Evident rows'
save_keeps rows rows' r saved h given evidence all =
    let (ordered, h1) = raise_if_ok (ltb r.end_date r.start_date) _ _ h in
    subst (All Evident) (ap (λ q. q.0) (ok_injective h1))
      (All-update_row request_id Evident r rows (ground (arith, ordered), given, evidence) all)

endorsed_evidence :
    (s : LeaveStatus) (r : LeaveRequest)
    → not (is_endorsed s) ≡ false
    → has_evidence s r ≡ true
    → not (is_none r.endorsed_at) ≡ true
endorsed_evidence submitted r h e = ground arith
endorsed_evidence endorsed r h e = e
endorsed_evidence approved r h e = ground arith
endorsed_evidence rejected r h e = ground arith

Step-keeps :
    {rows rows' : List LeaveRequest} → Step rows rows' → All Evident rows → All Evident rows'
unfolding endorse_leave_request decide_leave_request
Step-keeps (submits {rows} {rows'} staff_id leave_type start_date end_date reason r h) all =
    submit_keeps rows rows' staff_id leave_type start_date end_date reason r h all
Step-keeps (endorses {rows} {rows'} now old r actor g h) all =
    let (_, given, _) = get-All request_id Evident old.id old rows g all in
    let (allowed, h1) = raise_if_ok (not (is_submitted old.status)) _ _ h in
    save_keeps rows rows' _ r h1 given refl all
Step-keeps (decides {rows} {rows'} now old r approve actor notes g h) all =
    let (_, given, evidence) = get-All request_id Evident old.id old rows g all in
    let (noted, h1) = raise_if_ok (is_blank notes) _ _ h in
    let (allowed, h2) = raise_if_ok (not (is_endorsed old.status)) _ _ h1 in
    let signed = endorsed_evidence old.status old allowed evidence in
    save_keeps rows rows' _ r h2 given (ground (arith, noted, signed)) all

Steps-keeps :
    {rows rows' : List LeaveRequest} → Steps rows rows' → All Evident rows → All Evident rows'
Steps-keeps steps k = Run-keeps Step (All Evident) (λ a b s k. Step-keeps s k) steps k

-- After any sequence of submissions, and of endorsements and decisions of stored requests, from none,
-- every request has a reason and does not end before it starts; an endorsed one has the time of its
-- endorsement, and an approved or rejected one this, the time of its decision and a reason for it.
pub leave_requests-Evident : (rows : List LeaveRequest) → Steps [] rows → All Evident rows
leave_requests-Evident rows steps = Steps-keeps steps tt
