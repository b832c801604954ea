-- ===== src/Hr.antt =====
-- Leave of the staff and contracts: backend/apps/hr/services.py, with backend/apps/hr/models.py. Days and
-- times are numbers, salaries hundredths.
pub mod Leave
use uni_acmis.Prelude.{
  ℕ, String, Option, none, some, or_else, Bool, true, false, ◌&&◌, not, List, [], ◌∷◌, next_key,
  update_row, ltb, leb, if◌then◌else◌, is_blank, Result, ok, err, ◌>>=◌, ◌>>◌, raise_if, ℤ,
}

pub data ContractType : Type 0 where
  permanent fixed_term probation part_time : ContractType

pub record Contract : Type 0 where
  pub id : ℕ
  pub staff : ℕ
  pub contract_type : ContractType
  pub position : String
  pub start_date : ℕ
  pub end_date : Option ℕ
  pub basic_salary : ℤ
  pub currency : String
  pub is_active : Bool

pub data LeaveType : Type 0 where
  annual sick maternity paternity study unpaid : LeaveType

pub data LeaveStatus : Type 0 where
  submitted endorsed approved rejected : LeaveStatus

pub record LeaveRequest : Type 0 where
  pub id : ℕ
  pub staff : ℕ
  pub leave_type : LeaveType
  pub start_date : ℕ
  pub end_date : ℕ
  pub reason : String
  pub status : LeaveStatus
  pub endorsed_by : Option ℕ
  pub endorsed_at : Option ℕ
  pub decided_by : Option ℕ
  pub decision_notes : String
  pub decided_at : Option ℕ

pub data HrError : Type 0 where
  reason_required validation_error : HrError
  invalid_leave_transition : LeaveStatus → HrError

abbrev pub contract_id : Contract → ℕ
contract_id c = c.id

abbrev pub request_id : LeaveRequest → ℕ
request_id r = r.id

abbrev pub is_permanent : ContractType → Bool
is_permanent permanent = true
is_permanent fixed_term = false
is_permanent probation = false
is_permanent part_time = false

-- whether the end of a contract is one that `Contract.clean` accepts
unfoldable pub ends_well : ContractType → (start_date : ℕ) → Option ℕ → Bool
ends_well contract_type start_date none = is_permanent contract_type
ends_well contract_type start_date (some day) = ltb start_date day

abbrev pub save_contract : List Contract → Contract → Result HrError (List Contract × Contract)
save_contract contracts c = do
  raise_if (not (ends_well c.contract_type c.start_date c.end_date)) validation_error
  ok (update_row contract_id c contracts, c)

unfoldable pub create_contract :
    (base_currency : String)
    → List Contract
    → (staff_id : ℕ) → ContractType
    → (position : String) → (start_date : ℕ) → (basic_salary : ℤ) → (end_date : Option ℕ)
    → (currency : Option String) → Result HrError (List Contract × Contract)
create_contract base_currency contracts staff_id contract_type position start_date basic_salary
      end_date currency =
    do
      raise_if (not (ends_well contract_type start_date end_date)) validation_error
      let c : Contract = record {
        id = next_key contract_id contracts;
        staff = staff_id;
        contract_type = contract_type;
        position = position;
        start_date = start_date;
        end_date = end_date;
        basic_salary = basic_salary;
        currency = or_else currency base_currency;
        is_active = true;
      }
      ok (c ∷ contracts, c)

unfoldable pub end_contract :
    List Contract → Contract → (end_date : ℕ) → Result HrError (List Contract × Contract)
end_contract contracts contract end_date =
    save_contract contracts (record contract { end_date = some end_date; is_active = false })

-- `LeaveRequest.clean` and the save of a stored request
abbrev pub save_request :
    List LeaveRequest → LeaveRequest → Result HrError (List LeaveRequest × LeaveRequest)
save_request requests r = do
  raise_if (ltb r.end_date r.start_date) validation_error
  ok (update_row request_id r requests, r)

unfoldable pub submit_leave_request :
    List LeaveRequest
    → (staff_id : ℕ) → LeaveType
    → (start_date end_date : ℕ) → (reason : String)
    → Result HrError (List LeaveRequest × LeaveRequest)
submit_leave_request requests staff_id leave_type start_date end_date reason = do
  raise_if (is_blank reason) reason_required
  raise_if (ltb end_date start_date) validation_error
  let r : LeaveRequest = record {
    id = next_key request_id requests;
    staff = staff_id;
    leave_type = leave_type;
    start_date = start_date;
    end_date = end_date;
    reason = reason;
    status = submitted;
    endorsed_by = none;
    endorsed_at = none;
    decided_by = none;
    decision_notes = "";
    decided_at = none;
  }
  ok (r ∷ requests, r)

abbrev pub is_submitted : LeaveStatus → Bool
is_submitted submitted = true
is_submitted endorsed = false
is_submitted approved = false
is_submitted rejected = false

abbrev pub is_endorsed : LeaveStatus → Bool
is_endorsed submitted = false
is_endorsed endorsed = true
is_endorsed approved = false
is_endorsed rejected = false

unfoldable pub endorse_leave_request :
    (now : ℕ)
    → List LeaveRequest
    → LeaveRequest
    → Option ℕ
    → Result HrError (List LeaveRequest × LeaveRequest)
endorse_leave_request now requests request actor = do
  raise_if (not (is_submitted request.status)) (invalid_leave_transition request.status)
  save_request requests
      (record request { status = endorsed; endorsed_by = actor; endorsed_at = some now })

unfoldable pub decide_leave_request :
    (now : ℕ)
    → List LeaveRequest
    → LeaveRequest
    → (approve : Bool) → Option ℕ
    → (notes : String) → Result HrError (List LeaveRequest × LeaveRequest)
decide_leave_request now requests request approve actor notes = do
  raise_if (is_blank notes) reason_required
  raise_if (not (is_endorsed request.status)) (invalid_leave_transition request.status)
  save_request requests (record request {
    status = if approve then approved else rejected;
    decided_by = actor;
    decision_notes = notes;
    decided_at = some now;
  })

-- the contracts that the export lists
unfoldable pub payroll_contracts : List Contract → List Contract
payroll_contracts [] = []
payroll_contracts (c ∷ contracts) =
    let rest = payroll_contracts contracts in if c.is_active then c ∷ rest else rest
