-- ===== src/Registry/Status.antt =====
-- Changes of the status of a student: `change_status` of backend/apps/registry/services.py.
use uni_acmis.Prelude.{
  ℕ, String, Option, none, some, or_else, Bool, true, false, not, ◌∷◌, update_row, if◌then◌else◌,
  is_blank, Result, ok, ◌>>◌, raise_if,
}
use uni_acmis.Registry.{
  StudentStatus, active, suspended, deferred, withdrawn, graduated, expelled, Student,
  StudentStatusHistory, RegistryError, invalid_status_transition, validation_error, Registry,
  Reference, student_key, is_graduated_status, is_clean_student,
}

-- `new_status == old_status`
unfoldable pub same_status : StudentStatus → StudentStatus → Bool
same_status active active = true
same_status suspended suspended = true
same_status deferred deferred = true
same_status withdrawn withdrawn = true
same_status graduated graduated = true
same_status expelled expelled = true
same_status _ _ = false

-- `TERMINAL_STATUSES`
abbrev pub is_terminal : StudentStatus → Bool
is_terminal active = false
is_terminal suspended = false
is_terminal deferred = false
is_terminal withdrawn = false
is_terminal graduated = true
is_terminal expelled = true

-- `new_status in ALLOWED_TRANSITIONS[old_status]`
unfoldable pub allowed : StudentStatus → StudentStatus → Bool
allowed active active = false
allowed active _ = true
allowed suspended active = true
allowed suspended withdrawn = true
allowed suspended expelled = true
allowed suspended _ = false
allowed deferred active = true
allowed deferred withdrawn = true
allowed deferred _ = false
allowed withdrawn active = true
allowed withdrawn _ = false
allowed graduated _ = false
allowed expelled _ = false

-- `graduated_on` after a change of status
abbrev pub graduation : StudentStatus → (effective : ℕ) → Option ℕ → Option ℕ
graduation new_status effective (some day) = some day
graduation new_status effective none =
    if is_graduated_status new_status then some effective else none

-- a change of status with a reason that is not blank, to another status
unfoldable pub apply_status :
    Reference
    → Registry
    → Student
    → StudentStatus
    → (reason : String) → (actor : Option ℕ) → (effective : ℕ) → (reference_text : String)
    → Result RegistryError (Registry × Student)
apply_status reference r student new_status reason actor effective reference_text = do
  raise_if (is_terminal student.status) invalid_status_transition
  raise_if (not (allowed student.status new_status)) invalid_status_transition
  let s : Student = record student {
    status = new_status;
    graduated_on = graduation new_status effective student.graduated_on;
  }
  raise_if (not (is_clean_student reference r.students s)) validation_error
  let entry : StudentStatusHistory = record {
    student = student.id;
    from_status = some student.status;
    to_status = new_status;
    reason = reason;
    effective_date = effective;
    changed_by = actor;
    reference = reference_text;
  }
  ok (record r { students = update_row student_key s r.students; history = entry ∷ r.history }, s)

unfoldable pub change_status :
    Reference
    → (today : ℕ) → Registry
    → Student
    → StudentStatus
    → (reason : String) → (actor : Option ℕ) → (effective_date : Option ℕ)
    → (reference_text : String) → Result RegistryError (Registry × Student)
change_status reference today r student new_status reason actor effective_date reference_text = do
  raise_if (is_blank reason) invalid_status_transition
  if same_status new_status student.status
      then ok (r, student)
      else apply_status reference r student new_status reason actor (or_else effective_date today)
          reference_text
