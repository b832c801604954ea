-- ===== src/Registry/Lookups.antt =====
-- What the registry answers to other modules, and the holds of a student.
use text.Mathlib.Text.{◌==◌ as str_eq}
use uni_acmis.Prelude.{
  ℕ, String, Option, none, some, Bool, true, ◌&&◌, List, [], ◌∷◌, map, keep, get, ◌==◌,
  if◌then◌else◌, Result, ok, err, ◌>>=◌,
}
use uni_acmis.Core.Holds.{Hold, HoldProvider, collect_holds, blocking_holds}
use uni_acmis.Registry.{Student, student_key, is_active, is_graduated_status}

pub data Residency : Type 0 where
  local international : Residency

pub data LookupError : Type 0 where
  student_not_found : LookupError
  blocked_by_hold : List Hold → LookupError

unfoldable pub find_student : List Student → (student_id : ℕ) → Result LookupError Student
find_student students student_id = elim (get student_key student_id students) [
  | some s ↦ ok s
  | none ↦ err student_not_found
]

abbrev pub residency_of : (nationality : String) → Residency
residency_of nationality = if str_eq nationality "South Sudanese" then local else international

unfoldable pub residency_for_student :
    List Student → (student_id : ℕ) → Result LookupError Residency
residency_for_student students student_id = do
  s ← find_student students student_id
  ok (residency_of s.nationality)

unfoldable pub sponsor_id_for_student :
    List Student → (student_id : ℕ) → Result LookupError (Option ℕ)
sponsor_id_for_student students student_id = do s ← find_student students student_id; ok s.sponsor

unfoldable pub current_level_for_student : List Student → (student_id : ℕ) → Result LookupError ℕ
current_level_for_student students student_id = do
  s ← find_student students student_id
  ok s.current_level

unfoldable pub is_graduated : List Student → (student_id : ℕ) → Result LookupError Bool
is_graduated students student_id = do
  s ← find_student students student_id
  ok (is_graduated_status s.status)

pub record Contact : Type 0 where
  pub id : ℕ
  pub phone : String
  pub email : String

abbrev pub passes : (filter : Option ℕ) → ℕ → Bool
passes none v = true
passes (some k) v = v == k

unfoldable pub active_student_contacts : List Student → (programme_id : Option ℕ) → List Contact
active_student_contacts students programme_id =
    map (λ s. record { id = s.id; phone = s.phone; email = s.email })
      (keep (λ s. is_active s.status && passes programme_id s.programme) students)

-- every hold, also those that do not block
unfoldable pub registration_holds : List HoldProvider → (student_id : ℕ) → List Hold
registration_holds providers student_id = collect_holds providers student_id

-- `if blocking: raise`
abbrev pub raise_blocked : List Hold → Result LookupError (Unit {0})
raise_blocked [] = ok tt
raise_blocked (h ∷ hs) = err (blocked_by_hold (h ∷ hs))

unfoldable pub assert_can_register :
    List HoldProvider → (student_id : ℕ) → Result LookupError (Unit {0})
assert_can_register providers student_id = raise_blocked (blocking_holds providers student_id)
