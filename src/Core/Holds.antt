-- ===== src/Core/Holds.antt =====
-- backend/apps/core/services/holds.py. The providers registered for `HoldProvider` are a list, each
-- with the outcome of its `holds_for`.
pub mod FailSafe
use Prim.Native.String.{◌++◌ as joined}
use uni_acmis.Prelude.{
  ℕ, String, Bool, true, false, not, List, [], ◌∷◌, ◌++◌, keep, Result, ok, err, if◌then◌else◌,
}

pub record Hold : Type 0 where
  pub code : String
  pub message : String
  pub source : String
  pub blocking : Bool

-- a provider may raise, which the result's error stands for
pub record HoldProvider : Type 0 where
  pub source : String
  pub holds_for : ℕ → Result String (List Hold)

-- the hold that stands for a provider that failed
unfoldable pub failed_check : String → Hold
failed_check source = record {
  code = "hold_check_failed";
  message =
      joined (joined "Could not confirm clearance from " source)
        ". Resolve this before proceeding.";
  source = source;
  blocking = true;
}

-- what an answer, or the lack of one, adds
unfoldable pub answer : String → Result String (List Hold) → List Hold
answer source (ok holds) = holds
answer source (err _) = failed_check source ∷ []

-- the body of the loop over the providers
unfoldable pub ask : ℕ → HoldProvider → List Hold
ask student_id provider = answer provider.source (provider.holds_for student_id)

unfoldable pub collect_holds : List HoldProvider → ℕ → List Hold
collect_holds [] student_id = []
collect_holds (p ∷ providers) student_id = ask student_id p ++ collect_holds providers student_id

unfoldable pub blocking_holds : List HoldProvider → ℕ → List Hold
blocking_holds providers student_id = keep (λ h. h.blocking) (collect_holds providers student_id)

unfoldable pub is_clear : List HoldProvider → ℕ → Bool
is_clear providers student_id = elim (blocking_holds providers student_id) [
  | [] ↦ true
  | _ ∷ _ ↦ false
]
