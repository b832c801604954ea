-- ===== src/Core/Holds/FailSafe.antt =====
-- A student is clear only by the word of every provider.
use mathlib.Core.Path.{subst}
use uni_acmis.Prelude.{
  ℕ, ◌≡◌, refl, ◌↔◌, sym, ◌∙◌, ap, true, List, [], ◌∷◌, ◌++◌, keep, All, ok, err, arith, String,
  inl, inr, Result-cases, ◌≢◌,
}
use uni_acmis.Core.Holds.{
  Hold, HoldProvider, failed_check, answer, ask, collect_holds, blocking_holds, is_clear,
}

-- a provider answers, and none of its holds blocks
abbrev pub Clears : ℕ → HoldProvider → Type 0
Clears student_id p =
    (holds : List Hold) × (p.holds_for student_id ≡ ok holds) × (keep (λ h. h.blocking) holds ≡ [])

keep_append_nil :
    (xs ys : List Hold)
    → keep (λ h. h.blocking) (xs ++ ys) ≡ []
      ↔ ((keep (λ h. h.blocking) xs ≡ []) × (keep (λ h. h.blocking) ys ≡ []))
keep_append_nil [] ys = (λ h. (refl, h), λ h. h.1)
keep_append_nil (x ∷ xs) ys = ground (arith, keep_append_nil xs ys)

is_clear_nil :
    (providers : List HoldProvider) (student_id : ℕ)
    → is_clear providers student_id ≡ true ↔ blocking_holds providers student_id ≡ []
unfolding is_clear
is_clear_nil providers student_id = ground arith

ask_ok :
    (student_id : ℕ) (p : HoldProvider) (holds : List Hold)
    → p.holds_for student_id ≡ ok holds
    → ask student_id p ≡ holds
unfolding ask answer
ask_ok student_id p holds e = rw e refl

ask_err :
    (student_id : ℕ) (p : HoldProvider) (x : String)
    → p.holds_for student_id ≡ err x
    → keep (λ h. h.blocking) (ask student_id p) ≢ []
unfolding ask answer failed_check
ask_err student_id p x e h =
    ground (arith, subst (λ r. keep (λ h. h.blocking) (answer p.source r) ≡ []) e h)

ask_nil :
    (student_id : ℕ) (p : HoldProvider)
    → keep (λ h. h.blocking) (ask student_id p) ≡ [] ↔ Clears student_id p
ask_nil student_id p = (
  λ h. elim (Result-cases (p.holds_for student_id)) [
    | inl (holds, e) ↦
        (holds, e, ap (keep (λ h. h.blocking)) (sym (ask_ok student_id p holds e)) ∙ h)
    | inr (x, e) ↦ absurd (ask_err student_id p x e h)
  ],
  λ c. ap (keep (λ h. h.blocking)) (ask_ok student_id p c.0 c.1) ∙ c.2,
)

-- A student is clear of holds exactly when every registered provider answered and none of the holds
-- it named blocks: a provider that raises stands in the way.
pub is_clear_iff :
    (providers : List HoldProvider) (student_id : ℕ)
    → is_clear providers student_id ≡ true ↔ All (Clears student_id) providers
unfolding blocking_holds collect_holds
is_clear_iff [] student_id = (λ h. tt, λ h. (is_clear_nil [] student_id).1 refl)
is_clear_iff (p ∷ providers) student_id =
    let (f, g) = is_clear_iff providers student_id in
    let (f', g') = is_clear_nil (p ∷ providers) student_id in
    let (f'', g'') = is_clear_nil providers student_id in
    let (a, b) = ask_nil student_id p in
    let (c, d) = keep_append_nil (ask student_id p) (collect_holds providers student_id) in
    (λ h. (a (c (f' h)).0, f (g'' (c (f' h)).1)), λ h. g' (d (b h.0, f'' (g h.1))))
