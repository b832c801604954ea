-- ===== src/Examples/Campus.antt =====
-- Runs of the hostel and the library.
use uni_acmis.Prelude.{
  next, done, arith, ◌≤◌, ◌≡◌, refl, none, some, true, false, List, [], ◌∷◌, ok,
}
use uni_acmis.Hostel as Hostel
use uni_acmis.Hostel.{
  Room, Allocation, Profile, allocate_room, available_beds, occupied_beds, gender_for_student,
  key_le, priority_key, waiting_list_priority,
}
use uni_acmis.Hostel.Capacity.{WithinCapacity, allocates, rooms-WithinCapacity}
use uni_acmis.Library.{
  LibraryItem, Loan, active, lost, mark_lost, Policy, checkout_item, truthy, available_copies,
  copies_on_loan,
}
use uni_acmis.Library.Copies.{WithinCopies, checks_out, loans-WithinCopies}

abbrev single_room : Room
single_room = record {
  id = 1;
  building = "A";
  room_number = "12";
  capacity = 1;
  gender_restriction = "female";
}

abbrev stay : Allocation
stay = record {
  id = 1;
  student = 9;
  room = 1;
  academic_year = 3;
  status = Hostel.active;
  allocated_at = 10;
  allocated_by = none;
  vacated_at = none;
  vacated_by = none;
  notes = "";
}

stay_given :
    allocate_room (single_room ∷ []) ((9, "female") ∷ []) 10 [] 9 1 3 none ≡ ok (stay ∷ [], stay)
unfolding allocate_room available_beds occupied_beds gender_for_student
stay_given = refl

rooms-WithinCapacity_example : WithinCapacity (single_room ∷ []) (stay ∷ [])
rooms-WithinCapacity_example =
    rooms-WithinCapacity (single_room ∷ []) ((9, "female") ∷ []) (stay ∷ [])
      (next (allocates 10 9 1 3 none stay stay_given) done)

abbrev two_profiles : List Profile
two_profiles =
    record { id = 8; has_disability = false; from_outside = true; entry_academic_year = some 2 }
    ∷ record { id = 9; has_disability = true; from_outside = false; entry_academic_year = some 3 }
    ∷ []

abbrev atlas : LibraryItem
atlas = record { id = 1; title = "Atlas"; total_copies = 1 }

abbrev two_weeks : Policy
two_weeks = record { loan_period_days = 14; daily_fine_rate = 500; currency = "SSP" }

abbrev loan : Loan
loan = record {
  id = 1;
  item = 1;
  borrower_student = some 9;
  borrower_staff = none;
  due_date = 114;
  returned_at = none;
  status = active;
  fine_amount = 0;
  currency = "SSP";
  fine_waived = false;
  waived_by = none;
  waived_reason = "";
}

loan_made : checkout_item (atlas ∷ []) two_weeks 100 [] 1 (some 9) none none ≡ ok (loan ∷ [], loan)
unfolding checkout_item truthy available_copies copies_on_loan
loan_made = refl

loans-WithinCopies_example : WithinCopies (atlas ∷ []) (loan ∷ [])
loans-WithinCopies_example =
    loans-WithinCopies (atlas ∷ []) two_weeks (loan ∷ [])
      (next (checks_out 100 1 (some 9) none none loan loan_made) done)

abbrev lost_loan : Loan
lost_loan = record loan { status = lost }

loan_lost : mark_lost (loan ∷ []) loan ≡ ok (lost_loan ∷ [], lost_loan)
unfolding mark_lost truthy
loan_lost = refl

loan_out : copies_on_loan (loan ∷ []) atlas ≤ 1
unfolding copies_on_loan
loan_out = omega arith
