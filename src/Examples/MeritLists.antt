-- ===== src/Examples/MeritLists.antt =====
-- Runs of the merit list.
use Prim.Native.Nat.{min}
use native.Mathlib.Omega.{arith}
use mathlib.Core.List.{Perm}
use uni_acmis.Prelude.{
  ◌<◌, ◌≡◌, refl, none, some, List, [], ◌∷◌, pos, length, count_if, map, sorted_by,
}
use uni_acmis.Admissions.MeritList.{
  word, value_eq, Candidate, Label, QuotaRules, before, rank_candidates, fill_reserved, fill_bucket,
  matches, attribute, member, generate_merit_list, lookup,
}
use uni_acmis.Admissions.MeritList.Seats.{UniqueIds, admitted_fills_seats}
use uni_acmis.Admissions.MeritList.Order.{IsRanked, merit_order}
use uni_acmis.Admissions.MeritList.Pool.{IsFair, general_pool-IsFair}

abbrev warrap : Label
warrap = record { category = "state"; value = word "warrap" }

abbrev three_candidates : List Candidate
three_candidates =
    record { application_id = 1; score = some (pos 7000); attributes = [] }
    ∷ record {
      application_id = 2;
      score = some (pos 6000);
      attributes = ("state", word "warrap") ∷ [];
    }
    ∷ record { application_id = 3; score = none; attributes = ("state", word "warrap") ∷ [] }
    ∷ []

abbrev one_reserved : QuotaRules
one_reserved = record { total_seats = some 2; reserved = record { label = warrap; seats = 1 } ∷ [] }

abbrev over_reserved : QuotaRules
over_reserved = record {
  total_seats = some 1;
  reserved = record { label = warrap; seats = 2 } ∷ [];
}

unique_ids : UniqueIds three_candidates
unique_ids i = ground arith

general_pool-IsFair_example : IsFair (generate_merit_list three_candidates one_reserved)
general_pool-IsFair_example = general_pool-IsFair three_candidates one_reserved 2 unique_ids refl

merit_order_example :
    IsRanked (generate_merit_list three_candidates one_reserved)
    × Perm
        (map (λ e. e.application_id) (generate_merit_list three_candidates one_reserved))
        (map (λ c. c.application_id) three_candidates)
merit_order_example = merit_order three_candidates one_reserved

admitted_fills_seats_example :
    count_if (λ e. e.admitted) (generate_merit_list three_candidates one_reserved) ≡ min 3 2
admitted_fills_seats_example =
    admitted_fills_seats three_candidates one_reserved 2 unique_ids refl (omega arith)

both_reserved :
    1 < length (fill_reserved over_reserved.reserved (rank_candidates three_candidates) [])
unfolding fill_reserved fill_bucket matches attribute member lookup rank_candidates sorted_by before
    value_eq
both_reserved = ground arith
