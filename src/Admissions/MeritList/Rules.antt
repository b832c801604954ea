-- ===== src/Admissions/MeritList/Rules.antt =====
-- The quota rules of a programme as they stand in its JSON field, read as `generate_merit_list` of
-- backend/apps/admissions/merit_list.py reads them. Rules are an object and its reserved buckets are
-- objects; what `int` makes of a text is an argument.
use uni_acmis.Prelude.{
  ℕ, String, Option, none, some, Bool, true, false, List, [], ◌∷◌, Result, ok, err, ◌>>=◌, ℤ, pos,
  negsuc,
}
use uni_acmis.Admissions.MeritList.{
  Value, Candidate, Bucket, QuotaRules, MeritListEntry, generate_merit_list,
}

-- a number of seats as it is configured
pub data Seats : Type 0 where
  number : ℤ → Seats
  truth : Bool → Seats
  text : String → Seats
  nothing : Seats

-- an object of `reserved`; a field may be missing
pub record RawBucket : Type 0 where
  pub category : Option String
  pub value : Option Value
  pub seats : Option Seats

-- `total_seats` of the object is `nothing` also where it is missing, as `get` gives it
pub record RawRules : Type 0 where
  pub total_seats : Seats
  pub reserved : List RawBucket

-- the exceptions that reading raises
pub data QuotaError : Type 0 where
  key_error value_error type_error : QuotaError

-- `d[key]`
unfoldable pub field : {A : Type 0} → Option A → Result QuotaError A
field none = err key_error
field (some v) = ok v

-- a loop that stops at a number of seats that is not positive takes none
abbrev pub at_least_none : ℤ → ℕ
at_least_none (pos n) = n
at_least_none (negsuc n) = 0

-- `int(seats)`
unfoldable pub int_of : (parse : String → Option ℤ) → Seats → Result QuotaError ℕ
int_of parse (number n) = ok (at_least_none n)
int_of parse (truth true) = ok 1
int_of parse (truth false) = ok 0
int_of parse (text s) = elim (parse s) [ none ↦ err value_error | some n ↦ ok (at_least_none n) ]
int_of parse nothing = err type_error

unfoldable pub read_bucket : (parse : String → Option ℤ) → RawBucket → Result QuotaError Bucket
read_bucket parse b = do
  category ← field b.category
  value ← field b.value
  configured ← field b.seats
  seats ← int_of parse configured
  ok (record { label = record { category = category; value = value }; seats = seats })

unfoldable pub read_buckets :
    (parse : String → Option ℤ) → List RawBucket → Result QuotaError (List Bucket)
read_buckets parse [] = ok []
read_buckets parse (b ∷ bs) = do
  bucket ← read_bucket parse b
  buckets ← read_buckets parse bs
  ok (bucket ∷ buckets)

-- the operand of `total_seats - len(admitted)`
unfoldable pub total_of : Seats → Result QuotaError ℕ
total_of (number n) = ok (at_least_none n)
total_of (truth true) = ok 1
total_of (truth false) = ok 0
total_of (text s) = err type_error
total_of nothing = err type_error

-- rules with a cap, whose buckets are read before the cap is used
unfoldable pub read_capped : (parse : String → Option ℤ) → RawRules → Result QuotaError QuotaRules
read_capped parse raw = do
  buckets ← read_buckets parse raw.reserved
  total ← total_of raw.total_seats
  ok (record { total_seats = some total; reserved = buckets })

-- without a cap the buckets are not read
unfoldable pub read_rules : (parse : String → Option ℤ) → RawRules → Result QuotaError QuotaRules
read_rules parse raw = elim raw.total_seats [
  | nothing ↦ ok (record { total_seats = none; reserved = [] })
  | number n ↦ read_capped parse raw
  | truth b ↦ read_capped parse raw
  | text s ↦ read_capped parse raw
]

-- `generate_merit_list` on the rules of the field: an exception of the reading ends it
unfoldable pub merit_list_of :
    (parse : String → Option ℤ)
    → List Candidate
    → RawRules
    → Result QuotaError (List MeritListEntry)
merit_list_of parse candidates raw = do
  rules ← read_rules parse raw
  ok (generate_merit_list candidates rules)
