-- ===== src/Lib.antt =====
-- UniACMIS, the academic and campus management system of a university (backend/apps): a model of
-- the parts that decide about grades, results, registrations, admissions and the evidence of them.
--
-- The parts and how they interact. A grading scale (Academics) is data that an office configures;
-- `grade_for` reads it, and the course results of the examinations office (Examinations) are graded
-- by it, from assessments and marks. Course registration (Enrollment) asks the calendar
-- (Academics), the curriculum (Curriculum) and the holds of all modules (Core) before it writes a
-- row; results read those rows, and are shown to a student once a board has approved and published
-- them and no hold blocks. Finance bills the students who are registered in a semester, keeps the
-- balance of invoices by their payments, and returns payments by refunds. The hostel allocates the
-- beds of rooms and the library lends copies. Attendance keeps the registers of classes for the
-- active registrations, and timetabling books rooms, lecturers and exams. An application
-- (Admissions) is paid for, submitted, reviewed and decided, the merit list ranks applicants for
-- the seats of a programme, and an accepted application becomes a student of the registry
-- (Registry), with an identifier from a counter (Core). The sync engine (Core) applies operations
-- that clients queued offline, once each, through the handlers of the modules. The audit trail
-- (Audit) chains what all of them report.
--
-- The files, with the code that each is about:
--   Prelude       names of the libraries, tables, results, sorting, integers, texts
--   Decimal       Python's `decimal` as the services use it: `_quantize`, division, product
--   Academics/Bands      backend/apps/academics/models.py: GradingScale, GradeBand, `validate_bands`
--   Academics/Grading    backend/apps/academics/services/grading.py: `grade_for`, `gpa`, `cgpa`,
--                        `classification`
--   Academics/Calendar   backend/apps/academics/services/calendar.py: the windows of a semester
--   Admissions/MeritList backend/apps/admissions/merit_list.py: `generate_merit_list`, on rules of known
--                        shape; Rules reads them from the JSON field, with the exceptions
--   Admissions/Applications backend/apps/admissions/services.py: the operations on an application, with Decisions,
--                        Review (scores) and Fees (payments, documents)
--   Admissions/Shortlist backend/apps/admissions/services.py: `build_merit_list`
--   Admissions/Eligibility backend/apps/admissions/eligibility.py: the screen of entry requirements
--   Core/Sequences       backend/apps/core/models.py: `IdSequence`
--   Core/Sync            backend/apps/core/sync/engine.py and handlers.py: `apply_operation`,
--                        `apply_batch`
--   Core/Holds           backend/apps/core/services/holds.py: `collect_holds`, `blocking_holds`,
--                        `is_clear`
--   Curriculum           backend/apps/curriculum/services.py: `unmet_prerequisites`,
--                        `total_credits`, `credit_limits`; Structure: lookups, `curriculum_health`
--   Enrollment           backend/apps/enrollment/services.py: `register_course`, `drop_course`,
--                        `record_prior_completion`, the lookups
--   Examinations         backend/apps/examinations/services.py: Assessments, Marks, Results, Approval,
--                        Appeals
--   Finance              backend/apps/finance/services.py: Ledger (balances and statuses of invoices),
--                        Billing (fee structures, scholarships, the issue of invoices), Payments,
--                        Refunds
--   Registry             backend/apps/registry/services.py: Creation, Status, Import:
--                        `create_student`, `change_status`, `import_students`; Lookups
--   Timetabling          backend/apps/timetabling/services.py: rooms, Classes, Exams
--   Attendance           backend/apps/attendance/services.py: registers, the right to sit an exam
--   Hostel               backend/apps/hostel/services.py: rooms, allocations, the waiting list
--   Hr                   backend/apps/hr/services.py: leave requests, contracts
--   Library              backend/apps/library/services.py: loans, copies, fines
--   Audit                backend/apps/audit/services.py: `canonical_payload`, `_write`,
--                        `verify_chain`
--   Examples             concrete runs
-- An operation of a service is a function of the same name, from the tables that it reads and the
-- arguments of its call to the tables that it leaves, or to the error that it raises. A file's
-- child modules hold what is proved about its definitions.
--
-- State. A table of the ORM is the list of its rows, in the order in which the code reads it; a row
-- is a record with the fields that the code uses; `save` of a stored row replaces the row with its
-- key, and of a new one adds it under the next key. A transaction that raises leaves the tables as
-- they were, so that a raised exception is a value without tables; where the code catches it and
-- goes on, in the sync engine, what it rolls back and what it keeps is written out. The present
-- time is an argument. A foreign key is taken to name a row.
--
-- Numbers. Percentages, scores, weights and grade points have two decimals in the database and are
-- numbers of hundredths here: signed where the code can meet a negative value, as in a moderated
-- score. `grade_for` takes a decimal of any scale, as the code does. A quotient or product of decimals is rounded to 28 significant digits, half to even, as
-- the default context does it; the search for the scale at which a value has 28 digits runs over at
-- most 60 decimals, which values of at least 10 ^ -32 need no more than. Negative maxima of
-- assessments and negative grade points are outside of the model.
--
-- Parameters. SHA-256, `json.dumps`, the audit port of the sync engine, the handlers of the sync
-- engine and the hold providers are parameters, as are a user's permissions, the payment provider, what
-- `int` makes of a text,
-- the digest of a file, the check of an address and the template of student identifiers as
-- `str.format` fills it. The trail's tamper evidence is stated under the hypothesis that the digest
-- has no collision.
--
-- Not modelled: quota rules that are no object or whose buckets are no objects, and numbers with a
-- fraction in them; a process that is killed between two transactions of one operation of the sync engine;
-- HTTP views, serializers and permissions, migrations, settings and the frontend,
-- which are glue; the audit entries that saves of other models cause, which only the trail itself
-- models; the reports of finance, the notifications of admissions, columns that are only stored,
-- such as a date of birth, and their validation, appraisals of the staff, documents, accounts,
-- communications, alumni and reporting.
pub mod Prelude
pub mod Decimal
pub mod Academics
pub mod Admissions
pub mod Core
pub mod Attendance
pub mod Audit
pub mod Curriculum
pub mod Enrollment
pub mod Examinations
pub mod Examples
pub mod Finance
pub mod Hostel
pub mod Hr
pub mod Library
pub mod Registry
pub mod Timetabling
