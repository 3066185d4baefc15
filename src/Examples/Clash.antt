-- ===== src/Examples/Clash.antt =====
-- Two queries for classes and for courses that run at the same time.
use school_information_manag.Prelude.{
  ℕ, zero, suc, ◌≡◌, ◌≢◌, refl, arith, ap, none, some, List, [], ◌∷◌, Bytes, codes, pos, length,
  ◌≤◌,
}
use school_information_manag.Proto.{PacketHdr}
use school_information_manag.Proto.Requests.{query_code, class, course}
use school_information_manag.Net.{outbox_of}
use school_information_manag.Transfer.{send_file_to_client}
use school_information_manag.Server.State.{Task, unset}
use school_information_manag.System.Clash.{
  drawn, sent, Job, Folder, open_file, write_file, send_file, opens, writes, sends, Reach, here,
  next, alone,
}
use school_information_manag.System.Clash.Apart.{apart_undisturbed}
use school_information_manag.System.Clash.Same.{same_name_mixes}
use school_information_manag.System.Clash.Draws.{number, job_of, Served, job_of-Served}
use school_information_manag.Examples.Fixtures.{db, machine, task}
use school_information_manag.Examples.Files.{three-IsPlain}

abbrev class_job : Job
class_job = record {
  name = codes "result7.txt";
  n_cmd = query_code class;
  file = codes "A";
  out = outbox_of [];
  place = drawn;
}

abbrev course_job : Bytes → Job
course_job name = record {
  name = name;
  n_cmd = query_code course;
  file = codes "B";
  out = outbox_of [];
  place = drawn;
}

-- Job 0 is for classes and all others are for courses.
abbrev jobs_of : Bytes → ℕ → Job
jobs_of name zero = class_job
jobs_of name (suc n) = course_job name

abbrev begin : Bytes → Folder
begin name = record { disk = λ n. none; jobs = jobs_of name }

others_apart : (k : ℕ) → k ≢ 0 → (jobs_of (codes "result70.txt") k).name ≢ codes "result7.txt"
others_apart zero h = absurd (h refl)
others_apart (suc k) h = λ e. absurd (omega (arith, ap length e))

-- The task for classes does its three steps, a task for courses its first one before the last of them.
abbrev mixed : Folder
mixed = send_file 0 (open_file 1 (write_file 0 (open_file 0 (begin (codes "result70.txt")))))

mixed-Reach : Reach (begin (codes "result70.txt")) mixed
unfolding open_file write_file send_file
mixed-Reach =
    next (next (next (next here (opens 0 _ refl)) (writes 0 _ refl)) (opens 1 _ refl))
      (sends 0 _ refl)

apart_undisturbed_example : (mixed.jobs 0).out ≡ alone class_job
unfolding open_file write_file send_file
apart_undisturbed_example =
    apart_undisturbed (begin (codes "result70.txt")) mixed 0 refl others_apart mixed-Reach refl

same_name_mixes_example :
    (now : Folder) × Reach (begin (codes "result7.txt")) now
    × ((now.jobs 0).place ≡ sent)
    × ((now.jobs 0).out ≡ send_file_to_client (some (codes "B")) (query_code class) (outbox_of []))
same_name_mixes_example =
    same_name_mixes (begin (codes "result7.txt")) 0 1 (λ e. absurd (omega (arith, e))) refl refl
      refl

-- The tasks that yield these jobs: task 0 drew 7 and all others 70.
abbrev askers : ℕ → Task (db (pos 0) none)
askers zero = task (pos 0) none unset
askers (suc k) = record (task (pos 0) none unset) { draws = 70 ∷ [] }

abbrev headers : ℕ → PacketHdr
headers zero = record { n_cmd = query_code class; n_len = 5 }
headers (suc k) = record { n_cmd = query_code course; n_len = 6 }

abbrev tables : ℕ → List (List Bytes)
tables zero = ((51 ∷ []) ∷ []) ∷ []
tables (suc k) = []

abbrev asked : Folder
asked = record { disk = λ n. none; jobs = λ k. job_of (headers k) (tables k) (askers k) }

abbrev both : Folder
both = send_file 0 (open_file 1 (write_file 0 (open_file 0 asked)))

both-Reach : Reach asked both
unfolding open_file write_file send_file
both-Reach =
    next (next (next (next here (opens 0 _ refl)) (writes 0 _ refl)) (opens 1 _ refl))
      (sends 0 _ refl)

at_most_100 : (k : ℕ) → number (askers k) ≤ 100
at_most_100 zero = omega arith
at_most_100 (suc k) = omega arith

other_numbers : (k : ℕ) → k ≢ 0 → number (askers k) ≢ 7
other_numbers zero h = absurd (h refl)
other_numbers (suc k) h = λ e. absurd (omega (arith, e))

job_of-Served_example :
    Served machine 1 (headers 0) (tables 0) (task (pos 0) none unset) (both.jobs 0)
unfolding open_file write_file send_file
job_of-Served_example =
    job_of-Served machine 1 headers tables askers (λ n. none) both 0 at_most_100 other_numbers refl
      ((omega arith, ((three-IsPlain, tt), tt)), tt) refl both-Reach refl
