-- ===== src/System/Clash/Apart.antt =====
-- Tasks whose result files have different names (StudentManagementServer/CMySqlTask.cpp).
use school_information_manag.Prelude.{
  ℕ, ap, ◌≡◌, ◌≢◌, refl, sym, ◌∙◌, subst, inl, inr, Option, some, [], append-nil, drop-nil, arith,
  length, ◌==◌, ==_iff, Bool-cases, Bytes, bytes_eq, bytes_eq_refl, bytes_eq_sound,
}
use school_information_manag.Net.{Outbox}
use school_information_manag.Server.Handlers.{update}
use school_information_manag.System.Clash.{
  Place, drawn, opened, written, sent, Job, Folder, set_job, overwrite, open_file, write_file,
  send_file, Step, opens, writes, sends, Reach, here, next, alone,
}

-- How a job that began as `j` stands when nobody else touches its file.
abbrev At : Job → (Bytes → Option Bytes) → Outbox → Place → Type 0
At j disk out drawn = out ≡ j.out
At j disk out opened = (disk j.name ≡ some []) × (out ≡ j.out)
At j disk out written = (disk j.name ≡ some j.file) × (out ≡ j.out)
At j disk out sent = out ≡ alone j

record Progress (j : Job) (disk : Bytes → Option Bytes) (now : Job) : Type 0 where
  name : now.name ≡ j.name
  code : now.n_cmd ≡ j.n_cmd
  file : now.file ≡ j.file
  at : At j disk now.out now.place

pub update_same :
    (disk : Bytes → Option Bytes) (name bs : Bytes) → update disk name bs name ≡ some bs
update_same disk name bs = rw (bytes_eq_refl name) refl

update_other :
    (disk : Bytes → Option Bytes) (name other bs : Bytes)
    → other ≢ name
    → update disk name bs other ≡ disk other
update_other disk name other bs h = elim (Bool-cases (bytes_eq name other)) [
  | inl e ↦ absurd (h (sym (bytes_eq_sound name other e)))
  | inr e ↦ rw e refl
]

-- Only the job's own file matters to it.
At-disk :
    (j : Job) (disk disk' : Bytes → Option Bytes) (out : Outbox) (p : Place)
    → disk' j.name ≡ disk j.name
    → At j disk out p
    → At j disk' out p
At-disk j disk disk' out drawn e h = h
At-disk j disk disk' out opened e h = (e ∙ h.0, h.1)
At-disk j disk disk' out written e h = (e ∙ h.0, h.1)
At-disk j disk disk' out sent e h = h

Progress-disk :
    {j now : Job} (disk disk' : Bytes → Option Bytes)
    → disk' j.name ≡ disk j.name
    → Progress j disk now
    → Progress j disk' now
Progress-disk {j} {now} disk disk' e h = record {
  name = h.name;
  code = h.code;
  file = h.file;
  at = At-disk j disk disk' now.out now.place e h.at;
}

-- What holds while the steps go on: the names stay, and job `i` is where it is when it runs alone.
record Undisturbed (start : ℕ → Job) (i : ℕ) (s : Folder) : Type 0 where
  names : (k : ℕ) → (s.jobs k).name ≡ (start k).name
  own : Progress (start i) s.disk (s.jobs i)

-- Job `a` makes a step: the file of job `i` is touched only if it is job `i`.
set_job-Undisturbed :
    (start : ℕ → Job) (i a : ℕ) (s : Folder) (disk : Bytes → Option Bytes) (now : Job)
    → now.name ≡ (s.jobs a).name
    → (a ≢ i → disk (start i).name ≡ s.disk (start i).name)
    → (Progress (start a) s.disk (s.jobs a) → Progress (start a) disk now)
    → Undisturbed start i s
    → Undisturbed start i (record { disk = disk; jobs = set_job s.jobs a now })
set_job-Undisturbed start i a s disk now same others step h = record {
  names = λ k. elim (Bool-cases (k == a)) [
    | inl e ↦ rw e (same ∙ h.names a ∙ ap (λ n. (start n).name) (sym ((==_iff k a).0 e)))
    | inr e ↦ rw e (h.names k)
  ];
  own = elim (Bool-cases (i == a)) [
    | inl e ↦
        let at_a = (==_iff i a).0 e in
        rw e (
          subst (λ n. Progress (start n) disk now) (sym at_a)
            (step (subst (λ n. Progress (start n) s.disk (s.jobs n)) at_a h.own)))
    | inr e ↦ rw e (Progress-disk s.disk disk (others (λ f. absurd (ground (arith, f, e)))) h.own)
  ];
}

-- Job `a` writes its file.
update-Undisturbed :
    (start : ℕ → Job) (i a : ℕ) (s : Folder) (bs : Bytes) (now : Job)
    → ((k : ℕ) → k ≢ i → (start k).name ≢ (start i).name)
    → now.name ≡ (s.jobs a).name
    → (Progress (start a) s.disk (s.jobs a)
        → Progress (start a) (update s.disk (s.jobs a).name bs) now)
    → Undisturbed start i s
    → Undisturbed start i
        (record { disk = update s.disk (s.jobs a).name bs; jobs = set_job s.jobs a now })
update-Undisturbed start i a s bs now apart same step h =
    set_job-Undisturbed start i a s (update s.disk (s.jobs a).name bs) now same
      (λ n.
        update_other s.disk (s.jobs a).name (start i).name bs
          (λ e. apart a n (sym (e ∙ h.names a))))
      step h

Step-Undisturbed :
    (start : ℕ → Job) (i : ℕ) {s t : Folder}
    → ((k : ℕ) → k ≢ i → (start k).name ≢ (start i).name)
    → Step s t
    → Undisturbed start i s
    → Undisturbed start i t
unfolding open_file write_file send_file
Step-Undisturbed start i apart (opens a s p) =
    update-Undisturbed start i a s [] _ apart refl (λ own.
      let out = subst (At (start a) s.disk (s.jobs a).out) p own.at in
      record {
        name = own.name;
        code = own.code;
        file = own.file;
        at = (rw own.name (update_same s.disk (start a).name []), out);
      })
Step-Undisturbed start i apart (writes a s p) =
    update-Undisturbed start i a s _ _ apart refl (λ own.
      let empty = subst (At (start a) s.disk (s.jobs a).out) p own.at in
      let content : overwrite (s.jobs a).file (s.disk (start a).name) ≡ (start a).file =
        rw (empty.0)
          (rw (drop-nil (length (s.jobs a).file)) (append-nil (s.jobs a).file ∙ own.file)) in
      record {
        name = own.name;
        code = own.code;
        file = own.file;
        at = (rw own.name (rw content (update_same s.disk (start a).name (start a).file)), empty.1);
      })
Step-Undisturbed start i apart (sends a s p) =
    set_job-Undisturbed start i a s s.disk _ refl (λ n. refl)
      (λ own.
        let full = subst (At (start a) s.disk (s.jobs a).out) p own.at in
        record {
          name = own.name;
          code = own.code;
          file = own.file;
          at = rw own.name (rw own.code (rw (full.0) (rw (full.1) refl)));
        })

Reach-Undisturbed :
    (start : ℕ → Job) (i : ℕ) {s t : Folder}
    → ((k : ℕ) → k ≢ i → (start k).name ≢ (start i).name)
    → Reach s t
    → Undisturbed start i s
    → Undisturbed start i t
Reach-Undisturbed start i apart here h = h
Reach-Undisturbed start i apart (next r st) h =
    Step-Undisturbed start i apart st (Reach-Undisturbed start i apart r h)

-- Any number of queries at the same time, in whatever order their steps come: when the file of one of
-- them opens and no other query has drawn its name, its client, once it is served, has been sent just
-- what it is sent when no other query runs.
pub apart_undisturbed :
    (start now : Folder) (i : ℕ)
    → (start.jobs i).place ≡ drawn
    → ((k : ℕ) → k ≢ i → (start.jobs k).name ≢ (start.jobs i).name)
    → Reach start now
    → (now.jobs i).place ≡ sent
    → (now.jobs i).out ≡ alone (start.jobs i)
apart_undisturbed start now i fresh apart r p =
    let begin : Undisturbed start.jobs i start = record {
      names = λ k. refl;
      own = record { name = refl; code = refl; file = refl; at = rw fresh refl };
    } in
    subst (At (start.jobs i) now.disk (now.jobs i).out) p
      (Reach-Undisturbed start.jobs i apart r begin).own.at
