-- ===== src/System/Clash.antt =====
-- The result files of tasks that run at the same time (the QUERY case of CMySqlTask::DoTask and
-- sendFileToClient, StudentManagementServer/CMySqlTask.cpp): they all lie in one working directory, and a
-- number from 1 to 100 is all that tells them apart.
pub mod Apart
pub mod Draws
pub mod Same
use school_information_manag.Prelude.{
  ℕ, ◌≡◌, Option, none, some, [], ◌++◌, drop, length, ◌==◌, if◌then◌else◌, Bytes,
}
use school_information_manag.Net.{Outbox}
use school_information_manag.Transfer.{send_file_to_client}
use school_information_manag.Server.Handlers.{update}

-- How far a task is with its result: the number is drawn, the file is open and empty, the file is
-- written and closed, or it is sent.
pub data Place : Type 0 where
  drawn opened written sent : Place

-- One query whose file opens: `file` are the bytes that its rows make on the disk.
pub record Job : Type 0 where
  pub name : Bytes
  pub n_cmd : ℕ
  pub file : Bytes
  pub out : Outbox
  pub place : Place

pub record Folder : Type 0 where
  pub disk : Bytes → Option Bytes
  pub jobs : ℕ → Job

abbrev pub set_job : (ℕ → Job) → ℕ → Job → ℕ → Job
set_job jobs i j k = if k == i then j else jobs k

-- What a stream was given is taken to reach the disk when it is closed, where the bytes replace the
-- beginning of what the file holds.
abbrev pub overwrite : Bytes → Option Bytes → Bytes
overwrite bs none = bs
overwrite bs (some old) = bs ++ drop (length bs) old

-- `std::ofstream file(newFilename);`
unfoldable pub open_file : ℕ → Folder → Folder
open_file i s = record {
  disk = update s.disk (s.jobs i).name [];
  jobs = set_job s.jobs i (record (s.jobs i) { place = opened });
}

-- The loop over the rows and `file.close();`
unfoldable pub write_file : ℕ → Folder → Folder
write_file i s =
    let j = s.jobs i in
    record {
      disk = update s.disk j.name (overwrite j.file (s.disk j.name));
      jobs = set_job s.jobs i (record j { place = written });
    }

-- `sendFileToClient(m_clientSocket, newFilename, hdr.nCmd);`
unfoldable pub send_file : ℕ → Folder → Folder
send_file i s =
    let j = s.jobs i in
    record s {
      jobs =
          set_job s.jobs i
            (record j { out = send_file_to_client (s.disk j.name) j.n_cmd j.out; place = sent });
    }

-- One step of one task.
pub data Step : Folder → Folder → Type 0 where
  opens : (i : ℕ) (s : Folder) → (s.jobs i).place ≡ drawn → Step s (open_file i s)
  writes : (i : ℕ) (s : Folder) → (s.jobs i).place ≡ opened → Step s (write_file i s)
  sends : (i : ℕ) (s : Folder) → (s.jobs i).place ≡ written → Step s (send_file i s)

pub data Reach (s : Folder) : Folder → Type 0 where
  here : Reach s s
  next : {t u : Folder} → Reach s t → Step t u → Reach s u

-- What the client of a job gets when no other task runs.
abbrev pub alone : Job → Outbox
alone j = send_file_to_client (some j.file) j.n_cmd j.out
