-- ===== src/System/Clash/Same.antt =====
-- Two tasks that drew the same number for their result files (StudentManagementServer/CMySqlTask.cpp).
use school_information_manag.Prelude.{
  ℕ, ◌≡◌, ◌≢◌, refl, true, false, some, append-nil, drop-nil, arith, length, ◌==◌, ==_iff,
  bytes_eq_refl,
}
use school_information_manag.Transfer.{send_file_to_client}
use school_information_manag.System.Clash.{
  drawn, sent, Folder, open_file, write_file, send_file, opens, writes, sends, Reach, here, next,
}

-- Two queries whose files open and have the same name can mix up their results: the first client is
-- sent a header with the code of its own query and, in it, the whole table of the second query.
pub same_name_mixes :
    (s : Folder) (i k : ℕ)
    → i ≢ k
    → (s.jobs i).place ≡ drawn
    → (s.jobs k).place ≡ drawn
    → (s.jobs i).name ≡ (s.jobs k).name
    → (now : Folder) × Reach s now
      × ((now.jobs i).place ≡ sent)
      × ((now.jobs i).out
          ≡ send_file_to_client (some (s.jobs k).file) (s.jobs i).n_cmd (s.jobs i).out)
unfolding open_file write_file send_file
same_name_mixes s i k n p q e =
    let ii : (i == i) ≡ true = (==_iff i i).1 refl in
    let kk : (k == k) ≡ true = (==_iff k k).1 refl in
    let ki : (k == i) ≡ false = ground (arith, n) in
    let ik : (i == k) ≡ false = ground (arith, n) in
    let s1 = open_file i s in
    let s2 = write_file i s1 in
    let s3 = open_file k s2 in
    let s4 = write_file k s3 in
    (
      send_file i s4,
      next
          (next
            (next (next (next here (opens i s p)) (writes i s1 (rw ii refl)))
              (opens k s2 (rw ki q)))
            (writes k s3 (rw kk refl)))
          (sends i s4 (rw ik (rw ii refl))),
      rw ii refl,
      rw (ii, kk, ki, ik)
          (rw e (
            rw (bytes_eq_refl (s.jobs k).name)
              (rw (drop-nil (length (s.jobs k).file)) (rw (append-nil (s.jobs k).file) refl)))),
    )
