-- ===== src/ThreadPool/Full.antt =====
-- StudentManagementServer/CThreadPool.cpp: a pool whose workers are all in a `DoTask` that does not come
-- back.
use school_information_manag.Prelude.{
  ℕ, ◌<◌, ◌≡◌, ◌⊎◌, refl, sym, ap, ◌∙◌, subst, inl, inr, List, [], ◌∷◌, ◌++◌, arith, length,
  length-append,
}
use school_information_manag.ThreadPool.{
  Worker, asleep, busy, Owner, serving, added_one, stopping, joining, draining, ended, exited,
  Shared, Pool, WorkerMove, do_task, OwnerMove, push, push_null, notify_one, notify_nobody,
  stop_running, notify_all, joined, run_left, finish, Step, worker, main, woken,
}

last : ℕ → List ℕ → ℕ
last default [] = default
last default (x ∷ xs) = last x xs

last-append : (d x : ℕ) (xs : List ℕ) → last d (xs ++ x ∷ []) ≡ x
unfolding last
last-append d x [] = refl
last-append d x (y ∷ xs) = last-append y x xs

longer : (xs : List ℕ) (x : ℕ) → ¬ (xs ++ x ∷ [] ≡ xs)
longer xs x e = omega (arith, ap length e, length-append xs (x ∷ []))

asleep-busy : (t : ℕ) → ¬ (asleep ≡ busy t)
asleep-busy t e = cc

exited-busy : (t : ℕ) → ¬ (exited ≡ busy t)
exited-busy t e = cc

-- `Wait` has not joined the workers yet.
abbrev pub NotJoined : Owner → Type 0
NotJoined serving = Unit
NotJoined added_one = Unit
NotJoined stopping = Unit
NotJoined joining = Unit
NotJoined (draining l) = ⊥
NotJoined ended = ⊥

-- `Returns t` says that the call of `DoTask` on task `t` comes back at some time.
module _ (Returns : ℕ → Type 0) where
  -- Between two states a task was done only if its `DoTask` comes back.
  abbrev pub Done : Shared → Shared → Type 0
  Done m m' = (m'.done ≡ m.done) ⊎ ((t : ℕ) × (m'.done ≡ m.done ++ t ∷ []) × Returns t)

  -- Steps of any threads in any order.
  pub data Meanwhile (n : ℕ) (s : Pool) : Pool → Type 0 where
    here : Meanwhile n s s
    then : {t u : Pool} → Meanwhile n s t → Step n t u → Done t.shared u.shared → Meanwhile n s u

  -- The worker is in a `DoTask` that does not come back.
  abbrev pub Stuck : Worker → Type 0
  Stuck w = (t : ℕ) × (w ≡ busy t) × ¬ Returns t

  abbrev pub AllStuck : ℕ → (ℕ → Worker) → Type 0
  AllStuck n f = (i : ℕ) → i < n → Stuck (f i)

  WorkerMove-busy :
      {m m' : Shared} {i t : ℕ} {w' : Worker}
      → WorkerMove m i (busy t) m' w'
      → ¬ Returns t
      → ¬ Done m m'
  WorkerMove-busy {m} (do_task {t}) r (inl e) = longer m.done t e
  WorkerMove-busy {m} (do_task {t}) r (inr (a, e, back)) =
      let same : t ≡ a = sym (last-append 0 t m.done) ∙ ap (last 0) e ∙ last-append 0 a m.done in
      r (subst Returns (sym same) back)

  WorkerMove-Stuck :
      {m m' : Shared} {i : ℕ} {w w' : Worker} → WorkerMove m i w m' w' → Stuck w → ¬ Done m m'
  WorkerMove-Stuck {m} {m'} {i} {w'} mv (t, e, r) =
      WorkerMove-busy (subst (λ v. WorkerMove m i v m' w') e mv) r

  -- The steps of the owner start nothing, and wake nobody who works.
  OwnerMove-AllStuck :
      {n : ℕ} {m m' : Shared} {f f' : ℕ → Worker} {o o' : Owner}
      → 0 < n
      → OwnerMove n m f o m' o' f'
      → NotJoined o
      → AllStuck n f
      → (m'.started ≡ m.started) × NotJoined o' × AllStuck n f'
  OwnerMove-AllStuck p (push t l) j b = (refl, tt, b)
  OwnerMove-AllStuck p (push_null l) j b = (refl, tt, b)
  OwnerMove-AllStuck p (notify_one i k a) j b = absurd (asleep-busy (b i k).0 (sym a ∙ (b i k).1))
  OwnerMove-AllStuck p (notify_nobody h) j b = (refl, tt, b)
  OwnerMove-AllStuck p stop_running j b = (refl, tt, b)
  OwnerMove-AllStuck p notify_all j b =
      (refl, tt, λ i k. ((b i k).0, ap woken (b i k).1, (b i k).2))
  OwnerMove-AllStuck p (joined h) j b = absurd (exited-busy (b 0 p).0 (sym (h 0 p) ∙ (b 0 p).1))
  OwnerMove-AllStuck p run_left j b = absurd j
  OwnerMove-AllStuck p finish j b = absurd j

  Meanwhile-AllStuck :
      {n : ℕ} {s t : Pool}
      → 0 < n
      → Meanwhile n s t
      → NotJoined s.owner
      → AllStuck n s.workers
      → (t.shared.started ≡ s.shared.started) × NotJoined t.owner × AllStuck n t.workers
  Meanwhile-AllStuck p here j b = (refl, j, b)
  Meanwhile-AllStuck p (then r (worker i l mv) d) j b =
      absurd (WorkerMove-Stuck mv ((Meanwhile-AllStuck p r j b).2 i l) d)
  Meanwhile-AllStuck p (then r (main mv) d) j b =
      let before = Meanwhile-AllStuck p r j b in
      let now = OwnerMove-AllStuck p mv before.1 before.2 in (now.0 ∙ before.0, now.1, now.2)

  -- A pool with a worker at least, all of whose workers are in calls of `DoTask` that do not come
  -- back, starts nothing more, whatever the threads do and whatever tasks are added.
  pub full_starves :
      {n : ℕ} {s t : Pool}
      → 0 < n
      → Meanwhile n s t
      → NotJoined s.owner
      → AllStuck n s.workers
      → t.shared.started ≡ s.shared.started
  full_starves p r j b = (Meanwhile-AllStuck p r j b).0
