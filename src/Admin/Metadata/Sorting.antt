-- ===== src/Admin/Metadata/Sorting.antt =====
-- The order in which /metadata of master/admin_routes.py lists the jobs.
use mathlib.Core.List.{Perm}
use mathlib.Core.List.Perm
use dip.Prelude.{
  ℕ, ◌+◌, ◌≤◌, ◌≡◌, refl, List, [], ◌∷◌, ltb, length, arith, All, inl, inr, Bool-cases,
}
use dip.Admin.Metadata.{JobInfo, insert_job, sort_jobs}

-- No job of the list is younger than the ones before it.
abbrev pub NewestFirst : List JobInfo → Type 0
NewestFirst [] = Unit {0}
NewestFirst (a ∷ jobs) = All (λ (b : JobInfo). b.created_at ≤ a.created_at) jobs × NewestFirst jobs

All-insert_job :
    (n : ℕ) (a : JobInfo) (jobs : List JobInfo)
    → a.created_at ≤ n
    → All (λ (b : JobInfo). b.created_at ≤ n) jobs
    → All (λ (b : JobInfo). b.created_at ≤ n) (insert_job a jobs)
All-insert_job n a [] h k = (h, tt)
All-insert_job n a (b ∷ bs) h k = elim (Bool-cases (ltb a.created_at b.created_at)) [
  | inl e ↦ rw e (k.0, All-insert_job n a bs h k.1)
  | inr e ↦ rw e (h, k)
]

All-le :
    (m n : ℕ) (jobs : List JobInfo)
    → m ≤ n
    → All (λ (b : JobInfo). b.created_at ≤ m) jobs
    → All (λ (b : JobInfo). b.created_at ≤ n) jobs
All-le m n [] h k = tt
All-le m n (b ∷ bs) h k = (omega (arith, k.0, h), All-le m n bs h k.1)

insert_job-NewestFirst :
    (a : JobInfo) (jobs : List JobInfo) → NewestFirst jobs → NewestFirst (insert_job a jobs)
insert_job-NewestFirst a [] k = (tt, tt)
insert_job-NewestFirst a (b ∷ bs) k = elim (Bool-cases (ltb a.created_at b.created_at)) [
  | inl e ↦
      rw e
        (All-insert_job b.created_at a bs (ground (arith, e)) k.0, insert_job-NewestFirst a bs k.1)
  | inr e ↦
      let older : b.created_at ≤ a.created_at = ground (arith, e) in
      rw e ((older, All-le b.created_at a.created_at bs older k.0), k)
]

pub sort_jobs-NewestFirst : (jobs : List JobInfo) → NewestFirst (sort_jobs jobs)
sort_jobs-NewestFirst [] = tt
sort_jobs-NewestFirst (a ∷ jobs) =
    insert_job-NewestFirst a (sort_jobs jobs) (sort_jobs-NewestFirst jobs)

insert_job-perm : (a : JobInfo) (jobs : List JobInfo) → Perm (insert_job a jobs) (a ∷ jobs)
insert_job-perm a [] = Perm.refl (a ∷ [])
insert_job-perm a (b ∷ bs) = elim (Bool-cases (ltb a.created_at b.created_at)) [
  | inl e ↦ rw e (Perm.trans (Perm.cons b (insert_job-perm a bs)) (Perm.swap a b bs))
  | inr e ↦ rw e (Perm.refl (a ∷ b ∷ bs))
]

pub sort_jobs-perm : (jobs : List JobInfo) → Perm (sort_jobs jobs) jobs
sort_jobs-perm [] = Perm.refl []
sort_jobs-perm (a ∷ jobs) =
    Perm.trans (insert_job-perm a (sort_jobs jobs)) (Perm.cons a (sort_jobs-perm jobs))

length-insert_job :
    (a : JobInfo) (jobs : List JobInfo) → length (insert_job a jobs) ≡ length jobs + 1
length-insert_job a [] = omega arith
length-insert_job a (b ∷ bs) = ground (arith, length-insert_job a bs)

pub length-sort_jobs : (jobs : List JobInfo) → length jobs ≡ length (sort_jobs jobs)
length-sort_jobs [] = refl
length-sort_jobs (a ∷ jobs) =
    omega (arith, length-insert_job a (sort_jobs jobs), length-sort_jobs jobs)
