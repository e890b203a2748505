-- ===== src/Server/Builds/Retained.antt =====
-- What a cleanup leaves of the jobs that have not ended.
use roodox_sever_win.Base.{
  ◌≢◌, codes, bytes_eq_iff, ℕ, zero, suc, ◌≡◌, refl, sym, ◌∙◌, inl, inr, some, Bool, false,
  Bool-cases, ◌-◌, [], ◌∷◌, Bytes, bytes_eq, bytes_eq→eq, keep_if, take, drop, leb, length, ℤ,
  non_positive, pos_part, ◌==◌, arith,
}
use mathlib.Core.Path.{subst}
use roodox_sever_win.Base.Dict.{Dict, get, remove, get-remove, bytes_in, Distinct, bytes_in-keep_if}
use roodox_sever_win.Server.Builds.{
  BuildJob, Retention, is_terminal_build_status, insert_job, sort_jobs, over_limit,
  build_removals_for_byte_limit, remove_jobs, expired_jobs, terminal_jobs, extra_jobs, after_count,
  cleanup_jobs,
}

-- No job of the list has the id.
abbrev IsOff : Bytes → Dict BuildJob → Type 0
IsOff id es = bytes_in id es ≡ false

insert-IsOff :
    (id : Bytes) (e : Bytes × BuildJob) (es : Dict BuildJob)
    → IsOff id (e ∷ es)
    → IsOff id (insert_job e es)
unfolding bytes_in insert_job
insert-IsOff id e [] h = h
insert-IsOff id e (c ∷ cs) h = ground (arith, insert-IsOff id e cs)

sort-IsOff : (id : Bytes) (es : Dict BuildJob) → IsOff id es → IsOff id (sort_jobs es)
unfolding bytes_in sort_jobs
sort-IsOff id [] h = refl
sort-IsOff id (e ∷ es) h = ground (arith, sort-IsOff id es, insert-IsOff id e (sort_jobs es))

take-IsOff : (id : Bytes) (n : ℕ) (es : Dict BuildJob) → IsOff id es → IsOff id (take n es)
unfolding bytes_in
take-IsOff id zero es h = refl
take-IsOff id (suc n) [] h = refl
take-IsOff id (suc n) (e ∷ es) h = ground (arith, take-IsOff id n es)

drop-IsOff : (id : Bytes) (n : ℕ) (es : Dict BuildJob) → IsOff id es → IsOff id (drop n es)
unfolding bytes_in
drop-IsOff id zero es h = h
drop-IsOff id (suc n) [] h = refl
drop-IsOff id (suc n) (e ∷ es) h = drop-IsOff id n es (ground arith)

over_limit-IsOff :
    (id : Bytes) (size_of : Bytes → ℕ) (total max : ℕ) (es : Dict BuildJob)
    → IsOff id es
    → IsOff id (over_limit size_of total max es)
unfolding bytes_in over_limit
over_limit-IsOff id size_of total max [] h = refl
over_limit-IsOff id size_of total max (e ∷ es) h = elim (Bool-cases (leb total max)) [
  | inl f ↦ rw f refl
  | inr f ↦ rw f (ground (arith, over_limit-IsOff id size_of (total - size_of e.1.work_dir) max es))
]

byte_limit-IsOff :
    (id : Bytes) (size_of : Bytes → ℕ) (max : ℤ) (es : Dict BuildJob)
    → IsOff id es
    → IsOff id (build_removals_for_byte_limit size_of max es)
unfolding build_removals_for_byte_limit
byte_limit-IsOff id size_of max es h = elim (Bool-cases (non_positive max)) [
  | inl f ↦ rw f (unfold bytes_in in refl)
  | inr f ↦ rw f (over_limit-IsOff id size_of _ (pos_part max) (sort_jobs es) (sort-IsOff id es h))
]

after_count-IsOff :
    (id : Bytes) (extra : ℕ) (es : Dict BuildJob) → IsOff id es → IsOff id (after_count extra es)
after_count-IsOff id extra es h = elim (Bool-cases (extra == 0)) [
  | inl f ↦ rw f h
  | inr f ↦ rw f (drop-IsOff id extra (sort_jobs es) (sort-IsOff id es h))
]

get-remove_jobs :
    (id : Bytes) (es jobs : Dict BuildJob)
    → IsOff id es
    → get (remove_jobs es jobs) id ≡ get jobs id
unfolding remove_jobs bytes_in
get-remove_jobs id [] jobs h = refl
get-remove_jobs id (e ∷ es) jobs h =
    let other : bytes_eq e.0 id ≡ false = ground arith in
    get-remove_jobs id es (remove jobs e.0) (ground arith) ∙ get-remove jobs e.0 id ∙ rw other refl

-- A test that only jobs that have ended pass leaves out a job that has not.
not_kept :
    (id : Bytes) (q : Bytes × BuildJob → Bool) (j : BuildJob) (jobs : Dict BuildJob)
    → Distinct jobs
    → get jobs id ≡ some j
    → q (id, j) ≡ false
    → IsOff id (keep_if q jobs)
unfolding get bytes_in
not_kept id q j [] d h n = refl
not_kept id q j ((i, a) ∷ jobs) d h n = elim (Bool-cases (bytes_eq i id)) [
  | inl e ↦
      (let same : i ≡ id = bytes_eq→eq i id e in
        let job : some a ≡ some j = rw e at h in
        let off : q (i, a) ≡ false =
          subst (λ b. q (i, b) ≡ false) (cc job) (subst (λ k. q (k, j) ≡ false) (sym same) n) in
        rw off (bytes_in-keep_if q jobs id (subst (λ k. bytes_in k jobs ≡ false) same d.0)))
  | inr e ↦
      (let rest = not_kept id q j jobs d.1 (rw e at h) n in
        elim (Bool-cases (q (i, a))) [ inl f ↦ rw (f, e) rest | inr f ↦ rw f rest ])
]

not_ended :
    (status : Bytes)
    → status ≢ codes "success"
    → status ≢ codes "failed"
    → is_terminal_build_status status ≡ false
unfolding is_terminal_build_status
not_ended status a b =
    ground (arith, bytes_eq_iff status (codes "success"), bytes_eq_iff status (codes "failed"))

-- The cleanup of build jobs, with any settings and whatever sizes it finds, leaves every job as
-- it is whose status is neither success nor failed. Each job has an id of its own.
pub cleanup_jobs_kept :
    (r : Retention) (size_of : Bytes → ℕ) (now : ℕ) (jobs : Dict BuildJob) (id : Bytes)
    (j : BuildJob)
    → Distinct jobs
    → get jobs id ≡ some j
    → j.status ≢ codes "success"
    → j.status ≢ codes "failed"
    → get (cleanup_jobs r size_of now jobs).1 id ≡ some j
unfolding cleanup_jobs
cleanup_jobs_kept r size_of now jobs id j d h no_success no_failure =
    let n = not_ended j.status no_success no_failure in
    let expired : IsOff id (expired_jobs r now jobs) = not_kept id _ j jobs d h (rw n refl) in
    let terminal : IsOff id (terminal_jobs r now jobs) = not_kept id _ j jobs d h (rw n refl) in
    let extra = extra_jobs r (length jobs - length (expired_jobs r now jobs)) in
    get-remove_jobs id _ _ (
      byte_limit-IsOff id size_of r.max_retained_bytes _
        (after_count-IsOff id extra (terminal_jobs r now jobs) terminal))
    ∙ get-remove_jobs id _ _ (
        take-IsOff id extra (sort_jobs (terminal_jobs r now jobs))
          (sort-IsOff id (terminal_jobs r now jobs) terminal))
    ∙ get-remove_jobs id (expired_jobs r now jobs) jobs expired
    ∙ h
