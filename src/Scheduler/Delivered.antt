-- ===== src/Scheduler/Delivered.antt =====
-- scheduler.rs and scheduler/job.rs: which result goes to which channel. `fits` says whether a path is
-- the one that belongs to a channel of results.
pub mod Rounds
use download_manager.Base.{
  ℕ, ◌≡◌, refl, Bool, true, false, ◌&&◌, Option, none, some, List, [], ◌∷◌, arith, ◌==◌,
  if◌then◌else◌, lookup, erase, lookup-insert, lookup-erase, Option-cases, inl, inr, subst,
  some_inj, u32, ◌+◌, ◌∙◌,
}
use download_manager.Http.{StatusCode}
use download_manager.Error.{Error, Result, ok, err}
use download_manager.Request.{Request}
use download_manager.Storage.Paths.{FilePath}
use download_manager.Storage.Discard.{discard_partial}
use download_manager.Job.{
  Job, JobState, WorkerResult, finished, stopped, DownloadResult, Effect, Log, broadcast,
  acknowledge, deliver,
}
use download_manager.Job
use download_manager.Job.Methods
use download_manager.Job.Methods.{notify, finalize}
use download_manager.Scheduler.State.{Env, Scheduler, schedule, cancel_job, cancellation}
use download_manager.Scheduler.Transition.{
  on_dispatch, on_retry_elapsed, on_pause, on_resume, on_cancel, on_worker, settle, finish,
  pause_job, retry_after,
}
use download_manager.Scheduler.Backoff.{next_delay, backoff_strategy}

module _ (fits : ℕ → FilePath → Bool) where
  abbrev pub fits_job : Job → Bool
  fits_job job = elim job.result [ none ↦ true | some r ↦ fits r job.request.destination ]

  -- A job's destination belongs to its channel.
  abbrev pub keeps : Option Job → Bool
  keeps none = true
  keeps (some job) = fits_job job

  -- Each channel has been sent only results whose path belongs to it.
  abbrev pub rightly : Log → Bool
  rightly [] = true
  rightly (deliver r (ok result) ∷ log) = fits r result.path && rightly log
  rightly (_ ∷ log) = rightly log

  notify-rightly :
      (waiters : List ℕ) (result : Result (Unit {0})) (log : Log)
      → rightly (notify waiters result log) ≡ rightly log
  unfolding notify
  notify-rightly [] result log = refl
  notify-rightly (w ∷ ws) result log = notify-rightly ws result (acknowledge w result ∷ log)

  finalize-err :
      (http : StatusCode) (job : Job) (error : Error) (log : Log)
      → rightly (finalize http job (err error) log) ≡ rightly log
  unfolding finalize
  finalize-err http job error log =
      ground (
        arith,
        notify-rightly (Methods.waiters_of job.state) (Methods.acknowledged (err error)) log,
      )

  finalize-ok :
      (http : StatusCode) (job : Job) (result : DownloadResult) (log : Log)
      → ((r : ℕ) → job.result ≡ some r → fits r result.path ≡ true)
      → rightly (finalize http job (ok result) log) ≡ rightly log
  unfolding finalize
  finalize-ok http job result log right = elim (Option-cases job.result) [
    | inl nothing ↦ ground (
      arith,
      nothing,
      notify-rightly (Methods.waiters_of job.state) (Methods.acknowledged (ok result)) log,
    )
    | inr (r, found) ↦ ground (
      arith,
      found,
      right r found,
      notify-rightly (Methods.waiters_of job.state) (Methods.acknowledged (ok result)) log,
    )
  ]

  finalize-cancellation :
      (http : StatusCode) (job : Job) (result : Result (Unit {0})) (log : Log)
      → rightly (finalize http job (cancellation result) log) ≡ rightly log
  finalize-cancellation http job (ok done) log = finalize-err http job Error.cancelled log
  finalize-cancellation http job (err error) log = finalize-err http job error log

  module _ {W : Type 0} (env : Env W) where
    cancel_job-rightly :
        (job : Job) (s : Scheduler W) → rightly (cancel_job env job s).log ≡ rightly s.log
    unfolding cancel_job
    cancel_job-rightly job s =
        finalize-cancellation env.http job (discard_partial env.fs job.request.destination s.disk).0
          s.log

    cancel_job-jobs : (job : Job) (s : Scheduler W) → (cancel_job env job s).jobs ≡ s.jobs
    unfolding cancel_job
    cancel_job-jobs job s = refl

    pause_job-rightly :
        (id : ℕ) (job : Job) (s : Scheduler W)
        → rightly (pause_job env id job s).log ≡ rightly s.log
    unfolding Methods.pause
    pause_job-rightly id job s = notify-rightly (Methods.waiters_of job.state) (ok tt) s.log

  pub record Delivered {W : Type 0} (i : ℕ) (s : Scheduler W) : Type 0 where
    pub kept : keeps (lookup i s.jobs) ≡ true
    pub right : rightly s.log ≡ true

  module _ {W : Type 0} (i : ℕ) (s : Scheduler W) (d : Delivered i s) where
    pub on_dispatch-Delivered : (id : ℕ) → Delivered i (on_dispatch id s)
    unfolding on_dispatch
    on_dispatch-Delivered id = grind (arith, lookup-insert)

    pub on_retry_elapsed-Delivered : (id attempt : ℕ) → Delivered i (on_retry_elapsed id attempt s)
    unfolding on_retry_elapsed
    on_retry_elapsed-Delivered id attempt = grind (arith, lookup-insert)

    pub on_pause-Delivered : (env : Env W) (id ack : ℕ) → Delivered i (on_pause env id ack s)
    unfolding on_pause Methods.pause
    on_pause-Delivered env id ack = grind (arith, lookup-insert, notify-rightly)

    pub on_resume-Delivered : (env : Env W) (id ack : ℕ) → Delivered i (on_resume env id ack s)
    unfolding on_resume
    on_resume-Delivered env id ack = grind (arith, lookup-insert)

    pub on_cancel-Delivered : (env : Env W) (id : ℕ) → Delivered i (on_cancel env id s)
    unfolding on_cancel
    on_cancel-Delivered env id =
        grind
          (arith, lookup-insert, lookup-erase, notify-rightly, cancel_job-rightly, cancel_job-jobs)

    pub schedule-Delivered : (job : Job) → fits_job job ≡ true → Delivered i (schedule job s)
    unfolding schedule
    schedule-Delivered job e = grind (arith, lookup-insert)

  -- A worker's result is taken to fit the channel of its job.
  abbrev pub Fitting : Job → Result WorkerResult → Type 0
  Fitting job result =
      (x : DownloadResult)
      → result ≡ ok (finished x)
      → (r : ℕ) → job.result ≡ some r
      → fits r x.path ≡ true

  module _ {W : Type 0} (env : Env W) (i id : ℕ) (job : Job) (s : Scheduler W)
      (keep : fits_job job ≡ true) (d : Delivered i s) where
    finish-Delivered : (error : Error) → Delivered i (finish env job (err error) s)
    finish-Delivered error = grind (arith, finalize-err env.http job error s.log)

    stop-Delivered : Delivered i (cancel_job env job s)
    stop-Delivered = grind (arith, cancel_job-rightly env job s, cancel_job-jobs env job s)

    pause_job-Delivered : Delivered i (pause_job env id job s)
    unfolding Methods.pause
    pause_job-Delivered = grind (arith, lookup-insert, notify-rightly)

    retry_after-Delivered :
        (delay : Option ℕ) {t : Scheduler W}
        → retry_after env delay id job s ≡ some t
        → Delivered i t
    unfolding Methods.retry
    retry_after-Delivered delay e = grind (arith, lookup-insert)

  module _ {W : Type 0} (env : Env W) (i id : ℕ) where
    settle-Delivered :
        (state : JobState) (result : Result WorkerResult) (job : Job) (s : Scheduler W)
        {t : Scheduler W}
        → fits_job job ≡ true
        → Fitting job result
        → Delivered i s
        → settle env state result id job s ≡ some t
        → Delivered i t
    settle-Delivered state (ok (finished x)) job s keep fit d e =
        subst (Delivered i) (some_inj e)
          (grind (arith, finalize-ok env.http job x s.log (fit x refl)))
    settle-Delivered Job.cancelling (ok stopped) job s keep fit d e =
        subst (Delivered i) (some_inj e) (stop-Delivered env i id job s keep d)
    settle-Delivered Job.cancelling (err error) job s keep fit d e =
        subst (Delivered i) (some_inj e) (stop-Delivered env i id job s keep d)
    settle-Delivered (Job.pausing ws) (ok stopped) job s keep fit d e =
        subst (Delivered i) (some_inj e) (pause_job-Delivered env i id job s keep d)
    settle-Delivered (Job.pausing ws) (err error) job s keep fit d e = ground (
      arith,
      finish-Delivered env i id job s keep d error,
      pause_job-Delivered env i id (record job { attempt = u32 (job.attempt + 1) }) s keep d,
    )
    settle-Delivered (Job.running stop) (ok stopped) job s keep fit d e =
        subst (Delivered i) (some_inj e) (stop-Delivered env i id job s keep d)
    settle-Delivered _ (err error) job s {t = t} keep fit d e = ground (
      arith,
      finish-Delivered env i id job s keep d error,
      retry_after-Delivered env i id job s keep d (next_delay backoff_strategy job.attempt) {t = t},
    )
    settle-Delivered _ (ok stopped) job s keep fit d e =
        subst (Delivered i) (some_inj e) (finish-Delivered env i id job s keep d _)

    pub on_worker-Delivered :
        (result : Result WorkerResult) (s : Scheduler W) {t : Scheduler W}
        → ((job : Job) → lookup id s.jobs ≡ some job → Fitting job result)
        → Delivered id s
        → Delivered i s
        → on_worker env id result s ≡ some t
        → Delivered i t
    unfolding on_worker
    on_worker-Delivered result s fit own d e = elim (Option-cases (lookup id s.jobs)) [
      | inl missing ↦ grind arith
      | inr (job, found) ↦
          settle-Delivered job.state result job (record s { jobs = erase id s.jobs })
            (rw found at own.kept) (fit job found) (grind (arith, lookup-erase))
            (rw (found, on_worker) at e)
    ]
