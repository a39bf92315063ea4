-- ===== src/Scheduler/Telling.antt =====
-- scheduler.rs and scheduler/job.rs: what is told of a download that a worker's result ends.
use download_manager.Base.{
  ℕ, ◌≡◌, ◌≢◌, ◌≤◌, refl, ap, ◌⊎◌, false, Bool-cases, Option, none, some, some_inj, [], ◌∷◌, arith,
  ◌==◌, if◌then◌else◌, leb, lookup, erase, lookup-insert, inl, inr, subst, u32, ◌+◌, ◌∙◌,
}
use download_manager.Error.{Result, ok, err, is_retryable}
use download_manager.Events.{EventKind}
use download_manager.Job.{
  Job, JobState, WorkerResult, finished, stopped, DownloadResult, Log, broadcast, deliver,
}
use download_manager.Job
use download_manager.Job.Methods
use download_manager.Job.Methods.{finalize, final_kind}
use download_manager.Storage.Discard.{discard_partial}
use download_manager.Scheduler.State.{Env, Scheduler, cancel_job, cancellation}
use download_manager.Scheduler.Transition.{on_worker, settle, finish, pause_job, retry_after}
use download_manager.Scheduler.Backoff.{next_delay, backoff_strategy}
use download_manager.Scheduler.Placed.{active_at}

-- The last result that a channel was sent, and the last event about an id.
abbrev pub last_result : ℕ → Log → Option (Result DownloadResult)
last_result r [] = none
last_result r (deliver result_tx result ∷ log) =
    let before = last_result r log in if result_tx == r then some result else before
last_result r (_ ∷ log) = last_result r log

abbrev pub last_event : ℕ → Log → Option EventKind
last_event id [] = none
last_event id (broadcast event ∷ log) =
    let before = last_event id log in if event.id == id then some event.kind else before
last_event id (_ ∷ log) = last_event id log

module _ {W : Type 0} (env : Env W) where
  -- The results that a job can end with, when its worker comes back so.
  abbrev pub EndsWith : Job → W → JobState → Result WorkerResult → Result DownloadResult → Type 0
  EndsWith job disk _ (ok (finished result)) v = v ≡ ok result
  EndsWith job disk Job.cancelling _ v =
      v ≡ cancellation (discard_partial env.fs job.request.destination disk).0
  EndsWith job disk (Job.running _) (ok stopped) v =
      v ≡ cancellation (discard_partial env.fs job.request.destination disk).0
  EndsWith job disk _ (err error) v =
      (v ≡ err error)
      × ((is_retryable env.http error ≡ false) ⊎ (job.request.config.retries ≤ job.attempt))
  EndsWith job disk _ (ok stopped) v = ⊥

  -- The channel and the listeners have been told the same result.
  pub record Told (r id : ℕ) (Ends : Result DownloadResult → Type 0) (t : Scheduler W)
      : Type 0 where
    pub v : Result DownloadResult
    pub delivered : last_result r t.log ≡ some v
    pub announced : last_event id t.log ≡ some (final_kind env.http v)
    pub explained : Ends v

  finalize-tells :
      (job : Job) (r : ℕ) (v : Result DownloadResult) (log : Log)
      → job.result ≡ some r
      → (last_result r (finalize env.http job v log) ≡ some v)
        × (last_event job.id (finalize env.http job v log) ≡ some (final_kind env.http v))
  unfolding finalize
  finalize-tells job r v log owes = ground (arith, owes)

  module _ (job : Job) (r id : ℕ) (s : Scheduler W) (owes : job.result ≡ some r)
      (mine : job.id ≡ id) where
    finish-Told :
        (Ends : Result DownloadResult → Type 0) (v : Result DownloadResult)
        → Ends v
        → Told r id Ends (finish env job v s)
    finish-Told Ends v ends =
        let (delivered, announced) = finalize-tells job r v s.log owes in
        record {
          v = v;
          delivered = delivered;
          announced =
              subst
                (λ i. last_event i (finalize env.http job v s.log) ≡ some (final_kind env.http v))
                mine announced;
          explained = ends;
        }

    cancel_job-Told :
        (Ends : Result DownloadResult → Type 0)
        → Ends (cancellation (discard_partial env.fs job.request.destination s.disk).0)
        → Told r id Ends (cancel_job env job s)
    unfolding cancel_job
    cancel_job-Told Ends ends =
        let v = cancellation (discard_partial env.fs job.request.destination s.disk).0 in
        let (delivered, announced) = finalize-tells job r v s.log owes in
        record {
          v = v;
          delivered = delivered;
          announced =
              subst
                (λ i. last_event i (finalize env.http job v s.log) ≡ some (final_kind env.http v))
                mine announced;
          explained = ends;
        }

    -- A job that is retried or paused is in the table.
    retried :
        (delay : Option ℕ) {t : Scheduler W}
        → retry_after env delay id job s ≡ some t
        → lookup id t.jobs ≢ none
    unfolding Methods.retry
    retried delay e gone = grind (arith, lookup-insert)

    paused : lookup id (pause_job env id job s).jobs ≢ none
    unfolding Methods.pause
    paused gone = grind (arith, lookup-insert)

  settle-Told :
      (id r : ℕ) (state : JobState) (result : Result WorkerResult) (job : Job) (s : Scheduler W)
      {t : Scheduler W}
      → job.state ≡ state
      → active_at (some job) ≡ 1
      → job.id ≡ id
      → job.result ≡ some r
      → settle env state result id job s ≡ some t
      → lookup id t.jobs ≡ none
      → Told r id (EndsWith job s.disk state result) t
  settle-Told id r state (ok (finished x)) job s st active mine owes e gone =
      subst (Told r id (EndsWith job s.disk state (ok (finished x)))) (some_inj e)
        (finish-Told job r id s owes mine _ (ok x) refl)
  settle-Told id r Job.cancelling (ok stopped) job s st active mine owes e gone =
      subst (Told r id (EndsWith job s.disk Job.cancelling (ok stopped))) (some_inj e)
        (cancel_job-Told job r id s owes mine _ refl)
  settle-Told id r Job.cancelling (err error) job s st active mine owes e gone =
      subst (Told r id (EndsWith job s.disk Job.cancelling (err error))) (some_inj e)
        (cancel_job-Told job r id s owes mine _ refl)
  settle-Told id r (Job.running stop) (ok stopped) job s st active mine owes e gone =
      subst (Told r id (EndsWith job s.disk (Job.running stop) (ok stopped))) (some_inj e)
        (cancel_job-Told job r id s owes mine _ refl)
  settle-Told id r (Job.pausing ws) (ok stopped) job s st active mine owes e gone =
      absurd (
        paused job r id s owes mine
          (ap (λ (u : Scheduler W). lookup id u.jobs) (some_inj e) ∙ gone))
  settle-Told id r (Job.pausing ws) (err error) job s st active mine owes e gone =
      elim (Bool-cases (is_retryable env.http error)) [
        | inr final ↦
            subst (Told r id (EndsWith job s.disk (Job.pausing ws) (err error)))
              (some_inj (rw final at e))
              (finish-Told job r id s owes mine _ (err error) (refl, inl final))
        | inl again ↦ elim (Bool-cases (leb job.request.config.retries job.attempt)) [
          | inl exhausted ↦
              subst (Told r id (EndsWith job s.disk (Job.pausing ws) (err error)))
                (some_inj (rw (again, exhausted) at e))
                (finish-Told job r id s owes mine _ (err error) (refl, inr (ground arith)))
          | inr left ↦ absurd (
              paused (record job { attempt = u32 (job.attempt + 1) }) r id s owes mine
                (ap (λ (u : Scheduler W). lookup id u.jobs) (some_inj (rw (again, left) at e))
                  ∙ gone))
        ]
      ]
  settle-Told id r (Job.running stop) (err error) job s st active mine owes e gone =
      elim (Bool-cases (is_retryable env.http error)) [
        | inr final ↦
            subst (Told r id (EndsWith job s.disk (Job.running stop) (err error)))
              (some_inj (rw final at e))
              (finish-Told job r id s owes mine _ (err error) (refl, inl final))
        | inl again ↦ elim (Bool-cases (leb job.request.config.retries job.attempt)) [
          | inl exhausted ↦
              subst (Told r id (EndsWith job s.disk (Job.running stop) (err error)))
                (some_inj (rw (again, exhausted) at e))
                (finish-Told job r id s owes mine _ (err error) (refl, inr (ground arith)))
          | inr left ↦ absurd (
              retried job r id s owes mine (next_delay backoff_strategy job.attempt)
                (rw (again, left) at e) gone)
        ]
      ]
  settle-Told id r _ result job s st active mine owes e gone = absurd (ground arith)

  -- If the result of a worker is handled, the job of its id is running, pausing or cancelling and owes a
  -- result to a channel, and the job then has left the table, then the last result on the channel and
  -- the last event of the download agree, and they are the worker's own: the result that it finished
  -- with; what the removal of the files came to, if the job is cancelling, or is running and the worker
  -- stopped; or else the worker's error, and that only if it is not retryable or no retry is left.
  pub on_worker-Told :
      (id r : ℕ) (result : Result WorkerResult) (s : Scheduler W) {job : Job} {t : Scheduler W}
      → lookup id s.jobs ≡ some job
      → job.id ≡ id
      → active_at (some job) ≡ 1
      → job.result ≡ some r
      → on_worker env id result s ≡ some t
      → lookup id t.jobs ≡ none
      → Told r id (EndsWith job s.disk job.state result) t
  unfolding on_worker
  on_worker-Told id r result s {job} found mine active owes e gone =
      settle-Told id r job.state result job (record s { jobs = erase id s.jobs }) refl active mine
        owes (rw (found, on_worker) at e) gone
