-- ===== src/Manager/Life.antt =====
-- manager.rs: from `new` to the end of `shutdown`.
use download_manager.Base.{ℕ, ◌≡◌, refl, sym, ap, subst, Bool, true, false, [], ◌∷◌, ◌++◌}
use download_manager.Error.{Result, ok}
use download_manager.Job.{WorkerResult}
use download_manager.Storage.FileSystem.{IoResult, done, failed}
use download_manager.Context.{Broadcasts, Context}
use download_manager.Context
use download_manager.Io.{ok_inj}
use download_manager.Storage.Manifest.{is_some}
use download_manager.Scheduler.State.{Env, Scheduler}
use download_manager.Scheduler.State
use download_manager.Scheduler.Loop.{stop, waits, Outcome, run}
use download_manager.Scheduler.Running.{
  Rounds, asked_before, Sound, Settles, run-Settles, ends-stop, asked_before-stop, Sound-stop,
}
use download_manager.Manager.{
  DownloadManager, DownloadManagerConfig, new, drop, shutdown, done_message,
}

module _ {C S R I W : Type 0} (crate : Broadcasts S R I) (env : Env W)
    (answers : ℕ → ℕ × Result WorkerResult) (ack res : ℕ → ℕ) where
  -- A manager starts a scheduler at its beginning.
  new-starts :
      (client : C) (config : DownloadManagerConfig) (cmd_tx done_rx : ℕ)
      (spawned : IoResult (Unit {0})) (disk : W) {manager : DownloadManager C S I} {s : Scheduler W}
      → new crate client config cmd_tx done_rx spawned disk ≡ ok (manager, s)
      → s ≡ State.new config.max_concurrent disk
  unfolding new
  new-starts client config cmd_tx done_rx (failed error) disk made = cc
  new-starts client config cmd_tx done_rx (done u) disk made = sym (ap (λ m. m.1) (ok_inj made))

  -- How `run` ends on the scheduler's thread, which shares the context: `rounds` is what the loop has
  -- waited for until the context came to be so, and `later` is what there would be to wait for then.
  abbrev pub thread : Rounds → (later : Rounds) → Scheduler W → Context C S I → Outcome W
  thread rounds later s ctx = run env answers (rounds ++ waits ctx.cancel_root later) s

  stopped-Settles :
      (max_concurrent : ℕ) (disk : W) (rounds later : Rounds) {s : Scheduler W}
      (ctx : Context C S I)
      → s ≡ State.new max_concurrent disk
      → ctx.cancel_root ≡ true
      → Sound env rounds s
      → Settles ack res (asked_before ack res rounds) (thread rounds later s ctx)
  stopped-Settles max_concurrent disk rounds later {s} ctx start cancelled sound =
      let c : ℕ → Bool = λ _. false in
      let settled =
        run-Settles env answers ack res max_concurrent disk (rounds ++ (stop, c) ∷ [])
          (subst (Sound env (rounds ++ (stop, c) ∷ [])) start (Sound-stop env rounds c s sound))
          (ends-stop rounds c) in
      rw (cancelled, start)
        (subst
          (λ n.
            Settles ack res n
              (run env answers (rounds ++ (stop, c) ∷ []) (State.new max_concurrent disk)))
          (asked_before-stop ack res rounds c) settled)

  -- A manager that has started can be shut down: whatever its scheduler has waited for before, and
  -- whatever it would still find, `run` then returns without a panic and the wait of `shutdown` ends; no
  -- job, worker, ready id or timer is left, and the results and acknowledgements sent weigh, for any
  -- weighing of the channels, exactly what the commands before have asked. Dropping the manager leads
  -- to the same end. This supposes that ids are fresh and that no request asks for more than 64
  -- retries.
  pub shutdown-Settles :
      (client : C) (config : DownloadManagerConfig) (cmd_tx done_rx : ℕ)
      (spawned : IoResult (Unit {0})) (disk : W) (rounds later : Rounds)
      {manager : DownloadManager C S I} {s : Scheduler W}
      → new crate client config cmd_tx done_rx spawned disk ≡ ok (manager, s)
      → Sound env rounds s
      → let ended = shutdown manager (thread rounds later s) in
        (ended.1 ≡ true)
        × Settles ack res (asked_before ack res rounds) (thread rounds later s ended.0.ctx)
        × Settles ack res (asked_before ack res rounds) (thread rounds later s (drop manager).ctx)
  unfolding shutdown drop
  shutdown-Settles client config cmd_tx done_rx spawned disk rounds later {manager} {s} made sound =
      let start = new-starts client config cmd_tx done_rx spawned disk made in
      let settled =
        stopped-Settles config.max_concurrent disk rounds later (Context.cancel manager.ctx) start
          refl sound in
      (ap (λ o. is_some (done_message o)) settled.1, settled, settled)
