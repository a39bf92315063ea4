-- ===== src/Worker/Transfer.antt =====
-- worker.rs: the loop that reads the body into the part file.
pub mod Counting
pub mod Stopping
pub mod Saving
pub mod Appending
use download_manager.Base.{ℕ, String, Bool, true, false, List, [], ◌∷◌, length, if◌then◌else◌}
use download_manager.Error.{Error, Result, ok, err, network}
use download_manager.Io.{Io, pure, ◌>>=◌, ◌>>◌}
use download_manager.Events.Progress.{Float, Progress, add, force_update}
use download_manager.Job.{DownloadResult}
use download_manager.Storage.Paths.{FilePath}
use download_manager.Storage.FileSystem.{FileSystem, Bytes}
use download_manager.Storage.Sidecar.{Json}
use download_manager.Storage.PartFile.{Opened, checkpoint, write, finalize}

-- What the rounds of the loop find: a stop request, the end of the body, an error, or the bytes of a
-- read, at least one, with the time at which they are counted.
pub data Body : Type 0 where
  interrupted ended : Body
  broken : String → Body
  more : (now first : ℕ) → Bytes → Body → Body

-- `sent` is what was broadcast, the newest first.
pub record Transfer (F W : Type 0) : Type 0 where
  pub opened : Opened W
  pub progress : Progress F
  pub sent : List (Progress F)

module _ {F W : Type 0} where
  abbrev pub on_part : {A : Type 0} → Io (Opened W) A → Io (Transfer F W) A
  on_part call s = let (r, opened) = call s.opened in (r, record s { opened = opened })

  unfoldable pub send_progress : Transfer F W → Transfer F W
  send_progress s = record s { sent = s.progress ∷ s.sent }

module _ {F W : Type 0} (float : Float F) (fs : FileSystem W) where
  unfoldable pub count_read : (now n : ℕ) → Io (Transfer F W) (Unit {0})
  unfolding add send_progress
  count_read now n s =
      let (sampled, progress) = add float now n s.progress in
      let counted = record s { progress = progress } in
      (ok tt, if sampled then send_progress counted else counted)

  -- What comes after the loop.
  unfoldable pub finish : (now : ℕ) → Io (Transfer F W) DownloadResult
  unfolding force_update send_progress finalize
  finish now s =
      let counted = send_progress (record s { progress = force_update float now s.progress }) in
      let (path, disk) = finalize fs s.opened.part s.opened.disk in finished_with counted path disk
    where
      finished_with : Transfer F W → Result FilePath → W → Result DownloadResult × Transfer F W
      finished_with t (ok path) disk = (
        ok (record { path = path; bytes_downloaded = t.progress.bytes }),
        record t { opened = record t.opened { disk = disk } },
      )
      finished_with t (err error) disk =
          (err error, record t { opened = record t.opened { disk = disk } })

  module _ (json : Json) where
    -- An error is returned whatever the last checkpoint says.
    abbrev pub give_up : String → Io (Transfer F W) Bool
    give_up text s = (err (network text), (on_part (checkpoint fs json) s).1)

    -- Whether the body has ended; otherwise a stop was requested.
    unfoldable pub transfer : Body → Io (Transfer F W) Bool
    unfolding checkpoint write count_read
    transfer interrupted = do on_part (checkpoint fs json); pure false
    transfer ended = pure true
    transfer (broken text) = give_up text
    transfer (more now first bytes body) = do
      on_part (write fs json (first ∷ bytes))
      count_read now (length (first ∷ bytes))
      transfer body
