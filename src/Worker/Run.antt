-- ===== src/Worker/Run.antt =====
-- worker.rs: `run`.
pub mod Beginning
pub mod Finished
pub mod Starting
pub mod Resuming
pub mod Keeping
pub mod Delivering
pub mod Asking
use download_manager.Base.{
  ℕ, String, Bool, true, false, ◌==◌, not, Option, none, some, List, [], ◌∷◌, min, if◌then◌else◌,
}
use download_manager.Http.{StatusCode}
use download_manager.Error.{Result, ok, err, io, from_client, http_status, file_exists}
use download_manager.Io.{Io, pure, from_result, ◌>>=◌, ◌>>◌}
use download_manager.Request.{Request}
use download_manager.Job.{WorkerResult, finished, stopped}
use download_manager.Storage.Paths.{FilePath}
use download_manager.Storage.FileSystem.{FileSystem, IoResult, done, failed, not_found, other}
use download_manager.Storage.Manifest.{Manifest, resume_offset, set_contiguous, is_resumable_for}
use download_manager.Storage.Sidecar.{Json, load, part_len}
use download_manager.Storage.PartFile.{PartFile, open_at}
use download_manager.Events.Progress.{Float, Progress, add64}
use download_manager.Events.Progress
use download_manager.Worker.Client.{
  HttpCrate, HttpRequest, Response, and_then, get_request, content_length, response_header,
}
use download_manager.Worker.Transfer.{Body, Transfer, transfer, finish, send_progress}

-- What waiting for an answer comes to: a stop request, an answer or the text of an error.
pub data Answer : Type 0 where
  interrupted : Answer
  responds : Response → Answer
  fails : String → Answer

-- What a run meets, its first and its second request numbered 0 and 1: whether a stop is requested
-- before a request is made, the client's answers, the body, and the time at the transfer's start and
-- end.
pub record Peer : Type 0 where
  pub stop_requested : ℕ → Bool
  pub send : ℕ → HttpRequest → Answer
  pub body : Body
  pub started : ℕ
  pub ended : ℕ

-- What a worker calls and does not implement.
pub record WorkerEnv (F W : Type 0) : Type 0 where
  pub http : StatusCode
  pub crate : HttpCrate
  pub json : Json
  pub fs : FileSystem W
  pub float : Float F

abbrev pub added : ℕ → Option ℕ → Option ℕ
added start none = none
added start (some remaining) = some (add64 start remaining)

unfoldable pub start_of : ℕ → Response → ℕ
start_of offset response = if response.status == 206 then offset else 0

unfoldable pub new_manifest : Request → (start : ℕ) → Response → Manifest
unfolding content_length response_header set_contiguous
new_manifest request start response = set_contiguous start (record {
  url = request.url;
  etag = response_header response "etag";
  last_modified = response_header response "last-modified";
  total_length = added start (content_length response);
  completed_ranges = [];
})

module _ {F W : Type 0} (env : WorkerEnv F W) where
  abbrev pub checked : Request → IoResult ℕ → Result (Unit {0})
  checked request (done len) =
      if request.config.overwrite then ok tt else err (file_exists request.destination)
  checked request (failed error) = elim error.kind [ not_found ↦ ok tt | other ↦ err (io error) ]

  -- A destination that exists is only written over if the request says so.
  unfoldable pub check_destination : Request → Io W (Unit {0})
  check_destination request disk =
      let (result, disk') = env.fs.metadata request.destination disk in
      (checked request result, disk')

  abbrev pub resumable : Request → Option Manifest → Option Manifest
  resumable request none = none
  resumable request (some manifest) =
      if is_resumable_for manifest request.url then some manifest else none

  unfoldable pub load_prior : Request → Io W (Option Manifest)
  unfolding load is_resumable_for
  load_prior request disk =
      let (manifest, disk') = load env.fs env.json request.destination disk in
      (ok (resumable request manifest), disk')

  unfoldable pub offset_of : Request → Option Manifest → Io W ℕ
  unfolding part_len
  offset_of request none = pure 0
  offset_of request (some manifest) = do
    len ← part_len env.fs request.destination
    pure (min (resume_offset manifest) len)

  abbrev pub answered : Answer → Result (Option Response)
  answered interrupted = ok none
  answered (responds response) = ok (some response)
  answered (fails text) = err (from_client text)

  -- A request and its answer, or `none` if the worker stops.
  unfoldable pub ask : Peer → ℕ → Request → ℕ → Option Manifest → Result (Option Response)
  unfolding get_request
  ask peer n request offset prior =
      if peer.stop_requested n
      then ok none
      else and_then (get_request env.crate request offset prior)
          (λ http_request. answered (peer.send n http_request))

  abbrev pub restarted : Peer → Request → Option Response → Result (Option Response)
  restarted peer request none = ok none
  restarted peer request (some response) =
      if response.status == 416 then ask peer 1 request 0 none else ok (some response)

  -- Both requests; the second starts over, after a range that the server cannot satisfy.
  unfoldable pub respond : Peer → Request → ℕ → Option Manifest → Result (Option Response)
  unfolding ask
  respond peer request offset prior =
      and_then (ask peer 0 request offset prior) (restarted peer request)

  -- The part file with the transfer's first progress.
  unfoldable pub open_transfer :
      Peer → Request → (start : ℕ) → Response → Io W (PartFile × Progress F)
  unfolding new_manifest open_at Progress.new
  open_transfer peer request start response = do
    part ← open_at env.fs request.destination start (new_manifest request start response)
    pure (part, Progress.new env.float peer.started start (added start (content_length response)))

  unfoldable pub begin_transfer : Peer → Request → ℕ → Response → Io W (PartFile × Progress F)
  unfolding start_of open_transfer
  begin_transfer peer request offset response =
      if env.http.is_success response.status
      then open_transfer peer request (start_of offset response) response
      else from_result (err (http_status response.status))

  abbrev pub begin_with :
      Peer → Request → ℕ → Option Response → Io W (Option (PartFile × Progress F))
  begin_with peer request offset none = pure none
  begin_with peer request offset (some response) = do
    started ← begin_transfer peer request offset response
    pure (some started)

  -- Up to the transfer; `none` if the worker has stopped.
  unfoldable pub prepare : Peer → Request → Io W (Option (PartFile × Progress F))
  unfolding check_destination load_prior offset_of respond begin_transfer
  prepare peer request = do
    check_destination request
    prior ← load_prior request
    offset ← offset_of request prior
    response ← from_result (respond peer request offset prior)
    begin_with peer request offset response

  abbrev pub concluded : Peer → Bool → Io (Transfer F W) WorkerResult
  concluded peer false = pure stopped
  concluded peer true = do result ← finish env.float env.fs peer.ended; pure (finished result)

  unfoldable pub transfer_all : Peer → Io (Transfer F W) WorkerResult
  unfolding transfer send_progress finish
  transfer_all peer s =
      (do has_ended ← transfer env.float env.fs env.json peer.body; concluded peer has_ended)
        (send_progress s)

  -- The result, the disk and the progress that was sent.
  abbrev pub transferred :
      Peer
      → Result (Option (PartFile × Progress F))
      → W
      → Result WorkerResult × (W × List (Progress F))
  transferred peer (err error) disk = (err error, (disk, []))
  transferred peer (ok none) disk = (ok stopped, (disk, []))
  transferred peer (ok (some (part, progress))) disk =
      let (result, s) =
        transfer_all peer (record {
          opened = record { part = part; disk = disk };
          progress = progress;
          sent = [];
        }) in
      (result, (s.opened.disk, s.sent))

  unfoldable pub run : Peer → Request → W → Result WorkerResult × (W × List (Progress F))
  unfolding prepare transfer_all
  run peer request disk =
      let (result, disk') = prepare peer request disk in transferred peer result disk'
