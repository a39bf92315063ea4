-- ===== src/Worker/Run/Finished.antt =====
-- worker.rs: the result of a transfer that finishes.
use download_manager.Base.{
  ℕ, ◌+◌, ◌^◌, ◌<◌, ◌≡◌, ◌∙◌, ap, sym, true, false, inl, inr, arith, refl, [], some,
}
use download_manager.Error.{ok}
use download_manager.Job.{DownloadResult, finished}
use download_manager.Request.{Request}
use download_manager.Events.Progress.{Progress, Float, recompute, force_update}
use download_manager.Storage.Paths.{FilePath}
use download_manager.Storage.FileSystem.{FileSystem}
use download_manager.Storage.PartFile.{PartFile, finalize}
use download_manager.Storage.PartFile.Laws.{View, Laws, Readable}
use download_manager.Storage.PartFile.Durable.{Result-cases}
use download_manager.Storage.PartFile.Opening.{OpenLaws}
use download_manager.Storage.PartFile.Position.{Advances}
use download_manager.Worker.Transfer.{Transfer, transfer, finish, send_progress}
use download_manager.Worker.Transfer.Counting.{size, Counted, transfer-Counted}
use download_manager.Worker.Run.{WorkerEnv, Peer, prepare, transfer_all, run}
use download_manager.Worker.Run.Beginning.{prepare-Begins}

module _ {F W : Type 0} where
  finish_lem :
      (float : Float F) (fs : FileSystem W) (now : ℕ) (s : Transfer F W) {result : DownloadResult}
      → (finish float fs now s).0 ≡ ok result
      → (result.path ≡ s.opened.part.dest) × (result.bytes_downloaded ≡ s.progress.bytes)
  unfolding finish force_update recompute finalize send_progress
  finish_lem float fs now s {result} returned = ground arith

  -- A transfer that finishes returns the destination, and as its bytes those it started from and
  -- those of the body; this supposes that the count is where the part file stands at first, that the
  -- sum is a u64, and that the file system and the encoding keep their laws.
  pub transfer_all_lem :
      (env : WorkerEnv F W) (view : View W) (readable : Readable env.json) (peer : Peer)
      (dest : FilePath) (file : ℕ) (s : Transfer F W) {result : DownloadResult}
      → Laws view env.fs dest file
      → Advances view env.fs file
      → Counted env.float env.fs view env.json readable dest file s
      → s.progress.bytes + size peer.body < 2 ^ 64
      → (transfer_all env peer s).0 ≡ ok (finished result)
      → (result.path ≡ dest) × (result.bytes_downloaded ≡ s.progress.bytes + size peer.body)
  unfolding transfer_all send_progress
  transfer_all_lem env view readable peer dest file s {result} laws advances h fits returned =
      let sent = send_progress s in
      let looped = transfer env.float env.fs env.json peer.body sent in
      elim (Result-cases looped.0) [
        | inr (error, e) ↦ let impossible = rw e at returned in cc
        | inl (false, e) ↦ let impossible = rw e at returned in cc
        | inl (true, e) ↦
            let (counted, exact) =
              transfer-Counted env.float env.fs view env.json readable peer.body dest file sent laws
                advances h fits e in
            elim (Result-cases (finish env.float env.fs peer.ended looped.1).0) [
              | inr (error, e') ↦ let impossible = rw (e, e') at returned in cc
              | inl (r, e') ↦
                  let same : finished r ≡ finished result =
                    let both = rw (e, e') at returned in cc in
                  let (path, bytes) =
                    finish_lem env.float env.fs peer.ended looped.1 {result = r} e' in
                  let equal : r ≡ result = cc in
                  (
                    ap (λ (x : DownloadResult). x.path) (sym equal) ∙ (path ∙ counted.0.0),
                    ap (λ (x : DownloadResult). x.bytes_downloaded) (sym equal) ∙ (bytes ∙ exact),
                  )
            ]
      ]

  -- A run that finishes returns its request's destination, and as its bytes those that its transfer
  -- began with and those of the body; this supposes that it has come to the transfer, that the sum is
  -- a u64, and that the file system and the encoding keep their laws.
  pub run_lem :
      (env : WorkerEnv F W) (view : View W) (readable : Readable env.json) (peer : Peer)
      (request : Request) (disk : W) {part : PartFile} {progress : Progress F}
      {result : DownloadResult}
      → OpenLaws view env.fs request.destination
      → Laws view env.fs request.destination part.file
      → Advances view env.fs part.file
      → (prepare env peer request disk).0 ≡ ok (some (part, progress))
      → progress.bytes + size peer.body < 2 ^ 64
      → (run env peer request disk).0 ≡ ok (finished result)
      → (result.path ≡ request.destination)
        × (result.bytes_downloaded ≡ progress.bytes + size peer.body)
  unfolding run
  run_lem env view readable peer request disk {part} {progress} {result} opening laws advances begun
        fits returned =
      let (belongs, stands, _, _) = prepare-Begins env view peer request disk opening begun in
      let s : Transfer F W = record {
        opened = record { part = part; disk = (prepare env peer request disk).1 };
        progress = progress;
        sent = [];
      } in
      transfer_all_lem env view readable peer request.destination part.file s laws advances
        ((belongs, refl), stands) fits (rw begun at returned)
