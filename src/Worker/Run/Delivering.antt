-- ===== src/Worker/Run/Delivering.antt =====
-- worker.rs: what a run that finishes leaves at the destination.
use download_manager.Base.{
  ℕ, ◌≡◌, refl, sym, ap, ◌∙◌, true, false, some, [], take, ◌++◌, length, inl, inr,
}
use download_manager.Error.{ok}
use download_manager.Job.{DownloadResult, finished}
use download_manager.Request.{Request}
use download_manager.Events.Progress.{Progress}
use download_manager.Storage.Paths.{FilePath}
use download_manager.Storage.FileSystem.{Bytes}
use download_manager.Storage.PartFile.{PartFile, finalize}
use download_manager.Storage.PartFile.Laws.{View, Laws, Readable}
use download_manager.Storage.PartFile.Durable.{Result-cases}
use download_manager.Storage.PartFile.Opening.{OpenLaws}
use download_manager.Storage.PartFile.Position.{Advances}
use download_manager.Storage.PartFile.Uses.{For, carried}
use download_manager.Storage.PartFile.Contents.{Texts, finalize-text}
use download_manager.Worker.Transfer.{Transfer, transfer, finish, send_progress}
use download_manager.Worker.Transfer.Appending.{bytes_of, transfer-Appends}
use download_manager.Worker.Run.{WorkerEnv, Peer, prepare, transfer_all, transferred, run}
use download_manager.Worker.Run.Beginning.{prepare-Begins}
use download_manager.Worker.Run.Keeping.{prepare-keeps}
use download_manager.Storage.PartFile.Keeping.{found, KeepLaws}

module _ {F W : Type 0} (env : WorkerEnv F W) (view : View W) (text : ℕ → W → Bytes) where
  finish-text :
      (now : ℕ) (dest : FilePath) (file : ℕ) (s : Transfer F W) {result : DownloadResult}
      → Texts view env.fs dest file text
      → For env.fs env.json dest file s.opened
      → (finish env.float env.fs now s).0 ≡ ok result
      → view.contents dest (finish env.float env.fs now s).1.opened.disk
        ≡ some (text file s.opened.disk)
  unfolding finish
  finish-text now dest file s texts same returned =
      let (part, disk) : PartFile × W = (s.opened.part, s.opened.disk) in
      elim (Result-cases (finalize env.fs part disk).0) [
        | inr (error, e) ↦ let impossible = rw e at returned in cc
        | inl (path, e) ↦ rw e (
            carried env.fs env.json
              (λ d f.
                Texts view env.fs d f text
                → view.contents d (finalize env.fs part disk).1 ≡ some (text f disk))
              s.opened same (λ texts. finalize-text view env.fs env.json text part disk texts e)
              texts)
      ]

  -- The result is `Finished` only if the loop has come to the end of the body and the part file has
  -- been finalized.
  transfer_all_finishes :
      (peer : Peer) (s : Transfer F W) {result : DownloadResult}
      → (transfer_all env peer s).0 ≡ ok (finished result)
      → let looped = transfer env.float env.fs env.json peer.body (send_progress s) in
        let done = finish env.float env.fs peer.ended looped.1 in
        (r : DownloadResult) × (looped.0 ≡ ok true)
        × (done.0 ≡ ok r)
        × ((transfer_all env peer s).1 ≡ done.1)
  unfolding transfer_all
  transfer_all_finishes peer s returned =
      let looped = transfer env.float env.fs env.json peer.body (send_progress s) in
      elim (Result-cases looped.0) [
        | inr (error, e) ↦ let impossible = rw e at returned in cc
        | inl (false, e) ↦ let impossible = rw e at returned in cc
        | inl (true, e) ↦ elim (Result-cases (finish env.float env.fs peer.ended looped.1).0) [
          | inr (error, e') ↦ let impossible = rw (e, e') at returned in cc
          | inl (r, e') ↦ (r, e, e', rw (e, e') refl)
        ]
      ]

  -- A run that finishes leaves at its request's destination the first bytes of the part file that it
  -- found, as many as its transfer began with, and behind them the bytes of the body, and nothing
  -- else; this supposes that it has come to the transfer, and that the file system and the encoding
  -- keep their laws.
  pub run-delivers :
      (readable : Readable env.json) (peer : Peer) (request : Request) (disk : W) {part : PartFile}
      {progress : Progress F} {result : DownloadResult}
      → OpenLaws view env.fs request.destination
      → Laws view env.fs request.destination part.file
      → Texts view env.fs request.destination part.file text
      → KeepLaws view request.destination env.fs text
      → Advances view env.fs part.file
      → (prepare env peer request disk).0 ≡ ok (some (part, progress))
      → (run env peer request disk).0 ≡ ok (finished result)
      → let kept = take progress.bytes (found view request.destination disk) in
        (length kept ≡ progress.bytes)
        × (view.contents request.destination (run env peer request disk).1.0
            ≡ some (kept ++ bytes_of peer.body))
  unfolding run send_progress
  run-delivers readable peer request disk {part} {progress} {result} opening laws texts keeping
        advances begun returned =
      let dest = request.destination in
      let opened = (prepare env peer request disk).1 in
      let (belongs, stands, _, len) = prepare-Begins env view peer request disk opening begun in
      let kept : length (text part.file opened) ≡ progress.bytes =
        sym (texts.len_text opened) ∙ len in
      let s : Transfer F W = record {
        opened = record { part = part; disk = opened };
        progress = progress;
        sent = [];
      } in
      let (r, looped, finalized, after) =
        transfer_all_finishes peer s {result = result} (rw begun at returned) in
      let t = (transfer env.float env.fs env.json peer.body (send_progress s)).1 in
      let (same, appended) =
        transfer-Appends env.float env.fs view env.json readable text peer.body dest part.file
          (send_progress s) laws texts advances ((belongs, refl), stands ∙ sym kept) looped in
      let ends : (run env peer request disk).1.0
          ≡ (finish env.float env.fs peer.ended t).1.opened.disk =
        ap (λ r. (transferred env peer r opened).1.0) begun
        ∙ ap (λ (u : Transfer F W). u.opened.disk) after in
      let kept_old = prepare-keeps env view text request keeping peer disk begun in
      (
        sym (ap length kept_old) ∙ kept,
        ap (view.contents dest) ends
            ∙ (finish-text peer.ended dest part.file t {result = r} texts same finalized
                ∙ ap some (appended ∙ ap (λ b. b ++ bytes_of peer.body) kept_old)),
      )
