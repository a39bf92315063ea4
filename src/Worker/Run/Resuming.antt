-- ===== src/Worker/Run/Resuming.antt =====
-- worker.rs: a download that is stopped and run again.
use text.Mathlib.TextEquality.{eq_iff}
use download_manager.Base.{
  ℕ, ◌+◌, ◌^◌, ◌<◌, ◌≤◌, ◌≡◌, refl, sym, ap, subst, ◌∙◌, true, false, Option, none, some, inl, inr,
  arith, ◌==◌, String, [], if◌then◌else◌,
}
use download_manager.Error.{ok}
use download_manager.Io.{bind-ok, ok_inj}
use download_manager.Job.{stopped}
use download_manager.Request.{Request}
use download_manager.Events.Progress.{Progress}
use download_manager.Storage.Paths.{FilePath, manifest_path}
use download_manager.Storage.FileSystem.{FileSystem, Bytes, done}
use download_manager.Storage.Manifest.{Manifest, validator, resume_offset, is_resumable_for}
use download_manager.Storage.Sidecar.{load, part_len}
use download_manager.Storage.PartFile.{PartFile}
use download_manager.Storage.PartFile.Laws.{View, Laws}
use download_manager.Storage.PartFile.Durable.{Result-cases}
use download_manager.Storage.PartFile.Opening.{OpenLaws}
use download_manager.Storage.PartFile.Position.{Advances}
use download_manager.Storage.PartFile.Saved.{Faithful, Left}
use download_manager.Worker.Client.{HttpRequest, Response}
use download_manager.Worker.Transfer.{Body, more, Transfer, transfer, send_progress, finish}
use download_manager.Worker.Transfer.Counting.{size}
use download_manager.Worker.Transfer.Saving.{transfer-Left}
use download_manager.Worker.Run.{
  WorkerEnv, Peer, responds, ask, respond, start_of, check_destination, load_prior, offset_of,
  prepare, transfer_all, transferred, run,
}
use download_manager.Worker.Run.Asking.{ask-sends}
use download_manager.Worker.Run.Beginning.{prepare-Begins}
use download_manager.Worker.Run.Starting.{prepare-Origin}

-- A server that answers every request with a part.
abbrev pub Partial : Peer → Type 0
Partial peer =
    (n : ℕ) (request : HttpRequest) (response : Response)
    → peer.send n request ≡ responds response
    → response.status ≡ 206

module _ {W : Type 0} (view : View W) (fs : FileSystem W) (dest : FilePath) where
  -- The documented behaviour of the calls that look for a prior download.
  pub record ReadLaws : Type 0 where
    pub metadata_manifest :
        (path : FilePath) (w : W)
        → view.contents (manifest_path dest) (fs.metadata path w).1
          ≡ view.contents (manifest_path dest) w
    pub read_done :
        (w : W) {bytes : Bytes}
        → view.contents (manifest_path dest) w ≡ some bytes
        → (fs.read (manifest_path dest) w).0 ≡ done bytes

fits-is_resumable_for :
    (manifest : Manifest) {url tag : String}
    → manifest.url ≡ url
    → validator manifest ≡ some tag
    → 0 < resume_offset manifest
    → is_resumable_for manifest url ≡ true
unfolding is_resumable_for
fits-is_resumable_for manifest {url} {tag} same valid reaches =
    rw ((eq_iff _ _).1 same, valid) (ground arith)

module _ {F W : Type 0} (env : WorkerEnv F W) (view : View W) (peer : Peer)
    (request : Request) where
  ask-Partial :
      (n offset : ℕ) (prior : Option Manifest) {response : Response}
      → Partial peer
      → ask env peer n request offset prior ≡ ok (some response)
      → response.status ≡ 206
  ask-Partial n offset prior {response} partial asked =
      let (sent, _, sends) = ask-sends env peer request n offset prior asked in
      partial n sent response sends

  respond-Partial :
      (offset : ℕ) (prior : Option Manifest) {response : Response}
      → Partial peer
      → respond env peer request offset prior ≡ ok (some response)
      → response.status ≡ 206
  unfolding respond
  respond-Partial offset prior {response} partial responded =
      elim (Result-cases (ask env peer 0 request offset prior)) [
        | inr (error, e) ↦ let impossible = rw e at responded in cc
        | inl (none, e) ↦ let impossible = rw e at responded in cc
        | inl (some first, e) ↦
            let first_partial = ask-Partial 0 offset prior partial e in
            let same : first ≡ response = let kept = rw (e, first_partial) at responded in cc in
            subst (λ (r : Response). r.status ≡ 206) same first_partial
      ]

  -- The manifest that is left fits, and the part file reaches as far as it claims.
  prepare-resumes :
      (w : W) (n : ℕ) (tag : String) {part : PartFile} {progress : Progress F}
      → ReadLaws view env.fs request.destination
      → Partial peer
      → Left view env.json request.url (some tag) request.destination n w
      → 0 < n
      → (let w2 = (load_prior env request (check_destination env request w).1).1 in
          (len : ℕ) → (part_len env.fs request.destination w2).0 ≡ ok len → n ≤ len)
      → (prepare env peer request w).0 ≡ ok (some (part, progress))
      → progress.bytes ≡ n
  unfolding check_destination load_prior load is_resumable_for offset_of start_of
  prepare-resumes w n tag laws partial (manifest, (bytes, left, reads), (url, valid), claims)
        some_bytes whole begun =
      let o = prepare-Origin env peer request w begun in
      let w1 = (check_destination env request w).1 in
      let w2 = (load_prior env request w1).1 in
      let fits = fits-is_resumable_for manifest url valid (omega arith) in
      let found : (env.fs.read (manifest_path request.destination) w1).0 ≡ done bytes =
        laws.read_done w1 (laws.metadata_manifest request.destination w ∙ left) in
      let loaded : (load_prior env request w1).0 ≡ ok (some manifest) =
        rw (found, reads, fits) refl in
      let prior : o.prior ≡ some manifest = ok_inj (sym o.fits ∙ loaded) in
      let (len, (measured, continued)) =
        bind-ok (part_len env.fs request.destination) _ w2 (rw prior at o.reaches) in
      let least = ok_inj (sym (ap (λ r. r.0) continued) ∙ (rw prior at o.reaches)) in
      let partial_answer = respond-Partial o.offset o.prior partial o.answers in
      let at : o.offset ≡ n = omega (arith, least, whole len measured, claims) in
      o.starts ∙ (ap (λ status. if status == 206 then o.offset else 0) partial_answer ∙ at)

module _ {F W : Type 0} (env : WorkerEnv F W) (view : View W) (faithful : Faithful env.json)
    (request : Request) where
  -- The result is `Stopped` only if the loop has stopped.
  transfer_all_stops :
      (peer : Peer) (s : Transfer F W)
      → (transfer_all env peer s).0 ≡ ok stopped
      → let looped = transfer env.float env.fs env.json peer.body (send_progress s) in
        (looped.0 ≡ ok false) × ((transfer_all env peer s).1 ≡ looped.1)
  unfolding transfer_all
  transfer_all_stops peer s returned =
      let looped = transfer env.float env.fs env.json peer.body (send_progress s) in
      elim (Result-cases looped.0) [
        | inr (error, e) ↦ let impossible = rw e at returned in cc
        | inl (true, e) ↦ elim (Result-cases (finish env.float env.fs peer.ended looped.1).0) [
          | inr (error, e') ↦ let impossible = rw (e, e') at returned in cc
          | inl (result, e') ↦ let impossible = rw (e, e') at returned in cc
        ]
        | inl (false, e) ↦ (e, rw e refl)
      ]

  -- What a loop that stops has left, a run that stops has left.
  run-Left :
      (peer : Peer) (disk : W) (tag : String) (now first : ℕ) (bytes : Bytes) (body : Body)
      {part : PartFile} {progress : Progress F}
      → OpenLaws view env.fs request.destination
      → Laws view env.fs request.destination part.file
      → Advances view env.fs part.file
      → (prepare env peer request disk).0 ≡ ok (some (part, progress))
      → validator part.manifest ≡ some tag
      → peer.body ≡ more now first bytes body
      → progress.bytes + size peer.body < 2 ^ 64
      → (run env peer request disk).0 ≡ ok stopped
      → Left view env.json request.url
          (some tag)
          request.destination
          (progress.bytes + size peer.body)
          (run env peer request disk).1.0
  unfolding run transfer_all send_progress
  run-Left peer disk tag now first bytes body {part} {progress} opening laws advances begun valid
        reads fits returned =
      let (belongs, stands, address, _) = prepare-Begins env view peer request disk opening begun in
      let s : Transfer F W = record {
        opened = record { part = part; disk = (prepare env peer request disk).1 };
        progress = progress;
        sent = [];
      } in
      let (loop, after) = transfer_all_stops peer s (rw begun at returned) in
      let ends : (run env peer request disk).1.0
          ≡ (transfer env.float env.fs env.json peer.body (send_progress s)).1.opened.disk =
        ap (λ r. (transferred env peer r s.opened.disk).1.0) begun
        ∙ ap (λ (t : Transfer F W). t.opened.disk) after in
      rw (ends, reads)
        (transfer-Left env.float env.fs view env.json faithful request.url (some tag) now first
          bytes body request.destination part.file (send_progress s) laws advances
          ((belongs, refl), stands) (address, valid) (rw reads at fits) (rw reads at loop))

  -- A download that is stopped after it has read something and is run again, if it comes to a
  -- transfer, goes on from exactly the bytes that the first run had at its start or has read; this
  -- supposes that the server answers the second run with a part and gave a validator to the first,
  -- that the part file has not been cut, that the sum is a u64, and that the file system and the
  -- encoding keep their laws.
  pub run-resumes :
      (peer again : Peer) (disk : W) (tag : String) (now first : ℕ) (bytes : Bytes) (body : Body)
      {part part' : PartFile} {progress progress' : Progress F}
      → OpenLaws view env.fs request.destination
      → ReadLaws view env.fs request.destination
      → Laws view env.fs request.destination part.file
      → Advances view env.fs part.file
      → (prepare env peer request disk).0 ≡ ok (some (part, progress))
      → validator part.manifest ≡ some tag
      → peer.body ≡ more now first bytes body
      → progress.bytes + size peer.body < 2 ^ 64
      → (run env peer request disk).0 ≡ ok stopped
      → Partial again
      → let w = (run env peer request disk).1.0 in
        let w2 = (load_prior env request (check_destination env request w).1).1 in
        ((len : ℕ)
          → (part_len env.fs request.destination w2).0 ≡ ok len
          → progress.bytes + size peer.body ≤ len)
        → (prepare env again request w).0 ≡ ok (some (part', progress'))
        → progress'.bytes ≡ progress.bytes + size peer.body
  run-resumes peer again disk tag now first bytes body {part} {part'} {progress} {progress'} opening
        reading laws advances begun valid reads fits returned partial whole resumed =
      let n = progress.bytes + size peer.body in
      let some_bytes : 0 < n = omega (arith, ap size reads) in
      prepare-resumes env view again request (run env peer request disk).1.0 n tag {part = part'}
        {progress = progress'} reading partial
        (run-Left peer disk tag now first bytes body {part = part} {progress = progress} opening
          laws advances begun valid reads fits returned)
        some_bytes whole resumed
