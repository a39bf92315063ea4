-- ===== src/Worker/Transfer/Counting.antt =====
-- worker.rs: the count of bytes and the part file, through the loop.
use download_manager.Base.{ℕ, ◌+◌, ◌^◌, ◌<◌, ◌≡◌, ap, ◌∙◌, sym, true, ◌∷◌, length, inl, inr, arith}
use download_manager.Error.{ok}
use download_manager.Events.Progress.{Float, add64, recompute, force_update, add}
use download_manager.Storage.Paths.{FilePath}
use download_manager.Storage.FileSystem.{FileSystem, Bytes}
use download_manager.Storage.Sidecar.{Json}
use download_manager.Storage.PartFile.{checkpoint, write}
use download_manager.Storage.PartFile.Laws.{View, Laws, Readable}
use download_manager.Storage.PartFile.Durable.{Result-cases}
use download_manager.Storage.PartFile.Position.{Advances, write-position}
use download_manager.Storage.PartFile.Uses.{For, carried, write-For}
use download_manager.Worker.Transfer.{
  Body, interrupted, ended, broken, more, Transfer, send_progress, count_read, transfer,
}

-- The bytes of a body.
abbrev pub size : Body → ℕ
size (more now first bytes body) = length (first ∷ bytes) + size body
size _ = 0

module _ {F W : Type 0} (float : Float F) (fs : FileSystem W) where
  pub count_read_lem :
      (now n : ℕ) (s : Transfer F W)
      → ((count_read float fs now n s).1.opened ≡ s.opened)
        × ((count_read float fs now n s).1.progress.bytes ≡ add64 s.progress.bytes n)
  unfolding count_read send_progress add force_update recompute
  count_read_lem now n s = ground arith

  module _ (view : View W) (json : Json) (readable : Readable json) where
    -- The count is where the part file stands.
    abbrev pub Counted : FilePath → ℕ → Transfer F W → Type 0
    Counted dest file s =
        For fs json dest file s.opened × (view.position file s.opened.disk ≡ s.progress.bytes)

    pub read-Counted :
        (dest : FilePath) (file now : ℕ) (bytes : Bytes) (s : Transfer F W)
        → Laws view fs dest file
        → Advances view fs file
        → Counted dest file s
        → s.progress.bytes + length bytes < 2 ^ 64
        → (write fs json bytes s.opened).0 ≡ ok tt
        → let t : Transfer F W = record s { opened = (write fs json bytes s.opened).1 } in
          Counted dest file (count_read float fs now (length bytes) t).1
          × ((count_read float fs now (length bytes) t).1.progress.bytes
              ≡ s.progress.bytes + length bytes)
    read-Counted dest file now bytes s laws advances (same, stands) fits returned =
        let t : Transfer F W = record s { opened = (write fs json bytes s.opened).1 } in
        let (opened, counted) = count_read_lem now (length bytes) t in
        let (dest', file') = write-For fs json s.opened bytes in
        let moved =
          carried fs json
            (λ d f.
              Laws view fs d f
              → Advances view fs f
              → view.position f (write fs json bytes s.opened).1.disk
                ≡ view.position f s.opened.disk + length bytes)
            s.opened same
            (λ laws advances.
              write-position view fs json readable s.opened bytes laws advances returned)
            laws advances in
        let exact : (count_read float fs now (length bytes) t).1.progress.bytes
            ≡ s.progress.bytes + length bytes =
          omega (arith, counted) in
        (
          (
            (
              ap (λ o. o.part.dest) opened ∙ (dest' ∙ same.0),
              ap (λ o. o.part.file) opened ∙ (file' ∙ same.1),
            ),
            ap (λ o. view.position file o.disk) opened
                ∙ (moved ∙ (ap (λ b. b + length bytes) stands ∙ sym exact)),
          ),
          exact,
        )

    -- When the loop returns at the end of the body, the worker has counted every byte of it, and the
    -- count is where the part file stands, if it was at the start; this supposes that the sum is a
    -- u64 and that the file system and the encoding keep their laws.
    pub transfer-Counted :
        (body : Body) (dest : FilePath) (file : ℕ) (s : Transfer F W)
        → Laws view fs dest file
        → Advances view fs file
        → Counted dest file s
        → s.progress.bytes + size body < 2 ^ 64
        → (transfer float fs json body s).0 ≡ ok true
        → Counted dest file (transfer float fs json body s).1
          × ((transfer float fs json body s).1.progress.bytes ≡ s.progress.bytes + size body)
    unfolding transfer
    transfer-Counted interrupted dest file s laws advances h fits returned =
        elim (Result-cases (checkpoint fs json s.opened).0) [
          | inl (u, e) ↦ let impossible = rw e at returned in cc
          | inr (error, e) ↦ let impossible = rw e at returned in cc
        ]
    transfer-Counted ended dest file s laws advances h fits returned = (h, omega arith)
    transfer-Counted (broken text) dest file s laws advances h fits returned = cc
    transfer-Counted (more now first bytes body) dest file s laws advances h fits returned =
        let t : Transfer F W = record s { opened = (write fs json (first ∷ bytes) s.opened).1 } in
        let next = (count_read float fs now (length (first ∷ bytes)) t).1 in
        elim (Result-cases (write fs json (first ∷ bytes) s.opened).0) [
          | inr (error, e) ↦ let impossible = rw e at returned in cc
          | inl (u, e) ↦
              let (counted, exact) =
                read-Counted dest file now (first ∷ bytes) s laws advances h (omega arith) e in
              let (all_counted, all_exact) =
                transfer-Counted body dest file next laws advances counted (omega (arith, exact))
                  (rw e at returned) in
              rw e (all_counted, omega (arith, exact, all_exact))
        ]
