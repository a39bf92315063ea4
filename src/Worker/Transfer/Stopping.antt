-- ===== src/Worker/Transfer/Stopping.antt =====
-- worker.rs: what a transfer that stops leaves on disk.
use download_manager.Base.{
  ℕ, ◌+◌, ◌^◌, ◌<◌, ◌≡◌, sym, subst, ◌∙◌, false, ◌∷◌, length, inl, inr, arith,
}
use download_manager.Error.{ok}
use download_manager.Events.Progress.{Float}
use download_manager.Storage.Paths.{FilePath, manifest_path}
use download_manager.Storage.FileSystem.{FileSystem, Bytes}
use download_manager.Storage.Sidecar.{Json}
use download_manager.Storage.PartFile.{Opened, checkpoint, write}
use download_manager.Storage.PartFile.Laws.{View, Laws, Readable, claim}
use download_manager.Storage.PartFile.Durable.{Result-cases}
use download_manager.Storage.PartFile.Position.{Advances}
use download_manager.Storage.PartFile.Uses.{carried}
use download_manager.Storage.PartFile.Synced.{Claims, Synced, checkpoint-Claims, write-Synced}
use download_manager.Worker.Transfer.{
  Body, interrupted, ended, broken, more, Transfer, count_read, transfer,
}
use download_manager.Worker.Transfer.Counting.{size, Counted, count_read_lem, read-Counted}

module _ {F W : Type 0} (float : Float F) (fs : FileSystem W) (view : View W) (json : Json)
    (readable : Readable json) where
  -- The part file is clean, and the manifest on disk claims so many bytes.
  abbrev pub Preserves : FilePath → ℕ → Opened W → Type 0
  Preserves dest n s =
      (s.part.dirty ≡ false) × (claim json (view.contents (manifest_path dest) s.disk) ≡ n)

  checkpoint-Preserves :
      (dest : FilePath) (file : ℕ) (s : Transfer F W)
      → Laws view fs dest file
      → Counted float fs view json readable dest file s
      → Synced view json dest file s.opened
      → (checkpoint fs json s.opened).0 ≡ ok tt
      → Preserves dest s.progress.bytes (checkpoint fs json s.opened).1
  checkpoint-Preserves dest file s laws (same, stands) synced returned =
      let (clean, claims, stays) =
        carried fs json
          (λ d f.
            Laws view fs d f
            → Synced view json d f s.opened
            → ((checkpoint fs json s.opened).1.part.dirty ≡ false)
              × Claims view json d f (checkpoint fs json s.opened).1
              × (view.position f (checkpoint fs json s.opened).1.disk
                  ≡ view.position f s.opened.disk))
          s.opened same
          (λ laws synced. checkpoint-Claims view json fs readable s.opened laws synced returned)
          laws synced in
      (clean, claims ∙ (stays ∙ stands))

  pub read-Synced :
      (dest : FilePath) (file now : ℕ) (bytes : Bytes) (s : Transfer F W)
      → Laws view fs dest file
      → Counted float fs view json readable dest file s
      → (write fs json bytes s.opened).0 ≡ ok tt
      → let t : Transfer F W = record s { opened = (write fs json bytes s.opened).1 } in
        Synced view json dest file (count_read float fs now (length bytes) t).1.opened
  read-Synced dest file now bytes s laws (same, stands) returned =
      let t : Transfer F W = record s { opened = (write fs json bytes s.opened).1 } in
      subst (Synced view json dest file) (sym (count_read_lem float fs now (length bytes) t).0) (
        carried fs json
          (λ d f. Laws view fs d f → Synced view json d f (write fs json bytes s.opened).1) s.opened
          same (λ laws. write-Synced view json fs readable s.opened bytes laws returned) laws)

  -- A transfer that returns after a stop request has left a clean part file, and on disk a manifest
  -- that claims exactly the bytes counted: those at the start and those that were read; this supposes
  -- that at the start the part file is dirty or its manifest on disk, that the count is where it
  -- stands, that the sum is a u64, and that the file system and the encoding keep their laws.
  pub transfer-Preserves :
      (body : Body) (dest : FilePath) (file : ℕ) (s : Transfer F W)
      → Laws view fs dest file
      → Advances view fs file
      → Counted float fs view json readable dest file s
      → Synced view json dest file s.opened
      → s.progress.bytes + size body < 2 ^ 64
      → (transfer float fs json body s).0 ≡ ok false
      → Preserves dest (s.progress.bytes + size body) (transfer float fs json body s).1.opened
  unfolding transfer
  transfer-Preserves interrupted dest file s laws advances h synced fits returned =
      elim (Result-cases (checkpoint fs json s.opened).0) [
        | inr (error, e) ↦ let impossible = rw e at returned in cc
        | inl (u, e) ↦
            let (clean, claims) = checkpoint-Preserves dest file s laws h synced e in
            rw e (clean, omega (arith, claims))
      ]
  transfer-Preserves ended dest file s laws advances h synced fits returned = cc
  transfer-Preserves (broken text) dest file s laws advances h synced fits returned = cc
  transfer-Preserves (more now first bytes body) dest file s laws advances h synced fits returned =
      let t : Transfer F W = record s { opened = (write fs json (first ∷ bytes) s.opened).1 } in
      let next = (count_read float fs now (length (first ∷ bytes)) t).1 in
      elim (Result-cases (write fs json (first ∷ bytes) s.opened).0) [
        | inr (error, e) ↦ let impossible = rw e at returned in cc
        | inl (u, e) ↦
            let (counted, exact) =
              read-Counted float fs view json readable dest file now (first ∷ bytes) s laws advances
                h (omega arith) e in
            let (clean, claims) =
              transfer-Preserves body dest file next laws advances counted
                (read-Synced dest file now (first ∷ bytes) s laws h e) (omega (arith, exact))
                (rw e at returned) in
            rw e (clean, omega (arith, exact, claims))
      ]
