-- ===== src/Storage/PartFile/Position.antt =====
-- storage/file.rs: where an open part file stands after a write.
use download_manager.Base.{ℕ, ◌+◌, ◌-◌, ◌≡◌, refl, ◌∙◌, ap, true, length, inl, inr, Bool-cases, leb}
use download_manager.Error.{ok}
use download_manager.Storage.FileSystem.{FileSystem, Bytes, done}
use download_manager.Storage.Manifest.{resume_offset}
use download_manager.Storage.Sidecar.{Json}
use download_manager.Storage.PartFile.{Opened, checkpoint_bytes, write}
use download_manager.Storage.PartFile.Laws.{View, Laws, Readable}
use download_manager.Storage.PartFile.Durable.{IoResult-cases}
use download_manager.Storage.PartFile.Recorded.{checkpoint-Recorded}

module _ {W : Type 0} (view : View W) (fs : FileSystem W) where
  -- A write that succeeds has written every byte.
  abbrev pub Advances : ℕ → Type 0
  Advances file =
      (bytes : Bytes) (w : W)
      → (fs.write_all file bytes w).0 ≡ done tt
      → view.position file (fs.write_all file bytes w).1 ≡ view.position file w + length bytes

  pub write-position :
      (json : Json) (readable : Readable json) (s : Opened W) (bytes : Bytes)
      → Laws view fs s.part.dest s.part.file
      → Advances s.part.file
      → (write fs json bytes s).0 ≡ ok tt
      → view.position s.part.file (write fs json bytes s).1.disk
        ≡ view.position s.part.file s.disk + length bytes
  unfolding write
  write-position json readable s bytes laws advances returned =
      let file = s.part.file in
      let w1 = (fs.write_all file bytes s.disk).1 in
      let w2 = (fs.stream_position file w1).1 in
      let t : Opened W = record { part = record s.part { dirty = true }; disk = w2 } in
      elim (IoResult-cases (fs.write_all file bytes s.disk).0) [
        | inr (error, e) ↦ let impossible = rw e at returned in cc
        | inl (u, e) ↦
            let moved : view.position file w2 ≡ view.position file s.disk + length bytes =
              ap (view.position file) (laws.stream_position_keeps w1) ∙ advances bytes s.disk e in
            elim (IoResult-cases (fs.stream_position file w1).0) [
              | inr (error, e') ↦ let impossible = rw (e, e') at returned in cc
              | inl (p, e') ↦
                  elim (Bool-cases (leb checkpoint_bytes (p - resume_offset s.part.manifest))) [
                    | inl often ↦
                        let recorded =
                          checkpoint-Recorded view json fs readable t laws refl
                            (rw (e, e', often) at returned) in
                        rw (e, e', often) (recorded.1.0 ∙ moved)
                    | inr later ↦ rw (e, e', later) moved
                  ]
            ]
      ]
