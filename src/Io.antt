-- ===== src/Io.antt =====
-- Fallible code that changes a state: what was done before an error stays done, so the state comes
-- back beside the error too.
use download_manager.Base.{◌≡◌, refl, sym, ap, subst, ◌∙◌}
use download_manager.Error.{Result, ok, err, io}
use download_manager.Storage.FileSystem.{IoResult, done, failed}

abbrev pub Io : Type 0 → Type 0 → Type 0
Io S A = S → Result A × S

-- The `?` on an `io::Result`, through `From<std::io::Error>`.
abbrev pub io_result : {A : Type 0} → IoResult A → Result A
io_result (done a) = ok a
io_result (failed error) = err (io error)

module _ {S A : Type 0} where
  abbrev pub pure : A → Io S A
  pure a s = (ok a, s)

  -- A result that leaves the state as it is.
  abbrev pub from_result : Result A → Io S A
  from_result r s = (r, s)

  abbrev pub attempt : (S → IoResult A × S) → Io S A
  attempt call s = let (r, s') = call s in (io_result r, s')

module _ {S A B : Type 0} where
  abbrev pub continue : Result A → (A → Io S B) → Io S B
  continue (ok a) f s = f a s
  continue (err e) f s = (err e, s)

  infixl 5 ◌>>=◌ ◌>>◌
  abbrev pub ◌>>=◌ : Io S A → (A → Io S B) → Io S B
  ◌>>=◌ m f s = let (r, s') = m s in continue r f s'

  abbrev pub ◌>>◌ : Io S A → Io S B → Io S B
  m >> k = m >>= λ _. k

module _ {S A B : Type 0} where
  continue-ok :
      (r : Result A) (f : A → Io S B) (s : S) {b : B}
      → (continue r f s).0 ≡ ok b
      → (a : A) × ((r ≡ ok a) × (continue r f s ≡ f a s))
  continue-ok (ok a) f s e = (a, (refl, refl))
  continue-ok (err error) f s e = cc

  -- A chain that returns has gone through its first part.
  pub bind-ok :
      (m : Io S A) (f : A → Io S B) (s : S) {b : B}
      → ((m >>= f) s).0 ≡ ok b
      → (a : A) × (((m s).0 ≡ ok a) × ((m >>= f) s ≡ f a (m s).1))
  bind-ok m f s e = continue-ok (m s).0 f (m s).1 e

  -- What holds of the state after any way through a chain holds after the chain.
  pub bind-holds :
      (Q : S → Type 0) (m : Io S A) (f : A → Io S B) (s : S) {b : B}
      → ((m >>= f) s).0 ≡ ok b
      → ((a : A) → (m s).0 ≡ ok a → (f a (m s).1).0 ≡ ok b → Q (f a (m s).1).1)
      → Q ((m >>= f) s).1
  bind-holds Q m f s e k =
      let (a, (first, continued)) = bind-ok m f s e in
      subst (λ (r : Result B × S). Q r.1) (sym continued)
        (k a first (sym (ap (λ r. r.0) continued) ∙ e))

pub ok_inj : {A : Type 0} {a b : A} → ok a ≡ ok b → a ≡ b
ok_inj e = cc
