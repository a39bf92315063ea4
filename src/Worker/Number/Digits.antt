-- ===== src/Worker/Number/Digits.antt =====
-- worker.rs: a reader that goes through the digits of a u64 finds that number.
use Prim.Native.Char.{Char, code}
use Prim.Native.String.{[], ◌∷◌, ◌++◌}
use Prim.Native.String.append
use text.Mathlib.TextLemmas.{append_assoc}
use download_manager.Base.{
  ℕ, zero, suc, ◌+◌, ◌*◌, ◌/◌, ◌%◌, ◌^◌, ◌<◌, ◌≡◌, refl, ap, ◌∙◌, arith, String,
}
use download_manager.Worker.Number.{digit, show_digits, show_u64}

pub record IsDigit (d : ℕ) (s : String) : Type 0 where
  pub char : Char
  pub text : s ≡ char ∷ []
  pub code_of : code char ≡ 48 + d

digit-IsDigit : (d : ℕ) → d < 10 → IsDigit d (digit d)
digit-IsDigit zero h = record { char = _; text = refl; code_of = refl }
digit-IsDigit (suc zero) h = record { char = _; text = refl; code_of = refl }
digit-IsDigit (suc (suc zero)) h = record { char = _; text = refl; code_of = refl }
digit-IsDigit (suc (suc (suc zero))) h = record { char = _; text = refl; code_of = refl }
digit-IsDigit (suc (suc (suc (suc zero)))) h = record { char = _; text = refl; code_of = refl }
digit-IsDigit (suc (suc (suc (suc (suc zero))))) h = record {
  char = _;
  text = refl;
  code_of = refl;
}
digit-IsDigit (suc (suc (suc (suc (suc (suc zero)))))) h = record {
  char = _;
  text = refl;
  code_of = refl;
}
digit-IsDigit (suc (suc (suc (suc (suc (suc (suc zero))))))) h = record {
  char = _;
  text = refl;
  code_of = refl;
}
digit-IsDigit (suc (suc (suc (suc (suc (suc (suc (suc zero)))))))) h = record {
  char = _;
  text = refl;
  code_of = refl;
}
digit-IsDigit (suc (suc (suc (suc (suc (suc (suc (suc (suc zero))))))))) h = record {
  char = _;
  text = refl;
  code_of = refl;
}
digit-IsDigit (suc (suc (suc (suc (suc (suc (suc (suc (suc (suc d)))))))))) h = absurd (omega arith)

-- A reader that takes a digit as the next one of its number.
module _ {A : Type 0} (read : ℕ → String → A)
    (read_char : (m d : ℕ) (c : Char) (out : String)
      → d < 10
      → code c ≡ 48 + d
      → m * 10 + d < 2 ^ 64
      → read m (c ∷ out) ≡ read (m * 10 + d) out) where
  read_digit :
      (m d : ℕ) (out : String)
      → d < 10
      → m * 10 + d < 2 ^ 64
      → read m (digit d ++ out) ≡ read (m * 10 + d) out
  read_digit m d out h fits =
      let one = digit-IsDigit d h in
      ap (λ s. read m (s ++ out)) one.text
      ∙ ap (read m) (append.cons one.char [] out ∙ ap (one.char ∷◌) (append.nil out))
      ∙ read_char m d one.char out h one.code_of fits

  last_digit :
      (n : ℕ) (out : String) → n < 2 ^ 64 → read (n / 10) (digit (n % 10) ++ out) ≡ read n out
  last_digit n out fits =
      read_digit (n / 10) (n % 10) out (omega arith) (omega arith)
      ∙ ap (λ k. read k out) (omega arith)

  read-show_digits :
      (fuel n : ℕ) (out : String)
      → n < 10 ^ suc fuel
      → n < 2 ^ 64
      → read 0 (show_digits fuel n ++ out) ≡ read n out
  unfolding show_digits
  read-show_digits zero n out h fits =
      read_digit 0 (n % 10) out (omega arith) (omega arith) ∙ ap (λ k. read k out) (omega arith)
  read-show_digits (suc fuel) n out h fits = ground (
    arith,
    append_assoc (show_digits fuel (n / 10)) (digit (n % 10)) out,
    read_digit 0 n out,
    last_digit n out fits,
    read-show_digits fuel (n / 10) (digit (n % 10) ++ out) (omega arith) (omega arith),
  )

  pub read-show_u64 : (n : ℕ) (out : String) → n < 2 ^ 64 → read 0 (show_u64 n ++ out) ≡ read n out
  unfolding show_u64
  read-show_u64 n out fits = read-show_digits 20 n out (omega arith) fits
