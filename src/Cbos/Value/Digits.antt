-- ===== src/Cbos/Value/Digits.antt =====
-- Decimal numerals, as file names carry them.
use edpbilling_file_upload.Base.{
  ℕ, zero, suc, ◌+◌, ◌-◌, ◌*◌, ◌/◌, ◌%◌, ◌<◌, ◌≡◌, ap, sym, ◌∙◌, Text, [], ◌∷◌, arith, ltb,
  Bool-cases, inl, inr,
}
use edpbilling_file_upload.Cbos.Value.{digits_onto, show_ℕ}

-- The number that a numeral continues from `v`.
abbrev value : ℕ → Text → ℕ
value v [] = v
value v (c ∷ t) = value (v * 10 + (c - 48)) t

value-digits_onto :
    (fuel n : ℕ) (acc : Text) → n < fuel → value 0 (digits_onto fuel n acc) ≡ value n acc
unfolding digits_onto
value-digits_onto zero n acc h = absurd (omega arith)
value-digits_onto (suc fuel) n acc h = elim (Bool-cases (ltb n 10)) [
  | inl e ↦ rw e (ap (λ v. value v acc) (omega arith))
  | inr e ↦ rw e (
      value-digits_onto fuel (n / 10) ((48 + n % 10) ∷ acc) (ground arith)
      ∙ ap (λ v. value v acc) (omega arith))
]

value-show_ℕ : (n : ℕ) → value 0 (show_ℕ n) ≡ n
unfolding show_ℕ
value-show_ℕ n = value-digits_onto (suc n) n [] (omega arith)

-- Two numbers with one numeral are equal.
pub show_ℕ_injective : (m n : ℕ) → show_ℕ m ≡ show_ℕ n → m ≡ n
show_ℕ_injective m n e = sym (value-show_ℕ m) ∙ ap (value 0) e ∙ value-show_ℕ n
