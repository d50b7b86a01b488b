-- ===== src/Cbos/Value.antt =====
-- The JSON scalars that stand in the rows which CBOS returns, with the Python conversions that
-- app/clients/cbos_client.py applies to them. A `float` carries its `repr`. Arrays and objects
-- as a field's value are not modelled.
pub mod Digits
use edpbilling_file_upload.Base.{
  ℕ, zero, suc, ◌+◌, ◌/◌, ◌%◌, Bool, true, false, not, [], ◌∷◌, ◌==◌, Text, codes, truthy, one_of,
  ltb, if◌then◌else◌,
}

-- `negsuc n` is -(n + 1).
pub data ℤ : Type 0 where
  pos : ℕ → ℤ
  negsuc : ℕ → ℤ

pub data Scalar : Type 0 where
  null : Scalar
  bool : Bool → Scalar
  int : ℤ → Scalar
  float : Text → Scalar
  str : Text → Scalar

-- Decimal digits in front of `acc`; the fuel `n + 1` is enough, since each round divides by ten.
digits_onto : ℕ → ℕ → Text → Text
digits_onto zero n acc = acc
digits_onto (suc fuel) n acc =
    let rest = digits_onto fuel (n / 10) ((48 + n % 10) ∷ acc) in
    if ltb n 10 then (48 + n) ∷ acc else rest

-- `str(n)` of a natural number
unfoldable pub show_ℕ : ℕ → Text
unfolding digits_onto
show_ℕ n = digits_onto (suc n) n []

-- `str(n)` of an integer
unfoldable pub show_ℤ : ℤ → Text
unfolding show_ℕ
show_ℤ (pos n) = show_ℕ n
show_ℤ (negsuc n) = b'-' ∷ show_ℕ (n + 1)

-- `str(value)`
unfoldable pub py_str : Scalar → Text
unfolding show_ℤ
py_str null = codes "None"
py_str (bool true) = codes "True"
py_str (bool false) = codes "False"
py_str (int n) = show_ℤ n
py_str (float repr) = repr
py_str (str t) = t

-- `bool(value)`
unfoldable pub py_bool : Scalar → Bool
py_bool null = false
py_bool (bool b) = b
py_bool (int (pos n)) = not (n == 0)
py_bool (int (negsuc n)) = true
py_bool (float repr) = not (one_of repr (codes "0.0" ∷ codes "-0.0" ∷ []))
py_bool (str t) = truthy t

-- `value is None`
unfoldable pub is_none : Scalar → Bool
is_none null = true
is_none _ = false
