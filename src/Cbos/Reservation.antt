-- ===== src/Cbos/Reservation.antt =====
-- app/clients/cbos_client.py: `UploadCandidate`, `ProcessReservation` and `build_reservation`.
-- A row of Table1 or Table2 is the record of the fields that the code reads; STATUS and
-- STATUSDESC are strings or null, as `UploadCandidate` declares them.
pub mod Slots
use edpbilling_file_upload.Base.{
  ◌&&◌, Bool, true, false, not, Option, none, some, List, [], ◌∷◌, map, Text, codes, text_eq,
  one_of, upper, strip, occurs_in, truthy, or_default, if◌then◌else◌, ℕ, ◌==◌,
}
use edpbilling_file_upload.Cbos.Value.{
  Scalar, null, bool, int, float, str, pos, negsuc, py_str, py_bool, is_none,
}

-- CBOSUploadError, by the place that raises it; `remote` carries an adapter's message.
pub data CbosError : Type 0 where
  no_process_id no_candidates no_step_no : CbosError
  remote : Text → CbosError

pub data Result (A : Type 0) : Type 0 where
  ok : A → Result A
  err : CbosError → Result A

-- `value in _ISOPTIONAL_TRUE`: set membership compares by `==`, and 1 == 1.0 == True.
unfoldable pub parse_isoptional : Scalar → Bool
parse_isoptional null = false
parse_isoptional (bool b) = b
parse_isoptional (int (pos n)) = n == 1
parse_isoptional (int (negsuc n)) = false
parse_isoptional (float repr) = text_eq repr (codes "1.0")
parse_isoptional (str t) = one_of t (
    codes "1"
    ∷ codes "true"
    ∷ codes "TRUE"
    ∷ codes "True"
    ∷ codes "Y"
    ∷ codes "YES"
    ∷ codes "yes"
    ∷ [])

-- `step_no` is `null` where the source has None.
pub record UploadCandidate : Type 0 where
  pub upload_id : Text
  pub step_no : Scalar
  pub name : Text
  pub status : Option Text
  pub status_desc : Option Text
  pub is_optional : Bool

unfoldable pub expects_a_file : UploadCandidate → Bool
expects_a_file c = not (one_of c.upload_id (codes "0" ∷ codes "" ∷ []))

-- The test on STATUSDESC that a file-expecting slot makes while its STATUS is PENDING.
pending_desc : Bool → Option Text → Bool
pending_desc true (some desc) = not (occurs_in (codes "UPLOAD FILE PENDING") (upper (strip desc)))
pending_desc _ _ = false

-- `status` is stripped and in upper case.
pub accepted_status : Text → Bool → Option Text → Bool
unfolding pending_desc
accepted_status status expects desc =
    if text_eq status (codes "FAILED")
    then false
    else if not (text_eq status (codes "PENDING"))
    then true
    else pending_desc expects desc

unfoldable pub already_in_cbos : UploadCandidate → Bool
unfolding accepted_status
already_in_cbos c = elim c.status [
  | none ↦ false
  | some status ↦ accepted_status (upper (strip status)) (expects_a_file c) c.status_desc
]

unfoldable pub needs_upload : UploadCandidate → Bool
unfolding already_in_cbos
needs_upload c = if c.is_optional then false else not (already_in_cbos c)

pub record ProcessReservation : Type 0 where
  pub process_id : Text
  pub is_runnable : Bool
  pub candidates : List UploadCandidate

-- Table1: PROCESSID (`null` if absent) and ISRUNNABLE, where absent and null differ.
pub record ProcessRow : Type 0 where
  pub process_id : Scalar
  pub is_runnable : Option Scalar

-- Table2: UPLOADID, where absent and null differ; the others are `null` or `none` if absent.
pub record SlotRow : Type 0 where
  pub upload_id : Option Scalar
  pub step_no : Scalar
  pub name : Scalar
  pub status : Option Text
  pub status_desc : Option Text
  pub is_optional_visible : Scalar

unfoldable pub to_candidate : SlotRow → UploadCandidate
to_candidate row = record {
  upload_id = py_str (or_default row.upload_id (str (codes "0")));
  step_no = row.step_no;
  name = if py_bool row.name then py_str row.name else [];
  status = row.status;
  status_desc = row.status_desc;
  is_optional = parse_isoptional row.is_optional_visible;
}

-- `process_id`, or Table1's where the caller supplies none
pub resolve_process_id : List ProcessRow → Option Text → Result Text
unfolding is_none
resolve_process_id table1 (some process_id) = ok process_id
resolve_process_id [] none = err no_process_id
resolve_process_id (row ∷ _) none =
    if is_none row.process_id then err no_process_id else ok (py_str row.process_id)

-- ISRUNNABLE of the first row, True where it or the row is absent
pub runnable : List ProcessRow → Bool
runnable [] = true
runnable (row ∷ _) = py_bool (or_default row.is_runnable (bool true))

pub with_candidates : List ProcessRow → List SlotRow → Text → Result ProcessReservation
unfolding runnable
with_candidates table1 [] process_id = err no_candidates
with_candidates table1 (row ∷ rows) process_id = ok (record {
  process_id = process_id;
  is_runnable = runnable table1;
  candidates = map to_candidate (row ∷ rows);
})

unfoldable pub build_reservation :
    List ProcessRow → List SlotRow → Option Text → Result ProcessReservation
unfolding resolve_process_id with_candidates
build_reservation table1 table2 process_id = elim (resolve_process_id table1 process_id) [
  | err e ↦ err e
  | ok pid ↦ with_candidates table1 table2 pid
]
