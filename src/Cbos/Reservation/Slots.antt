-- ===== src/Cbos/Reservation/Slots.antt =====
-- When a slot of the reservation counts as filled or excused: cbos_client.py, `UploadCandidate`.
use edpbilling_file_upload.Base.{
  Option-cases, ◌≡◌, ◌≢◌, ◌⊎◌, ◌↔◌, inl, inr, Bool, true, false, Option, none, some, Text, codes,
  text_eq_iff, upper, strip, occurs_in, arith,
}
use edpbilling_file_upload.Cbos.Reservation.{
  UploadCandidate, expects_a_file, already_in_cbos, accepted_status,
}

-- CBOS's word that a slot is done. The STATUS is stripped and in upper case.
abbrev Accepted : Bool → Option Text → Text → Type 0
Accepted expects desc status =
    (status ≢ codes "FAILED")
    × ((status ≢ codes "PENDING")
        ⊎ ((expects ≡ true)
            × (d : Text) × (desc ≡ some d)
            × (occurs_in (codes "UPLOAD FILE PENDING") (upper (strip d)) ≡ false)))

module _ (status : Text) where
  accepted_status_sound :
      (expects : Bool) (desc : Option Text)
      → accepted_status status expects desc ≡ true
      → Accepted expects desc status
  unfolding accepted_status
  accepted_status_sound false desc h = (
    ground (arith, text_eq_iff status (codes "FAILED")),
    inl (ground (arith, text_eq_iff status (codes "PENDING"))),
  )
  accepted_status_sound true none h = (
    ground (arith, text_eq_iff status (codes "FAILED")),
    inl (ground (arith, text_eq_iff status (codes "PENDING"))),
  )
  accepted_status_sound true (some d) h =
      ground (arith, text_eq_iff status (codes "FAILED"), text_eq_iff status (codes "PENDING"))

  accepted_status_complete :
      (expects : Bool) (desc : Option Text)
      → Accepted expects desc status
      → accepted_status status expects desc ≡ true
  unfolding accepted_status
  accepted_status_complete expects desc h =
      ground (arith, text_eq_iff status (codes "FAILED"), text_eq_iff status (codes "PENDING"))

-- CBOS already holds the slot's file.
abbrev pub IsFilled : UploadCandidate → Type 0
IsFilled c =
    (status : Text) × (c.status ≡ some status)
    × Accepted (expects_a_file c) c.status_desc (upper (strip status))

already_in_cbos_sound : (c : UploadCandidate) → already_in_cbos c ≡ true → IsFilled c
unfolding already_in_cbos
already_in_cbos_sound c h = elim (Option-cases c.status) [
  | inl e ↦ absurd (ground arith)
  | inr (status, e) ↦ (
    status,
    e,
    accepted_status_sound (upper (strip status)) (expects_a_file c) c.status_desc (ground (arith)),
  )
]

already_in_cbos_complete : (c : UploadCandidate) → IsFilled c → already_in_cbos c ≡ true
unfolding already_in_cbos
already_in_cbos_complete c (status, e, a) =
    ground
      (arith, accepted_status_complete (upper (strip status)) (expects_a_file c) c.status_desc a)

-- A slot counts as already in CBOS exactly when its STATUS, stripped and in upper case, is there,
-- is not FAILED, and is not PENDING unless the slot expects a file and a STATUSDESC says that
-- something other than the file upload is pending.
pub already_in_cbos_iff : (c : UploadCandidate) → (already_in_cbos c ≡ true) ↔ IsFilled c
already_in_cbos_iff c = (already_in_cbos_sound c, already_in_cbos_complete c)
