-- ===== src/Audit/Claims/Opening.antt =====
-- Starting a file's audit row: app/repositories/uploaded_file_repository.py, `create_audit_record`.
use edpbilling_file_upload.Base.{ℕ, suc, [], ◌∷◌, ◌++◌}
use edpbilling_file_upload.Audit.{UploadedFile, Table}

inserted : (ℕ → UploadedFile) → Table → Table
inserted row t = record { rows = t.rows ++ (row t.next_id ∷ []); next_id = suc t.next_id }
