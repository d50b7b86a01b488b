-- ===== src/Cbos/Rule.antt =====
-- app/clients/cbos_client.py: `UploadRule`. `raw_settings`, which is only logged, is left out.
use edpbilling_file_upload.Base.{Option, Text}
use edpbilling_file_upload.Cbos.Value.{ℤ}

pub record UploadRule : Type 0 where
  pub upload_id : Text
  pub name : Text
  pub file_name_pattern : Text
  pub compare_operator : Text
  pub extension : Text
  pub column_count : Option ℤ
