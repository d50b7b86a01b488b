-- ===== src/Outcome/Kinds.antt =====
-- The enumerations of app/services/upload_outcome.py and of app/models/uploaded_file.py.
pub data Destination : Type 0 where
  uploaded failed : Destination

pub data Outcome : Type 0 where
  confirmed unconfirmed idempotent_skip rejected failed gate_parked : Outcome

-- STATUSES of app/models/uploaded_file.py
pub data FileStatus : Type 0 where
  pending uploaded failed : FileStatus
