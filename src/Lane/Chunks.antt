-- ===== src/Lane/Chunks.antt =====
-- app/clients/cbos_client.py, `upload_file`: Step 5 in chunks, with the retries of each. A file is
-- its bytes; the adapter's `_upload_chunk` is a parameter; the pauses between attempts are left out.
pub mod Complete
use edpbilling_file_upload.Base.{
  ℕ, zero, suc, ◌+◌, ◌-◌, ◌*◌, ◌/◌, max, List, [], ◌∷◌, ◌++◌, length, take, drop, Text,
}
use edpbilling_file_upload.Lane.Client.{Failure, cbos, Reply, answer, raise, no_attempt, Transfer}

-- `max(1, settings.chunk_size_kb) * 1024`
chunk_size : ℕ → ℕ
chunk_size chunk_size_kb = max 1 chunk_size_kb * 1024

-- `max(1, (file_size + chunk_size - 1) // chunk_size)`
total_chunks : ℕ → ℕ → ℕ
total_chunks file_size size = max 1 ((file_size + size - 1) / size)

-- `fh.read(chunk_size)`, that many times
read_chunks : ℕ → ℕ → List ℕ → List (List ℕ)
read_chunks size zero bytes = []
read_chunks size (suc n) bytes = take size bytes ∷ read_chunks size n (drop size bytes)

module _ {Server : Type 0}
    (upload_chunk : List ℕ → ℕ → ℕ → Server → Reply (Unit {0}) × Server) where
  -- `except CBOSUploadError`, with attempts left
  or_again :
      Reply (Unit {0}) × Server → (Server → Reply (Unit {0}) × Server) → Reply (Unit {0}) × Server
  or_again (raise (cbos e), s) again = again s
  or_again (r, s) again = (r, s)

  -- The loop over the attempts, of which so many are left; there is at least one.
  attempt : ℕ → List ℕ → ℕ → ℕ → Server → Reply (Unit {0}) × Server
  unfolding or_again
  attempt zero bytes current_chunk total s = (raise no_attempt, s)
  attempt (suc zero) bytes current_chunk total s = upload_chunk bytes current_chunk total s
  attempt (suc (suc left)) bytes current_chunk total s =
      or_again (upload_chunk bytes current_chunk total s)
        (attempt (suc left) bytes current_chunk total)

  -- A chunk that went through is reported, and the rest follows.
  after_chunk : ℕ × ℕ → Reply (Unit {0}) × Server → (Server → Transfer Server) → Transfer Server
  after_chunk report (answer _, s) rest =
      let t = rest s in record t { reports = report ∷ t.reports }
  after_chunk report (raise e, s) rest = record { reports = []; reply = raise e; server = s }

  send_rest : ℕ → ℕ → ℕ → List (List ℕ) → Server → Transfer Server
  unfolding attempt after_chunk
  send_rest retries total current_chunk [] s = record {
    reports = [];
    reply = answer tt;
    server = s;
  }
  send_rest retries total current_chunk (bytes ∷ chunks) s =
      after_chunk (current_chunk + 1, total) (attempt retries bytes current_chunk total s)
        (send_rest retries total (suc current_chunk) chunks)

  unfoldable pub upload_file : ℕ → ℕ → List ℕ → Server → Transfer Server
  unfolding chunk_size total_chunks read_chunks send_rest
  upload_file chunk_size_kb chunk_retry_attempts bytes s =
      let size = chunk_size chunk_size_kb in
      let total = total_chunks (length bytes) size in
      send_rest (max 1 chunk_retry_attempts) total 0 (read_chunks size total bytes) s
