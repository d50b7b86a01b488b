-- ===== src/Lane/Chunks/Complete.antt =====
-- app/clients/cbos_client.py, `upload_file`: the chunks that the server answered.
use mathlib.Core.List.{append_assoc, append-nil}
use edpbilling_file_upload.Base.{
  arith, ℕ, zero, suc, ◌+◌, ◌*◌, ◌≤◌, max, ◌≡◌, refl, sym, ◌∙◌, ap, subst, List, [], ◌∷◌, ◌++◌,
  length, take, drop, join, take-append-drop, length-drop, length-take,
}
use edpbilling_file_upload.Base.Division.{ceiling_enough}
use edpbilling_file_upload.Lane.Client.{Failure, cbos, Reply, answer, raise, Transfer}
use edpbilling_file_upload.Lane.Chunks.{
  chunk_size, total_chunks, read_chunks, or_again, attempt, after_chunk, send_rest, upload_file,
}

-- The chunks with their numbers, from the number given.
abbrev pub enumerate : ℕ → List (List ℕ) → List (ℕ × List ℕ)
enumerate i [] = []
enumerate i (c ∷ cs) = (i, c) ∷ enumerate (suc i) cs

-- What is reported for so many chunks.
abbrev pub counted : ℕ → ℕ → List (List ℕ) → List (ℕ × ℕ)
counted total i [] = []
counted total i (c ∷ cs) = (i + 1, total) ∷ counted total (suc i) cs

-- Each chunk is at most so long.
abbrev pub AllWithin : ℕ → List (List ℕ) → Type 0
AllWithin size [] = Unit {0}
AllWithin size (c ∷ cs) = (length c ≤ size) × AllWithin size cs

join-read_chunks :
    (size n : ℕ) (bytes : List ℕ)
    → length bytes ≤ n * size
    → join (read_chunks size n bytes) ≡ bytes
unfolding read_chunks
join-read_chunks size zero [] h = refl
join-read_chunks size zero (b ∷ bytes) h = absurd (omega arith)
join-read_chunks size (suc n) bytes h =
    ap (λ rest. take size bytes ++ rest)
      (join-read_chunks size n (drop size bytes) (omega (arith, length-drop size bytes)))
    ∙ take-append-drop size bytes

read_chunks-AllWithin : (size n : ℕ) (bytes : List ℕ) → AllWithin size (read_chunks size n bytes)
unfolding read_chunks
read_chunks-AllWithin size zero bytes = tt
read_chunks-AllWithin size (suc n) bytes =
    (length-take size bytes, read_chunks-AllWithin size n (drop size bytes))

length-read_chunks : (size n : ℕ) (bytes : List ℕ) → length (read_chunks size n bytes) ≡ n
unfolding read_chunks
length-read_chunks size zero bytes = refl
length-read_chunks size (suc n) bytes = ap suc (length-read_chunks size n (drop size bytes))

positive_size : (k : ℕ) → 1 ≤ chunk_size k
unfolding chunk_size
positive_size k = omega arith

-- So many chunks of that size hold the file.
total_chunks-enough :
    (file_size size : ℕ) → 1 ≤ size → file_size ≤ total_chunks file_size size * size
unfolding total_chunks
total_chunks-enough = ceiling_enough

module _ {Server : Type 0} where
  record_answer :
      List ℕ
      → ℕ
      → List (ℕ × List ℕ)
      → Reply (Unit {0}) × Server
      → Reply (Unit {0}) × (Server × List (ℕ × List ℕ))
  record_answer bytes i log (answer a, s) = (answer a, (s, log ++ ((i, bytes) ∷ [])))
  record_answer bytes i log (raise e, s) = (raise e, (s, log))

module _ {Server : Type 0}
    (upload_chunk : List ℕ → ℕ → ℕ → Server → Reply (Unit {0}) × Server) where
  -- The server, with a record of the chunks that it answered.
  unfoldable pub recording :
      List ℕ → ℕ → ℕ → Server × List (ℕ × List ℕ) → Reply (Unit {0}) × (Server × List (ℕ × List ℕ))
  unfolding record_answer
  recording bytes i total (s, log) = record_answer bytes i log (upload_chunk bytes i total s)

  -- A reply that answers has put the chunk on record, any other nothing.
  abbrev Recorded :
      List ℕ → ℕ → List (ℕ × List ℕ) → Reply (Unit {0}) × (Server × List (ℕ × List ℕ)) → Type 0
  Recorded bytes i log (answer _, (_, log')) = log' ≡ log ++ ((i, bytes) ∷ [])
  Recorded bytes i log (raise _, (_, log')) = log' ≡ log

  recording-Recorded :
      (bytes : List ℕ) (i total : ℕ) (s : Server) (log : List (ℕ × List ℕ))
      → Recorded bytes i log (recording bytes i total (s, log))
  unfolding recording record_answer
  recording-Recorded bytes i total s log = go (upload_chunk bytes i total s)
    where
      go : (x : Reply (Unit {0}) × Server) → Recorded bytes i log (record_answer bytes i log x)
      go (answer _, s') = refl
      go (raise _, s') = refl

  or_again-Recorded :
      (left : ℕ) (bytes : List ℕ) (i total : ℕ) (log : List (ℕ × List ℕ))
      (x : Reply (Unit {0}) × (Server × List (ℕ × List ℕ)))
      → Recorded bytes i log x
      → ((s : Server) (l : List (ℕ × List ℕ))
          → Recorded bytes i l (attempt recording left bytes i total (s, l)))
      → Recorded bytes i log (or_again recording x (attempt recording left bytes i total))
  unfolding or_again
  or_again-Recorded left bytes i total log (answer _, y) e again = e
  or_again-Recorded left bytes i total log (raise (cbos _), (s', log')) e again =
      subst (λ l. Recorded bytes i l (attempt recording left bytes i total (s', log'))) e
        (again s' log')
  or_again-Recorded left bytes i total log (raise Failure.file_not_found, y) e again = e
  or_again-Recorded left bytes i total log (raise Failure.integrity_error, y) e again = e
  or_again-Recorded left bytes i total log (raise Failure.no_attempt, y) e again = e
  or_again-Recorded left bytes i total log (raise Failure.unexpected, y) e again = e

  attempt-Recorded :
      (left : ℕ) (bytes : List ℕ) (i total : ℕ) (s : Server) (log : List (ℕ × List ℕ))
      → Recorded bytes i log (attempt recording left bytes i total (s, log))
  unfolding attempt or_again
  attempt-Recorded zero bytes i total s log = refl
  attempt-Recorded (suc zero) bytes i total s log = recording-Recorded bytes i total s log
  attempt-Recorded (suc (suc left)) bytes i total s log =
      or_again-Recorded (suc left) bytes i total log (recording bytes i total (s, log))
        (recording-Recorded bytes i total s log) (attempt-Recorded (suc left) bytes i total)

  -- A transfer that answers has put all the chunks on record, and reported each.
  abbrev Completes :
      ℕ → ℕ → List (List ℕ) → List (ℕ × List ℕ) → Transfer (Server × List (ℕ × List ℕ)) → Type 0
  Completes total i chunks log t =
      t.reply ≡ answer tt
      → (t.server.1 ≡ log ++ enumerate i chunks) × (t.reports ≡ counted total i chunks)

  after_chunk-Completes :
      (retries total i : ℕ) (c : List ℕ) (cs : List (List ℕ)) (log : List (ℕ × List ℕ))
      (x : Reply (Unit {0}) × (Server × List (ℕ × List ℕ)))
      → Recorded c i log x
      → ((s : Server) (l : List (ℕ × List ℕ))
          → Completes total (suc i) cs l (send_rest recording retries total (suc i) cs (s, l)))
      → Completes total i
          (c ∷ cs)
          log
          (after_chunk recording (i + 1, total) x (send_rest recording retries total (suc i) cs))
  unfolding after_chunk
  after_chunk-Completes retries total i c cs log (answer _, (s', log')) e rest h =
      let (a, b) = rest s' log' h in
      (
        a
            ∙ ap (λ l. l ++ enumerate (suc i) cs) e
            ∙ append_assoc log ((i, c) ∷ []) (enumerate (suc i) cs),
        ap (λ rs. (i + 1, total) ∷ rs) b,
      )
  after_chunk-Completes retries total i c cs log (raise f, y) e rest h = cc

  send_rest-Completes :
      (retries total i : ℕ) (chunks : List (List ℕ)) (s : Server) (log : List (ℕ × List ℕ))
      → Completes total i chunks log (send_rest recording retries total i chunks (s, log))
  unfolding send_rest after_chunk
  send_rest-Completes retries total i [] s log = λ h. (sym (append-nil log), refl)
  send_rest-Completes retries total i (c ∷ cs) s log =
      after_chunk-Completes retries total i c cs log (attempt recording retries c i total (s, log))
        (attempt-Recorded retries c i total s log) (send_rest-Completes retries total (suc i) cs)

  -- If the transfer of a file succeeds, whatever the server answered to the single attempts, then the
  -- chunks that it answered are, in order and each once, the numbered parts of the file: joined they
  -- are its bytes, none is longer than the chunk size, and one report went out for each.
  pub upload_file-Completes :
      (chunk_size_kb retries : ℕ) (bytes : List ℕ) (s : Server) (log : List (ℕ × List ℕ))
      → (upload_file recording chunk_size_kb retries bytes (s, log)).reply ≡ answer tt
      → (chunks : List (List ℕ)) × ((upload_file recording chunk_size_kb retries bytes
            (s, log)).server.1
          ≡ log ++ enumerate 0 chunks)
        × (join chunks ≡ bytes)
        × AllWithin (max 1 chunk_size_kb * 1024) chunks
        × ((upload_file recording chunk_size_kb retries bytes (s, log)).reports
            ≡ counted (length chunks) 0 chunks)
  unfolding upload_file chunk_size
  upload_file-Completes chunk_size_kb retries bytes s log h =
      let size : ℕ = max 1 chunk_size_kb * 1024 in
      let total : ℕ = total_chunks (length bytes) size in
      let (a, b) =
        send_rest-Completes (max 1 retries) total 0 (read_chunks size total bytes) s log h in
      (
        read_chunks size total bytes,
        a,
        join-read_chunks size total bytes
            (total_chunks-enough (length bytes) size (positive_size chunk_size_kb)),
        read_chunks-AllWithin size total bytes,
        subst
            (λ n.
              (upload_file recording chunk_size_kb retries bytes (s, log)).reports
              ≡ counted n 0 (read_chunks size total bytes))
            (sym (length-read_chunks size total bytes)) b,
      )
