-- ===== src/Speede/Client/Chunks.antt =====
-- app/clients/nsdl_speede_client.py: `data_offset`, `ends_with_newline` and `upload_chunks`. A file is
-- its bytes.
pub mod Sent
use edpbilling_file_upload.Base.{
  ℕ, zero, suc, ◌+◌, ◌-◌, ◌==◌, max, Bool, true, false, not, ◌&&◌, ◌||◌, Option, none, some, List,
  [], ◌∷◌, ◌++◌, length, take, drop, starts_with, ◌*◌, ◌/◌, ltb, any, all, Text, codes, text_eq,
  lower, upper, strip, lstrip_by, occurs_in, truthy, if◌then◌else◌, or_default,
}
use edpbilling_file_upload.Base.Program.{
  Try, returned, raised, Program, pure, of_try, for_each, ◌>>=◌, ◌>>◌,
}
use edpbilling_file_upload.Base.Words.{squeeze, numeral}
use edpbilling_file_upload.Cbos.Value.{show_ℕ}
use edpbilling_file_upload.Speede.{Failure, other}
use edpbilling_file_upload.Speede.Folder.{DayFile}
use edpbilling_file_upload.Speede.Client.{
  Field, absent, number, string, Row, Body, Api, ClientSettings, field, is_given, either,
  text_or_empty, int_of, first_row,
}
use edpbilling_file_upload.Speede.{speede, no_line_ending, bad_chunk_status, chunks_missing}
use edpbilling_file_upload.Speede.Client.Wire.{utf8_bom, header_scan_bytes}

-- `head.find(b"\n", start)`, the position in front of `start` counted from there
unfoldable pub newline_from : ℕ → List ℕ → Option ℕ
newline_from i [] = none
newline_from i (b ∷ bytes) =
    let rest = newline_from (suc i) bytes in if b == 10 then some i else rest

unfoldable pub data_offset : List ℕ → Try Failure ℕ
unfolding utf8_bom header_scan_bytes starts_with newline_from
data_offset content =
    let head = take header_scan_bytes content in
    let start = if starts_with utf8_bom head then 3 else 0 in
    elim (newline_from start (drop start head)) [
      | some newline ↦ returned (newline + 1)
      | none ↦
          if ltb (length head) header_scan_bytes
          then returned (length content)
          else raised (speede no_line_ending)
    ]

unfoldable pub ends_with_newline : List ℕ → Bool
ends_with_newline [] = true
ends_with_newline (b ∷ []) = b == 10
ends_with_newline (b ∷ c ∷ bytes) = ends_with_newline (c ∷ bytes)

-- `settings.nsdl_speede_strip_header` and what it decides
unfoldable pub offset_of : ClientSettings → List ℕ → Try Failure ℕ
unfolding data_offset
offset_of settings content = if settings.strip_header then data_offset content else returned 0

unfoldable pub terminator : ClientSettings → ℕ → List ℕ → List ℕ
unfolding ends_with_newline
terminator settings data_bytes content =
    if settings.append_trailing_newline && not (data_bytes == 0) && not (ends_with_newline content)
    then 10 ∷ []
    else []

unfoldable pub chunk_size : ClientSettings → ℕ
chunk_size settings = max 1 settings.chunk_size_kb * 1024

unfoldable pub total_chunks : ℕ → ℕ → ℕ
total_chunks send_bytes size = max 1 ((send_bytes + size - 1) / size)

-- The bytes of each round of the loop, of which so many are left, with its number; the last one
-- gets the terminator.
unfoldable pub chunks : ℕ → List ℕ → ℕ → ℕ → List ℕ → List (ℕ × List ℕ)
chunks size ending i zero bytes = []
chunks size ending i (suc zero) bytes = (i, take size bytes ++ ending) ∷ []
chunks size ending i (suc (suc left)) bytes =
    (i, take size bytes) ∷ chunks size ending (suc i) (suc left) (drop size bytes)

unfoldable pub f_count_of : Field → Try Failure (Option ℕ)
unfolding is_given int_of
f_count_of f =
    if is_given f
    then elim (int_of f) [ returned n ↦ returned (some n) | raised e ↦ raised e ]
    else returned none

unfoldable pub has_count : Option ℕ → ℕ → Bool
has_count none total = false
has_count (some n) total = n == total

-- What the loop makes of the answer to chunk `i` of `total`.
unfoldable pub check_answer : ℕ → ℕ → Body → Try Failure (Unit {0})
unfolding text_or_empty f_count_of has_count text_eq
check_answer i total body =
    let status = text_or_empty body.status in
    let bad_status = raised (speede (bad_chunk_status i status)) in
    if i == total - 1
    then (if text_eq status (codes "FileUploaded")
        then elim (f_count_of body.f_count) [
          | raised e ↦ raised e
          | returned f_count ↦
              if has_count f_count total
              then returned tt
              else raised (speede (chunks_missing f_count total))
        ]
        else bad_status)
    else (if text_eq status (codes "ChunkUploaded") then returned tt else bad_status)

-- What one upload sends: the chunks with their numbers, and `send_bytes`.
pub record Plan : Type 0 where
  pub size : ℕ
  pub total : ℕ
  pub send_bytes : ℕ
  pub parts : List (ℕ × List ℕ)

unfoldable pub plan_from : ClientSettings → List ℕ → ℕ → Plan
unfolding terminator chunk_size total_chunks chunks
plan_from settings content offset =
    let data_bytes = length content - offset in
    let ending = terminator settings data_bytes content in
    let send_bytes = data_bytes + length ending in
    let size = chunk_size settings in
    let total = total_chunks send_bytes size in
    record {
      size = size;
      total = total;
      send_bytes = send_bytes;
      parts = chunks size ending 0 total (drop offset content);
    }

module _ {Server : Type 0} (api : Api Server) (settings : ClientSettings) where
  unfoldable pub send_chunk : Text → Text → ℕ → ℕ × List ℕ → Program Server Failure (Unit {0})
  send_chunk guid transmit_name total (i, bytes) =
      api.upload_chunk guid transmit_name bytes i total >>= λ body.
      of_try (check_answer i total body)

  unfoldable pub send_plan : Text → Plan → Program Server Failure (Text × ℕ × ℕ)
  send_plan transmit_name plan = api.new_guid >>= λ guid.
      for_each (send_chunk guid transmit_name plan.total) plan.parts
      >> pure (guid, plan.total, plan.send_bytes)

  unfoldable pub upload_chunks : DayFile → Text → Program Server Failure (Text × ℕ × ℕ)
  upload_chunks file transmit_name =
      let content = settings.content file in
      of_try (offset_of settings content) >>= λ offset.
      send_plan transmit_name (plan_from settings content offset)
