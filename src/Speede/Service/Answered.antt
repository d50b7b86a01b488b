-- ===== src/Speede/Service/Answered.antt =====
-- app/services/nsdl_speede_service.py, `process_upload`: the summary and the overall status against the
-- files that were worked on.
pub mod Entries
use edpbilling_file_upload.Base.{
  ℕ, ◌+◌, ◌==◌, ◌≤◌, ◌≡◌, refl, sym, ◌∙◌, Bool, true, Option, List, [], ◌∷◌, all, length, Text,
  if◌then◌else◌, Bool-cases, inl, inr, arith, ◌↔◌,
}
use edpbilling_file_upload.Base.Program.{
  returned, Ensures, for_each, pure-Ensures, adapt, bind-Ensures, anything, NoClaim, on_return,
  frame,
}
use edpbilling_file_upload.Speede.{UploadCategory}
use edpbilling_file_upload.Speede.Catalogue.{SpeedeFile, Selector}
use edpbilling_file_upload.Speede.Folder.{Folders}
use edpbilling_file_upload.Speede.Table.{UploadState}
use edpbilling_file_upload.Speede.Service.{
  Client, World, FileResult, is_success, is_failed, is_in_progress,
}
use edpbilling_file_upload.Speede.Service.Steps.{process_entry}
use edpbilling_file_upload.Speede.Service.Requests.{
  all_success, still_in_progress, Summary, Response, count_of, overall_of, summarise, respond,
  process_upload,
}
use edpbilling_file_upload.Speede.Service.Answered.Entries.{
  IsOfSelection, process_upload-IsOfSelection,
}
use edpbilling_file_upload.Speede.Service.Settled.{is_settled, AnyWorld}
use edpbilling_file_upload.Speede.Service.Settled.Files.{process_entry-Ensures}

abbrev settled_result : FileResult → Bool
settled_result r = is_settled r.upload.status

abbrev pub has_success : FileResult → Bool
has_success r = is_success r.upload.status

abbrev pub has_failed : FileResult → Bool
has_failed r = is_failed r.upload.status

count_bound : (p : UploadState → Bool) (rs : List FileResult) → count_of p rs ≤ length rs
unfolding count_of
count_bound p [] = omega arith
count_bound p (r ∷ rs) = ground (arith, count_bound p rs)

count_all :
    (p : UploadState → Bool) (rs : List FileResult)
    → (count_of p rs == length rs) ≡ all (λ r. p r.upload.status) rs
unfolding count_of
count_all p [] = refl
count_all p (r ∷ rs) = elim (Bool-cases (p r.upload.status)) [
  | inl e ↦ ground (arith, count_all p rs)
  | inr e ↦ ground (arith, count_bound p rs)
]

one_kind :
    (s : UploadState)
    → is_settled s ≡ true
    → (if is_success s then 1 else 0)
        + (if is_in_progress s then 1 else 0)
        + (if is_failed s then 1 else 0)
      ≡ 1
unfolding is_success is_failed is_in_progress
one_kind UploadState.success h = omega arith
one_kind UploadState.failed h = omega arith
one_kind UploadState.in_progress h = omega arith
one_kind UploadState.pending h = absurd (cc)
one_kind UploadState.validating h = absurd (cc)
one_kind UploadState.uploading h = absurd (cc)
one_kind UploadState.uploaded h = absurd (cc)
one_kind UploadState.registered h = absurd (cc)
one_kind UploadState.polling h = absurd (cc)

counts_add :
    (rs : List FileResult)
    → all settled_result rs ≡ true
    → count_of is_success rs + count_of is_in_progress rs + count_of is_failed rs ≡ length rs
unfolding count_of
counts_add [] h = omega arith
counts_add (r ∷ rs) h = ground (arith, counts_add rs, one_kind r.upload.status)

-- What the answer to an upload request says of its files.
abbrev pub IsAnswer : Response → Type 0
IsAnswer r =
    (r.summary.total ≡ length r.files)
    × (r.summary.success + r.summary.in_progress + r.summary.failed ≡ r.summary.total)
    × ((r.overall ≡ all_success) ↔ (all has_success r.files ≡ true))
    × (r.overall ≡ still_in_progress → all (λ f. is_in_progress f.upload.status) r.files ≡ true)

overall_cases :
    (s : Summary)
    → ((overall_of s ≡ all_success) ↔ ((s.success == s.total) ≡ true))
      × (overall_of s ≡ still_in_progress → (s.success ≡ 0) × (s.failed ≡ 0))
unfolding overall_of
overall_cases s = elim (Bool-cases (s.success == s.total)) [
  | inl e ↦ ground arith
  | inr e ↦ ground arith
]

respond-IsAnswer : (rs : List FileResult) → all settled_result rs ≡ true → IsAnswer (respond rs)
unfolding respond summarise
respond-IsAnswer rs h =
    let (done, waiting) = overall_cases (summarise rs) in
    (
      refl,
      counts_add rs h,
      (λ e. sym (count_all is_success rs) ∙ done.0 e, λ e. done.1 (count_all is_success rs ∙ e)),
      λ e.
          let (no_success, no_failure) = waiting e in
          sym (count_all is_in_progress rs) ∙ ground (arith, counts_add rs h),
    )

module _ {Server : Type 0} (client : Client Server) (folders : Folders) (trade_date : Text) where
  entries_settled :
      (force : Bool) (correlation_id : Option Text) (categories : List UploadCategory)
      (requests : List (SpeedeFile × Option ℕ))
      → Ensures AnyWorld
          (for_each
            (process_entry client folders trade_date force correlation_id categories)
            requests)
          (λ rs _. all settled_result rs ≡ true)
          NoClaim
  unfolding for_each
  entries_settled force correlation_id categories [] = pure-Ensures [] (λ w p. refl)
  entries_settled force correlation_id categories (request ∷ requests) =
      bind-Ensures _ _
        (adapt (λ w p. p) (λ a w p. p) (λ e w p. tt)
          (process_entry-Ensures client folders trade_date force correlation_id categories request))
        (λ r.
          bind-Ensures {R = λ rs w. (settled_result r ≡ true) × (all settled_result rs ≡ true)} _ _
            (frame (settled_result r ≡ true)
              (entries_settled force correlation_id categories requests))
            (λ rs. pure-Ensures (r ∷ rs) (λ w (h, k). rw h k)))

  process_upload-Ensures :
      (selectors : List Selector) (correlation_id : Option Text) (force : Bool)
      → Ensures AnyWorld
          (process_upload client folders trade_date selectors correlation_id force)
          (λ r _. IsAnswer r)
          NoClaim
  unfolding process_upload
  process_upload-Ensures selectors correlation_id force = bind-Ensures _ _ (anything _) (λ requests.
      bind-Ensures _ _ (anything _) (λ categories.
        bind-Ensures _ _
          (bind-Ensures {R = NoClaim} _ _ (anything _)
            (λ _. entries_settled force correlation_id categories requests))
          (λ rs. pure-Ensures (respond rs) (λ w h. respond-IsAnswer rs h))))

  -- Whatever the files, the rows and the API's answers are: a request for uploads that is answered
  -- reports one file for each entry, by its account and report, that its selectors resolve to, in
  -- their order, and counts every one of them once in its summary, as a success, in progress or failed, and nothing else. It
  -- is a success as a whole exactly where each of the files is one, and in progress as a whole only
  -- where each of the files is.
  pub process_upload-IsAnswer :
      (selectors : List Selector) (correlation_id : Option Text) (force : Bool) (w : World Server)
      (r : Response)
      → (process_upload client folders trade_date selectors correlation_id force w).0 ≡ returned r
      → IsOfSelection selectors r × IsAnswer r
  process_upload-IsAnswer selectors correlation_id force w r e = (
    on_return (λ r _. IsOfSelection selectors r) NoClaim _
        ((process_upload-IsOfSelection client folders trade_date selectors correlation_id force).run
          w tt)
        e,
    on_return (λ r _. IsAnswer r) NoClaim _
        ((process_upload-Ensures selectors correlation_id force).run w tt) e,
  )
