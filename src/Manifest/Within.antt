-- ===== src/Manifest/Within.antt =====
-- app/services/manifest_service.py, `load_manifest`: where the listed files lie.
use mathlib.Core.List.{append_assoc, append-nil}
use edpbilling_file_upload.Base.{
  ◌≡◌, ◌≢◌, refl, sym, ◌∙◌, ap, subst, Bool, true, false, List, [], ◌∷◌, ◌++◌, In, Text,
  if◌then◌else◌, inl, inr,
}
use edpbilling_file_upload.Base.Program.{Try, returned, raised}
use edpbilling_file_upload.SafePath.{Location, UnsafePath, resolve_within, assert_within}
use edpbilling_file_upload.SafePath.Confined.{
  IsBelow, IsConfined, resolve_within-IsConfined, assert_within-IsBelow,
}
use edpbilling_file_upload.Queue.Task.{text_or}
use edpbilling_file_upload.Manifest.{
  FileEntry, Manifest, ManifestError, not_found, Intake, LoadedManifest, parent, add_file,
  locate_files, with_files, after_reading, after_confining, load_manifest, no_exchange,
}

IsBelow-trans : (a b c : Location) → IsBelow a b → IsBelow b c → IsBelow a c
IsBelow-trans a b c (r, e) (s, f) = (r ++ s, f ∙ ap (λ x. x ++ s) e ∙ append_assoc a r s)

parent_above : (p : Location) → IsBelow (parent p) p
unfolding parent
parent_above [] = ([], refl)
parent_above (s ∷ []) = (s ∷ [], refl)
parent_above (s ∷ t ∷ p) = let (r, e) = parent_above (t ∷ p) in (r, ap (λ x. s ∷ x) e)

-- Strictly below a base, the parent still lies below it.
parent-IsBelow :
    (base : Location) (t : Text) (rest : Location) → IsBelow base (parent (base ++ (t ∷ rest)))
unfolding parent
parent-IsBelow [] t rest = (parent (t ∷ rest), refl)
parent-IsBelow (b ∷ []) t rest = (parent (t ∷ rest), refl)
parent-IsBelow (b ∷ c ∷ base) t rest =
    let (r, e) = parent-IsBelow (c ∷ base) t rest in (r, ap (λ x. b ∷ x) e)

parent_stays : (base p : Location) → IsBelow base p → p ≢ base → IsBelow base (parent p)
parent_stays base p ([], e) h = absurd (h (e ∙ append-nil base))
parent_stays base p (t ∷ rest, e) h =
    subst (λ q. IsBelow base (parent q)) (sym e) (parent-IsBelow base t rest)

module _ (intake : Intake) where
  -- Every listed path is this folder or lies below it.
  abbrev pub AllBelow : Location → List (Location × Text) → Type 0
  AllBelow base files = (f : Location × Text) → In f files → IsBelow base f.0

  -- What holds if the loading went well.
  abbrev OnLoaded : {A : Type 0} → (A → Type 0) → Try ManifestError A → Type 0
  OnLoaded Q (returned a) = Q a
  OnLoaded Q (raised e) = Unit {0}

  add_file-AllBelow :
      (base : Location) (name exchange : Text) (p : Try UnsafePath Location)
      (rest : Try ManifestError (List (Location × Text)))
      → IsConfined intake.resolve base name p
      → OnLoaded (AllBelow (intake.resolve base)) rest
      → OnLoaded (AllBelow (intake.resolve base)) (add_file exchange p rest)
  unfolding add_file
  add_file-AllBelow base name exchange (raised e) rest h k = tt
  add_file-AllBelow base name exchange (returned p) (raised e) h k = tt
  add_file-AllBelow base name exchange (returned p) (returned rest) (a, e, b) k = go
    where
      go : AllBelow (intake.resolve base) ((p, exchange) ∷ rest)
      go f (inl q) = subst (IsBelow (intake.resolve base)) (sym (ap (λ x. x.0) q)) b
      go f (inr m) = k f m

  locate_files-AllBelow :
      (base : Location) (files : List FileEntry)
      → OnLoaded (AllBelow (intake.resolve base)) (locate_files intake base files)
  unfolding locate_files
  locate_files-AllBelow base [] = λ f m. elim m [ ]
  locate_files-AllBelow base (f ∷ files) =
      add_file-AllBelow base f.name (text_or f.exchange no_exchange)
        (resolve_within intake.resolve base f.name) (locate_files intake base files)
        (resolve_within-IsConfined intake.resolve base f.name) (locate_files-AllBelow base files)

  -- Every file of what was loaded lies below this folder.
  abbrev pub FilesBelow : Location → LoadedManifest → Type 0
  FilesBelow base m = AllBelow base m.files

  module _
      (resolved_prefix : (q p rest : Location)
        → intake.resolve q ≡ p ++ rest
        → intake.resolve p ≡ p)
      (root_is_folder : (p : Location)
        → intake.is_file p ≡ true
        → intake.resolve p ≢ intake.resolve intake.file_root_path) where
    root : Location
    root = intake.resolve intake.file_root_path

    after_reading-FilesBelow :
        (manifest_path path : Location) (m : Try ManifestError Manifest)
        → path ≡ intake.resolve manifest_path
        → IsBelow root (parent path)
        → OnLoaded (FilesBelow root) (after_reading intake path m)
    unfolding after_reading with_files
    after_reading-FilesBelow manifest_path path (raised e) q b = tt
    after_reading-FilesBelow manifest_path path (returned m) q b =
        go (locate_files intake (parent path) m.files) (locate_files-AllBelow (parent path) m.files)
      where
        settled : intake.resolve (parent path) ≡ parent path
        settled =
            let (rest, e) = parent_above path in
            resolved_prefix manifest_path (parent path) rest (sym q ∙ e)

        go :
            (files : Try ManifestError (List (Location × Text)))
            → OnLoaded (AllBelow (intake.resolve (parent path))) files
            → OnLoaded (FilesBelow root) (with_files intake path m files)
        go (raised e) h = tt
        go (returned files) h = λ f k.
            IsBelow-trans root (parent path) f.0 b (subst (λ x. IsBelow x f.0) settled (h f k))

    after_confining-FilesBelow :
        (manifest_path : Location) (p : Try UnsafePath Location)
        → intake.is_file manifest_path ≡ true
        → assert_within intake.resolve intake.file_root_path manifest_path ≡ p
        → OnLoaded (FilesBelow root) (after_confining intake p)
    unfolding after_confining root
    after_confining-FilesBelow manifest_path (raised e) f h = tt
    after_confining-FilesBelow manifest_path (returned path) f h =
        let (same, below) =
          assert_within-IsBelow intake.resolve intake.file_root_path manifest_path path h in
        after_reading-FilesBelow manifest_path path (intake.read_manifest path) same
          (parent_stays root path below (λ e. root_is_folder manifest_path f (sym same ∙ e)))

    -- Let `resolve` return paths whose leading parts it leaves as they are, and let the intake root
    -- be no file. Then every path that a manifest which was loaded lists is the resolved
    -- intake root or lies below it, wherever the manifest stands and whatever names it lists.
    pub load_manifest-FilesBelow :
        (manifest_path : Location) (m : LoadedManifest)
        → load_manifest intake manifest_path ≡ returned m
        → FilesBelow (intake.resolve intake.file_root_path) m
    unfolding load_manifest root
    load_manifest-FilesBelow manifest_path m h =
        subst (OnLoaded (FilesBelow root)) h (go (intake.is_file manifest_path) refl)
      where
        go :
            (b : Bool)
            → intake.is_file manifest_path ≡ b
            → OnLoaded (FilesBelow root) (
                if b
                then after_confining intake
                    (assert_within intake.resolve intake.file_root_path manifest_path)
                else raised not_found)
        go true e =
            after_confining-FilesBelow manifest_path
              (assert_within intake.resolve intake.file_root_path manifest_path) e refl
        go false e = tt
