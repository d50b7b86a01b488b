-- ===== src/Speede/Client/Chunks/Sent.antt =====
-- app/clients/nsdl_speede_client.py, `upload_chunks`: the bytes that the chunks carry, and where the
-- data begin.
use mathlib.Core.List.{append_assoc}
use edpbilling_file_upload.Base.{
  Bool, true, false, not, ◌&&◌, ◌==◌, ==_iff, ◌≢◌, ◌⊎◌, inl, inr, if◌then◌else◌, arith, ℕ, zero,
  suc, ◌+◌, ◌-◌, ◌*◌, ◌/◌, ◌≤◌, max, ◌≡◌, refl, sym, ◌∙◌, ap, subst, List, [], ◌∷◌, ◌++◌, length,
  take, drop, take-append-drop, length-drop, length-take, length-append,
}
use edpbilling_file_upload.Base.Division.{ceiling_enough}
use edpbilling_file_upload.Speede.Client.{ClientSettings}
use edpbilling_file_upload.Speede.Client.Chunks.{
  chunks, chunk_size, total_chunks, terminator, plan_from, ends_with_newline,
}

abbrev pub bytes_of : List (ℕ × List ℕ) → List ℕ
bytes_of [] = []
bytes_of ((i, bytes) ∷ parts) = bytes ++ bytes_of parts

-- Chunks numbered from `i`, each of at most `size` bytes.
abbrev pub InOrder : ℕ → ℕ → List (ℕ × List ℕ) → Type 0
InOrder size i [] = Unit {0}
InOrder size i ((j, bytes) ∷ parts) = (j ≡ i) × (length bytes ≤ size) × InOrder size (suc i) parts

append-nil_right : (xs : List ℕ) → xs ++ [] ≡ xs
append-nil_right [] = refl
append-nil_right (x ∷ xs) = ap (λ ys. x ∷ ys) (append-nil_right xs)

drop-nil : (n : ℕ) → drop {A = ℕ} n [] ≡ []
drop-nil zero = refl
drop-nil (suc n) = refl

take_whole : (n : ℕ) (xs : List ℕ) → length xs ≤ n → take n xs ≡ xs
take_whole zero [] h = refl
take_whole zero (x ∷ xs) h = absurd (omega arith)
take_whole (suc n) [] h = refl
take_whole (suc n) (x ∷ xs) h = ap (λ ys. x ∷ ys) (take_whole n xs (omega arith))

bytes_of-chunks :
    (size : ℕ) (ending : List ℕ) (i left : ℕ) (body : List ℕ)
    → length body ≤ suc left * size
    → bytes_of (chunks size ending i (suc left) body) ≡ body ++ ending
unfolding chunks
bytes_of-chunks size ending i zero body h =
    append-nil_right _ ∙ ap (λ xs. xs ++ ending) (take_whole size body (omega arith))
bytes_of-chunks size ending i (suc left) body h =
    ap (λ xs. take size body ++ xs)
      (bytes_of-chunks size ending (suc i) left (drop size body)
        (omega (arith, length-drop size body)))
    ∙ sym (append_assoc (take size body) (drop size body) ending)
    ∙ ap (λ xs. xs ++ ending) (take-append-drop size body)

chunks-InOrder :
    (size : ℕ) (ending : List ℕ) (i left : ℕ) (body : List ℕ)
    → length body + length ending ≤ suc left * size
    → length ending ≤ size
    → InOrder size i (chunks size ending i (suc left) body)
unfolding chunks
chunks-InOrder size ending i zero body h k =
    let short : length body ≤ size = omega arith in
    (refl, rw (take_whole size body short) (omega (arith, length-append body ending)), tt)
chunks-InOrder size ending i (suc left) body h k = (
  refl,
  length-take size body,
  chunks-InOrder size ending (suc i) left (drop size body) (omega (arith, length-drop size body)) k,
)

length-chunks :
    (size : ℕ) (ending : List ℕ) (i n : ℕ) (body : List ℕ)
    → length (chunks size ending i n body) ≡ n
unfolding chunks
length-chunks size ending i zero body = refl
length-chunks size ending i (suc zero) body = refl
length-chunks size ending i (suc (suc n)) body =
    ap suc (length-chunks size ending (suc i) (suc n) (drop size body))

length-terminator :
    (settings : ClientSettings) (n : ℕ) (content : List ℕ)
    → length (terminator settings n content) ≤ 1
unfolding terminator
length-terminator settings n content = ground arith

-- What holds of the parts of a plan that sends `body` and `ending`.
abbrev Carries : ℕ → List ℕ → List ℕ → List (ℕ × List ℕ) → Type 0
Carries size body ending parts = (bytes_of parts ≡ body ++ ending) × InOrder size 0 parts

chunks-Carries :
    (size : ℕ) (body ending : List ℕ) (n : ℕ)
    → 1 ≤ n
    → length body + length ending ≤ n * size
    → length ending ≤ size
    → Carries size body ending (chunks size ending 0 n body)
chunks-Carries size body ending zero p h k = absurd (omega arith)
chunks-Carries size body ending (suc left) p h k = (
  bytes_of-chunks size ending 0 left body (omega arith),
  chunks-InOrder size ending 0 left body h k,
)

-- The last byte is a newline.
abbrev pub ClosesLine : List ℕ → Type 0
ClosesLine bytes = (front : List ℕ) × (bytes ≡ front ++ (10 ∷ []))

-- What is sent of the data: they alone, which close a line where that is asked for and there are any;
-- or a newline behind them, only where it is asked for and they are there and close no line.
abbrev pub IsClosed : ClientSettings → List ℕ → List ℕ → Type 0
IsClosed settings body sent =
    ((sent ≡ body) × (settings.append_trailing_newline ≡ true → body ≢ [] → ClosesLine body))
    ⊎ ((sent ≡ body ++ (10 ∷ []))
        × (settings.append_trailing_newline ≡ true)
        × (body ≢ [])
        × ((front : List ℕ) → body ≢ front ++ (10 ∷ [])))

ends_with_newline-ClosesLine : (xs : List ℕ) → xs ≢ [] → ends_with_newline xs ≡ true → ClosesLine xs
unfolding ends_with_newline
ends_with_newline-ClosesLine [] n h = absurd (n refl)
ends_with_newline-ClosesLine (b ∷ []) n h = ([], ap (λ c. c ∷ []) ((==_iff b 10).0 h))
ends_with_newline-ClosesLine (b ∷ c ∷ xs) n h =
    let (front, e) = ends_with_newline-ClosesLine (c ∷ xs) (λ e. cc) h in
    (b ∷ front, ap (λ ys. b ∷ ys) e)

ends_with_newline-append : (front : List ℕ) → ends_with_newline (front ++ (10 ∷ [])) ≡ true
unfolding ends_with_newline
ends_with_newline-append [] = refl
ends_with_newline-append (b ∷ []) = refl
ends_with_newline-append (b ∷ c ∷ front) = ends_with_newline-append (c ∷ front)

-- The end of a file is the end of its data, where there are any.
ends_with_newline-drop :
    (n : ℕ) (xs : List ℕ) → drop n xs ≢ [] → ends_with_newline (drop n xs) ≡ ends_with_newline xs
unfolding ends_with_newline
ends_with_newline-drop zero xs h = refl
ends_with_newline-drop (suc n) [] h = absurd (h refl)
ends_with_newline-drop (suc n) (b ∷ []) h = absurd (h (drop-nil n))
ends_with_newline-drop (suc n) (b ∷ c ∷ xs) h = ends_with_newline-drop n (c ∷ xs) h

length-nonempty : (xs : List ℕ) → xs ≢ [] → length xs ≢ 0
length-nonempty [] n e = n refl
length-nonempty (x ∷ xs) n e = absurd (omega arith)

terminator-IsClosed :
    (settings : ClientSettings) (offset : ℕ) (content : List ℕ)
    → IsClosed settings
        (drop offset content)
        (drop offset content ++ terminator settings (length content - offset) content)
unfolding terminator
terminator-IsClosed settings offset content =
    go settings.append_trailing_newline refl (length content - offset == 0) refl
      (ends_with_newline content) refl
  where
    body : List ℕ
    body = drop offset content

    same_end : body ≢ [] → ends_with_newline body ≡ ends_with_newline content
    same_end n = ends_with_newline-drop offset content n

    go :
        (asked : Bool)
        → settings.append_trailing_newline ≡ asked
        → (empty : Bool) → (length content - offset == 0) ≡ empty
        → (closed : Bool) → ends_with_newline content ≡ closed
        → IsClosed settings body
            (body ++ (if asked && not empty && not closed then 10 ∷ [] else []))
    go false a empty e closed c = inl (append-nil_right body, λ a'. cc)
    go true a true e closed c = inl (
      append-nil_right body,
      λ _ n. absurd (
          length-nonempty body n
            (length-drop offset content ∙ (==_iff (length content - offset) 0).0 e)),
    )
    go true a false e true c =
        inl (append-nil_right body, λ _ n. ends_with_newline-ClosesLine body n (same_end n ∙ c))
    go true a false e false c = inr (refl, a, present, open_line)
      where
        present : body ≢ []
        present n =
            let none : length content - offset ≡ 0 =
              sym (length-drop offset content) ∙ ap length n in
            let clash : true ≡ false = sym ((==_iff (length content - offset) 0).1 none) ∙ e in cc

        open_line : (front : List ℕ) → body ≢ front ++ (10 ∷ [])
        open_line front q =
            let clash : true ≡ false =
              sym (ap ends_with_newline q ∙ ends_with_newline-append front)
              ∙ same_end present
              ∙ c in
            cc

-- The chunks of an upload carry the data, which are the bytes behind the offset. Where the settings ask
-- for a closing newline and there are data, what is carried closes a line; a newline is added only
-- then, and only where the data do not close one. The chunks are numbered from 0 without a gap, each
-- of at most max(1, chunk_size_kb) times 1024 bytes, as many as `totalChunks` says, and together as
-- long as the byte count that is reported.
pub plan_from-carries :
    (settings : ClientSettings) (content : List ℕ) (offset : ℕ)
    → let plan = plan_from settings content offset in
      IsClosed settings (drop offset content) (bytes_of plan.parts)
      × InOrder (max 1 settings.chunk_size_kb * 1024) 0 plan.parts
      × (length plan.parts ≡ plan.total)
      × (plan.send_bytes ≡ length (bytes_of plan.parts))
unfolding plan_from chunk_size total_chunks
plan_from-carries settings content offset =
    let ending = terminator settings (length content - offset) content in
    let body = drop offset content in
    let size = max 1 settings.chunk_size_kb * 1024 in
    let bytes = length content - offset + length ending in
    let room : bytes ≤ max 1 ((bytes + size - 1) / size) * size =
      ceiling_enough bytes size (omega arith) in
    let (carried, ordered) =
      chunks-Carries size body ending (max 1 ((bytes + size - 1) / size)) (omega arith)
        (subst (λ n. n + length ending ≤ max 1 ((bytes + size - 1) / size) * size)
          (sym (length-drop offset content)) room)
        (omega (arith, length-terminator settings (length content - offset) content)) in
    (
      subst (IsClosed settings body) (sym carried) (terminator-IsClosed settings offset content),
      ordered,
      length-chunks size ending 0 _ body,
      sym (
          ap length carried
          ∙ length-append body ending
          ∙ ap (λ n. n + length ending) (length-drop offset content)),
    )
