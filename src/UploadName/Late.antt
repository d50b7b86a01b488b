-- ===== src/UploadName/Late.antt =====
-- app/services/cbos_filename.py: when the name is rewritten, and what the new one is.
use edpbilling_file_upload.Base.{
  ℕ, ◌+◌, ◌-◌, ◌==◌, ◌≤◌, leb, ltb, ◌≡◌, refl, ◌∙◌, ap, Bool, true, false, not, ◌&&◌, Option, none,
  some, length, take, Text, codes, text_eq, text_eq_iff, take, upper, strip, if◌then◌else◌, arith,
  ==_iff,
}
use edpbilling_file_upload.UploadName.{
  Expected, Rewritten, text_or_empty, max_late_stamp_days, as_date, replace_first, found_in,
  rewrite, with_date, for_session, resolve_upload_name,
}
use edpbilling_file_upload.UploadName.Tokens.{IsStampOf, length-replace_first, found_in-length}

-- The name goes out as it is, or as one of its length in which the stamp of a session at most three
-- days before the stamp that was found takes its place.
abbrev pub IsRenamed : Text → Text → Text × Option Rewritten → Type 0
IsRenamed local_name wanted (name, none) = name ≡ local_name
IsRenamed local_name wanted (name, some r) =
    (r.cbos_last_trading_date ≡ wanted)
    × (length name ≡ length local_name)
    × (r.sent_as ≡ name)
    × (r.on_disk ≡ local_name)
    × (1 ≤ r.days_late)
    × (r.days_late ≤ 3)
    × IsStampOf r.cbos_last_trading_date r.sent_date_token
    × ((token : Text) × (wanted_date : ℕ) × (as_date r.cbos_last_trading_date ≡ some wanted_date)
        × (as_date token ≡ some (wanted_date + r.days_late))
        × (name ≡ replace_first token r.sent_date_token local_name))

rewrite-IsRenamed :
    (upload_id local_name wanted : Text) (wanted_date : ℕ) (o : Option (Text × ℕ × Text))
    → as_date wanted ≡ some wanted_date
    → ((t : Text) (d : ℕ) (w : Text)
        → o ≡ some (t, d, w)
        → (length t ≡ length w) × (as_date t ≡ some d) × IsStampOf wanted w)
    → IsRenamed local_name wanted (rewrite upload_id local_name wanted wanted_date o)
unfolding rewrite max_late_stamp_days
rewrite-IsRenamed upload_id local_name wanted wanted_date none e h = refl
rewrite-IsRenamed upload_id local_name wanted wanted_date (some (token, date, w)) e h =
    go (text_eq token w) (ltb wanted_date date && leb (date - wanted_date) 3) refl
  where
    new_name : Text
    new_name = replace_first token w local_name

    entry : Rewritten
    entry = record {
      upload_id = upload_id;
      on_disk = local_name;
      sent_as = replace_first token w local_name;
      cbos_last_trading_date = wanted;
      sent_date_token = w;
      days_late = date - wanted_date;
    }

    go :
        (same late : Bool)
        → ltb wanted_date date && leb (date - wanted_date) 3 ≡ late
        → IsRenamed local_name wanted (
            if same
            then (local_name, none)
            else if late
            then (new_name, some entry)
            else (local_name, none))
    go true late q = refl
    go false false q = refl
    go false true q =
        let (l, a, stamp) = h token date w refl in
        let sum : date ≡ wanted_date + (date - wanted_date) = ground arith in
        (
          refl,
          length-replace_first token w local_name l,
          refl,
          refl,
          ground arith,
          ground arith,
          stamp,
          (token, wanted_date, e, a ∙ ap (λ n. some n) sum, refl),
        )

for_session-IsRenamed :
    (upload_id local_name wanted : Text)
    → IsRenamed local_name wanted (for_session upload_id local_name wanted)
unfolding for_session
for_session-IsRenamed upload_id local_name wanted =
    go (length wanted == 8) (as_date wanted) refl refl
  where
    go :
        (b : Bool) (o : Option ℕ)
        → (length wanted == 8) ≡ b
        → as_date wanted ≡ o
        → IsRenamed local_name wanted
            (if b then with_date upload_id local_name wanted o else (local_name, none))
    go true (some wanted_date) e q =
        rewrite-IsRenamed upload_id local_name wanted wanted_date (found_in wanted local_name) q
          (λ t d w. found_in-length wanted local_name t d w ((==_iff (length wanted) 8).0 e))
    go true none e q = refl
    go false o e q = refl

-- What `resolve_upload_name` answers: the file's own name, or one that is rewritten for the session that
-- the reply of Step 40 names, where the setting is on and that reply is of date basis T-1 and for
-- this trade date.
abbrev pub IsLateName : Bool → Option Expected → Text → Text → Text × Option Rewritten → Type 0
IsLateName enabled expected local_name trade_date (name, none) = name ≡ local_name
IsLateName enabled expected local_name trade_date (name, some r) =
    (enabled ≡ true)
    × ((e : Expected) × (expected ≡ some e)
        × (upper (strip (text_or_empty e.date_basis)) ≡ codes "T-1")
        × (take 10 (text_or_empty e.input_trade_date) ≡ take 10 trade_date)
        × IsRenamed local_name (strip (text_or_empty e.last_trading_date)) (name, some r))

guarded :
    (e : Expected) (local_name trade_date : Text) (result : Text × Option Rewritten)
    (enabled basis day : Bool)
    → text_eq (upper (strip (text_or_empty e.date_basis))) (codes "T-1") ≡ basis
    → text_eq (take 10 (text_or_empty e.input_trade_date)) (take 10 trade_date) ≡ day
    → IsRenamed local_name (strip (text_or_empty e.last_trading_date)) result
    → IsLateName enabled (some e) local_name trade_date (
        if not enabled
        then (local_name, none)
        else if not basis
        then (local_name, none)
        else if not day
        then (local_name, none)
        else result)
guarded e local_name trade_date result false basis day b d h = refl
guarded e local_name trade_date result true false day b d h = refl
guarded e local_name trade_date result true true false b d h = refl
guarded e local_name trade_date (name, none) true true true b d h = h
guarded e local_name trade_date (name, some r) true true true b d h =
    (refl, (e, refl, (text_eq_iff _ _).0 b, (text_eq_iff _ _).0 d, h))

-- The name that CBOS is told is the file's own, or the setting is on, Step 40 answered for this trade
-- date with the date basis T-1, and the stamp of the last trading date that it names has taken the
-- place of a stamp that is one to three days later; the new name is as long as the file's, and the
-- entry that is recorded names both, that date and the days.
pub resolve_upload_name-IsLateName :
    (enabled : Bool) (expected : Option Expected) (upload_id local_name trade_date : Text)
    → IsLateName enabled expected local_name trade_date
        (resolve_upload_name enabled expected upload_id local_name trade_date)
unfolding resolve_upload_name
resolve_upload_name-IsLateName enabled none upload_id local_name trade_date = refl
resolve_upload_name-IsLateName enabled (some e) upload_id local_name trade_date =
    guarded e local_name trade_date _ enabled _ _ refl refl
      (for_session-IsRenamed upload_id local_name (strip (text_or_empty e.last_trading_date)))
