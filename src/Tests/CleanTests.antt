-- ===== src/Tests/CleanTests.antt =====
-- DelOldFile of src/share.cpp at concrete inputs.
use aistream.Base.{ℤ, pos, negsuc, ◌*◌, ◌≡◌, refl, true, false, arith, text}
use aistream.Clean.{Entries, done, file, folder, read_date, check_time, is_old, del_old_file}
use aistream.Clean.Age.{check_time_wraps}
use aistream.Clean.Keep.{kept, OldClear, del_old_file_keeps}

-- A calendar that knows the days of one month.
abbrev calendar : ℤ → ℤ → ℤ → ℤ
calendar year mon (pos mday) = pos (mday * 86400)
calendar year mon (negsuc mday) = pos 0

-- The clock is in the second day; the name is of the fifth.
check_time_wraps_example : check_time calendar 1000 200000 (text "20220105") ≡ true
unfolding read_date
check_time_wraps_example =
    check_time_wraps calendar 1000 200000 2022 (pos 1) (pos 5) (text "20220105") refl (omega arith)
      (omega arith)

-- A name without three numbers is not old.
no_date : check_time calendar 1000 200000 (text "2022-x") ≡ false
unfolding check_time
no_date = refl

abbrev images : Entries
images =
    folder (text "20220101") (file (text "a.jpg") (file (text "a.txt") done))
      (folder (text "20220102") (file (text "b.jpg") done) (file (text "c.jpg") done))

del_old_file_keeps_example :
    let old = is_old calendar 50000 200000 in
    let root' = del_old_file calendar 50000 200000 (text ".jpg") images in
    (kept old root' ≡ kept old images) × OldClear old (text ".jpg") root'
del_old_file_keeps_example = del_old_file_keeps calendar 50000 200000 (text ".jpg") images
