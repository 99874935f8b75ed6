-- ===== src/Scanner/Append.antt =====
-- mergeUnique of internal/scanner/scanner.go, and the two goroutines of crawlForEmails that call it on
-- one slice without a lock.
-- A goroutine runs in sections: the loop over the slice, the test of its length, the reading of the
-- slice by `append`, and the assignment, which overwrites what the other has assigned since.
use stackly.Base.{
  Bool, true, false, ◌||◌, List, [], ◌∷◌, ◌++◌, Bytes, bytes_eq, length, leb, if◌then◌else◌,
}
use stackly.Base.Keys.{has}

unfoldable pub merge_unique : Bytes → List Bytes → List Bytes
merge_unique e dst =
    if bytes_eq e []
    then dst
    else if has e dst
    then dst
    else if leb 20 (length dst)
    then dst
    else dst ++ e ∷ []

unfoldable pub merge_all : List Bytes → List Bytes → List Bytes
unfolding merge_unique
merge_all [] dst = dst
merge_all (e ∷ es) dst = merge_all es (merge_unique e dst)

-- Where a goroutine is: before a call, after the loop, after the test, or inside `append`, with the
-- slice as it was read.
pub data Appender : Type 0 where
  next : List Bytes → Appender
  unseen room : Bytes → List Bytes → Appender
  appending : List Bytes → Bytes → List Bytes → Appender

unfoldable pub section : Appender → List Bytes → Appender × List Bytes
section (next []) dst = (next [], dst)
section (next (e ∷ es)) dst = (if bytes_eq e [] || has e dst then next es else unseen e es, dst)
section (unseen e es) dst = (if leb 20 (length dst) then next es else room e es, dst)
section (room e es) dst = (appending dst e es, dst)
section (appending old e es) dst = (next es, old ++ e ∷ [])

-- What a goroutine does from there when nothing comes between.
unfoldable pub finish : Appender → List Bytes → List Bytes
unfolding merge_all
finish (next es) dst = merge_all es dst
finish (unseen e es) dst = merge_all es (if leb 20 (length dst) then dst else dst ++ e ∷ [])
finish (room e es) dst = merge_all es (dst ++ e ∷ [])
finish (appending old e es) dst = merge_all es (old ++ e ∷ [])

-- Each turn is a section of the first goroutine or of the second. After the turns the first comes to its
-- end, and then the second: every interleaving is one for some turns.
unfoldable pub race : List Bool → Appender → Appender → List Bytes → List Bytes
unfolding section finish
race [] a b dst = finish b (finish a dst)
race (true ∷ turns) a b dst = let moved = section a dst in race turns moved.0 b moved.1
race (false ∷ turns) a b dst = let moved = section b dst in race turns a moved.0 moved.1
