-- ===== src/Xmem/Sending.antt =====
-- parts/xmem_nozzle.go, writeToClient: a batch is written in the pieces that the bandwidth throttler lets
-- through. An item is a request's bytes.
pub mod Pieces
pub mod Order
use goxdcr.Prelude.{
  ℕ, suc, ◌+◌, ◌-◌, ◌*◌, ◌/◌, Bool, ◌||◌, List, [], ◌∷◌, ◌++◌, ltb, leb, ◌==◌, if◌then◌else◌,
  length, take, drop,
}

abbrev pub Item : Type 0
Item = List ℕ

abbrev pub byte_count : List Item → ℕ
byte_count [] = 0
byte_count (x ∷ xs) = length x + byte_count xs

-- How many items, from the first on, have together at most that many bytes; the loop of
-- `computeNumberOfBytes`, and that of `computeNumberOfBytesUsingBytesAllowed`.
unfoldable pub fitting : ℕ → List Item → ℕ
fitting room [] = 0
fitting room (x ∷ xs) =
    let rest = fitting (room - length x) xs in if leb (length x) room then suc rest else 0

-- The four numbers of `computeNumberOfBytes` but for minIndex.
abbrev pub number_of_bytes : List Item → ℕ
number_of_bytes items = byte_count items

abbrev pub number_of_bytes_of_first_item : List Item → ℕ
number_of_bytes_of_first_item [] = 0
number_of_bytes_of_first_item (x ∷ xs) = length x

-- The rest of the items put back on the stack, in two pieces when the first fits what is allowed next.
unfoldable pub push_rest : ℕ → List Item → List (List Item) → List (List Item)
push_rest bytes_allowed items stack =
    let split = fitting bytes_allowed items in
    if length items == 0
    then stack
    else if bytes_allowed == 0 || split == 0
    then items ∷ stack
    else if ltb split (length items)
    then take split items ∷ drop split items ∷ stack
    else take split items ∷ stack

-- What a round of the loop meets: the nozzle is not running, or it is, with the grant of the throttler
-- and whether the write succeeds.
pub data Round : Type 0 where
  not_running : Round
  granted : ℕ → ℕ → Bool → Round

-- How `writeToClient` ends: with all written, stopped with a stack left, or with an error in a piece; or
-- it goes on after the last of the given rounds.
pub data WriteEnd : Type 0 where
  wrote_all : WriteEnd
  stopped goes_on : List (List Item) → WriteEnd
  failed : List Item → List (List Item) → WriteEnd

-- The percentage is PercentageOfBytesToSendAsMin, an internal setting.
module _ (percentage : ℕ) where
  -- minIndex + 1 of `computeNumberOfBytes`: how many items are the least to be sent.
  unfoldable pub min_items : List Item → ℕ
  min_items items =
      let fit = fitting (byte_count items * percentage / 100) items in
      if length items == 1 then 1 else if fit == 0 then 1 else fit

  abbrev pub min_number_of_bytes : List Item → ℕ
  min_number_of_bytes items = byte_count (take (min_items items) items)

  -- How many items are sent when the throttler grants that many bytes.
  unfoldable pub items_to_send : ℕ → List Item → ℕ
  items_to_send bytes_can_send items =
      if bytes_can_send == number_of_bytes items
      then length items
      else if bytes_can_send == min_number_of_bytes items
      then min_items items
      else if bytes_can_send == number_of_bytes_of_first_item items
      then 1
      else 0

  -- `writeToClient` from a stack on: the items written, and its end.
  unfoldable pub write_loop : List Round → List (List Item) → List Item × WriteEnd
  write_loop rounds [] = ([], wrote_all)
  write_loop [] (items ∷ stack) = ([], goes_on (items ∷ stack))
  write_loop (not_running ∷ rounds) (items ∷ stack) = ([], stopped (items ∷ stack))
  write_loop (granted can_send allowed succeeds ∷ rounds) (items ∷ stack) =
      let k = items_to_send can_send items in
      let later = write_loop rounds (push_rest allowed (drop k items) stack) in
      if k == 0
      then later
      else if succeeds
      then (take k items ++ later.0, later.1)
      else ([], failed (take k items) (drop k items ∷ stack))

  unfoldable pub write_to_client : List Round → List Item → List Item × WriteEnd
  write_to_client rounds [] = ([], wrote_all)
  write_to_client rounds (x ∷ xs) = write_loop rounds ((x ∷ xs) ∷ [])
