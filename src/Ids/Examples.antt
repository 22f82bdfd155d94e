-- ===== src/Ids/Examples.antt =====
-- Two ids.
use cairnq.Prelude.{◌/◌, ◌%◌, ◌^◌, ◌≡◌, true, length, arith}
use cairnq.Ids.{new_ulid}
use cairnq.Ids.Digits.{value_of, new_ulid_decodes}
use cairnq.Ids.Order.{text_lt, new_ulid_sorts}

new_ulid_decodes_example :
    (length (new_ulid 1700000000000 12345) ≡ 26)
    × (value_of 0 (new_ulid 1700000000000 12345) / 2 ^ 80 ≡ 1700000000000)
    × (value_of 0 (new_ulid 1700000000000 12345) % 2 ^ 80 ≡ 12345)
new_ulid_decodes_example = new_ulid_decodes 1700000000000 12345 (omega arith) (omega arith)

new_ulid_sorts_example : text_lt (new_ulid 1700000000000 99999) (new_ulid 1700000000001 3) ≡ true
new_ulid_sorts_example =
    new_ulid_sorts 1700000000000 1700000000001 99999 3 (omega arith) (omega arith) (omega arith)
      (omega arith)
