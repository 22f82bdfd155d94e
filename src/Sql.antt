-- ===== src/Sql.antt =====
-- The named parameters of the protocol's SQL: `statement_params` (cairnq-py/cairnq/store/base.py), and
-- `positional_statement` and `to_positional` (store/postgres.py). A text is the codes of its
-- characters; the word characters of the statements are ASCII.
pub mod Text
pub mod Positional
mod Examples
use cairnq.Prelude.{
  ℕ, zero, suc, ◌+◌, ◌/◌, ◌%◌, Bool, true, false, ◌&&◌, ◌||◌, ◌==◌, Option, none, some, List, [],
  ◌∷◌, ◌++◌, map, leb, if◌then◌else◌,
}

-- `COMMENT.sub("", sql)`, where the flag is whether the character stands in a comment.
abbrev pub dash_first : List ℕ → Bool
dash_first [] = false
dash_first (c ∷ cs) = c == 45

unfoldable pub strip : Bool → List ℕ → List ℕ
strip in_comment [] = []
strip true (c ∷ cs) =
    let outside = c ∷ strip false cs in
    let inside = strip true cs in if c == 10 then outside else inside
strip false (c ∷ cs) =
    let outside = c ∷ strip false cs in
    let inside = strip true cs in if (c == 45) && dash_first cs then inside else outside

-- `\\w`
abbrev pub between : ℕ → ℕ → ℕ → Bool
between low high c = leb low c && leb c high

abbrev pub is_word : ℕ → Bool
is_word c = between 48 57 c || (between 65 90 c || (c == 95 || between 97 122 c))

-- A text cut at its parameters: `NAMED.finditer` with the characters between the matches.
pub data Piece : Type 0 where
  char : ℕ → Piece
  named : List ℕ → Piece

-- The state of the scan: the last character is no colon; it is a colon that may begin a match; it is a
-- colon that may not; or a name is being read.
pub data Scan : Type 0 where
  plain : Scan
  colon : Scan
  colons : Scan
  name : List ℕ → Scan

abbrev pub plain_step : ℕ → Scan × List Piece
plain_step c = if c == 58 then (colon, []) else (plain, char c ∷ [])

abbrev pub scan_step : Scan → ℕ → Scan × List Piece
scan_step plain c = plain_step c
scan_step colon c =
    if is_word c
    then (name (c ∷ []), [])
    else if c == 58
    then (colons, char 58 ∷ char 58 ∷ [])
    else (plain, char 58 ∷ char c ∷ [])
scan_step colons c = if c == 58 then (colons, char 58 ∷ []) else (plain, char c ∷ [])
scan_step (name cs) c =
    if is_word c then (name (cs ++ c ∷ []), []) else ((plain_step c).0, named cs ∷ (plain_step c).1)

abbrev pub scan_end : Scan → List Piece
scan_end plain = []
scan_end colon = char 58 ∷ []
scan_end colons = []
scan_end (name cs) = named cs ∷ []

unfoldable pub scan : Scan → List ℕ → List Piece
scan s [] = scan_end s
scan s (c ∷ cs) = (scan_step s c).1 ++ scan (scan_step s c).0 cs

unfoldable pub pieces : List ℕ → List Piece
unfolding scan strip
pieces sql = scan plain (strip false sql)

-- Equality of names.
abbrev pub same_name : List ℕ → List ℕ → Bool
same_name [] [] = true
same_name [] (d ∷ ds) = false
same_name (c ∷ cs) [] = false
same_name (c ∷ cs) (d ∷ ds) = (c == d) && same_name cs ds

abbrev pub has_name : List ℕ → List (List ℕ) → Bool
has_name n [] = false
has_name n (m ∷ ms) = same_name m n || has_name n ms

-- `seen.setdefault` over the matches: each name once, in order of first appearance.
unfoldable pub collect : List Piece → List (List ℕ) → List (List ℕ)
collect [] seen = seen
collect (char c ∷ ps) seen = collect ps seen
collect (named n ∷ ps) seen = collect ps (if has_name n seen then seen else seen ++ n ∷ [])

unfoldable pub statement_params : List ℕ → List (List ℕ)
unfolding pieces collect
statement_params sql = collect (pieces sql) []

-- `slot[name]`, counted from 1; a name that is not in the order has none.
abbrev pub slot_from : ℕ → List ℕ → List (List ℕ) → Option ℕ
slot_from i n [] = none
slot_from i n (m ∷ ms) = if same_name m n then some i else slot_from (suc i) n ms

-- The rewritten text before its numbers are printed.
pub data Slotted : Type 0 where
  char : ℕ → Slotted
  slot : Option ℕ → Slotted

abbrev pub slotted : List (List ℕ) → Piece → Slotted
slotted order (char c) = char c
slotted order (named n) = slot (slot_from 1 n order)

-- `positional_statement`
unfoldable pub positional_statement : List ℕ → List Slotted × List (List ℕ)
unfolding statement_params
positional_statement sql = (map (slotted (statement_params sql)) (pieces sql), statement_params sql)

-- `to_positional`, for parameters with values of any type.
unfoldable pub to_positional : {V : Type 0} → List ℕ → (List ℕ → V) → List Slotted × List V
unfolding positional_statement
to_positional sql params = ((positional_statement sql).0, map params (positional_statement sql).1)
