-- ===== src/Sql/Examples.antt =====
-- A statement with a comment, a cast, and a name used twice.
use cairnq.Prelude.{ℕ, ◌*◌, false, ◌≡◌, refl, List, [], ◌∷◌, map}
use cairnq.Sql.{pieces, strip, statement_params, to_positional}
use cairnq.Sql.Text.{spell}
use cairnq.Sql.Positional.{by_slot, by_name, to_positional-binds}

-- "--:z" and a new line, then ":a=:b::t or :a"
abbrev sql : List ℕ
sql =
    45 ∷ 45 ∷ 58 ∷ 122 ∷ 10 ∷ 58 ∷ 97 ∷ 61 ∷ 58 ∷ 98 ∷ 58 ∷ 58 ∷ 116 ∷ 32 ∷ 111 ∷ 114 ∷ 32 ∷ 58 ∷ 97
    ∷ []

params_test : statement_params sql ≡ (97 ∷ []) ∷ (98 ∷ []) ∷ []
unfolding statement_params
params_test = refl

abbrev values : List ℕ → ℕ
values [] = 0
values (c ∷ cs) = c * 10

to_positional-binds_example :
    (spell (pieces sql) ≡ strip false sql)
    × (map (by_slot (to_positional sql values).1) (to_positional sql values).0
        ≡ map (by_name values) (pieces sql))
to_positional-binds_example = to_positional-binds values sql
