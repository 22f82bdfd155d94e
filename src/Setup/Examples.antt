-- ===== src/Setup/Examples.antt =====
-- Two processes, one of which fails once, and the checks.
use cairnq.Prelude.{ℕ, Bool, true, false, ◌≡◌, refl, none, some, List, [], ◌∷◌, take, All}
use cairnq.Errors.{ok}
use cairnq.Setup.{Process, migrations, check_schema, second_installation, check_protocol_version}
use cairnq.Setup.Migrations.{Finds, migrations_once}

abbrev scripts : List ℕ
scripts = 1 ∷ 2 ∷ 3 ∷ []

abbrev processes : List Process
processes = some scripts ∷ some scripts ∷ []

abbrev race : List (ℕ × Bool)
race = (0, true) ∷ (1, true) ∷ (1, true) ∷ (0, true) ∷ (0, false) ∷ (1, true) ∷ []

schema_test : check_schema none (some 4) (5 ∷ []) ≡ second_installation
unfolding check_schema
schema_test = refl

version_test : check_protocol_version 1 ≡ ok tt
unfolding check_protocol_version
version_test = refl

migrations_once_example :
    (k : ℕ) × ((migrations race processes []).1 ≡ take k scripts)
    × All
        (Finds scripts (refl, (refl, (refl, tt))) (migrations race processes []).1)
        (migrations race processes []).0
migrations_once_example =
    migrations_once scripts (refl, (refl, (refl, tt))) race processes (refl, (refl, tt))
