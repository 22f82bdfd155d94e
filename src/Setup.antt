-- ===== src/Setup.antt =====
-- What a connect does before it publishes: the schema check and the migrations
-- (cairnq-py/cairnq/store/sqlite.py and postgres.py), and the version check (store/base.py). A
-- migration is known by its name; whether its script runs to the end is an argument.
pub mod Migrations
mod Examples
use cairnq.Prelude.{
  ℕ, zero, suc, Bool, true, false, ◌==◌, not, Option, none, some, List, [], ◌∷◌, ◌++◌, Text, elem,
  if◌then◌else◌,
}
use cairnq.Errors.{Result, ok, raise, Error, protocol_version_mismatch}

abbrev pub supported_protocol_major : ℕ
supported_protocol_major = 1

unfoldable pub check_protocol_version : ℕ → Result (Unit {0})
check_protocol_version version =
    if version == supported_protocol_major then ok tt else raise protocol_version_mismatch

-- The verdict of `_check_schema`: it returns, or it raises for one of its two reasons.
pub data Verdict : Type 0 where
  accepted : Verdict
  elsewhere : Verdict
  second_installation : Verdict

abbrev pub is_current : Option Text → Text → Bool
is_current none schema = false
is_current (some current) schema = current == schema

abbrev pub unnamed_schema : Option Text → List Text → Verdict
unnamed_schema none installations = accepted
unnamed_schema (some current) [] = accepted
unnamed_schema (some current) (i ∷ is) =
    if elem current (i ∷ is) then accepted else second_installation

-- `_check_schema`, of the schema configured, the one that the connection resolves to, and the schemas
-- that have cairnq's tables.
unfoldable pub check_schema : Option Text → Option Text → List Text → Verdict
check_schema (some schema) current installations =
    if is_current current schema then accepted else elsewhere
check_schema none current installations = unnamed_schema current installations

-- A process in `_apply_migrations`: the migrations that it has not come to, or none once an error has
-- ended its connect.
abbrev pub Process : Type 0
Process = Option (List Text)

-- One transaction of `_apply_migrations`, on the names in cairnq_migrations. The write lock that it
-- begins with keeps other processes out of it; an error rolls it back.
unfoldable pub migrate : Bool → Process → List Text → Process × List Text
migrate runs none applied = (none, applied)
migrate runs (some []) applied = (some [], applied)
migrate runs (some (name ∷ rest)) applied =
    if elem name applied
    then (some rest, applied)
    else if runs
    then (some rest, applied ++ name ∷ [])
    else (none, applied)

-- The next transaction of one of the processes.
unfoldable pub migrate_at : ℕ → Bool → List Process → List Text → List Process × List Text
unfolding migrate
migrate_at i runs [] applied = ([], applied)
migrate_at zero runs (p ∷ ps) applied =
    ((migrate runs p applied).0 ∷ ps, (migrate runs p applied).1)
migrate_at (suc i) runs (p ∷ ps) applied =
    let rest = migrate_at i runs ps applied in (p ∷ rest.0, rest.1)

-- A sequence of transactions, each of a process and with its fate.
unfoldable pub migrations : List (ℕ × Bool) → List Process → List Text → List Process × List Text
unfolding migrate_at
migrations [] ps applied = (ps, applied)
migrations ((i, runs) ∷ steps) ps applied =
    migrations steps (migrate_at i runs ps applied).0 (migrate_at i runs ps applied).1
