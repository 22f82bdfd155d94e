-- ===== src/Sqlite/Lifecycle/Accounts.antt =====
-- Every open connection is accounted for.
use cairnq.Prelude.{ℕ, ◌==◌, Option, none, some, if◌then◌else◌}

-- Whether the connection being opened is of an older generation than the store's.
abbrev pub overtaken : Option (ℕ × ℕ) → ℕ → ℕ
overtaken none generation = 0
overtaken (some o) generation = if o.1 == generation then 0 else 1
