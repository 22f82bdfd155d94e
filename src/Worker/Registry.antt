-- ===== src/Worker/Registry.antt =====
-- `_Registration`, `Worker.register` and `_ClaimPlanner.rebuild` (cairnq-py/cairnq/worker.py). The
-- handlers are a dictionary in insertion order.
use cairnq.Prelude.{
  ℕ, zero, suc, Bool, false, ◌||◌, not, Option, none, some, List, [], ◌∷◌, ◌++◌, map, Text, ltb,
  ◌==◌, if◌then◌else◌, elem, is_some,
}
use cairnq.Errors.{Result, ok, ◌>>◌, raise_if, value_error}

pub record Registration : Type 0 where
  pub fn : ℕ
  pub wants_payload : Bool
  pub is_async : Bool
  pub batch : Option ℕ
  pub resource : Option Text

abbrev pub Handlers : Type 0
Handlers = List (Text × Registration)

abbrev pub handler : Text → Handlers → Option Registration
handler name [] = none
handler name ((n, reg) ∷ rest) = if n == name then some reg else handler name rest

abbrev pub set_handler : Text → Registration → Handlers → Handlers
set_handler name reg [] = (name, reg) ∷ []
set_handler name reg ((n, old) ∷ rest) =
    if n == name then (n, reg) ∷ rest else (n, old) ∷ set_handler name reg rest

abbrev pub names_of : Handlers → List Text
names_of hs = map (λ h. h.0) hs

-- `batch or 1`
abbrev pub or_one : Option ℕ → ℕ
or_one none = 1
or_one (some zero) = 1
or_one (some (suc n)) = suc n

abbrev pub less_than_one : Option ℕ → Bool
less_than_one none = false
less_than_one (some n) = ltb n 1

abbrev pub undeclared : Option Text → List Text → Bool
undeclared none resources = false
undeclared (some r) resources = not (elem r resources)

-- `_ClaimSource`
pub record Source : Type 0 where
  pub names : List Text
  pub batch : ℕ
  pub resource : Option Text

-- A name that limits itself, by a batch size or by a resource.
abbrev pub self_limiting : Registration → Bool
self_limiting reg = is_some reg.batch || is_some reg.resource

-- The loop of `rebuild`: the sources so far, and the names that share one.
unfoldable pub rebuild_loop : Handlers → List Source → List Text → List Source × List Text
rebuild_loop [] sources shared = (sources, shared)
rebuild_loop ((name, reg) ∷ rest) sources shared =
    if self_limiting reg
    then rebuild_loop rest
        (sources
          ++ record { names = name ∷ []; batch = or_one reg.batch; resource = reg.resource } ∷ [])
        shared
    else rebuild_loop rest sources (shared ++ name ∷ [])

abbrev pub with_shared : List Source × List Text → List Source
with_shared (sources, []) = sources
with_shared (sources, name ∷ names) =
    sources ++ record { names = name ∷ names; batch = 1; resource = none } ∷ []

unfoldable pub rebuild : Handlers → List Source
unfolding rebuild_loop
rebuild hs = with_shared (rebuild_loop hs [] [])

-- `register`: the new handlers; the sources are rebuilt from them.
unfoldable pub register :
    List Text → Text → Registration → Handlers → Result (Handlers × List Source)
register resources name reg hs = do
  raise_if (less_than_one reg.batch) value_error
  raise_if (undeclared reg.resource resources) value_error
  ok (set_handler name reg hs, rebuild (set_handler name reg hs))
