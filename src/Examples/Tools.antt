-- ===== src/Examples/Tools.antt =====
-- The selection among two versions of a tool and one that is disabled.
use asterism_astools.Prelude.{ℕ, ◌≤◌, ◌≡◌, ◌↔◌, refl}
use asterism_astools.Prelude.{true, false, none, some, List, [], ◌∷◌}
use asterism_astools.Prelude.{str_eq, codes}
use asterism_astools.Semver.{Semver, semver_cmp}
use asterism_astools.Selection.{
  Tool, Pin, matches_pin, version_better, eligible, place, place_eligible, select, pull, prioritize,
  collect_tools,
}
use asterism_astools.Selection.Pins.{HasCandidate}
use asterism_astools.Selection.Once.{occurrences, collect_tools_once}

abbrev release_of : ℕ → Semver
release_of n = record { major = n; minor = 0; patch = 0; prerelease = none }

abbrev tools : List Tool
tools =
    record { id = some (codes "fs"); available = true; enabled = true; ver = release_of 1 }
    ∷ record { id = some (codes "fs"); available = true; enabled = true; ver = release_of 2 }
    ∷ record { id = some (codes "git"); available = true; enabled = false; ver = release_of 1 }
    ∷ []

-- "fs" is listed once, and "git", which is disabled, is not.
lists_one :
    occurrences (codes "git") (collect_tools (λ l. l) [] (some (codes "git") ∷ []) tools) ≡ 0
unfolding collect_tools select prioritize pull place place_eligible eligible matches_pin
    version_better semver_cmp str_eq
lists_one = refl

abbrev pins : List Pin
pins = record { tool = some (codes "fs"); version = some (codes "1.0.0") } ∷ []

collect_tools_once_example :
    (occurrences (codes "fs") (collect_tools (λ l. l) pins (some (codes "fs") ∷ []) tools) ≤ 1)
    × ((occurrences (codes "fs") (collect_tools (λ l. l) pins (some (codes "fs") ∷ []) tools) ≡ 1)
        ↔ HasCandidate pins (codes "fs") tools)
collect_tools_once_example =
    collect_tools_once (λ l. l) pins (some (codes "fs") ∷ []) tools (codes "fs") (λ x l. refl)
