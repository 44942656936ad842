-- ===== src/Findings/Window.antt =====
-- `trim_before` of src/core/process_graph.cpp, and the windows of times that the engine keeps.
use neta_agent.Prelude.{ℕ, ◌-◌, List, [], ◌∷◌, ◌++◌, ltb, if◌then◌else◌, value_or}
use neta_agent.Prelude.Dict.{Dict, lookup, assign}
use neta_agent.ProcessGraph.{ProcessInstanceKey, key_eq}

abbrev pub ProcessWindowMap : Type 0
ProcessWindowMap = Dict ProcessInstanceKey (List ℕ)

abbrev pub cutoff : ℕ → ℕ → ℕ
cutoff now window = if ltb window now then now - window else 0

abbrev pub drop_below : ℕ → List ℕ → List ℕ
drop_below least [] = []
drop_below least (v ∷ values) =
    let rest = drop_below least values in if ltb v least then rest else v ∷ values

unfoldable pub trim_before : List ℕ → ℕ → ℕ → List ℕ
trim_before values now window = drop_below (cutoff now window) values

-- The window of a process once a time is recorded.
unfoldable pub recorded : List ℕ → ℕ → ℕ → List ℕ
unfolding trim_before
recorded values now window = trim_before values now window ++ now ∷ []

-- `auto& times = windows[key]; trim_before(times, ...); times.push_back(...)`
unfoldable pub record_time :
    ProcessInstanceKey → ℕ → ℕ → ProcessWindowMap → List ℕ × ProcessWindowMap
unfolding recorded
record_time key now window windows =
    let times = recorded (value_or (lookup key windows) []) now window in
    (times, assign key times windows)
