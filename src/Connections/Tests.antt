-- ===== src/Connections/Tests.antt =====
-- The theorems about connection limits of src/main.rs at a short history.
use omarchy_omasend.Common.{◌≡◌, ◌≤◌, List, [], ◌∷◌, length}
use omarchy_omasend.Net.{IpAddr, v4}
use omarchy_omasend.Connections.{Event, connects, releases, finishes, guards_of, run, idle_server}
use omarchy_omasend.Connections.Limits.{run_limits}

abbrev home : IpAddr
home = v4 192 168 1 7

abbrev crowd : List Event
crowd = connects home ∷ connects home ∷ connects home ∷ connects home ∷ connects home ∷ []

run_limits_example :
    (length (run crowd idle_server).held ≤ 32)
    × (guards_of home (run crowd idle_server).held ≤ 4)
    × ((run crowd idle_server).tracker.global_active ≡ length (run crowd idle_server).held)
run_limits_example = run_limits crowd home

abbrev visit : List Event
visit = connects home ∷ releases home ∷ finishes home ∷ []
