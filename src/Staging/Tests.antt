-- ===== src/Staging/Tests.antt =====
-- The theorems about staging guards of src/main.rs at short histories.
use omarchy_omasend.Common.{◌≡◌, ◌≤◌, List, [], ◌∷◌, none, true, false}
use omarchy_omasend.Staging.Budget.{
  Event, reserves, releases_early, drops, run, total, empty_ledger, max_aggregate_staging_bytes,
  run_budget,
}
use omarchy_omasend.Staging.Uploads
use omarchy_omasend.Staging.Uploads.{
  run_uploads, no_uploads, max_concurrent_encrypted_uploads, enters, rounds,
}

abbrev history : List Event
history = reserves 1000 none ∷ reserves 300000000 none ∷ releases_early 0 ∷ drops 0 ∷ []

run_budget_example :
    ((run history empty_ledger).staged ≡ total (run history empty_ledger).guards)
    × ((run history empty_ledger).staged ≤ max_aggregate_staging_bytes)
run_budget_example = run_budget history

abbrev race : List Uploads.Event
race =
    enters ∷ enters ∷ enters ∷ rounds 0 false ∷ rounds 0 true ∷ rounds 0 false ∷ rounds 0 false ∷ []

run_uploads_example :
    ((Uploads.run race no_uploads).guards ≤ max_concurrent_encrypted_uploads)
    × ((Uploads.run race no_uploads).active ≡ (Uploads.run race no_uploads).guards)
run_uploads_example = run_uploads race
