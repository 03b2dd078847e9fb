-- ===== src/Transfer/LifeTests.antt =====
-- The theorems about requests and decisions of src/main.rs at one paired peer and one file.
use omarchy_omasend.Common.{true, [], ◌∷◌, none, some}
use omarchy_omasend.Common.Text.{codes}
use omarchy_omasend.Http.{HttpRequest}
use omarchy_omasend.Json.{text, missing}
use omarchy_omasend.Pairing.Model.{PairedPeer}
use omarchy_omasend.Pairing.Sample.{sample_deps, disk_of}
use omarchy_omasend.Transfer.Decision
use omarchy_omasend.Transfer.Decision.{Store, DecisionReply, expired, decision_status, decide}
use omarchy_omasend.Transfer.Request
use omarchy_omasend.Transfer.Request.{RequestData, FileItem, request_transfer}
use omarchy_omasend.Transfer.Request.Opened
use omarchy_omasend.Transfer.Request.Opened.{request_transfer-Outcome}
use omarchy_omasend.Transfer.Upload.{Server}
use omarchy_omasend.Transfer.Life.{IsOrderly, start, next, requests, Reachable-IsOrderly}
use omarchy_omasend.Transfer.Tests

abbrev phone : PairedPeer
phone = record {
  oma_id = codes "0000-0000-0000-0000";
  name = codes "Phone";
  ip = some (codes "x");
  paired_at = 0;
  auth_token = some (codes "ab12");
  confirmed = true;
  pair_code = none;
  pair_expires_at = none;
  pair_failures = 0;
}

abbrev item : FileItem
item = record {
  name = text (codes "a");
  size_bytes = some 2;
  blake3 = missing;
  sha256 = missing;
  md5 = missing;
}

abbrev json : RequestData
json = record {
  oma_id = text phone.oma_id;
  sender_oma_id = missing;
  sender_id = missing;
  sender_name = missing;
  sender_ip = missing;
  auth_token = text (codes "ab12");
  files = some (item ∷ []);
}

abbrev request : HttpRequest
request = record {
  method = codes "POST";
  path = codes "/api/p2p/request";
  query = codes "token=t";
  headers = [];
}

abbrev request_deps : Request.Deps
request_deps = record { lowercase = λ s. s; names = Tests.names; peers = sample_deps }

abbrev request_io : Request.Io
request_io = record {
  now = 90;
  name_secs = 90;
  avail = none;
  token_bytes = 1 ∷ 2 ∷ [];
  writes_pending = true;
}

request_transfer-Outcome_example :
    Opened.Outcome request_deps request_io request json
      (disk_of (phone ∷ []))
      none
      (request_transfer request_deps request_io request json (disk_of (phone ∷ [])) none)
request_transfer-Outcome_example =
    request_transfer-Outcome request_deps request_io request json (disk_of (phone ∷ [])) none

abbrev decision_io : Decision.Io
decision_io = record {
  now = 100;
  read_at = 100;
  trusted_at = 100;
  writes_pending = true;
  writes_trusted = true;
  pairing = record {
    lock_error = none;
    write_error = none;
    token_bytes = none;
    code_draws = [];
    clock = 100;
  };
}

abbrev store : Store
store = record { pending = some Tests.transfer; trusted = none; paired = disk_of (phone ∷ []) }

Reachable-IsOrderly_example :
    IsOrderly (request_transfer request_deps request_io request json (disk_of (phone ∷ [])) none).1
Reachable-IsOrderly_example =
    Reachable-IsOrderly
      (request_transfer request_deps request_io request json (disk_of (phone ∷ [])) none).1
      (next start (requests request_deps request_io request json (disk_of (phone ∷ [])) none))

abbrev after_reject : Server Tests.deps
after_reject = record Tests.server {
  pending = (decide sample_deps decision_io (codes "t") (codes "reject") store).1.pending;
}
