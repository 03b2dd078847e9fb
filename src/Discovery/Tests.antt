-- ===== src/Discovery/Tests.antt =====
-- The theorems about discovery of src/main.rs at one beacon and one peer in the file.
use omarchy_omasend.Common.{[], false}
use omarchy_omasend.Common.Text.{codes}
use omarchy_omasend.Discovery.{DiscoveredPeer, Beacon, Device}

abbrev device : Device
device = record {
  my_id = codes "me";
  my_oma_id = codes "4539-1488-0343-6467";
  visibility = codes "KNOWN";
  paired = [];
  is_peer_trusted = λ id. false;
  now = 100;
}

abbrev desk : DiscoveredPeer
desk = record {
  id = codes "desk";
  oma_id = [];
  name = codes "Desk";
  ip = codes "192.168.1.9";
  port = 53317;
  transport = codes "LAN";
  fingerprint = [];
  is_trusted = false;
  last_seen_secs = 90;
}

abbrev beacon : Beacon
beacon = record {
  id = codes "desk";
  oma_id = [];
  name = codes "Desk";
  ip = codes "192.168.1.10";
  port = 53317;
  mode = codes "EVERYONE";
  fp = [];
}
