-- ===== src/Lib.antt =====
-- The verification library of omarchy-omasend: models of the Rust daemon, and theorems about them.
--
-- The daemon serves files and the clipboard to devices of the local network. A device is named by a
-- sixteen digit OmaID; two devices are paired when the user of one shows a code that the other
-- presents. `src/rendezvous.rs` holds identifiers, pairing, and finding the device's own address;
-- `src/main.rs` holds the server: connection limits, the limit on wrong PINs, reading bodies, the
-- endpoints, discovery of other devices, and the files it stores.
--
--   OmaId        src/rendezvous.rs: luhn_checksum, luhn_verify, normalize_oma_id, format_oma_id,
--                validate_oma_id, generate_raw_oma_id.
--   Net          src/rendezvous.rs: is_local_network_ip, with the address classes of std.
--   Pairing      src/rendezvous.rs: PairedPeer and the operations on paired_peers.json. `Model` has
--                the record and the small functions, `Ops` one function for each operation.
--   Stun         src/rendezvous.rs: create_stun_binding_request, parse_stun_response.
--   Rendezvous   src/rendezvous.rs: hmac_sha256 and hkdf_sha256, the rendezvous records with their
--                anchors (Record), the payloads between two devices (Tunnel), the status cache
--                (Cache).
--   Connections  src/main.rs: try_acquire_connection and the drop of ConnectionGuard.
--   PinLimiter   src/main.rs: is_pin_rate_limited, record_pin_attempt.
--   Staging      src/main.rs: StagingReservationGuard (Budget), EncryptedUploadGuard (Uploads).
--   HttpBody     src/main.rs: read_http_body, on top of Staging.
--   Http         src/main.rs: HttpRequest, extract_provided_pin, is_trusted_origin, the first part of
--                handle_connection (Http, Gate), its endpoint /api/p2p/pair on top of Pairing
--                (PairEndpoint), the check of the sender in /api/p2p/request (RequestAuth), and
--                read_http_headers (Headers).
--   Transfer     src/main.rs: PendingFileTransfer and its endpoints /api/p2p/request (Request),
--                /api/p2p/decision (Decision) and /api/p2p/upload (Upload), the last on top of
--                HttpBody, Filename and UrlCodec. An upload reads the transfer (begin_upload) before
--                its body and works with what it read (take_upload); upload is one that meets no
--                other request. Life has what holds across them, overlapping uploads included.
--   Encrypted    src/main.rs: decrypt_aes256_gcm, encrypt_aes256_gcm, and the endpoint
--                /api/upload-encrypted (Upload), on top of HttpBody, Filename, Staging and Notified,
--                and /api/clipboard-encrypted (Clipboard).
--   SecureFile   src/main.rs: write_secure_bytes, with the temporary file that a failure can leave.
--   Json         the fields of JSON objects that the endpoints of src/main.rs read.
--   Notified     src/main.rs: record_notified_file, is_recently_notified.
--   Discovery    src/main.rs: get_discovered_peers, update_discovered_peer,
--                prune_expired_discovered_peers.
--   Base64, ImageHeader, UrlCodec, Filename, Clipboard
--                src/main.rs: base64_encode and base64_decode, validate_image_header,
--                urlencoding_encode and urlencoding_decode, sanitize_filename and
--                get_unique_filepath, is_valid_text_clipboard and cleanup_clip_staging.
--   Military     src/military/crypto.rs: the checksums of streams and files (Checksums), the
--                shield against secrets on the clipboard (Shield).
--   Common       numbers, lists, bits, bytes and texts that these share.
--
-- State is passed explicitly: an operation on a file takes its content and returns it; an operation
-- on a locked map takes the map and returns it. Where threads share counters (Connections, Staging),
-- a history is a list of events, one for each atomic step, and the theorems hold for every list.
-- What the system answers during a call (locks, writes, random bytes, clocks) is an argument. Texts
-- are lists of code points, with their UTF-8 bytes where the code counts or compares bytes. Numbers
-- of the machine keep their wrap-around or their saturation written out.
--
-- Code outside the repository is a parameter with its documented laws: the text of addresses,
-- serde_json and hex in Pairing.Model.Deps, the stream and the digests in HttpBody.Deps, the letters
-- of Unicode and the printing of numbers in Filename.Deps, the hash,
-- the cipher and hex in Rendezvous.Deps. Pairing.Sample and Rendezvous.Sample are instances for the
-- tests.
--
-- Loops are structural where the source's are. The loops over JPEG segments, STUN attributes and body
-- bytes are given as many rounds as there are bytes; each round moves on by at least one byte, so
-- that is enough (ImageHeader.Bounds, Stun.Laws, HttpBody.Exact). The loops that draw random words
-- take the words as a list and return none where they would draw once more. The loop of the header
-- reader has as many rounds as the header may have bytes, and two more (Http.Headers.Consumed).
--
-- Not modelled: sockets, threads and timeouts, the plain clipboard endpoints of handle_connection,
-- the web pages, the command line and the tray, the clipboard vault, the WAN
-- tunnel, QR codes, hole punching, the sandbox, subprocesses, and the envelopes with passphrases. The Android application is a program of its own.
pub mod Common
pub mod Base64
pub mod Clipboard
pub mod Connections
pub mod Discovery
pub mod Encrypted
pub mod Filename
pub mod Http
pub mod HttpBody
pub mod ImageHeader
pub mod Json
pub mod Military
pub mod Net
pub mod Notified
pub mod OmaId
pub mod Pairing
pub mod PinLimiter
pub mod Rendezvous
pub mod SecureFile
pub mod Staging
pub mod Stun
pub mod Transfer
pub mod UrlCodec
