-- ===== src/Pairing/Handshake.antt =====
-- crates/secure-pairing/src/lib.rs: from a challenge to a certificate.
use tensorgrid.Base.{
  Bytes, ◌+◌, ◌-◌, ◌≡◌, ◌≤◌, refl, String, true, false, some, length, ltb, arith, Result, ok, err,
  id_key, name_key, Option-cases, inl, inr,
}
use tensorgrid.HashMap.{HashMap, get, insert}
use tensorgrid.HashMap.Laws.{get-insert, get-remove}
use tensorgrid.Types.{NodeId, DateTime}
use tensorgrid.Pairing.{
  Crypto, IsSignatureScheme, PendingChallenge, DeviceCertificate, PairingResponse, PairingManager,
  PairingError, challenge_not_found, timestamp_of, year, generate_challenge, challenge_id,
  check_signature, check_response, issue, verify_response, verify_certificate,
  verify_coordinator_signature, certificate_hash, response_id, new_pending, take_pending,
  store_node,
}

module _ {Secret : Type 0} (c : Crypto Secret) where
  -- The answer of an honest node to a challenge.
  abbrev pub answer : NodeId → Bytes → Secret → PairingResponse
  answer id challenge node = record {
    node_id = id;
    challenge_response = challenge;
    challenge_signature = c.sign node challenge;
  }

  check_signature-own :
      IsSignatureScheme c
      → (k : Secret) (message : Bytes)
      → check_signature c (c.public_of k) message (c.sign k message) ≡ ok true
  unfolding check_signature
  check_signature-own scheme k message =
      rw
        (
          scheme.public_ok k,
          scheme.length_ok k message,
          scheme.signature_ok k message,
          scheme.verify_ok k message,
        )
        refl

  check_response-answer :
      IsSignatureScheme c
      → (id : NodeId) (challenge : Bytes) (sent now : DateTime) (node : Secret)
      → timestamp_of now ≤ timestamp_of sent + 300
      → check_response c
          (answer id challenge node)
          (c.public_of node)
          now
          (new_pending challenge sent)
        ≡ ok tt
  unfolding check_response
  check_response-answer scheme id challenge sent now node fresh =
      let in_time : ltb 300 (timestamp_of now - timestamp_of sent) ≡ false = ground arith in
      rw (in_time, check_signature-own scheme node challenge) refl

  get-insert_same :
      (k : String) (p : PendingChallenge) (m : HashMap String PendingChallenge)
      → get k (insert k p m) ≡ some p
  get-insert_same k p m = ground (arith, get-insert k k p m)

  -- The coordinator's certificate for a node, issued at a time.
  abbrev pub certificate_for :
      NodeId → Secret → DateTime → PairingManager Secret → DeviceCertificate
  certificate_for id node issued m =
      issue c id m.cluster_id (c.public_of node) (timestamp_of issued) m.coordinator_key

  abbrev pub paired :
      NodeId → Bytes → Secret → DateTime → PairingManager Secret → PairingManager Secret
  paired id challenge node issued m =
      store_node id (c.public_of node) (certificate_for id node issued m)
        (take_pending (challenge_id c id challenge) m)

  pub verify_response-answer :
      IsSignatureScheme c
      → (id : NodeId) (challenge : Bytes) (sent now issued : DateTime) (node : Secret)
        (m : PairingManager Secret)
      → 8 ≤ length challenge
      → timestamp_of now ≤ timestamp_of sent + 300
      → let m' = (generate_challenge c id challenge sent m).0 in
        verify_response c (answer id challenge node) (c.public_of node) now issued m'
        ≡ some (paired id challenge node issued m', ok (certificate_for id node issued m))
  unfolding verify_response generate_challenge
  verify_response-answer scheme id challenge sent now issued node m long fresh =
      let enough : ltb (length challenge) 8 ≡ false = ground arith in
      rw
        (
          enough,
          get-insert_same (challenge_id c id challenge) (new_pending challenge sent)
              m.pending_challenges,
          check_response-answer scheme id challenge sent now node fresh,
        )
        refl

  verify_certificate-issue :
      IsSignatureScheme c
      → (id : NodeId) (issued later : DateTime) (node : Secret) (m : PairingManager Secret)
      → timestamp_of later ≤ timestamp_of issued + year
      → verify_certificate c
          (certificate_for id node issued m)
          (c.public_of m.coordinator_key)
          later
        ≡ ok true
  unfolding verify_certificate verify_coordinator_signature
  verify_certificate-issue scheme id issued later node m valid =
      let in_time : ltb (timestamp_of issued + year) (timestamp_of later) ≡ false = ground arith in
      rw in_time (
        check_signature-own scheme m.coordinator_key (
          certificate_hash c id m.cluster_id (c.public_of node) (timestamp_of issued)
            (timestamp_of issued + year)))

-- Under a correct signature scheme, a node that signs a challenge of at least 8 bytes and answers within
-- 300 seconds gets a certificate for its key and is registered with it, and the certificate is valid
-- under the coordinator's key for a year.
pub pairing_completes :
    {Secret : Type 0} (c : Crypto Secret)
    → IsSignatureScheme c
    → (id : NodeId) (challenge : Bytes) (sent now issued later : DateTime) (node : Secret)
      (m : PairingManager Secret)
    → 8 ≤ length challenge
    → timestamp_of now ≤ timestamp_of sent + 300
    → timestamp_of later ≤ timestamp_of issued + year
    → let m' = (generate_challenge c id challenge sent m).0 in
      (m'' : PairingManager Secret) × (d : DeviceCertificate) × (verify_response c
          (answer c id challenge node)
          (c.public_of node)
          now
          issued
          m'
        ≡ some (m'', ok d))
      × (get id m''.node_keys
          ≡ some (record { node_id = id; public_key = c.public_of node; certificate = d }))
      × (verify_certificate c d (c.public_of m.coordinator_key) later ≡ ok true)
unfolding generate_challenge
pairing_completes c scheme id challenge sent now issued later node m long fresh valid =
    let d = certificate_for c id node issued m in
    (
      paired c id challenge node issued (generate_challenge c id challenge sent m).0,
      d,
      verify_response-answer c scheme id challenge sent now issued node m long fresh,
      ground (
        arith,
        get-insert id id (record { node_id = id; public_key = c.public_of node; certificate = d })
            m.node_keys,
      ),
      verify_certificate-issue c scheme id issued later node m valid,
    )

module _ {Secret : Type 0} (c : Crypto Secret) (r : PairingResponse) (key : Bytes)
    (now issued : DateTime) (m : PairingManager Secret) where
  -- A response that was handled once, whatever the answer was, is not known any more.
  pub verify_response_once :
      (m' : PairingManager Secret) (x : Result PairingError DeviceCertificate)
      (now' issued' : DateTime)
      → verify_response c r key now issued m ≡ some (m', x)
      → verify_response c r key now' issued' m' ≡ some (m', err challenge_not_found)
  unfolding verify_response
  verify_response_once m' x now' issued' e =
      ground (arith, get-remove (response_id c r) (response_id c r) m.pending_challenges)

  -- A certificate is issued only for a challenge that was pending and has not expired, to a response
  -- whose signature of that challenge verifies under the key; the certificate is for that key.
  pub verify_response_sound :
      (m' : PairingManager Secret) (d : DeviceCertificate)
      → verify_response c r key now issued m ≡ some (m', ok d)
      → (p : PendingChallenge) × (get (response_id c r) m.pending_challenges ≡ some p)
        × (timestamp_of now ≤ timestamp_of p.timestamp + p.expires_in_seconds)
        × (c.verify key p.challenge r.challenge_signature ≡ true)
        × (d.public_key ≡ key)
  unfolding verify_response check_response check_signature
  verify_response_sound m' d e = elim (Option-cases (get (response_id c r) m.pending_challenges)) [
    | inl missing ↦ ground arith
    | inr (p, found) ↦ (p, found, ground arith, ground arith, ground arith)
  ]
