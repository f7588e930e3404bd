-- ===== src/Pairing.antt =====
-- crates/secure-pairing/src/lib.rs: challenges, certificates and their verification. The cryptography,
-- the hash and the printing of identifiers and numbers are parameters, and so is what the random
-- generator and the clock give. Times of certificates are seconds.
pub mod Handshake
pub mod Tests
use Prim.Native.String.{◌++◌ as str_append}
use tensorgrid.Base.{
  Bytes, ℕ, ◌+◌, ◌-◌, ◌*◌, ◌/◌, ◌^◌, ◌≡◌, String, Bool, true, false, not, ◌&&◌, Option, none, some,
  List, [], ◌∷◌, take, length, ltb, leb, ◌==◌, retain, if◌then◌else◌, Result, ok, err, ◌>>=◌,
  id_key, name_key,
}
use tensorgrid.HashMap.{HashMap, get, insert, remove, keys}
use tensorgrid.Types.{Uuid, NodeId, ClusterId, DateTime}

-- u8
-- ed25519_dalek, sha2, hex and uuid, and `format!` of an i64.
pub record Crypto (Secret : Type 0) : Type 0 where
  pub public_of : Secret → Bytes
  pub sign : Secret → Bytes → Bytes
  pub is_public : Bytes → Bool  -- `PublicKey::from_bytes` succeeds
  pub is_signature : Bytes → Bool  -- `Signature::from_bytes` succeeds on 64 bytes
  pub verify : Bytes → Bytes → Bytes → Bool  -- public key, message, signature
  pub sha256 : Bytes → Bytes
  pub as_bytes : String → Bytes
  pub hex : Bytes → String
  pub print_uuid : Uuid → String
  pub print_i64 : ℕ → String

-- A signature has 64 bytes and verifies under the public key of the secret that made it.
pub record IsSignatureScheme {Secret : Type 0} (c : Crypto Secret) : Type 0 where
  pub public_ok : (k : Secret) → c.is_public (c.public_of k) ≡ true
  pub length_ok : (k : Secret) (m : Bytes) → length (c.sign k m) ≡ 64
  pub signature_ok : (k : Secret) (m : Bytes) → c.is_signature (c.sign k m) ≡ true
  pub verify_ok : (k : Secret) (m : Bytes) → c.verify (c.public_of k) m (c.sign k m) ≡ true

pub record PendingChallenge : Type 0 where
  pub challenge : Bytes
  pub timestamp : DateTime
  pub expires_in_seconds : ℕ  -- u64

pub record DeviceCertificate : Type 0 where
  pub node_id : NodeId
  pub cluster_id : ClusterId
  pub public_key : Bytes
  pub issued_at : ℕ  -- i64
  pub expires_at : ℕ  -- i64
  pub coordinator_signature : Bytes

pub record NodeKeyPair : Type 0 where
  pub node_id : NodeId
  pub public_key : Bytes
  pub certificate : DeviceCertificate

pub record PairingChallenge : Type 0 where
  pub node_id : NodeId
  pub challenge : Bytes
  pub coordinator_public_key : Bytes

pub record PairingResponse : Type 0 where
  pub node_id : NodeId
  pub challenge_response : Bytes
  pub challenge_signature : Bytes

pub record PairingManager (Secret : Type 0) : Type 0 where
  pub cluster_id : ClusterId
  pub pending_challenges : HashMap String PendingChallenge
  pub node_keys : HashMap NodeId NodeKeyPair
  pub coordinator_key : Secret

-- The errors, by their messages.
pub data PairingError : Type 0 where
  challenge_not_found challenge_expired invalid_public_key invalid_signature_length : PairingError
  invalid_signature verification_failed : PairingError

-- `timestamp()`
abbrev pub timestamp_of : DateTime → ℕ
timestamp_of t = t / 10 ^ 9

abbrev pub year : ℕ
year = 365 * 24 * 60 * 60

abbrev pub join : String → String → String
join a b = str_append a (str_append ":" b)

abbrev pub new_pending : Bytes → DateTime → PendingChallenge
new_pending challenge now = record {
  challenge = challenge;
  timestamp = now;
  expires_in_seconds = 300;
}

abbrev pub is_expired : DateTime → PendingChallenge → Bool
is_expired now p = ltb p.expires_in_seconds (timestamp_of now - timestamp_of p.timestamp)

module _ {Secret : Type 0} where
  -- Also `new_node`, with the node's own key.
  unfoldable pub new_coordinator : ClusterId → Secret → PairingManager Secret
  new_coordinator cluster_id key = record {
    cluster_id = cluster_id;
    pending_challenges = [];
    node_keys = [];
    coordinator_key = key;
  }

  abbrev pub store_node :
      NodeId → Bytes → DeviceCertificate → PairingManager Secret → PairingManager Secret
  store_node id key certificate m = record m {
    node_keys =
        insert id (record { node_id = id; public_key = key; certificate = certificate })
          m.node_keys;
  }

  abbrev pub take_pending : String → PairingManager Secret → PairingManager Secret
  take_pending id m = record m { pending_challenges = remove id m.pending_challenges }

  unfoldable pub revoke_node : NodeId → PairingManager Secret → PairingManager Secret
  revoke_node id m = record m { node_keys = remove id m.node_keys }

  unfoldable pub registered_nodes : PairingManager Secret → List NodeId
  registered_nodes m = keys m.node_keys

  unfoldable pub cleanup_expired_challenges :
      DateTime → PairingManager Secret → PairingManager Secret
  cleanup_expired_challenges now m = record m {
    pending_challenges = retain (λ e. not (is_expired now e.1)) m.pending_challenges;
  }

module _ {Secret : Type 0} (c : Crypto Secret) where
  abbrev pub challenge_id : NodeId → Bytes → String
  challenge_id id challenge = join (c.print_uuid id) (c.hex (take 8 challenge))

  unfoldable pub generate_challenge :
      NodeId → Bytes → DateTime → PairingManager Secret → PairingManager Secret × PairingChallenge
  generate_challenge id challenge now m = (
    record m {
      pending_challenges =
          insert (challenge_id id challenge) (new_pending challenge now) m.pending_challenges;
    },
    record {
      node_id = id;
      challenge = challenge;
      coordinator_public_key = c.public_of m.coordinator_key;
    },
  )

  abbrev pub certificate_hash : NodeId → ClusterId → Bytes → ℕ → ℕ → Bytes
  certificate_hash id cluster key issued expires = c.sha256 (
      c.as_bytes (
        join (c.print_uuid id) (
          join (c.print_uuid cluster)
            (join (c.hex key) (join (c.print_i64 issued) (c.print_i64 expires))))))

  -- The public key, the signature's length, the signature, and what it signs.
  unfoldable pub check_signature : Bytes → Bytes → Bytes → Result PairingError Bool
  check_signature key message signature =
      if not (c.is_public key)
      then err invalid_public_key
      else if not (length signature == 64)
      then err invalid_signature_length
      else if not (c.is_signature signature)
      then err invalid_signature
      else ok (c.verify key message signature)

  abbrev pub issue : NodeId → ClusterId → Bytes → ℕ → Secret → DeviceCertificate
  issue id cluster key now secret = record {
    node_id = id;
    cluster_id = cluster;
    public_key = key;
    issued_at = now;
    expires_at = now + year;
    coordinator_signature = c.sign secret (certificate_hash id cluster key now (now + year));
  }

  -- What is checked of a challenge that was pending.
  unfoldable pub check_response :
      PairingResponse → Bytes → DateTime → PendingChallenge → Result PairingError Unit
  check_response r key now p =
      let checked = check_signature key p.challenge r.challenge_signature in
      if is_expired now p
      then err challenge_expired
      else checked >>= λ verified. if verified then ok tt else err verification_failed

  abbrev pub response_id : PairingResponse → String
  response_id r = challenge_id r.node_id r.challenge_response

  -- `none` is the panic of `challenge_response[..8]`; `now` and `issued` are the two reads of the clock.
  -- The challenge is taken out before it is checked.
  unfoldable pub verify_response :
      PairingResponse
      → Bytes
      → DateTime
      → DateTime
      → PairingManager Secret
      → Option (PairingManager Secret × Result PairingError DeviceCertificate)
  verify_response r key now issued m =
      let taken = take_pending (response_id r) m in
      let certificate = issue r.node_id m.cluster_id key (timestamp_of issued) m.coordinator_key in
      if ltb (length r.challenge_response) 8
      then none
      else some (elim (get (response_id r) m.pending_challenges) [
        | none ↦ (m, err challenge_not_found)
        | some p ↦ elim (check_response r key now p) [
          | err e ↦ (taken, err e)
          | ok _ ↦ (store_node r.node_id key certificate taken, ok certificate)
        ]
      ])

  unfoldable pub sign_challenge : Bytes → PairingManager Secret → Bytes
  sign_challenge challenge m = c.sign m.coordinator_key challenge

  unfoldable pub verify_coordinator_signature : Bytes → Bytes → Bytes → Result PairingError Bool
  verify_coordinator_signature message signature key = check_signature key message signature

  unfoldable pub public_key : PairingManager Secret → Bytes
  public_key m = c.public_of m.coordinator_key

  unfoldable pub verify_certificate :
      DeviceCertificate → Bytes → DateTime → Result PairingError Bool
  verify_certificate d key now =
      let message = certificate_hash d.node_id d.cluster_id d.public_key d.issued_at d.expires_at in
      let checked = verify_coordinator_signature message d.coordinator_signature key in
      if ltb d.expires_at (timestamp_of now) then ok false else checked

  unfoldable pub generate_fingerprint : Bytes → String
  generate_fingerprint key = c.hex (take 8 (c.sha256 key))
