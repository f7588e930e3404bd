-- ===== src/Pairing/Tests.antt =====
-- crates/secure-pairing/src/lib.rs: a handshake at concrete inputs, under a toy signature scheme.
use tensorgrid.Base.{
  Bytes, ℕ, zero, suc, ◌+◌, ◌*◌, ◌^◌, ◌≡◌, ◌≤◌, refl, Bool, true, false, some, [], ◌∷◌, arith, ok,
  err, id_key, name_key, ◌==◌,
}
use tensorgrid.HashMap.{get}
use tensorgrid.Pairing.{
  Crypto, IsSignatureScheme, PendingChallenge, DeviceCertificate, PairingResponse, PairingManager,
  new_coordinator, generate_challenge, verify_response, verify_certificate, response_id,
  timestamp_of, challenge_not_found,
}
use tensorgrid.Pairing.Handshake.{
  answer, pairing_completes, verify_response_once, verify_response_sound, certificate_for, paired,
  verify_response-answer,
}

abbrev zeros : ℕ → Bytes
zeros zero = []
zeros (suc n) = 0 ∷ zeros n

abbrev same_head : Bytes → Bytes → Bool
same_head (a ∷ _) (b ∷ _) = a == b
same_head _ _ = false

-- The key in front of 63 zeros signs everything.
abbrev toy : Crypto ℕ
toy = record {
  public_of = λ k. k ∷ [];
  sign = λ k m. k ∷ zeros 63;
  is_public = λ b. true;
  is_signature = λ b. true;
  verify = λ key m s. same_head key s;
  sha256 = λ b. b;
  as_bytes = λ t. [];
  hex = λ b. "00";
  print_uuid = λ n. "id";
  print_i64 = λ n. "0";
}

toy-IsSignatureScheme : IsSignatureScheme toy
toy-IsSignatureScheme = record {
  public_ok = λ k. refl;
  length_ok = λ k m. refl;
  signature_ok = λ k m. refl;
  verify_ok = λ k m. ground arith;
}

abbrev coordinator : PairingManager ℕ
coordinator = new_coordinator 1 77

abbrev eight : Bytes
eight = 1 ∷ 2 ∷ 3 ∷ 4 ∷ 5 ∷ 6 ∷ 7 ∷ 8 ∷ []

abbrev asked : PairingManager ℕ
asked = (generate_challenge toy 5 eight 0 coordinator).0

pairing_completes_example :
    (m'' : PairingManager ℕ) × (d : DeviceCertificate) × (verify_response toy
        (answer toy 5 eight 9)
        (9 ∷ [])
        (10 * 10 ^ 9)
        (10 * 10 ^ 9)
        asked
      ≡ some (m'', ok d))
    × (get 5 m''.node_keys ≡ some (record { node_id = 5; public_key = 9 ∷ []; certificate = d }))
    × (verify_certificate toy d (toy.public_of coordinator.coordinator_key) (1000 * 10 ^ 9)
        ≡ ok true)
pairing_completes_example =
    pairing_completes toy toy-IsSignatureScheme 5 eight 0 (10 * 10 ^ 9) (10 * 10 ^ 9)
      (1000 * 10 ^ 9) 9 coordinator (omega arith) (omega arith) (omega arith)

abbrev reply : PairingResponse
reply = answer toy 5 eight 9

abbrev done : PairingManager ℕ
done = paired toy 5 eight 9 (10 * 10 ^ 9) asked

abbrev granted : DeviceCertificate
granted = certificate_for toy 5 9 (10 * 10 ^ 9) coordinator

accepted :
    verify_response toy reply (9 ∷ []) (10 * 10 ^ 9) (10 * 10 ^ 9) asked ≡ some (done, ok granted)
accepted =
    verify_response-answer toy toy-IsSignatureScheme 5 eight 0 (10 * 10 ^ 9) (10 * 10 ^ 9) 9
      coordinator (omega arith) (omega arith)

verify_response_once_example :
    verify_response toy reply (9 ∷ []) (11 * 10 ^ 9) (11 * 10 ^ 9) done
    ≡ some (done, err challenge_not_found)
verify_response_once_example =
    verify_response_once toy reply (9 ∷ []) (10 * 10 ^ 9) (10 * 10 ^ 9) asked done (ok granted)
      (11 * 10 ^ 9) (11 * 10 ^ 9) accepted

verify_response_sound_example :
    (p : PendingChallenge) × (get (response_id toy reply) asked.pending_challenges ≡ some p)
    × (timestamp_of (10 * 10 ^ 9) ≤ timestamp_of p.timestamp + p.expires_in_seconds)
    × (toy.verify (9 ∷ []) p.challenge reply.challenge_signature ≡ true)
    × (granted.public_key ≡ 9 ∷ [])
verify_response_sound_example =
    verify_response_sound toy reply (9 ∷ []) (10 * 10 ^ 9) (10 * 10 ^ 9) asked done granted accepted
