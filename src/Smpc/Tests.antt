-- ===== src/Smpc/Tests.antt =====
-- Decryption and multiplication with concrete systems.
use co_fhe.Base.{
  true, ℕ, zero, suc, ◌≡◌, refl, ◌<◌, some, List, [], ◌∷◌, map, Bytes, length, ◌^◌, ◌*◌, arith,
}
use co_fhe.Base.Int.{ℤ, pos, negsuc, pos_part, ◌+ℤ◌, ◌-ℤ◌, ◌*ℤ◌}
use co_fhe.Bicycl.Integers.{integers, additive}
use co_fhe.Wire.Outcome.{Outcome, returned, thrown, undefined, not_enough_clients}
use co_fhe.Sharing.Choose.{choose}
use co_fhe.Sharing.Choose.Exact.{RoundsFit, NcrFits}
use co_fhe.Sharing.Decrypt.{CipherText, part_decrypt, final_decrypt}
use co_fhe.Sharing.Keygen.{keygen}
use co_fhe.Sharing.Keygen.Threshold.{KeygenFits}
use co_fhe.Node.CofheNode.{CryptoSystem}
use co_fhe.Smpc.Decrypt.{ClientSystem, decrypt}
use co_fhe.Smpc.Decrypt.Combined.{Readable, decrypt-combines}
use co_fhe.Smpc.Decrypt.Network.{outcome, decrypt-network}
use co_fhe.Smpc.Multiply.{Encryption, Triplet, Client, multiply_ciphertexts}
use co_fhe.Smpc.Triplets.{Cache, get_all}
use co_fhe.Smpc.Triplets.Fresh.{range, supply, total, get_all-range}
use co_fhe.Smpc.Multiply.Product.{multiply_ciphertexts-message}

-- Integers as texts: a sign and a number.
abbrev write_int : ℤ → Bytes
write_int (pos n) = 0 ∷ n ∷ []
write_int (negsuc n) = 1 ∷ n ∷ []

abbrev read_int : Bytes → Outcome ℤ
read_int (zero ∷ n ∷ []) = returned (pos n)
read_int (suc sign ∷ n ∷ []) = returned (negsuc n)
read_int text = undefined

abbrev read_pair : Bytes → Outcome (CipherText ℤ)
read_pair (c1 ∷ c2 ∷ []) = returned (record { c1 = pos c1; c2 = pos c2 })
read_pair text = undefined

read_int-write_int : (a : ℤ) → read_int (write_int a) ≡ returned a
read_int-write_int (pos n) = refl
read_int-write_int (negsuc n) = refl

write_int-short : (a : ℤ) → length (write_int a) < 2 ^ 64
write_int-short (pos n) = omega arith
write_int-short (negsuc n) = omega arith

abbrev node_system : CryptoSystem ℤ (CipherText ℤ) Bytes ℤ Bytes
node_system = record {
  deserialize_secret_key_share = read_int;
  deserialize_ciphertext = read_pair;
  deserialize_ciphertext_tensor = returned;
  part_decrypt = λ share ct. part_decrypt integers additive ct share;
  part_decrypt_tensor = λ share text. text;
  serialize_part_decryption_result = write_int;
  serialize_part_decryption_result_tensor = λ text. text;
}

abbrev client_system : ClientSystem (CipherText ℤ) ℤ ℤ
client_system = record {
  serialize_ciphertext = λ ct. pos_part ct.c1 ∷ pos_part ct.c2 ∷ [];
  deserialize_part_decryption_result = read_int;
  combine_part_decryption_results = λ ct parts. outcome (final_decrypt integers additive ct parts);
}

-- The message 4 under the secret key 7, with 5 for the randomness of the encryption.
abbrev four : CipherText ℤ
four = record { c1 = pos 5; c2 = pos 39 }

readable : Readable node_system client_system 0 four
readable = record {
  small_index = omega arith;
  small_ciphertext = omega arith;
  ciphertext_read = refl;
  small_part = λ share. write_int-short (part_decrypt integers additive four share);
  part_read = read_int-write_int;
}

RoundsFit-3_2 : RoundsFit 3 2
unfolding choose
RoundsFit-3_2 zero h = omega arith
RoundsFit-3_2 (suc zero) h = omega arith
RoundsFit-3_2 (suc (suc i)) h = absurd (omega arith)

NcrFits-3_2 : NcrFits 3 2
unfolding choose
NcrFits-3_2 = (omega arith, omega arith, RoundsFit-3_2, omega arith)

KeygenFits-3_2 : KeygenFits 3 2
unfolding choose
KeygenFits-3_2 = (NcrFits-3_2, omega arith)

abbrev random : ℕ → ℤ
random i = pos (10 * i)

decrypt-network_example :
    (keys : List (List ℤ)) × (keygen integers (pos 7) random 2 3 ≡ some keys)
    × (decrypt node_system client_system (thrown not_enough_clients) 2 0 keys four
        ≡ returned (
            additive.dlog_in_f
              (additive.nucompinv four.c2 (part_decrypt integers additive four (pos 7)))))
decrypt-network_example =
    decrypt-network integers additive node_system client_system four (thrown not_enough_clients)
      (pos 7) random 1 3 (omega arith) KeygenFits-3_2
      (record { parts = λ share. refl; combines = λ parts. refl }) readable

abbrev nodes : List (List ℤ)
nodes = (pos 17 ∷ pos 27 ∷ []) ∷ (pos 10 ∷ []) ∷ (pos 20 ∷ []) ∷ []

decrypt_run :
    decrypt node_system client_system (thrown not_enough_clients) 2 0 nodes four ≡ returned (pos 4)
unfolding decrypt part_decrypt final_decrypt ◌+ℤ◌ ◌-ℤ◌ ◌*ℤ◌
decrypt_run = refl

-- With one client there is a renewal. Its index asks the second node for a share that it does not have.
renewed_run :
    decrypt node_system client_system (returned (nodes, 1)) 2 0 ((pos 17 ∷ []) ∷ []) four
    ≡ undefined
unfolding decrypt part_decrypt final_decrypt ◌+ℤ◌ ◌-ℤ◌ ◌*ℤ◌
renewed_run = refl

decrypt-combines_example :
    decrypt node_system client_system (thrown not_enough_clients) 2 0 nodes four
    ≡ client_system.combine_part_decryption_results four
        (map (λ share. node_system.part_decrypt share four) (pos 17 ∷ pos 10 ∷ []))
decrypt-combines_example =
    decrypt-combines node_system client_system 0 four readable (thrown not_enough_clients) 2 nodes
      (pos 17 ∷ pos 10 ∷ []) (omega arith) refl

-- Plaintexts in the clear.
abbrev clear : Encryption integers ℤ ℤ
clear = record {
  encrypt = λ p. p;
  add_ciphertexts = λ c d. c +ℤ d;
  scal_ciphertext = λ p c. p *ℤ c;
  negate_ciphertext = λ c. negsuc 0 *ℤ c;
  multiply_plaintexts = λ p q. p *ℤ q;
  value = λ p. p;
  message = λ c. c;
  message-encrypt = λ p. refl;
  message-add = λ c d. refl;
  message-scal = λ p c. refl;
  message-negate = λ c. refl;
  value-multiply = λ p q. refl;
}

abbrev triplet : Triplet ℤ
triplet = record { a = pos 3; b = pos 4; c = pos 12 }

abbrev client : Client ℤ ℤ
client = record { next_triplet = returned triplet; decrypt = returned }

product_run : multiply_ciphertexts clear client (pos 6) (negsuc 4) ≡ returned (negsuc 29)
unfolding multiply_ciphertexts ◌+ℤ◌ ◌*ℤ◌
product_run = refl

multiply_ciphertexts-message_example :
    (ct : ℤ) × (multiply_ciphertexts clear client (pos 6) (negsuc 4) ≡ returned ct)
    × (ct ≡ integers.mul (pos 6) (negsuc 4))
unfolding ◌*ℤ◌
multiply_ciphertexts-message_example =
    multiply_ciphertexts-message clear client (λ c. c)
      (record { answers = λ c. refl; right = λ c. refl }) triplet refl refl (pos 6) (negsuc 4)

-- A stock of four triplets, the numbers 0 to 3.
abbrev stocked : Cache ℕ
stocked = record { connected = true; triplets = 0 ∷ 1 ∷ 2 ∷ 3 ∷ []; index = 0 }

get_all_run :
    get_all (supply (λ i. i)) 4 4 stocked (2 ∷ 3 ∷ 0 ∷ 1 ∷ [])
    ≡ returned (0 ∷ 1 ∷ 2 ∷ 3 ∷ 4 ∷ 5 ∷ [])
unfolding get_all
get_all_run = refl

get_all-range_example :
    get_all (supply (λ i. i)) 4 4 stocked (2 ∷ 3 ∷ 0 ∷ 1 ∷ [])
    ≡ returned (range (λ i. i) 0 (total (λ i. i) (2 ∷ 3 ∷ 0 ∷ 1 ∷ [])))
get_all-range_example =
    get_all-range (λ i. i) 4 (2 ∷ 3 ∷ 0 ∷ 1 ∷ []) 0 4 stocked
      (record {
        connected = refl;
        index_fits = omega arith;
        small = omega arith;
        counted = refl;
        kept = refl;
      })
      (omega arith, (omega arith, (omega arith, (omega arith, tt))))
