-- ===== src/Smpc/Decrypt/Combined.antt =====
-- What the nodes answer are the partial decryptions with their shares.
use co_fhe.Base.{
  ℕ, zero, suc, ◌^◌, ◌≤◌, ◌<◌, ◌≡◌, refl, sym, ap, ◌∙◌, leb, ltb, false, if◌then◌else◌, Option,
  none, some, List, [], ◌∷◌, map, take, length, get_elem?, Bytes, arith,
}
use co_fhe.Wire.Enums.{ok}
use co_fhe.Wire.Outcome.{Outcome, returned, undefined, ◌>>=◌}
use co_fhe.Wire.Messages.{cofhe_node_response}
use co_fhe.Wire.Lined.{lined_response_to_string}
use co_fhe.Wire.Lined.RoundTrip.{
  share_request_from_string-to_string, lined_response_from_string-to_string,
}
use co_fhe.Node.CofheNode.{
  CryptoSystem, answer, handle_single_value, handle_partial_decryption, handle_cofhe,
}
use co_fhe.Smpc.Decrypt.{
  ClientSystem, received, share_request, node_request, read_answer, clients_for, first_clients,
  collect, decrypt,
}

abbrev pub one_more {ℓ} : {A : Type ℓ} → Option A → Option (List A) → Option (List A)
one_more (some share) (some others) = some (share ∷ others)
one_more (some share) none = none
one_more none others = none

-- the share that each node has at an index
abbrev pub shares_at {ℓ} : {A : Type ℓ} → ℕ → List (List A) → Option (List A)
shares_at index [] = some []
shares_at index (shares ∷ nodes) = one_more (get_elem? shares index) (shares_at index nodes)

one_more-some {ℓ} :
    {A : Type ℓ} (first : Option A) (others : Option (List A)) {all : List A}
    → one_more first others ≡ some all
    → (x : A) × (xs : List A) × (first ≡ some x) × (others ≡ some xs) × (all ≡ x ∷ xs)
one_more-some (some x) (some xs) e = (x, xs, refl, refl, cc)
one_more-some (some x) none e = absurd cc
one_more-some none others e = absurd cc

leb-get_elem? {ℓ} :
    {A : Type ℓ} (xs : List A) (i : ℕ) {x : A} → get_elem? xs i ≡ some x → leb (length xs) i ≡ false
leb-get_elem? [] i e = absurd cc
leb-get_elem? (x ∷ xs) zero e = ground arith
leb-get_elem? (x ∷ xs) (suc i) e = ground (arith, leb-get_elem? xs i e)

module _ {Share CipherText Tensor PartResult PartTensor PlainText : Type 0}
    (cs : CryptoSystem Share CipherText Tensor PartResult PartTensor)
    (client : ClientSystem CipherText PartResult PlainText) (index : ℕ) (ct : CipherText) where
  -- What the client and the nodes write is read on the other side, and a text can tell its size.
  pub record Readable : Type 0 where
    pub small_index : index < 2 ^ 64
    pub small_ciphertext : length (client.serialize_ciphertext ct) < 2 ^ 64
    pub ciphertext_read : cs.deserialize_ciphertext (client.serialize_ciphertext ct) ≡ returned ct
    pub small_part :
        (share : Share)
        → length (cs.serialize_part_decryption_result (cs.part_decrypt share ct)) < 2 ^ 64
    pub part_read :
        (part : PartResult)
        → client.deserialize_part_decryption_result (cs.serialize_part_decryption_result part)
          ≡ returned part

  module _ (texts : Readable) where
    abbrev part_text : Share → Bytes
    part_text share = cs.serialize_part_decryption_result (cs.part_decrypt share ct)

    handled :
        (shares : List Share) (share : Share)
        → get_elem? shares index ≡ some share
        → handle_partial_decryption cs shares (share_request cs client index ct)
          ≡ returned (answer cs (part_text share))
    unfolding handle_partial_decryption handle_single_value
    handled shares share e = rw (leb-get_elem? shares index e, e, texts.ciphertext_read) refl

    answered :
        (shares : List Share) (share : Share)
        → get_elem? shares index ≡ some share
        → handle_cofhe cs shares (node_request cs client index ct)
          ≡ returned
              (cofhe_node_response ok (lined_response_to_string (answer cs (part_text share))))
    unfolding handle_cofhe
    answered shares share e =
        ap
          (λ m. m >>= (λ request. handle_partial_decryption cs shares request >>= (λ response.
            returned (cofhe_node_response ok (lined_response_to_string response)))))
          (share_request_from_string-to_string (share_request cs client index ct) tt
            texts.small_index texts.small_ciphertext)
        ∙ ap
            (λ m. m >>= (λ response.
              returned (cofhe_node_response ok (lined_response_to_string response))))
            (handled shares share e)

    read_back :
        (share : Share)
        → read_answer cs client (lined_response_to_string (answer cs (part_text share)))
          ≡ returned (cs.part_decrypt share ct)
    unfolding read_answer
    read_back share =
        ap (λ m. m >>= (λ response. client.deserialize_part_decryption_result response.content))
          (lined_response_from_string-to_string (answer cs (part_text share)) tt
            (texts.small_part share))
        ∙ texts.part_read (cs.part_decrypt share ct)

    collected :
        (nodes : List (List Share)) (chosen : List Share)
        → shares_at index nodes ≡ some chosen
        → collect cs client index ct nodes
          ≡ returned (map (λ share. cs.part_decrypt share ct) chosen)
    unfolding collect
    collected [] chosen e = let same : chosen ≡ [] = cc in rw same refl
    collected (shares ∷ nodes) chosen e =
        let (share, others, here, rest, all) =
          one_more-some (get_elem? shares index) (shares_at index nodes) e in
        ap
          (λ m. received m >>= (λ text.
            read_answer cs client text
            >>= (λ part. collect cs client index ct nodes >>= (λ parts. returned (part ∷ parts)))))
          (answered shares share here)
        ∙ ap
            (λ m.
              m
              >>= (λ part. collect cs client index ct nodes >>= (λ parts. returned (part ∷ parts))))
            (read_back share)
        ∙ ap (λ m. m >>= (λ parts. returned (cs.part_decrypt share ct ∷ parts)))
            (collected nodes others rest)
        ∙ ap (λ shares. returned (map (λ share. cs.part_decrypt share ct) shares)) (sym all)

    -- If there are clients for the threshold, each of the first `threshold` nodes has a share at the
    -- index, and the texts that the client and the nodes write can be read, decryption combines what the
    -- nodes' shares decrypt partially.
    pub decrypt-combines :
        (renewal : Outcome (List (List Share) × ℕ)) (threshold : ℕ) (nodes : List (List Share))
        (chosen : List Share)
        → threshold ≤ length nodes
        → shares_at index (take threshold nodes) ≡ some chosen
        → decrypt cs client renewal threshold index nodes ct
          ≡ client.combine_part_decryption_results ct
              (map (λ share. cs.part_decrypt share ct) chosen)
    unfolding decrypt clients_for
    decrypt-combines renewal threshold nodes chosen many e =
        let enough : ltb (length nodes) threshold ≡ false = ground arith in
        let rest : List (List Share) → Outcome PlainText = λ asked.
          collect cs client index ct asked
          >>= (λ parts. client.combine_part_decryption_results ct parts) in
        ap
          (λ b. (if b then renewal else returned (nodes, index)) >>= (λ s.
            first_clients cs client threshold s.0 >>= (λ asked.
              collect cs client s.1 ct asked
              >>= (λ parts. client.combine_part_decryption_results ct parts))))
          enough
        ∙ ap (λ b. (if b then undefined else returned (take threshold nodes)) >>= rest) enough
        ∙ ap (λ m. m >>= (λ parts. client.combine_part_decryption_results ct parts))
            (collected (take threshold nodes) chosen e)
