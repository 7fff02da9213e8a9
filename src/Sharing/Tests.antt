-- ===== src/Sharing/Tests.antt =====
-- Runs of the sharing scheme, and its theorems at concrete inputs.
use co_fhe.Base.{ℕ, zero, suc, ◌*◌, ◌≡◌, refl, none, some, List, [], ◌∷◌, map, arith}
use co_fhe.Base.Int.{ℤ, pos, ◌+ℤ◌, ◌-ℤ◌, ◌*ℤ◌}
use co_fhe.Bicycl.Integers.{integers, additive}
use co_fhe.Sharing.Choose.{choose, ncr}
use co_fhe.Sharing.Choose.Exact.{RoundsFit, NcrFits, ncr-choose}
use co_fhe.Sharing.Span.{SpansAll, generate-SpansAll}
use co_fhe.Sharing.Matrix.{compute_m_or, compute_m_and, generate_distribution_matrix}
use co_fhe.Sharing.Isp.{isp_of}
use co_fhe.Sharing.Isp.Reconstruct.{isp_of-IsSplit}
use co_fhe.Sharing.Decrypt.{CipherText, part_decrypt, final_decrypt}
use co_fhe.Sharing.Decrypt.Combine.{partial, final_decrypt-combination}
use co_fhe.Sharing.Keygen.{keygen}
use co_fhe.Sharing.Keygen.Threshold.{KeygenFits, first_shares, keygen-decrypt}

-- what `random_mpz` returns in these runs
abbrev random : ℕ → ℤ
random i = pos (10 * i)

-- The message 4 under the secret key 7, with 5 for the randomness of the encryption.
abbrev four : CipherText ℤ
four = record { c1 = pos 5; c2 = pos 39 }

keygen_run :
    keygen integers (pos 7) random 2 3
    ≡ some ((pos 17 ∷ pos 27 ∷ []) ∷ (pos 10 ∷ pos 37 ∷ []) ∷ (pos 20 ∷ pos 30 ∷ []) ∷ [])
unfolding keygen compute_m_or compute_m_and ◌+ℤ◌ ◌*ℤ◌
keygen_run = refl

decrypt_run :
    final_decrypt integers additive four
      (map (part_decrypt integers additive four) (pos 17 ∷ pos 10 ∷ []))
    ≡ some (pos 4)
unfolding final_decrypt part_decrypt ◌+ℤ◌ ◌*ℤ◌ ◌-ℤ◌
decrypt_run = refl

RoundsFit-3_2 : RoundsFit 3 2
unfolding choose
RoundsFit-3_2 zero h = omega arith
RoundsFit-3_2 (suc zero) h = omega arith
RoundsFit-3_2 (suc (suc i)) h = absurd (omega arith)

fits_3_2 : NcrFits 3 2
unfolding choose
fits_3_2 = (omega arith, omega arith, RoundsFit-3_2, omega arith)

KeygenFits-3_2 : KeygenFits 3 2
unfolding choose
KeygenFits-3_2 = (fits_3_2, omega arith)

ncr_small : (ncr 5 2 ≡ some 10) × (ncr 2 5 ≡ some 0)
unfolding ncr
ncr_small = (refl, refl)

-- Here the products become too large before the round that multiplies by 0.
ncr_large : ncr 0 100 ≡ none
unfolding ncr
ncr_large = refl

ncr-choose_example : ncr 3 2 ≡ some (choose 3 2)
ncr-choose_example = ncr-choose 3 2 fits_3_2

generate-SpansAll_example : SpansAll integers 2 3 (generate_distribution_matrix 3 2 3)
generate-SpansAll_example = generate-SpansAll integers 3 1 2

final_decrypt-combination_example :
    final_decrypt integers additive four
      (partial integers additive four 1 3 (isp_of 3 2 3) random 1)
    ≡ some (pos 39 -ℤ part_decrypt integers additive four (random 0))
final_decrypt-combination_example =
    final_decrypt-combination integers additive four 1 3 (isp_of 3 2 3) random 1
      (isp_of-IsSplit integers 3 1 2) (omega arith)

keygen-decrypt_example :
    (keys : List (List ℤ)) × (keygen integers (pos 7) random 2 3 ≡ some keys)
    × (final_decrypt integers additive four
          (map (part_decrypt integers additive four) (first_shares integers keys 2))
        ≡ some (pos 39 -ℤ part_decrypt integers additive four (pos 7)))
keygen-decrypt_example =
    keygen-decrypt integers additive (pos 7) random 1 3 four (omega arith) KeygenFits-3_2
