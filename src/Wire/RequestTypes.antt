-- ===== src/Wire/RequestTypes.antt =====
-- The request types of include/node, enumeration classes like those of Enums.
use co_fhe.Base.{ℕ, zero, suc, ◌≡◌, refl, arith}
use co_fhe.Wire.Stream.{int, Fits}
use co_fhe.Wire.Enums.{Enum}

-- SetupNodeRequest::RequestType
pub data SetupType : Type 0 where
  beavers_triplet_request join_as_node_request network_details_request : SetupType
  other_setup_type : ℕ → SetupType

abbrev pub setup_type_to_int : SetupType → ℕ
setup_type_to_int beavers_triplet_request = 0
setup_type_to_int join_as_node_request = 1
setup_type_to_int network_details_request = 2
setup_type_to_int (other_setup_type n) = n

abbrev pub setup_type_of_int : ℕ → SetupType
setup_type_of_int zero = beavers_triplet_request
setup_type_of_int (suc zero) = join_as_node_request
setup_type_of_int (suc (suc zero)) = network_details_request
setup_type_of_int (suc (suc (suc n))) = other_setup_type (suc (suc (suc n)))

abbrev pub SetupTypeNamed : SetupType → Type 0
SetupTypeNamed beavers_triplet_request = Unit {0}
SetupTypeNamed join_as_node_request = Unit {0}
SetupTypeNamed network_details_request = Unit {0}
SetupTypeNamed (other_setup_type n) = ⊥

pub setup_type_of_int-to_int :
    (e : SetupType) → SetupTypeNamed e → setup_type_of_int (setup_type_to_int e) ≡ e
setup_type_of_int-to_int beavers_triplet_request h = refl
setup_type_of_int-to_int join_as_node_request h = refl
setup_type_of_int-to_int network_details_request h = refl
setup_type_of_int-to_int (other_setup_type n) h = absurd h

pub setup_type_to_int-Fits : (e : SetupType) → SetupTypeNamed e → Fits int (setup_type_to_int e)
setup_type_to_int-Fits beavers_triplet_request h = omega arith
setup_type_to_int-Fits join_as_node_request h = omega arith
setup_type_to_int-Fits network_details_request h = omega arith
setup_type_to_int-Fits (other_setup_type n) h = absurd h

abbrev pub setup_type : Enum SetupType
setup_type = record {
  to_int = setup_type_to_int;
  of_int = setup_type_of_int;
  Named = SetupTypeNamed;
  of_int-to_int = setup_type_of_int-to_int;
  to_int-Fits = setup_type_to_int-Fits;
}

-- CoFHENodeRequest::RequestType
pub data CofheType : Type 0 where
  partial_decryption smpc : CofheType
  other_cofhe_type : ℕ → CofheType

abbrev pub cofhe_type_to_int : CofheType → ℕ
cofhe_type_to_int partial_decryption = 0
cofhe_type_to_int smpc = 1
cofhe_type_to_int (other_cofhe_type n) = n

abbrev pub cofhe_type_of_int : ℕ → CofheType
cofhe_type_of_int zero = partial_decryption
cofhe_type_of_int (suc zero) = smpc
cofhe_type_of_int (suc (suc n)) = other_cofhe_type (suc (suc n))

abbrev pub CofheTypeNamed : CofheType → Type 0
CofheTypeNamed partial_decryption = Unit {0}
CofheTypeNamed smpc = Unit {0}
CofheTypeNamed (other_cofhe_type n) = ⊥

pub cofhe_type_of_int-to_int :
    (e : CofheType) → CofheTypeNamed e → cofhe_type_of_int (cofhe_type_to_int e) ≡ e
cofhe_type_of_int-to_int partial_decryption h = refl
cofhe_type_of_int-to_int smpc h = refl
cofhe_type_of_int-to_int (other_cofhe_type n) h = absurd h

pub cofhe_type_to_int-Fits : (e : CofheType) → CofheTypeNamed e → Fits int (cofhe_type_to_int e)
cofhe_type_to_int-Fits partial_decryption h = omega arith
cofhe_type_to_int-Fits smpc h = omega arith
cofhe_type_to_int-Fits (other_cofhe_type n) h = absurd h

abbrev pub cofhe_type : Enum CofheType
cofhe_type = record {
  to_int = cofhe_type_to_int;
  of_int = cofhe_type_of_int;
  Named = CofheTypeNamed;
  of_int-to_int = cofhe_type_of_int-to_int;
  to_int-Fits = cofhe_type_to_int-Fits;
}

-- NetworkDetailsRequest::RequestType
pub data DetailsType : Type 0 where
  get set : DetailsType
  other_details_type : ℕ → DetailsType

abbrev pub details_type_to_int : DetailsType → ℕ
details_type_to_int get = 0
details_type_to_int set = 1
details_type_to_int (other_details_type n) = n

abbrev pub details_type_of_int : ℕ → DetailsType
details_type_of_int zero = get
details_type_of_int (suc zero) = set
details_type_of_int (suc (suc n)) = other_details_type (suc (suc n))

abbrev pub DetailsTypeNamed : DetailsType → Type 0
DetailsTypeNamed get = Unit {0}
DetailsTypeNamed set = Unit {0}
DetailsTypeNamed (other_details_type n) = ⊥

pub details_type_of_int-to_int :
    (e : DetailsType) → DetailsTypeNamed e → details_type_of_int (details_type_to_int e) ≡ e
details_type_of_int-to_int get h = refl
details_type_of_int-to_int set h = refl
details_type_of_int-to_int (other_details_type n) h = absurd h

pub details_type_to_int-Fits :
    (e : DetailsType) → DetailsTypeNamed e → Fits int (details_type_to_int e)
details_type_to_int-Fits get h = omega arith
details_type_to_int-Fits set h = omega arith
details_type_to_int-Fits (other_details_type n) h = absurd h

abbrev pub details_type : Enum DetailsType
details_type = record {
  to_int = details_type_to_int;
  of_int = details_type_of_int;
  Named = DetailsTypeNamed;
  of_int-to_int = details_type_of_int-to_int;
  to_int-Fits = details_type_to_int-Fits;
}

-- JoinAsNodeRequest::RequestType and JoinAsNodeResponse::ResponseType
pub data JoinType : Type 0 where
  join_as_cofhe_node join_as_compute_node : JoinType
  other_join_type : ℕ → JoinType

abbrev pub join_type_to_int : JoinType → ℕ
join_type_to_int join_as_cofhe_node = 0
join_type_to_int join_as_compute_node = 1
join_type_to_int (other_join_type n) = n

abbrev pub join_type_of_int : ℕ → JoinType
join_type_of_int zero = join_as_cofhe_node
join_type_of_int (suc zero) = join_as_compute_node
join_type_of_int (suc (suc n)) = other_join_type (suc (suc n))

abbrev pub JoinTypeNamed : JoinType → Type 0
JoinTypeNamed join_as_cofhe_node = Unit {0}
JoinTypeNamed join_as_compute_node = Unit {0}
JoinTypeNamed (other_join_type n) = ⊥

pub join_type_of_int-to_int :
    (e : JoinType) → JoinTypeNamed e → join_type_of_int (join_type_to_int e) ≡ e
join_type_of_int-to_int join_as_cofhe_node h = refl
join_type_of_int-to_int join_as_compute_node h = refl
join_type_of_int-to_int (other_join_type n) h = absurd h

pub join_type_to_int-Fits : (e : JoinType) → JoinTypeNamed e → Fits int (join_type_to_int e)
join_type_to_int-Fits join_as_cofhe_node h = omega arith
join_type_to_int-Fits join_as_compute_node h = omega arith
join_type_to_int-Fits (other_join_type n) h = absurd h

abbrev pub join_type : Enum JoinType
join_type = record {
  to_int = join_type_to_int;
  of_int = join_type_of_int;
  Named = JoinTypeNamed;
  of_int-to_int = join_type_of_int-to_int;
  to_int-Fits = join_type_to_int-Fits;
}
