-- ===== src/Wire/Enums.antt =====
-- The enumeration classes of include/node. Each has a constructor for the `int`s that name no value of
-- it, which `static_cast` makes of a number that was read.
use co_fhe.Base.{ℕ, zero, suc, ◌≡◌, refl, arith}
use co_fhe.Wire.Stream.{int, Fits}

-- An enumeration class: the number of each value, and the value that `static_cast` makes of a number.
-- `Named` holds of the values that have a name.
pub record Enum (E : Type 0) : Type 1 where
  pub to_int : E → ℕ
  pub of_int : ℕ → E
  pub Named : E → Type 0
  pub of_int-to_int : (e : E) → Named e → of_int (to_int e) ≡ e
  pub to_int-Fits : (e : E) → Named e → Fits int (to_int e)

-- Status of every response class
pub data Status : Type 0 where
  ok error : Status
  other_status : ℕ → Status

abbrev pub status_to_int : Status → ℕ
status_to_int ok = 0
status_to_int error = 1
status_to_int (other_status n) = n

abbrev pub status_of_int : ℕ → Status
status_of_int zero = ok
status_of_int (suc zero) = error
status_of_int (suc (suc n)) = other_status (suc (suc n))

abbrev pub StatusNamed : Status → Type 0
StatusNamed ok = Unit {0}
StatusNamed error = Unit {0}
StatusNamed (other_status n) = ⊥

pub status_of_int-to_int : (e : Status) → StatusNamed e → status_of_int (status_to_int e) ≡ e
status_of_int-to_int ok h = refl
status_of_int-to_int error h = refl
status_of_int-to_int (other_status n) h = absurd h

pub status_to_int-Fits : (e : Status) → StatusNamed e → Fits int (status_to_int e)
status_to_int-Fits ok h = omega arith
status_to_int-Fits error h = omega arith
status_to_int-Fits (other_status n) h = absurd h

abbrev pub status : Enum Status
status = record {
  to_int = status_to_int;
  of_int = status_of_int;
  Named = StatusNamed;
  of_int-to_int = status_of_int-to_int;
  to_int-Fits = status_to_int-Fits;
}

-- PartialDecryptionRequest::DataType
pub data DataType : Type 0 where
  single tensor tensor_id : DataType
  other_data_type : ℕ → DataType

abbrev pub data_type_to_int : DataType → ℕ
data_type_to_int single = 0
data_type_to_int tensor = 1
data_type_to_int tensor_id = 2
data_type_to_int (other_data_type n) = n

abbrev pub data_type_of_int : ℕ → DataType
data_type_of_int zero = single
data_type_of_int (suc zero) = tensor
data_type_of_int (suc (suc zero)) = tensor_id
data_type_of_int (suc (suc (suc n))) = other_data_type (suc (suc (suc n)))

abbrev pub DataTypeNamed : DataType → Type 0
DataTypeNamed single = Unit {0}
DataTypeNamed tensor = Unit {0}
DataTypeNamed tensor_id = Unit {0}
DataTypeNamed (other_data_type n) = ⊥

pub data_type_of_int-to_int :
    (e : DataType) → DataTypeNamed e → data_type_of_int (data_type_to_int e) ≡ e
data_type_of_int-to_int single h = refl
data_type_of_int-to_int tensor h = refl
data_type_of_int-to_int tensor_id h = refl
data_type_of_int-to_int (other_data_type n) h = absurd h

pub data_type_to_int-Fits : (e : DataType) → DataTypeNamed e → Fits int (data_type_to_int e)
data_type_to_int-Fits single h = omega arith
data_type_to_int-Fits tensor h = omega arith
data_type_to_int-Fits tensor_id h = omega arith
data_type_to_int-Fits (other_data_type n) h = absurd h

abbrev pub data_type : Enum DataType
data_type = record {
  to_int = data_type_to_int;
  of_int = data_type_of_int;
  Named = DataTypeNamed;
  of_int-to_int = data_type_of_int-to_int;
  to_int-Fits = data_type_to_int-Fits;
}

-- Network::ServiceType
pub data ServiceType : Type 0 where
  compute_request cofhe_request setup_request : ServiceType
  other_service_type : ℕ → ServiceType

abbrev pub service_type_to_int : ServiceType → ℕ
service_type_to_int compute_request = 0
service_type_to_int cofhe_request = 1
service_type_to_int setup_request = 2
service_type_to_int (other_service_type n) = n

abbrev pub service_type_of_int : ℕ → ServiceType
service_type_of_int zero = compute_request
service_type_of_int (suc zero) = cofhe_request
service_type_of_int (suc (suc zero)) = setup_request
service_type_of_int (suc (suc (suc n))) = other_service_type (suc (suc (suc n)))

abbrev pub ServiceTypeNamed : ServiceType → Type 0
ServiceTypeNamed compute_request = Unit {0}
ServiceTypeNamed cofhe_request = Unit {0}
ServiceTypeNamed setup_request = Unit {0}
ServiceTypeNamed (other_service_type n) = ⊥

pub service_type_of_int-to_int :
    (e : ServiceType) → ServiceTypeNamed e → service_type_of_int (service_type_to_int e) ≡ e
service_type_of_int-to_int compute_request h = refl
service_type_of_int-to_int cofhe_request h = refl
service_type_of_int-to_int setup_request h = refl
service_type_of_int-to_int (other_service_type n) h = absurd h

pub service_type_to_int-Fits :
    (e : ServiceType) → ServiceTypeNamed e → Fits int (service_type_to_int e)
service_type_to_int-Fits compute_request h = omega arith
service_type_to_int-Fits cofhe_request h = omega arith
service_type_to_int-Fits setup_request h = omega arith
service_type_to_int-Fits (other_service_type n) h = absurd h

abbrev pub service_type : Enum ServiceType
service_type = record {
  to_int = service_type_to_int;
  of_int = service_type_of_int;
  Named = ServiceTypeNamed;
  of_int-to_int = service_type_of_int-to_int;
  to_int-Fits = service_type_to_int-Fits;
}

-- Network::ProtocolVersion
pub data ProtocolVersion : Type 0 where
  v1 : ProtocolVersion
  other_protocol_version : ℕ → ProtocolVersion

abbrev pub protocol_version_to_int : ProtocolVersion → ℕ
protocol_version_to_int v1 = 0
protocol_version_to_int (other_protocol_version n) = n

abbrev pub protocol_version_of_int : ℕ → ProtocolVersion
protocol_version_of_int zero = v1
protocol_version_of_int (suc n) = other_protocol_version (suc n)

abbrev pub ProtocolVersionNamed : ProtocolVersion → Type 0
ProtocolVersionNamed v1 = Unit {0}
ProtocolVersionNamed (other_protocol_version n) = ⊥

pub protocol_version_of_int-to_int :
    (e : ProtocolVersion)
    → ProtocolVersionNamed e
    → protocol_version_of_int (protocol_version_to_int e) ≡ e
protocol_version_of_int-to_int v1 h = refl
protocol_version_of_int-to_int (other_protocol_version n) h = absurd h

pub protocol_version_to_int-Fits :
    (e : ProtocolVersion) → ProtocolVersionNamed e → Fits int (protocol_version_to_int e)
protocol_version_to_int-Fits v1 h = omega arith
protocol_version_to_int-Fits (other_protocol_version n) h = absurd h

abbrev pub protocol_version : Enum ProtocolVersion
protocol_version = record {
  to_int = protocol_version_to_int;
  of_int = protocol_version_of_int;
  Named = ProtocolVersionNamed;
  of_int-to_int = protocol_version_of_int-to_int;
  to_int-Fits = protocol_version_to_int-Fits;
}
