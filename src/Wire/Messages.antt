-- ===== src/Wire/Messages.antt =====
-- The message classes of setup_node_request_handler.hpp, cofhe_node_request_handler.hpp and
-- network_details_request_handler.hpp. `Headed` has what they share; here are their enumerations, and
-- the constructors in which they differ: a response made of a status and data says OK.
use co_fhe.Base.{Bytes}
use co_fhe.Wire.Enums.{Status, ok, status}
use co_fhe.Wire.RequestTypes.{SetupType, CofheType, DetailsType, details_type}
use co_fhe.Wire.Outcome.{Outcome}
use co_fhe.Wire.Fields.{after_newline}
use co_fhe.Wire.Headed.{Header, Headed, make, with_header}

abbrev pub SetupNodeResponse : Type 0
SetupNodeResponse = Headed Status

abbrev pub SetupNodeRequest : Type 0
SetupNodeRequest = Headed SetupType

abbrev pub CofheNodeResponse : Type 0
CofheNodeResponse = Headed Status

abbrev pub CofheNodeRequest : Type 0
CofheNodeRequest = Headed CofheType

abbrev pub NetworkDetailsResponse : Type 0
NetworkDetailsResponse = Headed Status

abbrev pub NetworkDetailsRequest : Type 0
NetworkDetailsRequest = Headed DetailsType

abbrev pub setup_node_response : Status → Bytes → SetupNodeResponse
setup_node_response given content = make status ok content

abbrev pub cofhe_node_response : Status → Bytes → CofheNodeResponse
cofhe_node_response given content = make status ok content

abbrev pub network_details_response : Status → Bytes → NetworkDetailsResponse
network_details_response given content = make status ok content

-- `from_string` from a header and the text behind it, of which these two classes drop the first line
abbrev pub network_details_request_behind :
    Header DetailsType → Bytes → Outcome NetworkDetailsRequest
network_details_request_behind header str = with_header details_type header (after_newline str)

abbrev pub network_details_response_behind : Header Status → Bytes → Outcome NetworkDetailsResponse
network_details_response_behind header str = with_header status header (after_newline str)
