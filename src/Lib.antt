-- ===== src/Lib.antt =====
-- Verification of CoFHE, a library for computing on ciphertexts whose key is shared between nodes.
--
-- The parts of the program and how they interact. A setup node makes a key and deals shares of it
-- (include/x86_64/cpu_cryptosystem_distributed.inl) to the nodes that join
-- (include/node/join_as_node.hpp). CoFHE nodes decrypt partially with their shares
-- (include/node/cofhe_node_request_handler.hpp, include/node/partial_decryption_request_handler.hpp), and
-- what a threshold of them answers is combined. All nodes speak a text protocol
-- (include/node/request_response.hpp and the message classes of the handlers) over the sessions of
-- include/node/server.hpp, which give each request to the handler of include/node/root_request_handler.hpp.
-- A compute node adds, multiplies and decrypts what it is sent (include/node/compute_request_handler.hpp),
-- single values or tensors (include/common/tensor.hpp), whose elements
-- include/x86_64/cpu_cryptosystem_tensor_ops.inl works on.
--
-- Which file models which part:
-- - Base: names of the libraries, lists, the `for` loop, integers.
-- - Bicycl: the big integers and class groups of the BICYCL library, as records with the laws that the code
--   relies on; Bicycl/Integers fills them.
-- - Sharing/Matrix: compute_M_OR, compute_M_AND and generate_distribution_matrix_M. Sharing/Choose: nCr of
--   include/common/algorithms.hpp. Sharing/Combination: get_next_lexio_combination. Sharing/Isp: generate_isp,
--   compute_rho, compute_shares, get_shares. Sharing/Decrypt: compute_lambda, compute_d, partDecrypt and
--   finalDecrypt. Sharing/Keygen: keygen of threshold and number of parties. Sharing/Span has the property of
--   the matrix on which decryption rests.
-- - Wire/Decimal and Wire/Stream: std::to_string, std::getline and the operator >> on numbers. Wire/Enums and
--   Wire/RequestTypes: the enumeration classes. Wire/Headed and Wire/Messages: the messages with a header of
--   a type and a size. Wire/Lined: the messages that are read in one go. Wire/Envelope: Network::Request and
--   Network::Response. Wire/Outcome: what a call that may throw comes to. An exception that leaves a
--   function marked noexcept ends the program, as in the accessors of tensors.
-- - Node/Details: the structures of include/node/network_details.hpp. Node/JoinText and Node/Join: the texts
--   and the handler of include/node/join_as_node.hpp. Node/CofheNode, Node/Root and Node/Session: the
--   handlers of a CoFHE node, RequestHandler and the session of the server. Node/Client: the read of a
--   response in include/node/client.hpp.
-- - Smpc/Decrypt: SMPCClient::decrypt of include/smpc/smpc_client.hpp, where the renewal of the clients, when
--   there are too few for the threshold, is given by what it comes to. The connection to a node gives a request to the node's handler and its answer back. Smpc/Multiply:
--   multiply_ciphertexts of include/smpc/ciphertext_multiplications.hpp. Smpc/Triplets:
--   get_beavers_triplets, where the setup node behind the connection is an argument.
-- - Smpc/Tensors: multiply_ciphertext_tensors and handle_vector_ciphertext_mul. The loops over rows, columns
--   and inner indices are loops over the positions that they write, each of which is written once.
-- - Smpc/Renewal: reinit_partial_decryption_clients of include/smpc/smpc_client.hpp, of which the nodes are an
--   argument that the setup node tells, and combinationSequenceNumber.
-- - Compute/Types and Compute/Request: the enumeration classes and the texts of ComputeRequest in
--   include/node/compute_request_handler.hpp; its operands are read from a stream whose position the code
--   asks for and moves. Compute/Operations and Compute/Handler: ComputeRequestHandler.
-- - Tensor/Stride: make_forward_stride and make_backward_stride of include/common/tensor.hpp.
--   Tensor/Accessor and Tensor/Rows: Accessor, and the loop over its rows by AccessorIterator. Tensor/Class:
--   Storage and Tensor. Tensor/Dense has the laws of tensors of one section, which are all that the program
--   makes. Tensor/Loops and Tensor/Ciphers: include/x86_64/cpu_cryptosystem_tensor_ops.inl. Tensor/Nupow:
--   qfi_nupow of include/x86_64/qfi.inl.
-- - Pointers/Block and Pointers/Shared: the control block and SharedPtr of include/common/pointers.hpp, on a
--   heap in which the blocks have numbers. Pointers/Variables: runs of a program on its variables of that type.
--
-- Numbers. An int is its pattern of 32 bits, a size_t of 64. The matrices have int entries 0 and 1. nCr
-- computes in double; its model is exact below 2^53, and for parameters and results that an int holds, and
-- gives nothing above, which is the hypothesis NcrFits; KeygenFits adds that an int counts the rows of the
-- distribution matrix. Random numbers are an argument, and so is how far the reads of a
-- connection run ahead.
--
-- Loops are `for_up`, a recursion on the number of rounds, and recursion on lists; a session makes a given
-- number of passes. No model needs fuel that could run out, except `digits` in Wire/Decimal, whose fuel is the
-- number that it prints.
--
-- Not modelled: BICYCL, Boost.Asio and the JSON library, which are not part of the repository; the threads
-- of the server, whose handlers the mutex of the setup node makes steps, and those of the loops over
-- tensors, which write different objects; the sharing of a storage by tensors, which are values here; the
-- making of nodes; weak and unique pointers; the mutex of a control block; deletion of ciphertexts; the
-- checks that the macro DEBUG turns on, and the operations that ADD_RANDOMNESS_IN_HOMOMORPHIC_OPERATIONS
-- changes, which is not defined.
mod Base
pub mod Bicycl
pub mod Compute
pub mod Node
pub mod Pointers
pub mod Sharing
pub mod Smpc
pub mod Tensor
pub mod Wire
