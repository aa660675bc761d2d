-- ===== src/Lib.antt =====
-- A model of authenticator-rs, a library that talks to FIDO security keys over USB, and what is
-- proved of it. Paths are those of the repository.
--
-- The parts, and how they interact:
-- - Common: Boolean tests, lists measured by native numbers, bytes and their bit operations.
-- - Hid (src/consts.rs, src/u2ftypes.rs, src/transport/hid.rs): the CTAPHID transport. Hid.Cmd has
--   the commands and their bytes, Hid.Device the device and the monad of its fallible methods,
--   Hid.Frame the reads and writes of U2FHIDInit and U2FHIDCont (init_read, init_write, cont_read,
--   cont_write), Hid.Message u2f_write and u2f_read, and Hid.Exchange sendrecv and pre_init with
--   U2FHIDInitResp::read. Hid.Packets describes the packets of a message independently of the
--   code; Hid.Frames, Writes, Sequence, Reads, RoundTrip, Ends, WritesEnd, ReadsEnd, Answers and Channel have
--   the proofs. The node of the device is part of the state: the list of what its reads will
--   return, reports or errors, and a function that answers each write. A method returns a value or
--   an error, panics (an index out of range, an underflow, an overflow in a build that checks),
--   or waits for a report that never comes. As that list is finite, a device that sends reports of
--   other channels, or keepalive messages, without end is none of the model's: the loops of the
--   source that wait for a channel id and for another command would not end on it.
-- - Selector (src/transport/device_selector.rs): the event loop of DeviceSelector::run, a step for
--   each thing that wakes it; a thread's channel is a number, and with each step comes which
--   channels still have a receiver. The hash set and the hash map are lists, so that the
--   commands of one step are sent in one order among those of the source's hash map.
-- - Report (src/transport/hidproto.rs, src/transport/linux/hidraw.rs): the iterator over a report
--   descriptor, has_fido_usage and the report sizes that a Hid device is opened with. The
--   iterator's state is the rest of the descriptor.
-- - Der (src/crypto/der.rs): the DER encoder and the reader of ECDSA signatures. Der.Lengths has a
--   reader after X.690, which is not the program's, to read back what is encoded.
-- - Preflight (src/ctap2/preflight.rs): which credentials of a list a token knows, for CTAP1 and
--   for CTAP2. The token is a record of functions, as the source's trait FidoDevice is; the
--   trait's implementation over Hid is not modelled. The derivation of a PIN parameter is a
--   function too.
-- - Info (src/ctap2/commands/get_info.rs): what a token says of itself, and the questions the code
--   asks of it. Errors (src/errors.rs): the errors of the library and of a PIN.
-- - Puap (src/ctap2/mod.rs, src/ctap2/commands/mod.rs): the verification of the user before a
--   command: get_pin_uv_auth_param chooses the method, determine_puap_if_needed repeats it and asks
--   for a PIN. The token and the command are records of functions, as the traits FidoDevice and
--   PinUvAuthCommand are. The session has the token, the status updates sent, the PINs and
--   selections that the receiver of the updates will send back, and the calls of the callback.
--   Puap.Loop has the induction over the rounds; Param, Prompts, Method, Frame and Honest
--   have what is proved.
-- - Command (src/ctap2/commands/make_credentials.rs, get_assertion.rs): MakeCredentials and
--   GetAssertion as the trait PinUvAuthCommand sees them, and the inputs of the hmac-secret
--   extension. Their CBOR forms are not modelled.
-- - Dispatch (src/ctap2/mod.rs): what register and sign share, the macro handle_errors! among it.
--   Register and Sign have the two functions, with the filtering of Preflight and the verification
--   of Puap inside; Register.Round, Register.Reports, Register.Refusals, Sign.Choice, Sign.Round
--   and Sign.Reports their proofs.
-- - Apdu (src/u2ftypes.rs, src/transport/errors.rs, src/ctap2/preflight.rs): the frames of CTAP1
--   requests, the status words of the answers, and the request that checks a key handle, which is
--   the send_ctap1 of Preflight. The hash of the relying party is an argument.
-- - Ctap1 (src/transport/hid.rs): send_ctap1_cancellable, the loop that sends a CTAP1 request with
--   the sendrecv of Hid until its handler is content. Its fuel is a number of rounds, as only the
--   caller's closure and the reports of the device bound them.
-- - Status (src/ctap2/commands/mod.rs): the status codes of CTAP2 answers and their bytes.
-- - Cose (src/crypto/mod.rs): the COSE algorithms and their numbers.
-- - ClientPin (src/ctap2/commands/client_pin.rs, src/crypto/mod.rs): the requests that set and change
--   a PIN, before they become CBOR, and the choice of a PIN protocol. PinChange (src/ctap2/mod.rs):
--   set_or_change_pin_helper, whose callback and updates are those of the session of Puap. Reset
--   (src/ctap2/mod.rs): reset_helper.
-- - PinProtocol (src/crypto/mod.rs): how the two PIN protocols encrypt, authenticate and derive keys,
--   over the functions of a cryptographic backend: the wrappers of src/crypto/nss.rs, openssl.rs and
--   dummy.rs, of which the build takes one, are thin, and are an argument as the libraries they
--   call are.
-- - Transport (src/transport/mod.rs): how a token is started (init) and made to blink
--   (block_and_blink), over the requests that are sent.
-- - Callback (src/statecallback.rs): StateCallback and what its clones share. The other modules see
--   a callback as the list of its calls.
-- The witnesses and tests are in the modules Tests.
--
-- Numbers are natural numbers; a byte is one below 256, which the theorems ask for where it
-- matters. `as u8` and the 32-bit shift of read_uint_le keep their wrap-around.
--
-- Loops run on fuel where they are not structural: u2f_write and u2f_read on the length of the
-- message, each packet taking a byte at least; sendrecv on the number of reports to come, each
-- message taking one at least; the descriptor iterator and chunks on the length of the list. The
-- outcome `stuck` of the transport stands for a loop without fuel; these three never reach it. The
-- loops of determine_puap_if_needed, register and sign go on as long as the token, the user and the
-- closure `alive` let them: their fuel is a number of rounds, and a bound on them is given only where the
-- token and the user are those of Puap.Honest. The loop of set_or_change_pin_helper ends
-- when no PIN is left to try: one more than the PINs to come and the current one is enough.
--
-- Assumed of what is outside: Vec::with_capacity gives the capacity that is asked for (u2f_read
-- compares with it). Not modelled: logging, threads, the operating systems' devices, CBOR and JSON,
-- the primitives of cryptography, the other requests of src/ctap2/mod.rs (the management of
-- credentials, biometrics and configuration), and the state machine and the service above.
pub mod Common
pub mod Hid
pub mod Selector
pub mod Report
pub mod Der
pub mod Preflight
pub mod Status
pub mod Apdu
pub mod Ctap1
pub mod Cose
pub mod Info
pub mod Errors
pub mod Puap
pub mod Command
pub mod Dispatch
pub mod Register
pub mod Sign
pub mod ClientPin
pub mod PinChange
pub mod Callback
pub mod Reset
pub mod PinProtocol
pub mod Transport
