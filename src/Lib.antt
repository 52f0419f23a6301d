-- ===== src/Lib.antt =====
-- Verification of the connection layer of the SSH server that ships with the BOSH agent for
-- Windows: the channels of an SSH session, the responses that wait to be sent, the channel
-- control messages, and the authentication of the user; and of the bans that the server keeps for
-- addresses. The code is ssh2_chn.c and ssh2_msg.c of src/SSHServer/shared/cl-sources, the opening
-- of channels and the requests of ssh2_msgs.c, the reading of packets in ssh2_rd.c, and
-- ssh2_auths.c, with their declarations in ssh.h and cryptlib.h of the same directory, in the
-- configuration that the server is built with (USE_SSH_EXTENDED and KPYM_HACK), and KIPBan.hxx of
-- the directory above.
--
-- A session keeps its channels as items of an attribute list. Two of them may be current, one for
-- reading and one for writing, each named by an ID that the session gives out once. Messages of
-- the peer select, fill and close channels; what the server answers waits as one enqueued response
-- until it is assembled as a packet behind other data or sent by itself.
--
-- Files:
--   Prelude: library names passed on, Boolean tests, lists measured by native numbers, signed
--     integers, predicates on lists.
--   Ssh/Status: return codes and channel types (cryptlib.h, ssh.h).
--   Ssh/Session: SSH_CHANNEL_INFO, the attribute list and the fields of SESSION_INFO and SSH_INFO
--     that the two files use; Ids: the channel IDs of a list.
--   Ssh/Environment: the functions and limits of the cryptographic library that are not in the
--     repository, as a record of operations, with the documented laws used.
--   Ssh/Channel/Find: isChannelActive, findChannelAttr, findChannelByChannelNo, findChannelByID,
--     findChannelByAddr, getCurrentChannelInfo, getCurrentChannelNo, getChannelStatusBy*.
--   Ssh/Channel/Access: accessFunction, the cursor over the attributes of a channel.
--   Ssh/Channel/Attributes: get/setChannelAttribute, get/setChannelAttributeS,
--     get/setChannelExtAttribute.
--   Ssh/Channel/Manage: selectChannel, addChannel, createChannel, deleteChannel; Invariant: the
--     well-formed channel table.
--   Ssh/Channel/Response: enqueueResponse, encodeSendResponse, sendEnqueuedResponse,
--     enqueueChannelData, appendChannelData.
--   Ssh/Message: handleWindowAdjust, sendChannelClose, getWindowSize; Control:
--     processChannelControlMessage; Close: closeChannel; Handlers: what they call in other files;
--     Open: processChannelOpen; Request: processChannelRequest; each fills one of these handlers;
--     Address: readAddressAndPort.
--   Ssh/Reading (ssh2_rd.c): checkPacketValid; Dispatch: it beside the packet types that
--     processChannelControlMessage has branches for; State: the fields of the session that reading
--     uses, the network and the library; Header: checkHandshakePacketStatus, getDisconnectInfo,
--     readPacketHeaderSSH2; Handshake: readHSPacketSSH2.
--   Ssh/Authentication (ssh2_auths.c): State: the fields of the session it uses and the functions of
--     the library; Responses: sendResponseSuccess, sendResponseFailure, checkCredentialsConsistent;
--     Request: the parts of a request; Publickey: doPublickeyAuth, Requests: what it reads of a signed
--     request, Signed: the data under the signature; UserAuth: processUserAuth; Server: processFixedAuth and processServerAuth, Passes:
--     the passes as a step relation; Keeps, Grants, Users: what a request can and cannot change.
--   IpBan (src/SSHServer/shared/KIPBan.hxx): KIPBan, the connections of an address counted in the
--     name of a file; Directory: the file calls of Windows as a record of operations with the
--     documented laws used; Names: the file names as they are read; Events: connections and logins
--     of addresses; Counts: the count that the directory then holds; Tests: a list of file names.
--   Ssh/Tests: a concrete environment and sessions, on which the theorems are applied.
--
-- How the code is read. A function that changes the session returns the new session with its
-- status. A pointer to a list item is a position in the list, and a write through it is a write at
-- that position. `int` and `long` hold 32 bits; a range that a REQUIRES demands is a test that
-- returns the internal error, and so is an ENSURES. Window counts can become negative on the way
-- and are signed there. The copy of the data under a signature to priv_data, which has no bound, ends
-- the request with the status `overrun` where it is longer than priv_data: the program is then
-- undefined, and what the model does behind that status says nothing of it. Assertions of the debug build and the texts of error messages are left
-- out.
--
-- Loops run on fuel, which is the code's own limit: FAILSAFE_ITERATIONS_MAX for the searches,
-- FAILSAFE_ITERATIONS_MED for the search of an unused number, the cursor and the close of all
-- channels, FAILSAFE_ITERATIONS_SMALL for the answers to a close. Where the fuel runs out the
-- model returns what the code returns. The limits are parameters, since the library defines them;
-- theorems that need enough of them say how much.
--
-- The network is a sequence of headers and reads by their number, and for the authentication the
-- client is a sequence of packets, the answers to readHSPacketSSH2. The loop over no-op packets runs
-- on the five rounds of the code, and the three attempts of processFixedAuth are counted down.
--
-- Not modelled: the extra data buffer of a channel, which these files do not read;
-- deleteChannelByAddr, which is compiled out; the contents of the send buffer, of which the packets
-- assembled in it are kept in order; time and blocking; the texts of error messages and the debug
-- build; Sleep between the attempts to delete a file. Of the other files of the directories, of the
-- daemon but the bans of addresses, and of the agent, nothing is modelled:
-- the handshake of ssh2.c and ssh2_svr.c calls the cryptographic library at every step.
pub mod IpBan
pub mod Prelude
pub mod Ssh
