-- ===== src/Lib.antt =====
-- Solusek, a C++ HTTP library: a model of its server and its client, and the theorems about them.
--
-- A server (src/server/CServer.cpp) accepts connections, and runs each in a thread of its own as a
-- node (src/server/CNode.cpp). The node reads a request from its socket
-- (src/handlers/CNetHandler_linux.cpp), looks up an endpoint or else a static file, and writes the
-- response. Callbacks of endpoints may use sessions (src/server/CSession.cpp) and a pool of
-- database connections (src/server/CDatabase.cpp, CTransaction.cpp). A client
-- (src/client/CClient.cpp) sends one request over a socket of the same kind and reads the response;
-- its requests are what a node reads, and a node's responses what it reads.
--
-- Files:
--   Base      names, lists, bytes, `npos` and 32-bit conversions that the others share
--   Text      src/util/string_util.cpp: trim, strtolower, strtoupper, replaceAll
--   Decimal   std::to_string, printf's %u and %i, and atoi
--   Files     src/util/file_util.cpp over a file system that is a parameter (`Disk`); a log has the
--             names opened and the number of open streams
--   Socket    readBuffer and writeBuffer of a plain socket that throws; Socket.Access has the address
--             lists and the decision of accept, Socket.Plain the constructor, bind, connect, accept and
--             close, Socket.Plain.Descriptors the descriptors of all connections as a step relation,
--             Socket.Tls the settings of a TLS socket, Socket.Tls.Link its objects of OpenSSL and the
--             certificate of its peer
--   Model     the data classes of src/include/solusek and src/server/CVarVal.h
--   Session   CSession, its objects by address
--   Server    the registries of CServer; Server.Static is getStaticEndpoint and getStaticIndex,
--             Server.Threads the accept loop and its threads as a step relation, Server.Start the
--             settings and what run does before the loop, Server.Turn a turn of the loop from the main
--             socket to that of a node, Server.Destroy the loops of the destructor,
--             Server.Sessions the sessions started one after another or at once
--   Node      CNode: Header is readHeader and getHeader, Body readBody, Cookies the cookie loop of
--             run, Response writeResponse, Run the whole of run
--   Database  CTransaction (Transaction), CDatabase with CDatabaseInstance (Pool), CDatabaseHandle
--             (Handle, with Handle.Ownership for who deletes one); Lock has the flag that the
--             transactions and the pool wait for, as a step relation;
--             Drivers has the two drivers, over libraries that are parameters
--   Config    CConfig without YAML: the indented text, its tree and the lookup along a path; Steps has
--             the steps of config_parse without fuel, Printed the text that a tree is printed as
--   Exchange  a client and a server together
--   Sample    src/sample-server/main.cpp: its endpoints and what main registers
--   Collections  CFlagCollection and CTrustStore
--   StringMap  std::map<std::string, std::string>
--   Client    CClient: the setters; Url takes the endpoint apart, Request builds and writes the request,
--             Reply reads the response, Run is runRequest as a whole
--   Tests     the theorems at concrete inputs
--
-- Bytes are numbers in lists. An `unsigned int` is kept below 2^32 by an explicit `%`, also where the
-- source cuts `npos` down to 32 bits. A thrown exception is a value (`none`, `threw`, `closed`,
-- `malformed`). Loops run on fuel. Each round of readHeader and readBody, and of the loops of
-- runRequest, reads a byte at least, so one unit more than bytes is enough; the search for a static
-- file calls itself once for a path that ends in a slash, so two units are enough; the loops over
-- cookies, replacements and files take a byte in each round and get their fuel from the length of
-- the text; and a configuration needs two units for each line and one more. Running out of fuel has
-- a value of its own, which is no result of the code.
--
-- Parameters, since they lie outside the repository: the callbacks, the clock's text, the file system
-- (`Outside`, `Disk`), what recv and send do (`Input`, and `Output`, where a send may take a part of
-- what it is given), the database (`Driver`) and its
-- client libraries (`Library` of each driver), and what OpenSSL answers (`Peer`, `Library` of
-- Socket.Tls). A byte in front of an empty string, which `s[s.size() - 1]` reads, is the argument
-- `stray`, as is a variable that was never set.
--
-- Not modelled: configuration in YAML, the handshake of TLS (calls of OpenSSL), and logging. Threads
-- are created by a step of Server.Threads, where ThreadCount is read and written in two steps; an
-- operation on the vector of nodes is one step.
pub mod Base
pub mod Text
pub mod Decimal
pub mod StringMap
pub mod Socket
pub mod Client
pub mod Files
pub mod Model
pub mod Session
pub mod Server
pub mod Collections
pub mod Config
pub mod Database
pub mod Node
pub mod Sample
pub mod Exchange
pub mod Tests
