-- ===== src/Lib.antt =====
-- The node server of the video wall: a third party (a control program) sends packets over TCP to
-- open, move and close windows and sounds, and the node turns each into settings of the decoders of
-- its codec, a separate program behind a Unix socket.
--
-- The parts and the files that model them, with paths from the repository's root:
--   ErrorCode      the error codes of src/protocol/ErrorCode.h that the models return.
--   TaskId         src/NodeInfo.cpp and src/NodeInfo.h: which codec task id serves which task of
--                  the third party (getNewCodecTaskID, findNewID, removeCodecTaskID,
--                  setServerTaskID). TaskId/Counts and TaskId/Invariant hold what is true between
--                  two calls, TaskId/Alloc, TaskId/Grant and TaskId/Release the operations' proofs.
--   AvDec          src/protocol/dp_m2s_prot.h: the decoders, as far as the handlers read or write
--                  them, and the loops over them. AvDec/Counts counts the shown windows by priority,
--                  AvDec/Url is the copy of a request's url into a decoder.
--   Crop           src/LogicHandle.cpp: DP_MediaClient_CheckCropDateIsIegitimate.
--   Window         src/LogicHandle.cpp: the handlers of an output node as functions of the node's
--                  tables. Window/Create is createWindow, Window/OpenMove openAndMoveWindow,
--                  Window/Move moveWindow, Window/Close closeWindow, Window/Clear clearAllTask and
--                  batchSetting. Window/Stack and its children, Window/Errors, Window/Refused,
--                  Window/Cleared and Window/Run hold the proofs.
--   Start          src/NodeInfo.cpp: setOutputTaskIDInMap, the tables that the list of decoders gives
--                  when the node starts. Start/Init is initOutAVDec and initAVDec, with what
--                  src/TaskRestore.cpp recovers (getAVDecJson, getThirdInfo). Start/Tables,
--                  Start/Channels, Start/Valid and Start/First hold the proofs.
--   Audio          src/LogicHandle.cpp: openAudio and closeAudio.
--   Dispatch       src/ServerHandle.cpp and src/DataPackageParser.cpp: how the bytes of one read of
--                  a connection become tasks of the thread pool.
--   Codec          src/UnixSockClientData.cpp: a message to the codec over its socket (onlySendMsg and
--                  both doSendCommand). Codec/Ack is what src/NodeInfo.cpp, src/NodeInfo.h and
--                  src/NodeInfo.hpp make of the answer (recvCB, sendToCodecAndRecv,
--                  sendCodecAVEncDecInfo, setAVInfoToCodec). Codec/Tries, Codec/Reading,
--                  Codec/Exchange, Codec/Delivery and Codec/Packet hold the proofs.
--   Queue          src/CircleBoundedQueue.h: the queue between a driver's callback and the threads
--                  that take, as steps of these threads. Queue/Wakeup and Queue/Order hold the proofs.
--   Saving         src/TaskRestore.cpp: what the node saves of decoders, encoders, windows and sounds,
--                  and reads when it starts again. Saving/Json is the library that it calls,
--                  Saving/Info the structures, Saving/Write and Saving/Read the conversions
--                  (avDECENC2JsonValue, jsonValue2AVDec, jsonValue2AVEnc), Saving/Third the files of
--                  windows and sounds (setThirdWindowTaskToJson, setThirdAudioTaskToJson,
--                  removeThirdTask, getThirdInfo). Saving/Fits has the values that the fields hold,
--                  Saving/Parts, Saving/RoundTrip, Saving/Entries, Saving/Windows and
--                  Saving/Restart the proofs, Saving/Tree a library that meets the laws.
--   Reply          src/LogicHandle.cpp: the replies to the third party, as bytes (commonReplyToThird,
--                  replyClearToThird, replyGetInfoToThird, replySetInfoToThird). Reply/Framing
--                  holds the proofs.
--   Report         src/LogicHandle.cpp: getInfo of an output node, Get_OutputVideoChnInfo and
--                  Get_OutputAudioChnInfo. Report/Windows and Report/Sounds hold the proofs.
--   Setting        src/LogicHandle.cpp: setJsonInfo and setAVEncInfoByJson, the setting of encoders by
--                  JSON, with batchGetAVInfoFromCodec of src/NodeInfo.hpp. Setting/Replaced,
--                  Setting/Written and Setting/Emptied hold the proofs.
--   IniFile        src/IniConfigFile.cpp: the files of settings. IniFile/Search shows that the search
--                  ends, IniFile/Scan and IniFile/Fresh hold the proofs of the round trip.
--   Idle           src/ServerHandle.cpp and src/BaseServerHandle.cpp: the list of connections in the
--                  order of their last message, and the timer that ends the idle ones. Idle/Sorted
--                  holds the proofs.
--   NetCheck       src/SetNetwork.cpp: CheckNetConfig, whether an address, a mask and a gateway may be
--                  set. NetCheck/Power and NetCheck/Mask hold the proofs.
--   Base64         src/util/Base64ToUtf8.cpp: WriteBase64 and ReadBase64 on streams, on buffers and on
--                  strings. Base64/RoundTrip and Base64/Strings hold the proofs.
--   Checksum       src/util/CRC16.h: CalcCrcAll. Checksum/Xor has the laws of the exclusive or,
--                  Checksum/Bitwise the division that the table stands for.
--   Utf8           src/util/Public.cpp: is_str_utf8. Utf8/Grammar describes the accepted strings.
--   Prelude        what they share: Boolean tests, lists over the native numbers, ordered maps, the
--                  lowest digit of the operations on binary digits.
--
-- How they interact: Dispatch cuts a packet out of the bytes and hands it to a handler of Window or
-- Audio; the handler asks TaskId for a codec task id, finds its decoder in the list of AvDec, checks
-- the crop by Crop, writes the decoder, sends it to the codec, and updates the other tables. A node
-- that starts sends its decoders by Codec and fills the tables by Start. What a handler answers is
-- made by Reply, for a request for information from what Report lists; Setting reads encoders as
-- Saving does, which also saves what is set.
--
-- Numbers are natural numbers; a wrap of a machine word is written out as a remainder. A handler
-- that fails keeps what it wrote before, as the source does. The answers of the codec (the result of
-- sendCodecAVEncDecInfo and sendCodecBatch) are a parameter of the handlers; what a handler sends is
-- listed in the state. A map is an association list in the order of its keys. Loops are recursion
-- over a list; the loop of onMessage runs on fuel, the number of bytes, which is enough because
-- every turn consumes at least one. The reading loop of doSendCommand has no bound of its own, and
-- its fuel is a parameter: a turn that is not a failed `recv` ends it. What the operating system
-- answers on a socket, boost's circular buffer and the JSON library are parameters too; the latter two
-- come with the laws that their documentation states.
--
-- Not modelled: texts that fill their fields and are read past their end, texts of a request that do
-- not end in their fields, the codec and its library, the network library, the JSON and XML libraries, the
-- order in which the two threads of the saving pool run their jobs (they are taken one after another;
-- that a handler saves is listed among what it sends), logging, the handlers of input nodes, of the
-- panel and of the lights, the batches of windows, the calls that set the network, and the other
-- text helpers.
pub mod Prelude
pub mod ErrorCode
pub mod TaskId
pub mod AvDec
pub mod Crop
pub mod Window
pub mod Audio
pub mod Dispatch
pub mod Start
pub mod Base64
pub mod Codec
pub mod Queue
pub mod Checksum
pub mod Utf8
pub mod IniFile
pub mod NetCheck
pub mod Idle
pub mod Saving
pub mod Reply
pub mod Report
pub mod Setting
