-- ===== src/Lib.antt =====
-- The instant-messaging SDK: a C++ library that keeps one WebSocket to a gateway, sends requests
-- and gets pushes over it, and keeps messages, their ranges and their orders in local stores and
-- caches. What is modelled, by file, with paths from the root of the repository:
-- Ranges: the arithmetic on ranges of sequence numbers, p_generateRange, p_mergeRanges and the loop
--   of EmptyMessageRangeForConvId of imsdk/src/core/message/private/data_source/MessageDataSource.cc.
-- Network/RequestTracker: imsdk/src/core/network/connection/request/RequestTracker.cc. A tracker is
--   a record of its map and of the coroutines that it has started; a call is a function on it, and
--   the event loop adds two events, the expiry of a timer and the resumption of its coroutine.
-- Network/LongConnection: imsdk/base/network/LongConnectionClient.cc, the state machine of the
--   connection. A coroutine is cut at its waits, and what a wait brings is an argument.
-- Network/Connection: imsdk/src/core/network/connection/SDKConnectionManager.cc, which joins the
--   two: the status callback that fails the pending requests, SendRequest, and the way of a frame.
-- Network/Json: imsdk/src/core/network/connection/FrontierMessageJsonSerializer.cc.
-- Message/Order: the orders of a conversation, SetMsgOrderInConv and NextMsgOrderInConv of
--   imsdk/src/core/message/private/db_opt/DBOpt.cc, and UpdateMsgOrderInConv.
-- Message/RangeStore: the range cache over the store, p_updateMessageRangeForMessage,
--   p_messageRangeForConvId and EmptyMessageRangeForConvId of MessageDataSource.cc, with
--   SaveMessageRange and MessageRange of DBOpt.cc.
-- Message/Cache: the cache of message instances, UpdateMsgCache of MessageDataSource.cc and
--   MessageModel::move_from of imsdk/src/wapper/model/MessageModel.cpp.
-- Message/Send: the two forms of a message that is sent, in
--   imsdk/src/core/message/private/send/SendMessage.cc, and the ids of single conversations,
--   GenerateSingleConvId and ParseSingleConvId of imsdk/src/core/common/util.h.
-- Message/JsonText: the texts of maps and vectors, imsdk/src/core/common/json_util.cc.
-- Message/Table: the rows of the table of messages in DBOpt.cc (the insertion, the reads by id and by
--   conversation, the writes of the flags, the extensions and the properties), over WCDB as an
--   interface with laws, and the conversion of a row,
--   imsdk/src/core/message/private/convert/Convert.cc.
-- Message/Status: the updates of the flags, the extensions and the properties of a message in
--   MessageDataSource.cc, the table first and then the cached instance.
-- Message/Store: SaveDbMsgs up to its ranges, SdkMsgForId and LoadMessageFromDb of
--   MessageDataSource.cc, and the calls on messages as a whole.
-- Message/Incoming: messages of the network, ConvertNetMsgToDbMsg, MessageMergeWithLocal and
--   SaveNetMessages up to its ranges.
-- Message/Receive: ClassifyMessage of
--   imsdk/src/core/message/private/receive/ReceiveMessage.cc.
-- Message/Fetch: the fetch of the missing messages of a conversation,
--   imsdk/src/core/message/private/fetcher/ConvMessagesFetcher.cc, over the gaps of
--   Message/RangeStore.
-- Conversation/Fetcher: the pages of a user's conversations,
--   imsdk/src/core/conversation/private/fetcher/UserMessageFetcher.cc, with ChatsCursor and
--   SetChatsCursor of imsdk/src/core/conversation/private/db_opt/DBOpt.cc.
-- Conversation/Table, Conversation/Model, Conversation/Store: the table of conversations in that
--   DBOpt.cc, over WCDB as an interface with laws; the conversions of
--   imsdk/src/core/conversation/private/convert/convert.cc; and the cache over the table,
--   imsdk/src/core/conversation/private/datasource/ConvDatasource.cc.
-- Http: imsdk/base/network/HttpClient.cc: url_encode, base64_encode and parse_url, the builder of
--   requests, and a request up to its transfer and after it.
-- ThreadSafeMap: imsdk/base/include/containers/ThreadSafeUnorderedMap.h.
-- ThreadSafeVector: imsdk/base/include/containers/ThreadSafeVector.h, with the two mutexes of swap as
--   a run of two threads.
-- Storage: the MMKV store as an interface with laws, and a store that meets them.
-- UnorderedMap, Decimal: std::unordered_map and std::to_string, as the sources use them.
-- Prelude: shared names, tests, integers, lists, and the equality of keys.
--
-- The parts meet as in the code. The client of Network/LongConnection takes its status callback as
-- an argument; Network/Connection passes its own, which calls the tracker, and sends through the
-- client. Concurrency is a sequence of calls: each runs under a mutex or between two waits.
--
-- Loops are recursions on their list, or on the counter that bounds them in the code, as in the two
-- fetches. Four have fuel: the digits of a number n have fuel n + 1, and the split of a buffer one
-- more than its length, since each round shortens it; the inner loop of base64_encode has the
-- number of its waiting bits, and its padding has 4. The results hold for these calls, so the fuel
-- never runs out. The reconnect loop runs on the list of the outcomes
-- of its attempts. int64_t values are integers without a bound: sequence numbers, orders and
-- timestamps stay far from 2^63.
--
-- Parameters, being libraries or the other end: boost::json (parse, serialize), boost::beast (base64,
-- the transfer of a request), MMKV, WCDB, the WebSocket client's outcomes, the clock, and the
-- answers of the server to the two fetches. What boost::json is assumed to read back is UTF-8 texts
-- and numbers in range only, since it refuses other texts. The time of sending, a double that is only
-- carried along, is a number.
--
-- Not modelled: generated protocol buffers, the transfers of the HTTP and WebSocket clients, logging,
-- the wrappers and accessors of the public interface, groups, and the command centre.
pub mod Prelude
pub mod Ranges
pub mod UnorderedMap
pub mod Decimal
pub mod Network
pub mod ThreadSafeMap
pub mod Storage
pub mod Message
pub mod Conversation
pub mod Http
pub mod ThreadSafeVector
