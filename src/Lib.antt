-- ===== src/Lib.antt =====
-- Qt OPC UA in a verification library: the data that a client exchanges with a server, how it is
-- written to and read from bytes, and how it is monitored.
--
-- The program is a client library (src/opcua/client) with backends that are plug-ins
-- (src/plugins/opcua) and a QML module (src/imports/opcua). Applications work on nodes, which are
-- named by node id strings such as "ns=2;s=Pump". A value of a structured type arrives as an
-- extension object whose body is a byte array; QOpcUaBinaryDataEncoding takes it apart and puts
-- it together.
--
-- Modelled, file by file:
--
--   Qt.antt              What the program takes from Qt Core. Qt/Text.antt has QString and QByteArray
--                        as sequences or null, with split, startsWith and mid. Qt/Api.antt is an
--                        interface of the conversions that Qt implements (UTF-8, numbers, base 64,
--                        UUIDs) with the laws that its documentation gives. Every module that
--                        converts takes an instance. Qt/Plain.antt is one, for runs, on the decimal
--                        numbers of Qt/Decimal.antt.
--   NodeIds.antt         src/opcua/client/qopcuatype.cpp: nodeIdFromString, nodeIdFromByteString,
--                        nodeIdFromGuid, nodeIdFromInteger, nodeIdFromReferenceType,
--                        nodeIdStringSplit, nodeIdEquals, namespace0Id, namespace0IdFromNodeId.
--                        The regular expressions of nodeIdStringSplit are written as tests.
--                        NodeIds/Split.antt, NodeIds/Equals.antt and NodeIds/Same.antt have the
--                        proofs.
--   Encoding.antt        src/opcua/client/qopcuabinarydataencoding.h and .cpp. State.antt has the
--                        buffer and the offset, with enoughData, setOffset and
--                        truncateBufferToOffset. Decoder.antt and Encoder.antt have the templates
--                        for numbers, strings, byte arrays, UUIDs and arrays, Structs.antt those
--                        for structures, NodeId.antt those for node ids and expanded node ids,
--                        Objects.antt those for dates, extension objects, arguments and application
--                        records. decode<T> is decode_t, encode<T> is encode_t. Records.antt has
--                        the value classes of src/opcua/client/qopcua*.cpp that are transferred.
--                        Transfer.antt says what it means that an encoder and a decoder fit
--                        together; the modules below Encoding/Structs, Encoding/NodeId and
--                        Encoding/Objects have the proofs for each type, and Faults.antt those on
--                        the limits.
--   Monitoring.antt      src/plugins/opcua/open62541/qopen62541subscription.cpp: the subscriptions of
--                        the open62541 plug-in. Parameters.antt has QOpcUaMonitoringParameters,
--                        Stack.antt the services of the stack, as functions from a request to the
--                        answer. Subscription.antt has the members of QOpen62541Subscription with a
--                        heap for its MonitoredItem objects, createOnServer and removeOnServer,
--                        Items.antt addAttributeMonitoredItem and removeAttributeMonitoredItem,
--                        Notify.antt monitoredValueUpdated, eventReceived and
--                        sendTimeoutNotification, Modify.antt modifySubscriptionParameters,
--                        ModifyItem.antt modifyMonitoredItemParameters and modifyMonitoring.
--                        Consistent.antt says how the hashes and the heap belong together, and
--                        Linking.antt and Unlinking.antt how an item comes and goes; Objects.antt,
--                        Delivery.antt, Adding.antt, Removing.antt, Modifying.antt, TimingOut.antt
--                        and Requests.antt have the proofs on each operation, Reachable.antt those
--                        on sequences of calls.
--   MultiArray.antt      src/opcua/client/qopcuamultidimensionalarray.cpp: the constructors,
--                        setArrayDimensions, arrayIndex, value, setValue and isValid. The product of
--                        the dimensions keeps its 32 bits; making more values than a QList can
--                        hold is none. MultiArray/Index.antt and
--                        MultiArray/Elements.antt have the proofs.
--   Nodes.antt           src/opcua/client/qopcuanode_p.h, qopcuanode.cpp and qopcuaclientimpl.cpp.
--                        Nodes/Node.antt has the caches of a QOpcUaNode, the slots of its private
--                        class and its getters, Requests.antt its requests, Handles.antt
--                        registerNode and unregisterNode of QOpcUaClientImpl, Dispatch.antt its
--                        slots for the results of a backend, each followed by the slot of the node.
--                        The names of requests that others have too begin with node_. Fresh.antt,
--                        Cache.antt and Observer.antt have the proofs; Mirror.antt and the modules
--                        below it have those on a node beside a subscription of Monitoring.antt,
--                        which its signals connect.
--   Client.antt          src/opcua/client/qopcuaclientprivate.cpp and qopcuaclient.cpp. State.antt
--                        has the connection state, the namespace array and their operations,
--                        Events.antt everything that may happen to a client, Resolve.antt
--                        resolveExpandedNodeId and qualifiedNameFromNamespaceUri. Follow.antt,
--                        Guards.antt and Faults.antt have the proofs.
--   Gds.antt             src/opcua/client/qopcuagdsclient.cpp: the client of a global discovery
--                        server. State.antt has its members, what it does, and what it meets, a
--                        record of answers; Start.antt start and the slots of the connection,
--                        Directory.antt the search for the directory and its methods,
--                        Registration.antt the look-up and registration of the application, on the
--                        records of Encoding.antt, Certificates.antt all that follows, and
--                        Events.antt the dispatch of results and everything that may happen.
--                        Invariant.antt says what is always so; Keeps.antt has the rules for code
--                        that keeps it, StartKeeps.antt, DirectoryKeeps.antt,
--                        RegistrationKeeps.antt and CertificatesKeeps.antt those for each
--                        operation, and Reachable.antt those on sequences of events.
--                        Dispatched.antt, Serving.antt and Finishing.antt have the steps of a
--                        client whose requests are accepted, Opening.antt, Registers.antt and Registered.antt
--                        put them together; Resolved.antt, Calls.antt, Timer.antt and
--                        Forgotten.antt have the other proofs.
--   Prelude.antt         Lists, signed integers and QHash, over the native numbers.
--   Tests.antt           Runs on concrete inputs.
--
-- A decoder is a function from the state to one of three outcomes: a value, a failure (the flag
-- `success` is false), or `overrun`, where bytes are read that do not lie in the buffer, which is
-- undefined in C++. An encoder is a function from the state to a Boolean and the next state.
-- Numbers are natural numbers below the power of two of their type; a signed number is read from
-- its bit pattern; float and double are their bit patterns. Buffers are those for which the sum
-- of the size and the offset is an int, and offsets are not negative. Loops over arrays recurse
-- on the number of elements that is left, which the size in front of the array bounds.
--
-- An operation of a subscription is a function from the state, and from a stack whose answers it
-- meets, to what it returns, the next state and the signals that it emits in their order. It is
-- none where it would use a pointer that dangles or the first of no results. A hash is a list of entries with one entry for
-- each key, in some order.
--
-- The handles of nodes are searched for with as much fuel as there are handles, and one more: one
-- of that many numbers in a row is free. A client's call is a function from its state to the next
-- one and a list of what it signals and asks for, in that order; a call of a GDS client is one to
-- an optional result, none where a null pointer is used or an int overflows. Slots run to their end, one after the
-- other, and meet the answers of the event that they belong to. A slot that is connected several
-- times is run as often.
--
-- Not modelled: the getters and setters of the value classes, the conversions of the backends
-- between Qt and their stacks, the network, OpenSSL, plug-in loading, QML, and
-- requests of the client that are only passed on. The stacks are
-- third-party code.
pub mod Prelude
pub mod Qt
pub mod NodeIds
pub mod Client
pub mod Encoding
pub mod Gds
pub mod Monitoring
pub mod MultiArray
pub mod Nodes
pub mod Tests
