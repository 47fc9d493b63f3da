-- ===== src/Lib.antt =====
-- The Lounge with irssi behind it. An irssi module (fe-web) sends what happens on IRC to the server as
-- JSON over a web socket; an adapter turns it into networks, channels and messages; the models keep
-- counters, histories and logs; the browser parses each message into styled parts.
--
-- The parts, by file, with paths from the root of the repository:
--
-- FeWebEncryption models server/feWebClient/feWebEncryption.ts. A buffer is a list of bytes. The crypto
-- module and UTF-8 are the parameter `Crypto`; a callback with an error, or a throw, is none. What is
-- asked of a cipher is in FeWebEncryption/Frames: it opens what it sealed and nothing else, and its
-- tags have 16 bytes.
--
-- FeWebSocket models server/feWebClient/feWebSocket.ts: Sending the fields of the class, the handlers by
-- type and what is sent, Connection the connection, its events and timers, and runs of them. Each call
-- of connect is an attempt with a number; what the web socket, the timers and the promises are asked to
-- do is a list of effects. Handlers are numbers, since the code only compares them. The address and the
-- TLS options are left out. FeWebEncryption decrypts its binary frames; its handlers are those of the
-- adapter.
--
-- FeWebAdapter models server/feWebClient/feWebAdapter.ts: FeWebAdapter/Network the network data and the
-- places of channels, Users the users of a channel, State the fields of the class with
-- getOrCreateNetwork, Talk, Notices, NickChange, Nicklist and Lifecycle the handlers, Dispatch the
-- registration of the handlers and the steps of an adapter. A handler takes the adapter and gives the
-- new one with the calls of the callbacks, in order, as a list of events; a timer is an event too, and
-- its run an input of `step`. `Runtime` has what the code takes of the language's texts: toLowerCase,
-- localeCompare, JSON.parse. Date.now() and the random UUID are the argument `Moment`. The networks of
-- the map are values: a handler puts the network that it changed back under its tag, and changes a
-- channel in its place in the list, the first one of its name. What a callback does with the objects
-- that the adapter shares with it is not part of this model but of the irssi client's. A field of a
-- message that is absent is the empty text, 0 or false; fields that the code takes without a test are
-- there. Logging is left out. The levels for which the code opens a query are 2 and 128, not the 8 of
-- CLIENT-SPEC.md.
-- The proofs: Order for the order of channels, Users/Maps for the users as a map, Comparator for their
-- order, Quiet with its children for what runs keep, Delivery for where messages go, Renames
-- for nick changes, Tells for quits and state dumps.
--
-- Models has server/models: Msg, Prefix, User, Chan. Chan/Messages has what a channel does with a
-- message, from pushMessage to getFilteredClone, and its Counters runs of pushMessage; what goes to the
-- browsers, the logs and the stored thumbnails is a list of effects. Of the configuration it takes `Context`. A text that may be absent is
-- the empty one; a `maxHistory` below 0 is none. Left out: special channels' data, loadMessages,
-- getSortedUsers.
--
-- Message has client/js/helpers/ircmessageparser and client/js/helpers/parse.ts up to the virtual
-- nodes, with cleanIrcMessage of shared/irc.ts and findLinks of shared/linkify.ts: Style for the
-- styling codes, Find for nicks and channels, Parts, Fragment and Merge for putting them together,
-- Parse for the whole. A text is a list of code points, so offsets are those of the source where the
-- text has no character outside the basic plane. The regular expressions are written out as functions.
-- linkify-it and emoji-regex are the parameter `Recognizers`, whose matches lie in the text.
--
-- Storage models server/plugins/storage.ts: how many things refer to each stored file, and when it is
-- deleted. Storage/References compares it with one counter for each file. The address of a file, made of
-- its hash, is an argument.
--
-- IrssiClient models server/irssiClient.ts, the client of one user: IrssiClient/State its fields, what it
-- sends and how it finds networks and channels; Markers the unread markers; Callbacks what the adapter
-- and the connection call; Translate and Commands what the browsers ask for; Loading, Browsers and
-- History what the message storage has for them; Requests the requests about irssi's configuration; Run
-- everything in turn. A handler takes the client and gives the new one with a list of effects at the
-- browsers, irssi and the storage. The markers are objects that the map and the answers of the storage
-- share, so they stand in a heap. The storage is the parameter `MessageStorage`; a count that
-- handleActivityUpdate asks for comes as an input of its own, at any later time, while the handlers that
-- wait for the storage are one step. The network objects are the adapter's: what it changes in them is
-- an input. The proofs: Broadcasts and Uniform for what the browsers get, Seen for unread messages,
-- Settled for the requests, OneLine for commands, Parts for closing channels.
--
-- Networks models server/models/network.ts: State the fields and the channels, Validate `validate`; Sts
-- the policies of server/plugins/sts.ts that it asks for. The expression that finds the nick in messages
-- and the IRC client are left out. Networks/Secure has what a valid network has, Networks/Channels
-- compares addChannel with the adapter's addChannelSorted.
--
-- Hostmask models the masks of server/helper.ts, parseHostmask, compareHostmask and compareWithWildcard,
-- and Hostmask/Ignore the commands of server/plugins/inputs/ignore.ts. The regular expression that a
-- pattern becomes is a list of items with a matcher, compared in Hostmask/Wildcards with a relation on
-- patterns. `toLowerCase`, `trim` and the folding of the flag "i" are the parameter `Folding`.
--
-- Common has the arrays, maps and texts of the language and its stable sort. All functions are
-- structurally recursive, none needs fuel.
--
-- Not modelled: of the irssi client login, sessions and tokens; the message storage, the other commands
-- of IRC, the HTTP server, the Vue components.
pub mod Common
pub mod Message
pub mod Models
pub mod FeWebAdapter
pub mod FeWebEncryption
pub mod FeWebSocket
pub mod Storage
pub mod IrssiClient
pub mod Sts
pub mod Networks
pub mod Hostmask
