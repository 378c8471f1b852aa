-- ===== src/Lib.antt =====
-- A verification library for the Nerdhub chat: models of the parts of the chat's server, of its
-- command line client and of the primitives that both stand on, with the theorems that make them
-- correct.
--
-- The parts, the files that model them and the code that they translate:
--   * X3dh (X3dh.antt, X3dh/Agreement.antt): primitives/x3dh/prekey-bundle.ts,
--     prekey-bundle.factory.ts and x3dh.ts. `derive_secret_key_with_recipient` is
--     deriveSecretKeyWithRecipient, and so on. node:crypto and the XEdDSA library are the parameter
--     `Crypto`, whose documented laws are `IsLawful`.
--   * Router (Router.antt and Router/): core/router/router.ts. Registration.antt is use, get, post,
--     put, patch and delete; Prepare.antt, Rounds.antt and Channel.antt are
--     channelRequestThroughRequestHandlers, from the inside out: what is done with an entry before
--     its handlers, what is done around one call, and the loops. Order.antt, Errors.antt,
--     Calls.antt and Origin.antt prove what the router promises. A sub-router is channeled by the
--     same loops, with the properties that its caller hands over; the loops recur on the tree of
--     routers. Decorators.antt is router.core.decorators.ts with the server's
--     autobind.decorator.ts.
--   * Pathname (Pathname.antt and Pathname/): core/router/router.core.utils.ts and
--     router.core.const.ts, which the router uses for matching and for request parameters.
--   * AppRouter (AppRouter.antt, AppRouter/Statuses.antt): core/router/app-router.ts,
--     router-request.factory.ts and router-response.ts, around a root router.
--   * Socket (Socket.antt and Socket/): core/socket/server. Socket.antt is server-socket.ts,
--     Message.antt its message listener with socket.server.core.utils.ts, Relay.antt is
--     event-target-gossip-relay.ts, Server.antt and Requests.antt are ws-connection-handler.ts. The
--     handler keeps the sockets and the rooms, each socket keeps the names of its rooms, and the
--     relay carries every event from the operation that emits it to the handler that delivers it.
--   * Persistence (Persistence.antt, Persistence/): the tables of server/database and the
--     statements of server/repository over them. WellFormed.antt is what holds of the tables,
--     Preservation.antt, OnetimePreKeys.antt and Reachable.antt show that it always does, Pop.antt
--     and CreateMany.antt are about one-time prekeys.
--   * Auth (Auth.antt, Auth/): server/utils, server/middlewares/auth-route.middleware.ts
--     (Route.antt) and server/controller/auth.controller.ts (Controller.antt), over the tables of
--     Persistence. Password.antt, Tokens.antt, Access.antt, Accounts.antt and Sessions.antt prove
--     what passwords, tokens and sessions are good for.
--   * Participants (Participants.antt, Participants/):
--     server/decorators/auth-ctx-matcher.decorators.ts, the other middlewares of
--     server/middlewares, and the controllers of participants and one-time prekeys
--     (Controllers.antt), as handlers of Router over the tables of Persistence and the context of
--     Auth. Reports.antt puts the two error handlers behind a router's entries as server/server.ts
--     does.
--   * KeyStorage (KeyStorage.antt): primitives/local-encryption/local-encryption-key.manager.ts, of
--     which core/local-encryption/local-encryption-key-storage.ts is a copy.
--   * LocalEncryption (LocalEncryption.antt, LocalEncryption/):
--     primitives/local-encryption/local-encryption.ts, of which the class in core is a copy, and
--     cli/services/local-encryption.service.ts.
--   * Client (Client.antt, Client/): what the command line client keeps and cli/repository
--     (Repository.antt), and cli/ui/middlewares/setup-prekey-bundle.middleware.ts (Bundles.antt,
--     Setup.antt), with the bundles of X3dh and the service of LocalEncryption. Counts.antt,
--     Stock.antt, FirstSetup.antt and Trust.antt prove what the setup leaves and accepts,
--     Identity.antt what it leaves as it is.
--   * ViewStack (ViewStack.antt, ViewStack/): core/view-stack/tui-view-stack.ts.
--   * Users (Users.antt): server/controller/user.controller.ts, over the tables of Persistence.
--   * Views (Views.antt, Views/): cli/ui and cli/router. Views.antt is how a view reads answers and
--     how it ends; Prompts.antt and Invariant.antt prove what prompts do. Keys.antt is the views
--     that store and retrieve the local key (Kept.antt, Found.antt), over the files of KeyStorage;
--     Accounts.antt the views to register and to log in (Register.antt, Login.antt, Rounds.antt,
--     and Taken.antt with the bodies of Users); Routes.antt the pages with the setup of Client
--     before them (Guards.antt), and Closed.antt where they navigate to.
--   * Http (Http.antt, Http/): cli/api and cli/helpers/api-fetch.helper.ts, which fill the
--     interfaces that Client and Views take. Devices.antt gives its requests to a middleware of
--     Participants, and Publishing.antt its failures to the setup of Client.
-- Common and its children hold what they share: tests, lists, texts, and the built-in Map.
--
-- State is passed explicitly: a method that changes an object is a function to the changed record.
-- Where objects are shared by reference, the model keeps them in a store: the objects with request
-- parameters in `Exchange`, the sockets in `Server`. What an asynchronous function awaits is done
-- at that point; a router's handler calls `next` before it settles. Callbacks that the models never
-- look into are numbers. Errors are values: `none`, or a constructor of a result type.
--
-- Bounds and fuel: the loop of `popTo` has the length of the stack as its fuel, which is enough
-- since each round drops a view; the loop of `run` of the view stack is given a number of rounds,
-- and its result says whether it still loops after them. The loops of the views to register, to log
-- in and to retrieve a key are given one round more than there are answers, which Rounds.antt and
-- Found.antt prove to be enough. All other loops recur on what they go through. Numbers are counts,
-- depths, statuses and code units; the code does no arithmetic on them that could overflow.
--
-- The digits of a number are given one more than the number as their fuel. Times are in
-- milliseconds, and `exp` of a token in seconds, as in the code.
--
-- Parameters: the collation and the length of texts and the order of rows in the database, jose,
-- scrypt, the key-value store, schemas of request bodies, the execution of regular expressions that
-- are built at run time, JSON, the platform's Response, WebSocket, timers and EventTarget, random
-- identifiers, base64, node:crypto and XEdDSA. For the client also `fetch` and what is read from
-- JSON, the server behind the HTTP interface (a state of its own), paths, key derivation, what the
-- user answers to prompts, and what a prompt without a transformation gives for a text, which its
-- library trims.
--
-- Not modelled: the options of the command line, the identity of the device, connections to
-- external services, the crons, which do nothing, and code that is only configuration. Handlers
-- settle: one whose promise never does, which leaves its request without a response, is not in the
-- model. Of the modelled files: console output, the heartbeat that the connection handler starts
-- and clears with a socket, files that cannot be written, the wait before a timeout response, the
-- query of a request but for `flush`, failing connections, other clients between the statements of
-- a transaction, and the data that an exception carries beside its message.
pub mod AppRouter
pub mod Auth
pub mod Client
pub mod Common
pub mod Http
pub mod KeyStorage
pub mod LocalEncryption
pub mod Participants
pub mod Pathname
pub mod Persistence
pub mod Router
pub mod Socket
pub mod Users
pub mod ViewStack
pub mod Views
pub mod X3dh
