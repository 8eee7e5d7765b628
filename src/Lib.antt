-- ===== src/Lib.antt =====
-- The sandbox of the number portability platform: its request life, its database and its engine.
--
-- The program is a server in which operators ask for the porting of telephone numbers. A request
-- (PORTAGE, RESTITUTION or REVERSE) goes through ACCEPTATION, DESACTIVATION, ACTIVATION,
-- CONFIRMATION and COMPLETION; an interactor of internal/usecase checks each act by a rule of
-- internal/entity, writes through a gateway of internal/adapter/gateway/postgres in a transaction
-- of internal/framework/persistence, and hands the transition to the engine of
-- internal/framework/engine, which applies it at once or schedules it for its periodic tick.
--
-- The modules:
--   Prelude      Boolean tests on the native numbers, and lists as tables.
--   Entity       internal/entity, one module for each of its files: Request (porting_request.go),
--                Fault (fault.go, fault_catalog.go), Errors (FaultFrom and the error values), Step,
--                Authorization, Eligibility, Incident. Rights, Rules and Order hold the proofs.
--   Store        Schema: the tables of migrations/, a list of rows each. Session: a monad of
--                outcomes over the database, with the driver's failures, both clocks, the fresh
--                identifiers and the other sessions' commits in an environment;
--                `unit_of_work` is internal/framework/persistence/unit_of_work.go. Outcomes, Keeps
--                and Runs are the rules for postconditions, invariants and programs that return; Calm
--                is for runs with no other session at work.
--   Gateway      internal/adapter/gateway/postgres, one function for each SQL statement or method:
--                Otps, Numbers, Ranges, Reference, Confirmations, Requests (Reads, Writes, Transitions),
--                Reverses, Incidents, Queries (query_gateway.go), Sandbox, Users, Pages (LIMIT
--                and OFFSET). Keys and foreign keys of an INSERT are tests of the statement.
--   Usecase      internal/usecase: Otp (otp/), Transition (platform/apply_transition.go), Platform
--                (the other files of platform/ and the tick of internal/framework/engine/engine.go),
--                Engine (ScheduleTransition), Acceptance, Porting, Creation, Incidents, Reverses,
--                Queries (query/), Sandbox (sandbox/purge_test_data.go), Ranges
--                (sandbox/count_number_ranges.go), Reference, Auth (auth/, with
--                internal/framework/token/jwt.go and the middleware authentication.go).
--   Framework    internal/framework: Identifier, Clock, Config (config.go), EnvFile (env.go), Seed (the
--                pool of numbers of seed.go, and in Reference the rows that Run installs), Text (what
--                these use of strings and strconv), Folders (the walks of router.go and of
--                internal/framework/persistence/migrate.go).
--   Presenter    internal/adapter/presenter: the two fidelity modes, and in Modes the interface that
--                both fill and that the handlers take as a parameter.
--   Controller   internal/adapter/controller. Instant: instant.go and the registry of
--                internal/usecase/port/written_timestamps.go. Creation: the validation of
--                creation_controller.go. Pagination: pagination.go. Respond: what the handlers
--                share. RequestView: request_view.go. The handlers are in Queues
--                (query_controller.go), Acts (porting_controller.go, acceptance_controller.go),
--                Submissions (creation_controller.go, otp_controller.go and Submit of
--                reverse_controller.go), Incidents (incident_controller.go and Own of
--                reverse_controller.go), Catalogs (reference_controller.go and Purge of
--                sandbox_controller.go), Login (PostAuthenticate of auth_controller.go, and Ranges of
--                sandbox_controller.go). A handler takes what the framework binds, and gives a view
--                model and the world after it.
--   Web          internal/framework/web. Guard and Routes: router.go. Serve: the middlewares around a
--                handler, for any route that the gin package finds and any handlers.
--
-- Conventions. A text that is only stored and compared is a natural number, 0 for the empty string;
-- an ORDER BY on it is the order of these numbers. Instants and durations are natural numbers of
-- nanoseconds. A string type with named constants has a constructor `other` for every other string.
-- A method that returns an error is a program of `M`; its database is a value of the world, which a
-- failed transaction resets. No definition recurses but on a list or on a number that counts down,
-- so that no fuel is needed. The configuration reads texts as lists of character codes, and keeps a
-- duration as its 64-bit pattern.
--
-- What the model takes for granted. Transactions run isolated: what other sessions commit is seen
-- at a statement on the pool or at BEGIN, by the parameter `others` of the environment. A COMMIT
-- that fails has changed nothing. The draw of `rand.Int63n` is a parameter, taken modulo its
-- argument. An UPDATE that sets an operator sets one that exists, so that its foreign key holds.
-- The durations that the interactors and the engine are given are not negative: the loader refuses
-- a negative setting, and no setting is so large that its product with the unit wraps around. A panic
-- is not modelled. PostgreSQL keeps the microseconds of an instant: the model cuts the rest
-- off from the expiry of a challenge and in the registry of written instants; elsewhere the clocks are
-- taken to show whole microseconds, and an interval that is added to one keeps its nanoseconds.
-- How PostgreSQL reads a text as a date is a parameter.
--
-- Not modelled: the gin package (binding, routing, the writing of a response) and the wiring of
-- internal/framework/web; GetAuthenticate of internal/adapter/controller/auth_controller.go, which
-- answers 204 whatever happens; the accounts of the seed; the migrations as text;
-- internal/adapter/gateway/postgres/mapping.go, which is a comment; the doubles of
-- internal/testsupport, which only tests use; and the commands of cmd/, which wire the
-- parts.
pub mod Controller
pub mod Entity
pub mod Framework
pub mod Gateway
pub mod Prelude
pub mod Presenter
pub mod Store
pub mod Usecase
pub mod Web
