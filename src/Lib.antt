-- ===== src/Lib.antt =====
-- notmanytask: the service that grades a programming course. Students sign up, link a GitLab account
-- and get a repository; GitLab's pipelines and submitted flags earn points by the deadlines of their
-- group; teachers read the standings and override scores.
--
-- The program's parts, and where they are modelled:
--   * internal/scorer (Scorer): which submit of a task counts (Best: loadUserPipelines,
--     loadUserFlags, parseOverrides), what it earns (Points: scorePipeline), the scores of one user
--     (User: calcUserScoresImpl), the cached queries (Providers) and the standings (Board:
--     CalcScoreboardWithFilter, CalcUserScores). Titles and statuses are in Titles and Status.
--   * internal/deadlines (Deadlines): scoring policies (Policy), the scoring groups with their maxima
--     (Build: buildScoringGroups), the text of a date (Date), loading and reloading of a course (Fetcher).
--   * internal/database (Database): users and sessions (Users), pipelines (Submits), flags (Flags)
--     and overrides (Overrides), over the tables of gorm (Gorm).
--   * internal/gitlab (Gitlab): names and addresses of projects (Names), the loop over pages
--     (Paging), the imports of pipelines (Pipelines, and
--     Pipelines.Run with their loops), InitializeProject as a chain of requests
--     (Projects, with Api for GitLab and Calls for the chain) and the loop that makes projects for
--     users (Projects.Maker, and Projects.Maker.Run with its steps).
--   * internal/web (Web): the endpoints of api.go (Api), sessions and their middleware (Session), the
--     signup form (Signup), the returns from GitLab's login (Oauth, with the client of
--     internal/web/oauth.go and internal/gitlab/oauth.go in Oauth.Client) and from Telegram's (Telegram), the
--     flag form (Flags), what the templates of the pages with scores are given (Pages), the routes of
--     server.go, login.go and api.go (Routes), and the start and the end of the service (Run).
--   * internal/models and internal/config (Models, Config): the rows and the settings.
--   * internal/tgbot (Tgbot): what the bot answers to a message.
--   * cmd/crashme (Crashme): the first line of a connection (Line), the connection (Connection), the
--     flag for a crash (Flag), the goroutines between the connection and its process (Proxy), the loop
--     that accepts connections (Accept), the semaphore over all connections (Permits).
--   * pkg/client (Client): the client of the endpoints, and the commands of cmd/cli (Client.Cli).
--   * cmd/fuzz (Fuzz): which solutions are fetched and how they are built, the goroutines that run them
--     (Workers) and the messages about them (Bot).
--   * pkg/targz, pkg/conf and pkg/log (Pkg): the extraction of an archive, the names that are read from
--     the environment, the logger.
--   * pkg/generic (Generic): the reversal of a slice in place.
-- A web handler changes a state that it is given, and stops at its first error (Web.Attempt). It
-- reads the deadlines that the fetcher holds, asks the scorer, and writes to the database. The scorer
-- sees the database as a record of queries (Scorer.Types), which Web.Wiring fills.
--
-- How the code's values are modelled:
--   * an error is a value, and a run-time panic too (Base.Errors): a nil pointer that is followed
--     gives a panic;
--   * `int` is an integer, whose addition wraps around at 64 bits (Base.Int); a length or an index is
--     a natural number; an instant is its number of nanoseconds (Base.Time);
--   * float64 is a type with operations, a parameter (Base.Float): what a theorem needs of
--     rounding and of the order of floats is a named hypothesis (ShareLaws of
--     Deadlines.Policy.Bounds, FallingLaws of Deadlines.Policy.Falls, OrderLaws of Scorer.Board.Order);
--   * a map is a list of its entries with one entry for each key (Base.Keys), so the order
--     in which Go walks a map is not modelled where it changes nothing;
--   * the map of fresh pipelines has pointers for keys, which are numbers in the order of allocation.
-- Libraries are parameters: gorm's tables with the laws that their documentation states
-- (Database.Gorm; Database.Gorm.Memory has a table that meets them), YAML and HTTP (Deadlines.Fetcher),
-- GitLab's answers, transliteration, strings.Title and sort.Slice. The regular expressions are read
-- character by character.
-- GitLab's projects are requests on the same state as the database (Gitlab.Api), and a chain of
-- requests stops at its first error. Where slices share an array and one of them is changed in place,
-- Scorer.Copies has the arrays and their addresses. The loop of Projects.Maker.Run, its senders, its
-- timer and the outside world are steps of a relation, in any order; so are the loops of
-- Gitlab.Pipelines.Run and Deadlines.Fetcher.Run, and the goroutines of Crashme.Proxy,
-- Crashme.Accept, Crashme.Permits and Fuzz.Workers. A connection of Crashme answers with the list of what it made the
-- service do, and Web.Run with the list of what was started and ended.
-- The loops over GitLab's pages run on fuel, one unit for a page: with one more than the number of
-- pages they end. The reversal of a slice runs on fuel, one unit more than its length, and the tries
-- for a flag on the number of them that fit into its time. All other loops are over lists.
--
-- Not modelled: the rendering of templates, the polling of Telegram, the shell commands of the
-- fuzzers, the flags of the command lines and internal/logfield. They are requests to other services, processes, rendering or glue.
pub mod Base
pub mod Models
pub mod Generic
pub mod Crashme
pub mod Tgbot
pub mod Client
pub mod Fuzz
pub mod Pkg
pub mod Deadlines
pub mod Scorer
pub mod Database
pub mod Config
pub mod Gitlab
pub mod Web
pub mod Tests
