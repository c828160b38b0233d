-- ===== src/Lib.antt =====
-- A model of mantl-api, a service that installs packages on a Mesos cluster, and theorems about it.
--
-- The program keeps repositories of packages in Consul. It lists the packages that they hold, makes
-- the definition of a package from the repositories' files and a configuration from the package's
-- schema, its options, the user's request and the API's settings, renders the application that
-- Marathon is to run, and removes applications, their frameworks in Mesos and their nodes in
-- ZooKeeper. Requests come over HTTP or are left in Consul.
--
-- Files, and the source that they model:
--   Http.antt                 utils/http/http.go: HttpClient, url, joinPaths, doRequest
--   Marathon.antt             marathon/marathon.go: App, Apps, CreateApp, DestroyApp
--                             Marathon/AppJson.antt the tags of App and of the structs in it
--   Mesos.antt                mesos/mesos.go: state, FindFramework, Shutdown, ShutdownFrameworkByName
--   Zookeeper.antt            zookeeper/zookeeper.go: znodeTree, deleteTree, Delete
--   Install/Config/           install/package.go and install/transformers.go: the schema of a
--                             configuration, defaultConfig, mergeConfig, MergedConfig, rendering
--   Install/Package.antt      install/package.go: versions, FindPackageVersion; Package/Request.antt
--                             NewPackageRequest
--   Install/Fetch.antt        install/package.go: GetPackageDefinition; Fetch/Paths.antt the keys of the
--                             files of a package
--   Install/Repository.antt   install/repository.go
--   Install/Catalog.antt      install/catalog.go: NewPackageCatalog, packageKeys; Catalog/Index.antt
--                             packagesIndex
--   Install/Labels.antt       install/install.go: addMantlLabels
--   Install/Operations.antt   install/install.go: InstallPackage, FindInstalled, UninstallPackage
--   Install/Source.antt       install/source.go and SyncSources of install/install.go
--   Install/Monitor.antt      install/consul_monitor.go
--   Api.antt                  api/api.go: the handlers, over the response writer of Api/Response.antt
--   Main.antt                 main.go and discover.go: discovery, sources, logging; Main/Settings.antt
--                             readConfigFile, initVault, consulClient; Main/Start.antt syncRepo, start
--                             and the commands; Main/Runs.antt what start leaves running
--   Json.antt, Consul.antt    JSON values as Go decodes them, and structs with tags; the calls of the
--                             Consul client
--   Prelude/                  Go's results, maps, sorting, texts, paths and integers
--   Tests/                    runs on concrete inputs
--
-- Correspondence. A pure function is a function by clauses; a name of the source is spelled in small
-- letters with underscores. A call that can fail returns a Result: a value, an error with its text, or
-- a panic, which also stands for the end of the process by log.Fatal. A call that acts on the outside
-- is an action on a world W of any type, which returns its result and the world it leaves, also where
-- it fails. A Go map is an association list in the order of one range over it; the theorems hold for
-- every list, and so for every order. The type N of a float64 is a parameter.
--
-- Parameters are: the text format of JSON and the formatting of numbers (Codec), the decoders and
-- encoders of the clients' types, templates (Mustache), base64, url.Parse, the network, Consul,
-- ZooKeeper, the file system, git, the clock, the settings (viper) and Vault.
--
-- Bounds. Loops are structural recursion. The walk of a tree in ZooKeeper has the depth of Go's stack
-- as fuel and panics beyond it, as the process does. The decimal digits of n are produced on n + 1
-- units of fuel, one for each digit. atoi has the range of a 64-bit int.
--
-- Concurrency. Main/Runs.antt takes the ticks of the monitor, the requests to the API and the writes of
-- other clients to Consul as steps in any order, each of them whole: steps do not overlap.
--
-- Not modelled: the router, the listener, the parsing of the command line, the defaults of the client
-- libraries, the text of log lines. Letter case and white space are those of ASCII. Go's maps are
-- shared where these are values; where the program observes it, in the user's configuration that
-- GetPackageDefinition leaves behind (Install/Config/Render/Sharing.antt), it is written out. Later
-- renderings merge the same settings of the API once more, and that they find them merged already, and
-- transform in place what they share with the API's configuration, is not modelled.
pub mod Prelude
pub mod Json
pub mod Http
pub mod Consul
pub mod Marathon
pub mod Mesos
pub mod Zookeeper
pub mod Install
pub mod Api
pub mod Main
pub mod Tests
