-- ===== src/Lib.antt =====
-- Verification of the core of pci-dss-mcp, the MCP server that scans a Go project for violations of
-- PCI DSS and reports the status of each requirement.
--
-- The program's parts. A scanner returns findings. The report generator runs all scanners, drops the
-- findings of excluded packages, suppresses findings by the ignore file and by comments, derives the
-- status of each requirement and lays the report out. The tools that show findings filter them and
-- page through them: a first call stores the findings of a scan in a session cache, and later calls
-- follow cursors into it.
--
-- Which file models what (paths of the program from the repository's root):
--   Finding, Finding/Ranks         scanner/scanner.go, scanner/format.go: findings, severities and the
--                                  rankings of scanner/devcontext.go and reportscanner/report.go
--   DevContext                     scanner/devcontext.go: how a path and a value lower a severity
--   Suppression/IgnoreFile         scanner/suppression/ignorefile.go: the parser of the ignore file
--   Suppression/Pattern            matchPattern, matchDoubleStar and MatchExcludePackage
--   Suppression/Apply              scanner/suppression/suppression.go: ApplySuppression and its cache
--   Suppression/Packages           ApplyPackageExclusions
--   Report/Types                   scanner/reportscanner/types.go, pcidb/pcidb.go
--   Report/Scan                    runAllScanners and applyPackageExclusions of reportscanner/report.go
--   Report/Status, Report/Status/CrossReference
--                                  the statuses of the requirements, same file
--   Report/Assemble                the lists, groups and counts of the report, same file
--   Report/Generate                GenerateWithOptions, buildScanSummary and sbom_inventory.go
--   Report/Filter                  scanner/reportscanner/filter.go
--   Report/Page                    the pages and top findings of scanner/reportscanner/hybrid.go
--   Hybrid/Cache, Hybrid/Cursor    scanner/hybridcache/hybridcache.go
--   Hybrid/Histogram               scanner/hybridcache/histogram.go
--   Hybrid/Select                  scanner/hybrid/selector.go; its answers and the clients that follow
--                                  them in Hybrid/Select/Pages, Paging and FirstPage
--   Luhn                           scanner/panscanner/luhn.go
--   Jsonc                          scanner/secretscanner/jsonc.go
--   Csp                            scanner/scriptscanner/cspparse.go
--   Dependency/Osv                 scanner/depscanner/osv.go, and lookupCache of cache.go
--   Dependency/Severities          scanner/depscanner/severity.go
--   Dependency/CacheFile           latestCacheFile of scanner/depscanner/cache.go and ensureCacheFresh
--                                  of httpcache.go
--   Dependency/Report              scanner/depscanner/depscanner.go, and durationHuman of cache.go
--   Words                          scanner/cryptoscanner/wordboundary.go
--   Sql                            scanner/sqlscanner/sqlparse.go
--   Sql/Keywords                   scanner/sqlscanner/keywords.go, scanner/panscanner/keywords.go and
--                                  scanner/internal/sensitivedata
--   Sql/FileScan, Sql/CrossRef     scanSQLFileWithMeta and crossRefSQLWithGoEncryption of
--                                  scanner/sqlscanner/sqlscanner.go
--   Sql/Drop                       scanner/sqlscanner/migration_drop.go
--   Secrets                        scanner/secretscanner/detect.go
--   Secrets/Env, Secrets/Json, Secrets/Scan
--                                  env.go, json.go and secretscanner.go beside it
--   Payment                        internal/keywords/payment.go and payment_context.go
--   Walk, Walk/Tree                scanner/walker.go and scanner/pathsegments.go
--   Walk/Git, Walk/Snippet         scanner/gitwalker.go and scanner/snippet.go
-- Common, GoStrings, FilePath and Sort hold what all of them use: lists and tests over the native
-- numbers, and the functions of Go's strings, strconv, path/filepath and sort packages that the code
-- calls. The modules Laws and those named for what they prove hold the proofs; Examples applies the
-- theorems to concrete inputs.
--
-- How state and operations correspond. A text is the list of its bytes, and functions on letters
-- and white space are those on ASCII, but that Secrets/Env/Space knows all white space of UTF-8.
-- The entries of the vulnerability cache, which Go shares by pointers, have an address each, by
-- which the aliases that are merged into an entry show wherever it is read afterwards; while the
-- groups of aliases are merged, each reads its entries as they were before, which differs only for
-- an entry that two dependencies share and that chains of aliases put in two groups. A Go map is an
-- association list or a function; where Go ranges over a map, the list is one order of the range.
-- Code that changes a structure returns the changed one; the file cache of the suppression step and
-- the session cache are passed through. A Go error or a panic is `none` or a constructor of the
-- result. Natural numbers stand for Go ints, which in this code are lengths and line numbers; the
-- end of a page, which is computed from a client's cursor, is an integer that wraps around at 64
-- bits.
--
-- What comes from outside is a parameter: the content of files and directories, what each scanner
-- answers to each of its optional interfaces, the matches of regular expressions, the hash of the
-- session keys, the codec of the cursors (base64 and JSON), the probe of the software inventory, the
-- order of versions (semver.Compare), the parsers of CVSS vectors and of dates, the answers of the
-- network, the lines that git prints, and the test of a value's entropy, which is floating point. Two
-- hypotheses speak of a parameter: IsLossless in Hybrid/Cursor, that the codec encodes every payload
-- to a text that is not empty and decodes it back, and IsTransitive in Dependency/Osv/Ranges, that the
-- order of versions is transitive.
--
-- Fuel. The compiler of a shell pattern in FilePath/Glob runs on the length of the pattern, and each
-- of its turns reads at least one byte; itoa in GoStrings runs on the number itself, which has no more
-- digits than that. A client that follows cursors makes its calls at a list of times.
--
-- Not modelled: the scanners that read syntax trees, the taint analysis and the SBOM generator,
-- which work on packages outside the repository; the calls of git, of the network and of the file
-- system and the lock file, which are input and output; the layout of texts and schemas; the
-- goroutine that runs the sweep of the session cache (the sweep itself is modelled, at any time);
-- and the report tool's own session, of which only the pages are modelled.
pub mod Common
pub mod GoStrings
pub mod FilePath
pub mod Finding
pub mod DevContext
pub mod Suppression
pub mod Sort
pub mod Report
pub mod Luhn
pub mod Hybrid
pub mod Jsonc
pub mod Csp
pub mod Dependency
pub mod Words
pub mod Payment
pub mod Walk
pub mod Secrets
pub mod Sql
mod Examples
