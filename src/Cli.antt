-- ===== src/Cli.antt =====
-- tools/cli/src: the command line tool.
pub mod StringUtils
pub mod CommandParser
pub mod OutputFormatter
pub mod Discovery
pub mod GrpcClient
pub mod Commands
pub mod Session
pub mod Publishing
