-- ===== src/Cli.antt =====
-- cmd/project-cli: the command line tool and its subcommand that renames a slug.
pub mod Env
pub mod Records
pub mod Buckets
pub mod Search
pub mod Run
