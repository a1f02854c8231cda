-- ===== src/RuleParser.antt =====
-- src/rules/parse.cc: rules from the command line and from YAML, their validation and print-out.
pub mod Result
pub mod Port
pub mod Validate
pub mod Print
pub mod Arg
pub mod Yaml
pub mod InTypes
