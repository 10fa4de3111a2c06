-- ===== src/Protocol.antt =====
-- protocol/: names, messages, the parser and the writer, and the checks on queries and responses.
pub mod Wire
pub mod DomainName
pub mod Message
pub mod NameDecoder
pub mod RecordParser
pub mod Parser
pub mod Writer
pub mod Query
pub mod Response
mod Examples
