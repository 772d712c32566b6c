-- ===== src/Events.antt =====
-- crates/banto-server/src/events.rs: what the server tells connected browsers. The channel is a list of
-- what was sent, the latest last; without a receiver a send is lost, which is no error.
use my_template.Prelude.{String}

pub data ServerEvent : Type 0 where
  resource_changed : String → ServerEvent
  notice : (level message : String) → ServerEvent
