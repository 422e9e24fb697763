-- ===== src/Utils.antt =====
-- pydatatask/utils.py: streams, queues and iteration helpers.
pub mod Queue
pub mod Writer
pub mod Copy
pub mod Text
pub mod RoundRobin
