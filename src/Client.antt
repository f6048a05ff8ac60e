-- ===== src/Client.antt =====
-- stdiobus/client.py: the asynchronous client.
pub mod Pending
pub mod Subscription
pub mod State
pub mod Dispatch
pub mod Loop
pub mod Teardown
pub mod Bus
pub mod Requests
pub mod Stream
pub mod Lifecycle
pub mod Objects
pub mod Table
pub mod Frame
pub mod Valid
pub mod Run
pub mod Session
pub mod Sync
pub mod Queries
pub mod Answers
pub mod Moves
pub mod Moved
pub mod Late
pub mod Concurrent
pub mod Outcome
pub mod Owning
pub mod OneLoop
pub mod Begins
pub mod Wakes
pub mod History
pub mod Notifications
pub mod Responses
pub mod Aggregation
pub mod Lost
pub mod Streaming
pub mod Shutdown
pub mod Marshalling
pub mod Sending
pub mod Wire
pub mod Choice
pub mod Construct
pub mod Building
pub mod Resolve
pub mod Tests
