-- ===== src/LoginBroker.antt =====
-- The login broker (internal/loginbroker): when a login may be made, and one refresh as a program
-- over the calls that it makes to the store, the site's driver and the clock.
pub mod Program
pub mod Policy
pub mod Deferral
pub mod Writes
pub mod Logins
pub mod Finish
pub mod Refresh
pub mod Protocol
